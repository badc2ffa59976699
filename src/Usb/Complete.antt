-- ===== src/Usb/Complete.antt =====
-- src/usb.c: `case TOK_IN_EP2` of the service routine and the transmit half of `usb_pumps` after it,
-- and the transaction in front of it.
use open_gbflash_firmware.Common.{
  ℕ, ◌+◌, ◌-◌, ◌==◌, leb, not, if◌then◌else◌, u8, u16, from, true, false, List, [], ◌∷◌, ◌++◌,
}
use open_gbflash_firmware.Usb.Copy.{usb_copy}
use open_gbflash_firmware.Usb.Queue.{to_list}
use open_gbflash_firmware.Usb.Transmit.{
  Transmitter, Align, swap_off, ep2_tx_off, ep2_tx_other, tx_stage_pop, tx_direct_ready, tx_pump,
  tx_pumps,
}

-- The delivered packet, if it was the region's, counts as sent.
unfoldable pub credit_sent : Transmitter → Transmitter
credit_sent s =
    let pop = tx_stage_pop s in
    if not (s.pipe_outstanding == 0)
    then record s {
      pipe_outstanding = s.pipe_outstanding - 1;
      dir_sent = u16 (s.dir_sent + s.pkt_in);
    }
    else record (pop.1) { dir_sent = u16 (s.dir_sent + pop.0) }

-- Both windows were up: the one just sent is filled again.
unfoldable pub refill : Align → Transmitter → Transmitter
unfolding tx_direct_ready usb_copy
refill al s =
    let freed = if s.tog_valid then s.tog_pred else ep2_tx_other s in
    let p = record s { tog_pred = if s.tog_valid then swap_off s.tog_pred else s.tog_pred } in
    if leb s.pkt_in (tx_direct_ready p)
    then record p {
      ep2_buf =
          usb_copy (al true freed s.dir_pos) s.pkt_in s.ep2_buf freed (from s.dir_base s.dir_pos);
      dir_pos = u16 (s.dir_pos + s.pkt_in);
      pipe_outstanding = u8 (s.pipe_outstanding + 1);
    }
    else record p { pipe_armed = false }

unfoldable pub service_in : Align → Transmitter → Transmitter
unfolding credit_sent refill tx_pump tx_pumps
service_in al s =
    let c = credit_sent s in tx_pumps al (if c.pipe_armed then refill al c else tx_pump al c)

-- The wire, as the packets that the host has accepted, oldest first.
pub record Line : Type 0 where
  pub tx : Transmitter
  pub wire : List (List ℕ)

-- The packet that is up: `t_len` bytes of the window that the toggle names.
abbrev pub packet : Transmitter → List ℕ
packet s = to_list s.t_len (from s.ep2_buf (ep2_tx_off s))

-- AUTO_TOG: the toggle advances with every accepted packet.
abbrev pub accepted : Transmitter → Transmitter
accepted s = record s { tog = not s.tog }

-- An IN transaction: the host takes the packet that is up, and the handler runs.
unfoldable pub in_transaction : Align → Line → Line
unfolding service_in
in_transaction al l =
    if l.tx.acking
    then record { tx = service_in al (accepted l.tx); wire = l.wire ++ (packet l.tx ∷ []) }
    else l
