-- ===== src/Glue/Link.antt =====
-- src/lk_glue.c: `fw_lk_conn_recv`, `conn_send_raw`, `fw_lk_conn_send` and `fw_lk_delay_ms`. Each
-- loop recurs on the turns to come; `none` means that it still waits when they run out.
use open_gbflash_firmware.Common.{
  ℕ, zero, suc, ◌+◌, ◌-◌, ◌^◌, ◌==◌, ltb, min, if◌then◌else◌, u32, sub32, List, [], ◌∷◌, ◌++◌,
  length, take, drop, Option, some, none, Bool, true, ◌||◌,
}
use open_gbflash_firmware.Proto.State.{fw_parser_timeout_ms}
use open_gbflash_firmware.Glue.Seam.{Seam, Round}

abbrev pub fw_tx_stall_ms : ℕ
fw_tx_stall_ms = 3000

abbrev pub fw_lk_recv_fill : ℕ
fw_lk_recv_fill = 0xFF

-- `(int32_t)(now - deadline) >= 0`
abbrev pub expired : ℕ → ℕ → Bool
expired now deadline = ltb (sub32 now deadline) (2 ^ 31)

-- The state after the poll of one turn.
abbrev pub polled : Seam → Round → List Round → Seam
polled s r rs = record s { incoming = s.incoming ++ r.arrived; rounds = rs; now = r.now }

unfoldable pub replicate : ℕ → ℕ → List ℕ
replicate zero v = []
replicate (suc n) v = v ∷ replicate n v

-- What a receive leaves: the bytes in order, and the state.
pub record Received : Type 0 where
  pub bytes : List ℕ
  pub seam : Seam

abbrev pub received_after : List ℕ → Option Received → Option Received
received_after xs none = none
received_after xs (some r) = some (record { bytes = xs ++ r.bytes; seam = r.seam })

-- `while (got < want)` with `need` bytes to go, not 0, and the fill of a short read.
unfoldable pub wait_bytes : List Round → ℕ → ℕ → Seam → Option Received
unfolding replicate
wait_bytes [] need deadline s = none
wait_bytes (r ∷ rs) need deadline s =
    let p = polled s r rs in
    let k = min need (length p.incoming) in
    let got = take k p.incoming in
    let q = record p { incoming = drop k p.incoming } in
    let rest = wait_bytes rs need deadline p in
    let more =
      received_after got (wait_bytes rs (need - k) (u32 (r.now + fw_parser_timeout_ms)) q) in
    if k == 0
    then if expired r.now deadline
      then some
          (record { bytes = replicate need fw_lk_recv_fill; seam = record p { recv_short = true } })
      else rest
    else if k == need
    then some (record { bytes = got; seam = q })
    else more

-- What the two buffers give before the ring is asked.
abbrev pub buffered : ℕ → Seam → Received
buffered want s =
    let a = take want s.push in
    let b = take (want - length a) s.pend in
    record {
      bytes = a ++ b;
      seam = record s {
        push = drop want s.push;
        pend = drop (want - length a) s.pend;
        pend_used = s.pend_used + length b;
      };
    }

unfoldable pub conn_recv : ℕ → Seam → Option Received
unfolding wait_bytes
conn_recv want s =
    let b = buffered want s in
    let need = want - length b.bytes in
    if need == 0
    then some b
    else received_after b.bytes
        (wait_bytes s.rounds need (u32 (s.now + fw_parser_timeout_ms)) b.seam)

-- The loop of `conn_send_raw`; `bl_usb_tx` takes at most `room` bytes of the turn.
unfoldable pub send_bytes : List Round → List ℕ → ℕ → Seam → Option Seam
send_bytes rounds [] deadline s = some s
send_bytes [] (x ∷ xs) deadline s = none
send_bytes (r ∷ rs) (x ∷ xs) deadline s =
    let p = polled s r rs in
    let k = min r.room (length (x ∷ xs)) in
    let rest = send_bytes rs (x ∷ xs) deadline p in
    let more =
      send_bytes rs (drop k (x ∷ xs)) (u32 (r.now + fw_tx_stall_ms))
        (record p { sent = p.sent ++ take k (x ∷ xs) }) in
    if k == 0
    then if expired r.now deadline then some (record p { send_stall = true }) else rest
    else more

unfoldable pub conn_send_raw : List ℕ → Seam → Option Seam
unfolding send_bytes
conn_send_raw xs s = send_bytes s.rounds xs (u32 (s.now + fw_tx_stall_ms)) s

unfoldable pub conn_send : List ℕ → Seam → Option Seam
unfolding conn_send_raw
conn_send xs s = if s.recv_short || s.send_stall then some s else conn_send_raw xs s

-- `while ((int32_t)(bl_time_ms() - deadline) < 0) bl_usb_poll();`
unfoldable pub wait_until : List Round → ℕ → Seam → Option Seam
wait_until [] deadline s = none
wait_until (r ∷ rs) deadline s =
    let p = polled s r rs in
    let rest = wait_until rs deadline p in if expired r.now deadline then some p else rest

unfoldable pub delay_ms : ℕ → Seam → Option Seam
unfolding wait_until
delay_ms ms s = wait_until s.rounds (u32 (s.now + ms)) s

-- `cart_wait_ready` of src/main.c.
unfoldable pub cart_wait_ready : Seam → Option Seam
unfolding wait_until
cart_wait_ready s = wait_until s.rounds s.ready_at s
