-- ===== src/Proto/Safety.antt =====
-- src/proto.c: what whole commands may ask of the hardware, and what they may not.
use open_gbflash_firmware.Common.{
  ℕ, ◌≡◌, ◌≢◌, inl, inr, refl, sym, ◌∙◌, arith, ltb, flag, Array, true, ◌==◌, if◌then◌else◌,
  Bool-cases, List, ◌∷◌, ◌++◌, length, of_list,
}
use open_gbflash_firmware.Proto.Command.{Command, decode, arg_len}
use open_gbflash_firmware.Proto.State.{FwState, Parser, fw_payload_max, ack_ok, parser_reset}
use open_gbflash_firmware.Proto.Execute.{execute, execute_cmd}
use open_gbflash_firmware.Proto.Payload.{payload_len, len_of, payload_opened}
use open_gbflash_firmware.Proto.Feed.{
  feed, feed_all, feed_opcode, open_or_execute, close_payload, idle,
}
use open_gbflash_firmware.Proto.Parsing.{Holds}
use open_gbflash_firmware.Proto.Absorb.{absorbed}
use open_gbflash_firmware.Proto.Framing.{run_command, with_args, feed_all-command}
use open_gbflash_firmware.Proto.Keeps.{
  five_after, due_after, execute_cmd-five, payload_done-Keeps, payload_opened-Keeps,
}

run_command-marks :
    (s : FwState) (p : Parser) (o : Array) (b : ℕ) (args payload : List ℕ)
    → let n = payload_len s (with_args p b args) in
      let t = (run_command s p o b args payload).st in
      (t.voltage_five ≡ (if n == 0 then five_after (decode b) s.voltage_five else s.voltage_five))
      × (t.page_terminator_due ≡ (if n == 0 then due_after (decode b) else s.page_terminator_due))
unfolding run_command execute close_payload
run_command-marks s p o b args payload =
    let q = with_args p b args in
    let n = payload_len s q in
    let t = record q { pay_need = n } in
    let u = absorbed (record t { pay_over = flag (ltb fw_payload_max n) }) n (of_list payload) in
    elim (Bool-cases (n == 0)) [
      | inl e ↦ rw e (
          execute_cmd-five (decode b) s.page_terminator_due (record s { page_terminator_due = 0 }) t
            o refl)
      | inr e ↦
          rw e
            (ground (arith, payload_opened-Keeps s t, payload_done-Keeps (payload_opened s t) u o))
    ]

five_after-payload :
    (c : Command) (s : FwState) (a : Array) (old : ℕ) → len_of c s a ≢ 0 → five_after c old ≡ old
unfolding len_of
five_after-payload Command.set_mode_agb s a old h = absurd (h refl)
five_after-payload Command.set_voltage_3_3v s a old h = absurd (h refl)
five_after-payload Command.set_voltage_5v s a old h = absurd (h refl)
five_after-payload _ s a old h = refl

-- A whole command of any opcode leaves the 5 V request as it was, except that SET_VOLTAGE_5V sets
-- it and that SET_VOLTAGE_3_3V and SET_MODE_AGB clear it.
pub voltage_five-feed_all :
    (s : FwState) (p : Parser) (o : Array) (b : ℕ) (args payload : List ℕ)
    → Holds s p
    → idle p ≡ true
    → length args ≡ arg_len b
    → length payload ≡ payload_len s (with_args p b args)
    → (feed_all s p o (b ∷ args ++ payload)).st.voltage_five ≡ five_after (decode b) s.voltage_five
voltage_five-feed_all s p o b args payload h ready ea ep =
    let q = with_args p b args in
    let m = (run_command-marks s p o b args payload).0 in
    rw (feed_all-command s p o b args payload h ready ea ep).0
      (elim (Bool-cases (payload_len s q == 0)) [
        | inl e ↦ m ∙ rw e refl
        | inr e ↦
            m
            ∙ rw e (
                sym (
                  unfold payload_len in
                  five_after-payload (decode b) s q.arg s.voltage_five (ground arith)))
      ])

-- The terminator mark after a whole command: a command without a payload leaves it set exactly if
-- it is the 3D read; one with a payload leaves it as it was.
pub page_terminator_due-feed_all :
    (s : FwState) (p : Parser) (o : Array) (b : ℕ) (args payload : List ℕ)
    → Holds s p
    → idle p ≡ true
    → length args ≡ arg_len b
    → length payload ≡ payload_len s (with_args p b args)
    → (feed_all s p o (b ∷ args ++ payload)).st.page_terminator_due
      ≡ (if length payload == 0 then due_after (decode b) else s.page_terminator_due)
page_terminator_due-feed_all s p o b args payload h ready ea ep =
    rw ((feed_all-command s p o b args payload h ready ea ep).0, ep)
      (run_command-marks s p o b args payload).1

-- A 0x00 to an idle parser: with the terminator due it closes the page and is answered with
-- nothing, else it is a resync and is acknowledged.
pub feed-resync :
    (s : FwState) (p : Parser) (o : Array)
    → idle p ≡ true
    → let r = feed s p 0 o in
      (idle r.parser ≡ true)
      × (r.st.page_terminator_due ≡ 0)
      × (if s.page_terminator_due == 0
          then (r.count ≡ 1) × (r.out 0 ≡ ack_ok) × (r.st.page_end_requested ≡ s.page_end_requested)
          else (r.count ≡ 0) × (r.out ≡ o) × (r.st.page_end_requested ≡ 1))
unfolding feed feed_opcode open_or_execute idle execute execute_cmd decode payload_len arg_len
    parser_reset
feed-resync s p o h = ground arith

-- After a 3D read, a whole command with a payload does not take the terminator back: the 0x00 that
-- follows it is taken for the page terminator, and is not acknowledged.
pub resync_after_payload :
    (s : FwState) (p : Parser) (o : Array) (b : ℕ) (args payload : List ℕ)
    → Holds s p
    → idle p ≡ true
    → length args ≡ arg_len b
    → length payload ≡ payload_len s (with_args p b args)
    → length payload ≢ 0
    → s.page_terminator_due ≡ 1
    → let r = feed_all s p o (b ∷ args ++ payload) in
      let t = feed r.st r.parser 0 r.out in (t.count ≡ 0) × (t.st.page_end_requested ≡ 1)
resync_after_payload s p o b args payload h ready ea ep ne due =
    let r = feed_all s p o (b ∷ args ++ payload) in
    let m = page_terminator_due-feed_all s p o b args payload h ready ea ep in
    let i = (feed_all-command s p o b args payload h ready ea ep).1 in
    let f = feed-resync r.st r.parser r.out i in ground (arith, m, f)
