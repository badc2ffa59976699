-- ===== src/Proto/Refusal.antt =====
-- src/proto.c: a payload that does not fit the buffer is refused whole.
use open_gbflash_firmware.Common.{
  ℕ, ◌<◌, ◌≡◌, ◌⊎◌, inl, inr, refl, arith, Array, update, true, List, ◌∷◌, ◌++◌, length, ne→==,
  lt→ltb,
}
use open_gbflash_firmware.Proto.Command.{Command, decode, arg_len}
use open_gbflash_firmware.Proto.State.{FwState, Parser, fw_payload_max, ack_error}
use open_gbflash_firmware.Proto.Payload.{payload_len, payload_opened, opened}
use open_gbflash_firmware.Proto.Feed.{feed_all, close_payload, idle}
use open_gbflash_firmware.Proto.Parsing.{Holds}
use open_gbflash_firmware.Proto.Framing.{run_command, with_args, feed_all-command}

-- Opening a payload resets at most the two counters of a running FLASH_PROGRAM.
abbrev pub IsOpened : FwState → FwState → Type 0
IsOpened s t = (t ≡ s) ⊎ (t ≡ record s { program_done = 0; program_stream_err = 0 })

payload_opened-IsOpened : (s : FwState) (p : Parser) → IsOpened s (payload_opened s p)
unfolding payload_opened
payload_opened-IsOpened s p = go (decode p.op)
  where
    go : (c : Command) → IsOpened s (opened c s)
    go Command.flash_program = inr refl
    go _ = inl refl

run_command-overlong :
    (s : FwState) (p : Parser) (o : Array) (b : ℕ) (args payload : List ℕ)
    → fw_payload_max < payload_len s (with_args p b args)
    → let q = with_args p b args in
      let r = run_command s p o b args payload in
      (r.st ≡ payload_opened s (record q { pay_need = payload_len s q }))
      × (r.out ≡ update o 0 ack_error)
      × (r.count ≡ 1)
unfolding run_command close_payload
run_command-overlong s p o b args payload h =
    let n = payload_len s (with_args p b args) in
    rw (ne→== n 0 (omega arith), lt→ltb fw_payload_max n h) (refl, refl, refl)

-- A command whose payload is longer than the payload buffer is swallowed whole and answered with
-- one error byte; nothing of it reaches the state but the reset of FLASH_PROGRAM's two counters.
pub feed_all-overlong :
    (s : FwState) (p : Parser) (o : Array) (b : ℕ) (args payload : List ℕ)
    → Holds s p
    → idle p ≡ true
    → length args ≡ arg_len b
    → length payload ≡ payload_len s (with_args p b args)
    → fw_payload_max < length payload
    → let r = feed_all s p o (b ∷ args ++ payload) in
      IsOpened s r.st × (r.out ≡ update o 0 ack_error) × (r.count ≡ 1) × (idle r.parser ≡ true)
feed_all-overlong s p o b args payload h ready ea ep long =
    let f = feed_all-command s p o b args payload h ready ea ep in
    let q = with_args p b args in
    let g = run_command-overlong s p o b args payload (rw ep at long) in
    let e = payload_opened-IsOpened s (record q { pay_need = payload_len s q }) in
    (rw (f.0, g.0) e, rw f.0 g.1, rw f.0 g.2, f.1)
