-- ===== src/Proto/Parsing.antt =====
-- src/proto.c: what holds of the parser between two bytes, kept by every way in.
use open_gbflash_firmware.Common.{
  ℕ, ◌+◌, ◌^◌, ◌≤◌, ◌<◌, ◌≡◌, ◌≢◌, arith, ltb, flag, u8, u16, u32, Array, update, Bool-cases, inl,
  inr,
}
use open_gbflash_firmware.Proto.Command.{Command, decode, arg_len_of, arg_len}
use open_gbflash_firmware.Proto.State.{
  FwState, Parser, fw_payload_max, fw_cmd_buf_len, parser_reset,
}
use open_gbflash_firmware.Proto.Payload.{payload_len, len_of}
use open_gbflash_firmware.Proto.Feed.{
  feed, feed_arg, feed_opcode, feed_payload, open_or_execute, close_payload,
}
use open_gbflash_firmware.Proto.Clamp.{
  IsClamped, execute-IsClamped, payload_done-IsClamped, transfer_size-payload_opened,
}

-- No argument list is longer than the one of SET_FLASH_CMD.
pub arg_len_le : (op : ℕ) → arg_len op ≤ 39
unfolding arg_len
arg_len_le op = go (decode op)
  where
    go : (c : Command) → arg_len_of c ≤ 39
    go Command.ping = omega arith
    go _ = omega arith

pub payload_len-lt : (s : FwState) (p : Parser) → IsClamped s → payload_len s p < 2 ^ 16
unfolding payload_len
payload_len-lt s p h = go (decode p.op)
  where
    go : (c : Command) → len_of c s p.arg < 2 ^ 16
    go Command.flash_program = omega arith
    go _ = omega arith

-- The arguments on the way in fit `arg[]` and are fewer than announced; so is the payload, and
-- the overflow mark says just whether the announced payload is longer than `pay[]`.
pub record IsValid (p : Parser) : Type 0 where
  pub need_fits : p.need ≤ 39
  pub args_open : p.op ≢ 0 → p.pay_need ≡ 0 → p.got < p.need
  pub pay_small : p.pay_need < 2 ^ 16
  pub pay_closed : p.pay_need ≡ 0 → p.pay_got ≡ 0
  pub pay_open : p.pay_need ≢ 0 → p.pay_got < p.pay_need
  pub over_iff : p.pay_over ≡ flag (ltb fw_payload_max p.pay_need)

pub reset-IsValid : (p : Parser) → IsValid (parser_reset p)
unfolding parser_reset
reset-IsValid p = ground arith

close_payload-IsValid :
    (s : FwState) (p : Parser) (o : Array)
    → IsClamped s
    → IsValid (close_payload s p o).parser × IsClamped (close_payload s p o).st
unfolding close_payload
close_payload-IsValid s p o h = ground (arith, payload_done-IsClamped s p o h)

open_or_execute-IsValid :
    (s : FwState) (p : Parser) (o : Array)
    → IsClamped s
    → p.need ≤ 39
    → p.pay_got ≡ 0
    → p.pay_over ≡ 0
    → IsValid (open_or_execute s p o).parser × IsClamped (open_or_execute s p o).st
unfolding open_or_execute
open_or_execute-IsValid s p o h n g v = ground (
  arith,
  payload_len-lt s p h,
  execute-IsClamped s (record p { pay_need = payload_len s p }) o h,
  transfer_size-payload_opened s (record p { pay_need = payload_len s p }),
)

-- The state and the parser between two bytes.
abbrev pub Holds : FwState → Parser → Type 0
Holds s p = IsValid p × IsClamped s

feed_payload-Holds :
    (s : FwState) (p : Parser) (b : ℕ) (o : Array)
    → Holds s p
    → p.pay_need ≢ 0
    → Holds (feed_payload s p b o).st (feed_payload s p b o).parser
unfolding feed_payload
feed_payload-Holds s p b o h open_ = elim (Bool-cases (ltb p.pay_got fw_payload_max)) [
  | inl t ↦ ground (
    arith,
    close_payload-IsValid s
        (record p { pay = update p.pay p.pay_got b; pay_got = u16 (p.pay_got + 1) }) o,
  )
  | inr t ↦ ground (arith, close_payload-IsValid s (record p { pay_got = u16 (p.pay_got + 1) }) o)
]

feed_opcode-Holds :
    (s : FwState) (p : Parser) (b : ℕ) (o : Array)
    → Holds s p
    → p.pay_need ≡ 0
    → Holds (feed_opcode s p b o).st (feed_opcode s p b o).parser
unfolding feed_opcode
feed_opcode-Holds s p b o h e = ground (
  arith,
  arg_len_le b,
  open_or_execute-IsValid s (record p { op = b; need = arg_len b; got = 0 }) o,
)

feed_arg-Holds :
    (s : FwState) (p : Parser) (b : ℕ) (o : Array)
    → Holds s p
    → p.pay_need ≡ 0
    → p.op ≢ 0
    → Holds (feed_arg s p b o).st (feed_arg s p b o).parser
unfolding feed_arg
feed_arg-Holds s p b o h e ne = elim (Bool-cases (ltb p.got fw_cmd_buf_len)) [
  | inl t ↦ ground (
    arith,
    open_or_execute-IsValid s (record p { arg = update p.arg p.got b; got = u8 (p.got + 1) }) o,
  )
  | inr t ↦ ground (arith, open_or_execute-IsValid s (record p { got = u8 (p.got + 1) }) o)
]

-- One more byte, whatever it is, keeps the parser's invariant and the transfer-size clamp.
pub feed-Holds :
    (s : FwState) (p : Parser) (b : ℕ) (o : Array)
    → Holds s p
    → Holds (feed s p b o).st (feed s p b o).parser
unfolding feed
feed-Holds s p b o h =
    let q = record p { bytes = u32 (p.bytes + 1) } in
    ground (arith, feed_payload-Holds s q b o, feed_opcode-Holds s q b o, feed_arg-Holds s q b o)
