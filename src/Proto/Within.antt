-- ===== src/Proto/Within.antt =====
-- src/proto.c: what the parser's two buffers hold beyond their ends. `arg[]` and `pay[]` are total
-- functions here, zero at `fw_proto_init`, so a write beyond the end would show.
use open_gbflash_firmware.Common.{
  ℕ, ◌≤◌, ◌<◌, ◌+◌, ◌≡◌, refl, arith, ◌==◌, not, ltb, leb, u8, u16, u32, Array, update, Bool-cases,
  inl, inr, List, [], ◌∷◌, ne→==, false, if◌then◌else◌,
}
use open_gbflash_firmware.Proto.Command.{arg_len}
use open_gbflash_firmware.Proto.State.{
  FwState, Parser, fw_payload_max, fw_cmd_buf_len, init_parser, parser_reset,
}
use open_gbflash_firmware.Proto.Payload.{payload_len}
use open_gbflash_firmware.Proto.Feed.{
  feed, feed_all, feed_arg, feed_opcode, feed_payload, open_or_execute, close_payload, tick,
}

-- Nothing has been written behind `arg[FW_CMD_BUF_LEN]` and `pay[FW_PAYLOAD_MAX]`.
pub record InBuffers (p : Parser) : Type 0 where
  pub arg_end : (i : ℕ) → fw_cmd_buf_len ≤ i → p.arg i ≡ 0
  pub pay_end : (i : ℕ) → fw_payload_max ≤ i → p.pay i ≡ 0

pub init-InBuffers : InBuffers init_parser
init-InBuffers = record { arg_end = λ i. λ h. refl; pay_end = λ i. λ h. refl }

update_below :
    (n k v : ℕ) (a : Array)
    → ((i : ℕ) → n ≤ i → a i ≡ 0)
    → k < n
    → (i : ℕ) → n ≤ i
    → update a k v i ≡ 0
update_below n k v a h lt i le = let e : (k == i) ≡ false = ne→== k i (omega arith) in rw e (h i le)

close_payload-InBuffers :
    (s : FwState) (p : Parser) (o : Array) → InBuffers p → InBuffers (close_payload s p o).parser
unfolding close_payload parser_reset
close_payload-InBuffers s p o h = elim (Bool-cases (not (p.pay_over == 0))) [
  | inl z ↦ rw z (record { arg_end = h.arg_end; pay_end = h.pay_end })
  | inr z ↦ rw z (record { arg_end = h.arg_end; pay_end = h.pay_end })
]

open_or_execute-InBuffers :
    (s : FwState) (p : Parser) (o : Array) → InBuffers p → InBuffers (open_or_execute s p o).parser
unfolding open_or_execute parser_reset
open_or_execute-InBuffers s p o h = elim (Bool-cases (not (payload_len s p == 0))) [
  | inl z ↦ rw z (record { arg_end = h.arg_end; pay_end = h.pay_end })
  | inr z ↦ rw z (record { arg_end = h.arg_end; pay_end = h.pay_end })
]

payload_stored :
    (p : Parser) (b : ℕ)
    → InBuffers p
    → (i : ℕ) → fw_payload_max ≤ i
    → (if ltb p.pay_got fw_payload_max then update p.pay p.pay_got b else p.pay) i ≡ 0
payload_stored p b h i le = elim (Bool-cases (ltb p.pay_got fw_payload_max)) [
  | inl z ↦ rw z (update_below fw_payload_max p.pay_got b p.pay h.pay_end (ground arith) i le)
  | inr z ↦ rw z (h.pay_end i le)
]

arg_stored :
    (p : Parser) (b : ℕ)
    → InBuffers p
    → (i : ℕ) → fw_cmd_buf_len ≤ i
    → (if ltb p.got fw_cmd_buf_len then update p.arg p.got b else p.arg) i ≡ 0
arg_stored p b h i le = elim (Bool-cases (ltb p.got fw_cmd_buf_len)) [
  | inl z ↦ rw z (update_below fw_cmd_buf_len p.got b p.arg h.arg_end (ground arith) i le)
  | inr z ↦ rw z (h.arg_end i le)
]

feed_payload-InBuffers :
    (s : FwState) (p : Parser) (b : ℕ) (o : Array)
    → InBuffers p
    → InBuffers (feed_payload s p b o).parser
unfolding feed_payload
feed_payload-InBuffers s p b o h =
    let stored = if ltb p.pay_got fw_payload_max then update p.pay p.pay_got b else p.pay in
    let q : Parser = record p { pay = stored; pay_got = u16 (p.pay_got + 1) } in
    let k : InBuffers q = record { arg_end = h.arg_end; pay_end = payload_stored p b h } in
    elim (Bool-cases (leb q.pay_need q.pay_got)) [
      | inl z ↦ rw z (close_payload-InBuffers s q o k)
      | inr z ↦ rw z k
    ]

feed_opcode-InBuffers :
    (s : FwState) (p : Parser) (b : ℕ) (o : Array)
    → InBuffers p
    → InBuffers (feed_opcode s p b o).parser
unfolding feed_opcode
feed_opcode-InBuffers s p b o h =
    let q : Parser = record p { op = b; need = arg_len b; got = 0 } in
    let k : InBuffers q = record { arg_end = h.arg_end; pay_end = h.pay_end } in
    elim (Bool-cases (arg_len b == 0)) [
      | inl z ↦ rw z (open_or_execute-InBuffers s q o k)
      | inr z ↦ rw z k
    ]

feed_arg-InBuffers :
    (s : FwState) (p : Parser) (b : ℕ) (o : Array)
    → InBuffers p
    → InBuffers (feed_arg s p b o).parser
unfolding feed_arg
feed_arg-InBuffers s p b o h =
    let stored = if ltb p.got fw_cmd_buf_len then update p.arg p.got b else p.arg in
    let q : Parser = record p { arg = stored; got = u8 (p.got + 1) } in
    let k : InBuffers q = record { arg_end = arg_stored p b h; pay_end = h.pay_end } in
    elim (Bool-cases (leb q.need q.got)) [
      | inl z ↦ rw z (open_or_execute-InBuffers s q o k)
      | inr z ↦ rw z k
    ]

pub feed-InBuffers :
    (s : FwState) (p : Parser) (b : ℕ) (o : Array) → InBuffers p → InBuffers (feed s p b o).parser
unfolding feed
feed-InBuffers s p b o h =
    let q : Parser = record p { bytes = u32 (p.bytes + 1) } in
    let k : InBuffers q = record { arg_end = h.arg_end; pay_end = h.pay_end } in
    elim (Bool-cases (not (p.pay_need == 0))) [
      | inl z ↦ rw z (feed_payload-InBuffers s q b o k)
      | inr z ↦ elim (Bool-cases (p.op == 0)) [
        | inl y ↦ rw (z, y) (feed_opcode-InBuffers s q b o k)
        | inr y ↦ rw (z, y) (feed_arg-InBuffers s q b o k)
      ]
    ]

pub feed_all-InBuffers :
    (xs : List ℕ) (s : FwState) (p : Parser) (o : Array)
    → InBuffers p
    → InBuffers (feed_all s p o xs).parser
unfolding feed_all
feed_all-InBuffers [] s p o h = h
feed_all-InBuffers (x ∷ xs) s p o h =
    let r = feed s p x o in feed_all-InBuffers xs r.st r.parser r.out (feed-InBuffers s p x o h)

pub tick-InBuffers : (p : Parser) (now : ℕ) → InBuffers p → InBuffers (tick p now)
unfolding tick parser_reset
tick-InBuffers p now h = ground (arith, h.arg_end, h.pay_end)

pub reset-InBuffers : (p : Parser) → InBuffers p → InBuffers (parser_reset p)
unfolding parser_reset
reset-InBuffers p h = record { arg_end = h.arg_end; pay_end = h.pay_end }
