-- ===== src/Proto/Quiet.antt =====
-- src/proto.c: no reply before the last byte of a command, and the parser's timeout.
use open_gbflash_firmware.Common.{
  ℕ, ◌+◌, ◌<◌, ◌≡◌, ◌≢◌, refl, List, [], ◌∷◌, arith, leb, ltb, if◌then◌else◌, update, u8, u16, u32,
  sub32, Array, true, false,
}
use open_gbflash_firmware.Proto.Command.{arg_len}
use open_gbflash_firmware.Proto.State.{
  FwState, Parser, fw_payload_max, fw_cmd_buf_len, fw_parser_timeout_ms,
}
use open_gbflash_firmware.Proto.Feed.{
  Fed, feed, feed_payload, feed_opcode, feed_arg, close_payload, open_or_execute, idle, tick,
}

close_payload-idle :
    (s : FwState) (p : Parser) (o : Array) → idle (close_payload s p o).parser ≡ true
unfolding close_payload idle
close_payload-idle s p o = ground arith

-- Nothing said, and the caller's buffer not touched.
abbrev pub IsSilent : Fed → Array → Type 0
IsSilent r o = (r.count ≡ 0) × (r.out ≡ o)

open_or_execute-quiet :
    (s : FwState) (p : Parser) (o : Array)
    → idle (open_or_execute s p o).parser ≡ false
    → IsSilent (open_or_execute s p o) o
unfolding open_or_execute idle
open_or_execute-quiet s p o h = ground arith

feed_payload-quiet :
    (s : FwState) (p : Parser) (b : ℕ) (o : Array)
    → idle (feed_payload s p b o).parser ≡ false
    → IsSilent (feed_payload s p b o) o
unfolding feed_payload
feed_payload-quiet s p b o h =
    let stored = if ltb p.pay_got fw_payload_max then update p.pay p.pay_got b else p.pay in
    let q = record p { pay = stored; pay_got = u16 (p.pay_got + 1) } in
    ground (arith, close_payload-idle s q o)

feed_opcode-quiet :
    (s : FwState) (p : Parser) (b : ℕ) (o : Array)
    → idle (feed_opcode s p b o).parser ≡ false
    → IsSilent (feed_opcode s p b o) o
unfolding feed_opcode
feed_opcode-quiet s p b o h =
    ground (arith, open_or_execute-quiet s (record p { op = b; need = arg_len b; got = 0 }) o)

feed_arg-quiet :
    (s : FwState) (p : Parser) (b : ℕ) (o : Array)
    → idle (feed_arg s p b o).parser ≡ false
    → IsSilent (feed_arg s p b o) o
unfolding feed_arg
feed_arg-quiet s p b o h =
    let stored = if ltb p.got fw_cmd_buf_len then update p.arg p.got b else p.arg in
    ground (arith, open_or_execute-quiet s (record p { arg = stored; got = u8 (p.got + 1) }) o)

-- A byte that leaves the parser in the middle of a command is answered with nothing, and the
-- caller's reply buffer is as it was.
pub feed-quiet :
    (s : FwState) (p : Parser) (b : ℕ) (o : Array)
    → idle (feed s p b o).parser ≡ false
    → IsSilent (feed s p b o) o
unfolding feed
feed-quiet s p b o h =
    let q = record p { bytes = u32 (p.bytes + 1) } in
    ground (arith, feed_payload-quiet s q b o, feed_opcode-quiet s q b o, feed_arg-quiet s q b o)

-- The calls of fw_main's polling loop with no byte between.
unfoldable pub ticks : List ℕ → Parser → Parser
ticks [] p = p
ticks (now ∷ rest) p = ticks rest (tick p now)

-- Clock readings less than FW_PARSER_TIMEOUT_MS after `since`.
unfoldable pub AllWithin : ℕ → List ℕ → Type 0
AllWithin since [] = Unit
AllWithin since (now ∷ rest) = (sub32 now since < fw_parser_timeout_ms) × AllWithin since rest

tick-within :
    (p : Parser) (now : ℕ)
    → idle p ≡ false
    → p.bytes ≡ p.seen
    → sub32 now p.since < fw_parser_timeout_ms
    → tick p now ≡ p
unfolding tick idle
tick-within p now h e lt = ground (arith, h, e)

ticks-within :
    (early : List ℕ) (p : Parser)
    → idle p ≡ false
    → p.bytes ≡ p.seen
    → AllWithin p.since early
    → ticks early p ≡ p
unfolding ticks AllWithin
ticks-within [] p h e a = refl
ticks-within (now ∷ rest) p h e a = rw (tick-within p now h e a.0) (ticks-within rest p h e a.1)

tick-heard :
    (p : Parser) (now : ℕ)
    → idle p ≡ false
    → p.bytes ≢ p.seen
    → tick p now ≡ record p { seen = p.bytes; since = now }
unfolding tick idle
tick-heard p now h fresh = ground (arith, h, fresh)

tick-last :
    (p : Parser) (last : ℕ)
    → idle p ≡ false
    → p.bytes ≡ p.seen
    → idle (tick p last) ≡ leb fw_parser_timeout_ms (sub32 last p.since)
unfolding idle tick
tick-last p last h e = ground arith

-- Once a tick has seen new bytes of an unfinished command, any number of ticks within
-- FW_PARSER_TIMEOUT_MS of it with no byte between leave the command open, and the next tick
-- abandons it exactly if FW_PARSER_TIMEOUT_MS have passed since the tick that saw the bytes, across
-- the wrap of the clock.
pub tick_timeout :
    (p : Parser) (now : ℕ) (early : List ℕ) (last : ℕ)
    → idle p ≡ false
    → p.bytes ≢ p.seen
    → AllWithin now early
    → (idle (ticks early (tick p now)) ≡ false)
      × (idle (tick (ticks early (tick p now)) last) ≡ leb fw_parser_timeout_ms (sub32 last now))
unfolding idle
tick_timeout p now early last h fresh a =
    let q = record p { seen = p.bytes; since = now } in
    rw (tick-heard p now h fresh, ticks-within early q h refl a) (h, tick-last q last h refl)
