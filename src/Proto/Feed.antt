-- ===== src/Proto/Feed.antt =====
-- src/proto.c: the byte and bulk intake of the parser, its timeout and its queries.
use open_gbflash_firmware.Common.{
  ℕ, zero, suc, ◌+◌, ◌*◌, ◌/◌, ◌%◌, ◌-◌, ◌==◌, ltb, leb, not, ◌&&◌, ◌||◌, if◌then◌else◌, flag, u8,
  u16, u32, sub32, Array, update, from, copy_bytes, Bool, List, [], ◌∷◌,
}
use open_gbflash_firmware.Proto.Command.{arg_len}
use open_gbflash_firmware.Proto.State.{
  FwState, Parser, Outcome, parser_reset, ack_error, fw_payload_max, fw_cmd_buf_len,
  fw_parser_timeout_ms,
}
use open_gbflash_firmware.Proto.Execute.{execute}
use open_gbflash_firmware.Proto.Payload.{payload_opened, payload_len, payload_done}

-- What an intake call leaves, with the byte count that it returns.
pub record Fed : Type 0 where
  pub st : FwState
  pub parser : Parser
  pub out : Array
  pub count : ℕ

-- A handler's outcome, then `parser_reset()`.
abbrev pub reset_after : Parser → Outcome → Fed
reset_after p r = record { st = r.st; parser = parser_reset p; out = r.out; count = r.count }

abbrev pub waiting : FwState → Parser → Array → Fed
waiting s p o = record { st = s; parser = p; out = o; count = 0 }

-- The last payload byte is in: refuse an overlong payload, or act on it.
unfoldable pub close_payload : FwState → Parser → Array → Fed
unfolding parser_reset
close_payload s p o =
    if not (p.pay_over == 0)
    then reset_after p (record { st = s; out = update o 0 ack_error; count = 1 })
    else reset_after (record p { last_pay_got = p.pay_got }) (payload_done s p o)

-- The arguments are in: open the payload, or execute.
unfoldable pub open_or_execute : FwState → Parser → Array → Fed
unfolding parser_reset
open_or_execute s p o =
    let n = payload_len s p in
    let q = record p { pay_need = n } in
    if not (n == 0)
    then waiting (payload_opened s q) (record q { pay_over = flag (ltb fw_payload_max n) }) o
    else reset_after q (execute s q o)

unfoldable pub feed_payload : FwState → Parser → ℕ → Array → Fed
unfolding close_payload
feed_payload s p b o =
    let stored = if ltb p.pay_got fw_payload_max then update p.pay p.pay_got b else p.pay in
    let q = record p { pay = stored; pay_got = u16 (p.pay_got + 1) } in
    if leb q.pay_need q.pay_got then close_payload s q o else waiting s q o

unfoldable pub feed_opcode : FwState → Parser → ℕ → Array → Fed
unfolding open_or_execute
feed_opcode s p b o =
    let q = record p { op = b; need = arg_len b; got = 0 } in
    if arg_len b == 0 then open_or_execute s q o else waiting s q o

unfoldable pub feed_arg : FwState → Parser → ℕ → Array → Fed
unfolding open_or_execute
feed_arg s p b o =
    let stored = if ltb p.got fw_cmd_buf_len then update p.arg p.got b else p.arg in
    let q = record p { arg = stored; got = u8 (p.got + 1) } in
    if leb q.need q.got then open_or_execute s q o else waiting s q o

-- `fw_proto_feed`
unfoldable pub feed : FwState → Parser → ℕ → Array → Fed
unfolding feed_payload feed_opcode feed_arg
feed s p0 b o =
    let p = record p0 { bytes = u32 (p0.bytes + 1) } in
    if not (p.pay_need == 0)
    then feed_payload s p b o
    else if p.op == 0
    then feed_opcode s p b o
    else feed_arg s p b o

-- A caller that feeds a list of bytes in order; the count is that of all the replies together.
unfoldable pub feed_all : FwState → Parser → Array → List ℕ → Fed
feed_all s p o [] = waiting s p o
feed_all s p o (b ∷ bs) =
    let r = feed s p b o in
    let rest = feed_all r.st r.parser r.out bs in
    record { st = rest.st; parser = rest.parser; out = rest.out; count = r.count + rest.count }

-- `*d4++ = *s4++`, `w` times.
unfoldable pub copy_words : ℕ → Array → ℕ → Array → Array
copy_words zero dst at src = dst
copy_words (suc w) dst at src =
    copy_words w
      (update (update (update (update dst at (src 0)) (at + 1) (src 1)) (at + 2) (src 2)) (at + 3)
        (src 3))
      (at + 4) (from src 4)

-- The copy of FW_PROTO_FAST_COPY. `aligned` is the test on the two addresses, which the code
-- cannot know beforehand.
unfoldable pub fast_copy : Bool → ℕ → Array → ℕ → Array → Array
unfolding copy_words copy_bytes
fast_copy aligned k dst at src =
    if aligned
    then copy_bytes (k % 4) (copy_words (k / 4) dst at src) (at + k / 4 * 4) (from src (k / 4 * 4))
    else copy_bytes k dst at src

-- How many bytes of the batch the open payload still wants.
abbrev pub bulk_want : Parser → ℕ → ℕ
bulk_want p len = let want = sub32 p.pay_need p.pay_got in if ltb len want then len else want

-- How many of those fit `pay[]`.
abbrev pub bulk_fits : Parser → ℕ → ℕ
bulk_fits p want = let room = fw_payload_max - p.pay_got in if ltb want room then want else room

-- `fw_proto_feed_bulk`, with what it writes through `consumed`.
unfoldable pub feed_bulk : Bool → FwState → Parser → Array → ℕ → Array → Fed × ℕ
unfolding close_payload
feed_bulk aligned s p buf len o =
    if p.pay_need == 0 || len == 0
    then (waiting s p o, 0)
    else let want = bulk_want p len in
      let stored =
        if ltb p.pay_got fw_payload_max
        then fast_copy aligned (bulk_fits p want) p.pay p.pay_got buf
        else p.pay in
      let q = record p {
        pay = stored;
        pay_got = u16 (p.pay_got + want);
        bytes = u32 (p.bytes + want);
      } in
      (if leb q.pay_need q.pay_got then close_payload s q o else waiting s q o, want)

-- `fw_proto_idle`
unfoldable pub idle : Parser → Bool
idle p = p.op == 0 && p.pay_need == 0

-- `fw_proto_tick`
unfoldable pub tick : Parser → ℕ → Parser
unfolding parser_reset
tick p now =
    if p.op == 0 && p.pay_need == 0
    then record p { since = now; seen = p.bytes }
    else if not (p.bytes == p.seen)
    then record p { seen = p.bytes; since = now }
    else if leb fw_parser_timeout_ms (sub32 now p.since)
    then record (parser_reset p) { since = now }
    else p

-- `fw_proto_link_reset`
unfoldable pub link_reset : Parser → Parser
unfolding parser_reset
link_reset p = parser_reset p

-- `fw_proto_payload_remaining`
unfoldable pub payload_remaining : Parser → ℕ
payload_remaining p =
    if p.pay_need == 0 || leb p.pay_need p.pay_got then 0 else p.pay_need - p.pay_got

-- `fw_proto_payload_filled`; 0xD3 is CMD_FLASH_PROGRAM.
unfoldable pub payload_filled : Parser → ℕ
payload_filled p =
    if not (p.op == 0xD3) || p.pay_need == 0 || not (p.pay_over == 0) then 0 else p.pay_got
