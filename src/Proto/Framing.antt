-- ===== src/Proto/Framing.antt =====
-- src/proto.c: a command on the wire is its opcode, its arguments and its payload, and nothing
-- more: the byte-wise parser against a reading of the whole command at once.
use open_gbflash_firmware.Common.{
  ℕ, suc, ◌+◌, ◌^◌, ◌<◌, ◌≡◌, ◌≢◌, refl, sym, ◌∙◌, ap, arith, ltb, flag, ◌==◌, if◌then◌else◌, u32,
  Array, of_list, ne→==, eq→==, le→leb, List, [], ◌∷◌, ◌++◌, length, true,
}
use open_gbflash_firmware.Proto.Command.{arg_len, decode}
use open_gbflash_firmware.Proto.State.{FwState, Parser, parser_reset, fw_payload_max}
use open_gbflash_firmware.Proto.Execute.{execute}
use open_gbflash_firmware.Proto.Payload.{payload_len, payload_opened}
use open_gbflash_firmware.Proto.Feed.{
  Fed, waiting, reset_after, feed, feed_opcode, feed_all, open_or_execute, close_payload, idle,
}
use open_gbflash_firmware.Proto.Clamp.{IsClamped}
use open_gbflash_firmware.Proto.Parsing.{Holds, arg_len_le, payload_len-lt}
use open_gbflash_firmware.Proto.Stream.{
  feed_all-one, feed_all-waiting, followed, followed-nil, followed-waiting, feed_all-append,
}
use open_gbflash_firmware.Proto.Absorb.{absorbed, feed_all-absorbed}
use open_gbflash_firmware.Proto.Arguments.{args_in, args_in-zero, feed_all-args}

-- The parser after the opcode alone, and after the opcode and its arguments.
abbrev pub started : Parser → ℕ → Parser
started p b = record p { op = b; need = arg_len b; got = 0; bytes = u32 (p.bytes + 1) }

abbrev pub with_args : Parser → ℕ → List ℕ → Parser
with_args p b args = args_in (started p b) (length args) (of_list args)

-- The whole command at once: with no payload announced it is executed; else the payload is opened,
-- copied in one go as far as it fits, and closed.
after_args : FwState → Parser → List ℕ → Array → Fed
after_args s q payload o =
    let n = payload_len s q in
    let t = record q { pay_need = n } in
    if n == 0
    then reset_after t (execute s t o)
    else close_payload (payload_opened s t)
        (absorbed (record t { pay_over = flag (ltb fw_payload_max n) }) n (of_list payload)) o

unfoldable pub run_command : FwState → Parser → Array → ℕ → List ℕ → List ℕ → Fed
unfolding after_args
run_command s p o b args payload = after_args s (with_args p b args) payload o

arg_len-zero : arg_len 0 ≡ 0
unfolding arg_len decode
arg_len-zero = refl

op_of_args : (b : ℕ) → arg_len b ≢ 0 → b ≢ 0
op_of_args b h e = h (rw e arg_len-zero)

feed_opcode-none :
    (s : FwState) (p : Parser) (b : ℕ) (o : Array)
    → p.op ≡ 0
    → p.pay_need ≡ 0
    → arg_len b ≡ 0
    → feed s p b o ≡ open_or_execute s (started p b) o
unfolding feed feed_opcode
feed_opcode-none s p b o op closed e =
    rw (eq→== p.pay_need 0 closed, eq→== p.op 0 op, eq→== (arg_len b) 0 e)

feed_opcode-some :
    (s : FwState) (p : Parser) (b : ℕ) (o : Array)
    → p.op ≡ 0
    → p.pay_need ≡ 0
    → arg_len b ≢ 0
    → feed s p b o ≡ waiting s (started p b) o
unfolding feed feed_opcode
feed_opcode-some s p b o op closed e =
    rw (eq→== p.pay_need 0 closed, eq→== p.op 0 op, ne→== (arg_len b) 0 e)

-- The opcode and its arguments.
feed_all-header :
    (s : FwState) (p : Parser) (b : ℕ) (args : List ℕ) (o : Array)
    → p.op ≡ 0
    → p.pay_need ≡ 0
    → length args ≡ arg_len b
    → feed_all s p o (b ∷ args) ≡ open_or_execute s (with_args p b args) o
feed_all-header s p b [] o op closed e =
    feed_all-one s p b o
    ∙ feed_opcode-none s p b o op closed (sym e)
    ∙ ap (λ q. open_or_execute s q o) (sym (args_in-zero (started p b) (of_list []) (omega arith)))
feed_all-header s p b (x ∷ xs) o op closed e =
    let some_args : arg_len b ≢ 0 = omega arith in
    feed_all-waiting s s p (started p b) b (x ∷ xs) o o
      (feed_opcode-some s p b o op closed some_args)
    ∙ feed_all-args xs x s (started p b) o (op_of_args b some_args) closed (omega arith)
        (arg_len_le b)

feed_all-payload :
    (s : FwState) (p : Parser) (payload : List ℕ) (o : Array)
    → p.pay_need ≢ 0
    → p.pay_got ≡ 0
    → p.pay_need < 2 ^ 16
    → length payload ≡ p.pay_need
    → feed_all s p o payload ≡ close_payload s (absorbed p p.pay_need (of_list payload)) o
feed_all-payload s p [] o ne got small e = absurd (ne (sym e))
feed_all-payload s p (x ∷ xs) o ne got small e =
    feed_all-absorbed xs x s p o small (omega arith)
    ∙ rw (le→leb p.pay_need (p.pay_got + suc (length xs)) (omega arith))
        (ap (λ n. close_payload s (absorbed p n (of_list (x ∷ xs))) o) e)

-- The parser that waits for a payload of `payload_len` bytes.
abbrev awaiting : FwState → Parser → Parser
awaiting s q =
    let n = payload_len s q in record q { pay_need = n; pay_over = flag (ltb fw_payload_max n) }

frame_payload :
    (s : FwState) (q : Parser) (payload : List ℕ) (o : Array)
    → IsClamped s
    → q.pay_got ≡ 0
    → length payload ≡ payload_len s q
    → followed (open_or_execute s q o) payload ≡ after_args s q payload o
unfolding open_or_execute after_args
frame_payload s q [] o clamped got e = rw (eq→== (payload_len s q) 0 (sym e)) (
    followed-nil (let t = record q { pay_need = payload_len s q } in reset_after t (execute s t o)))
frame_payload s q (x ∷ xs) o clamped got e =
    let t = record q { pay_need = payload_len s q } in
    let due : payload_len s q ≢ 0 = omega arith in
    rw (ne→== (payload_len s q) 0 due) (
      followed-waiting (payload_opened s t) (awaiting s q) o (x ∷ xs)
      ∙ feed_all-payload (payload_opened s t) (awaiting s q) (x ∷ xs) o due got
          (payload_len-lt s q clamped) e)

idle_parts : (p : Parser) → idle p ≡ true → (p.op ≡ 0) × (p.pay_need ≡ 0)
unfolding idle
idle_parts p h = ground arith

run_command-idle :
    (s : FwState) (p : Parser) (o : Array) (b : ℕ) (args payload : List ℕ)
    → idle (run_command s p o b args payload).parser ≡ true
unfolding run_command close_payload idle parser_reset
run_command-idle s p o b args payload = ground arith

-- A command fed byte by byte to an idle parser, whatever the opcode: exactly `arg_len` argument
-- bytes and then exactly the announced payload are taken in, the result is that of the command run
-- at once, the replies of all the bytes together are its reply, and the parser is idle again.
pub feed_all-command :
    (s : FwState) (p : Parser) (o : Array) (b : ℕ) (args payload : List ℕ)
    → Holds s p
    → idle p ≡ true
    → length args ≡ arg_len b
    → length payload ≡ payload_len s (with_args p b args)
    → let r = feed_all s p o (b ∷ args ++ payload) in
      (r ≡ run_command s p o b args payload) × (idle r.parser ≡ true)
unfolding run_command
feed_all-command s p o b args payload h ready ea ep =
    let op : p.op ≡ 0 = (idle_parts p ready).0 in
    let closed : p.pay_need ≡ 0 = (idle_parts p ready).1 in
    let q = with_args p b args in
    let e : feed_all s p o (b ∷ args ++ payload) ≡ run_command s p o b args payload =
      feed_all-append (b ∷ args) payload s p o
      ∙ ap (λ r. followed r payload) (feed_all-header s p b args o op closed ea)
      ∙ frame_payload s q payload o h.1 (h.0.pay_closed closed) ep in
    (e, rw e (run_command-idle s p o b args payload))
