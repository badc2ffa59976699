-- ===== src/Proto/Arguments.antt =====
-- src/proto.c: what the argument bytes taken in one by one leave in the parser.
use open_gbflash_firmware.Common.{
  ℕ, suc, ◌+◌, ◌^◌, ◌≤◌, ◌<◌, ◌≡◌, ◌≢◌, refl, ◌∙◌, ap, subst, arith, leb, if◌then◌else◌, u8, u32,
  Array, from, of_list, copy_bytes, ne→==, eq→==, lt→leb, le→leb, lt→ltb, List, [], ◌∷◌, length,
}
use open_gbflash_firmware.Proto.State.{FwState, Parser}
use open_gbflash_firmware.Proto.Feed.{Fed, waiting, feed, feed_arg, feed_all, open_or_execute}
use open_gbflash_firmware.Proto.Stream.{feed_all-one, feed_all-waiting}
use open_gbflash_firmware.Proto.Absorb.{from-of_list}

-- The parser after `n` more argument bytes from `src`.
abbrev pub args_in : Parser → ℕ → Array → Parser
args_in p n src = record p {
  arg = copy_bytes n p.arg p.got src;
  got = p.got + n;
  bytes = u32 (p.bytes + n);
}

pub args_in-zero : (p : Parser) (src : Array) → p.bytes < 2 ^ 32 → args_in p 0 src ≡ p
unfolding copy_bytes
args_in-zero p src h =
    let f : p.got + 0 ≡ p.got = omega arith in
    let g : u32 (p.bytes + 0) ≡ p.bytes = omega arith in rw (f, g)

args_in-suc :
    (p : Parser) (n : ℕ) (src : Array)
    → args_in (args_in p 1 src) n (from src 1) ≡ args_in p (suc n) src
unfolding copy_bytes
args_in-suc p n src =
    let f : p.got + 1 + n ≡ p.got + suc n = omega arith in
    let g : u32 (u32 (p.bytes + 1) + n) ≡ u32 (p.bytes + suc n) = omega arith in rw (f, g)

-- The test for the last argument byte.
abbrev pub argued : FwState → Parser → Array → Fed
argued s p o = if leb p.need p.got then open_or_execute s p o else waiting s p o

feed-argument :
    (s : FwState) (p : Parser) (b : ℕ) (xs : List ℕ) (o : Array)
    → p.op ≢ 0
    → p.pay_need ≡ 0
    → p.got < 39
    → feed s p b o ≡ argued s (args_in p 1 (of_list (b ∷ xs))) o
unfolding feed feed_arg copy_bytes
feed-argument s p b xs o op closed lt =
    let e : u8 (p.got + 1) ≡ p.got + 1 = omega arith in
    rw (eq→== p.pay_need 0 closed, ne→== p.op 0 op, lt→ltb p.got 64 (omega arith), e)

-- Arguments that complete the list: the byte path takes them in and then opens the payload or
-- executes.
pub feed_all-args :
    (xs : List ℕ) (x : ℕ) (s : FwState) (p : Parser) (o : Array)
    → p.op ≢ 0
    → p.pay_need ≡ 0
    → p.got + suc (length xs) ≡ p.need
    → p.need ≤ 39
    → feed_all s p o (x ∷ xs) ≡ open_or_execute s (args_in p (suc (length xs)) (of_list (x ∷ xs))) o
feed_all-args [] x s p o op closed e small =
    feed_all-one s p x o
    ∙ feed-argument s p x [] o op closed (omega arith)
    ∙ rw (le→leb p.need (p.got + 1) (omega arith)) refl
feed_all-args (y ∷ ys) x s p o op closed e small =
    let q = args_in p 1 (of_list (x ∷ y ∷ ys)) in
    feed_all-waiting s s p q x (y ∷ ys) o o (
      feed-argument s p x (y ∷ ys) o op closed (omega arith)
      ∙ rw (lt→leb p.need (p.got + 1) (omega arith)) refl)
    ∙ feed_all-args ys y s q o op closed (omega arith) small
    ∙ ap (λ r. open_or_execute s r o)
        (subst
          (λ src.
            args_in q (suc (length ys)) src
            ≡ args_in p (suc (suc (length ys))) (of_list (x ∷ y ∷ ys)))
          (from-of_list x (y ∷ ys)) (args_in-suc p (suc (length ys)) (of_list (x ∷ y ∷ ys))))
