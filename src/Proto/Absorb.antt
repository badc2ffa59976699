-- ===== src/Proto/Absorb.antt =====
-- src/proto.c: what the payload bytes taken in one by one leave in the parser.
use open_gbflash_firmware.Common.{
  ℕ, zero, suc, ◌+◌, ◌-◌, ◌^◌, ◌≤◌, ◌<◌, min, ◌≡◌, ◌≢◌, refl, sym, ◌∙◌, ap, subst, fun_ext, arith,
  ltb, leb, if◌then◌else◌, u16, u32, Array, update, from, of_list, copy_bytes, Bool-cases, ne→==,
  lt→leb, inl, inr, List, [], ◌∷◌, length, take,
}
use open_gbflash_firmware.Proto.State.{FwState, Parser, fw_payload_max}
use open_gbflash_firmware.Proto.Feed.{Fed, waiting, feed, feed_payload, feed_all, close_payload}
use open_gbflash_firmware.Proto.Stream.{feed_all-one, feed_all-waiting}

-- The parser after `n` more payload bytes from `src`, before the test for the end.
abbrev pub absorbed : Parser → ℕ → Array → Parser
absorbed p n src = record p {
  pay = copy_bytes (min n (fw_payload_max - p.pay_got)) p.pay p.pay_got src;
  pay_got = p.pay_got + n;
  bytes = u32 (p.bytes + n);
}

-- The test for the last payload byte.
abbrev pub settled : FwState → Parser → Array → Fed
settled s p o = if leb p.pay_need p.pay_got then close_payload s p o else waiting s p o

pub from-of_list : (x : ℕ) (xs : List ℕ) → from (of_list (x ∷ xs)) 1 ≡ of_list xs
from-of_list x xs = fun_ext (λ j. let e : 1 + j ≡ suc j = omega arith in rw e)

-- One payload byte, in the byte path.
abbrev pub one : Parser → ℕ → Parser
one p b = record p {
  pay = if ltb p.pay_got fw_payload_max then update p.pay p.pay_got b else p.pay;
  pay_got = p.pay_got + 1;
  bytes = u32 (p.bytes + 1);
}

pay-absorbed :
    (n got : ℕ) (pay src : Array)
    → copy_bytes
        (min n (fw_payload_max - (got + 1)))
        (if ltb got fw_payload_max then update pay got (src 0) else pay)
        (got + 1)
        (from src 1)
      ≡ copy_bytes (min (suc n) (fw_payload_max - got)) pay got src
unfolding copy_bytes
pay-absorbed n got pay src = elim (Bool-cases (ltb got fw_payload_max)) [
  | inl t ↦
      let e : min (suc n) (fw_payload_max - got) ≡ suc (min n (fw_payload_max - (got + 1))) =
        ground arith in
      rw (t, e)
  | inr t ↦
      let e : min (suc n) (fw_payload_max - got) ≡ 0 = ground arith in
      let f : min n (fw_payload_max - (got + 1)) ≡ 0 = ground arith in rw (t, e, f)
]

absorbed-one :
    (p : Parser) (n : ℕ) (src : Array)
    → absorbed (one p (src 0)) n (from src 1) ≡ absorbed p (suc n) src
absorbed-one p n src = ground (arith, pay-absorbed n p.pay_got p.pay src)

pub feed-one :
    (s : FwState) (p : Parser) (b : ℕ) (o : Array)
    → p.pay_need ≢ 0
    → p.pay_got < p.pay_need
    → p.pay_need < 2 ^ 16
    → feed s p b o ≡ settled s (one p b) o
unfolding feed feed_payload
feed-one s p b o ne lt small =
    let e : u16 (p.pay_got + 1) ≡ p.pay_got + 1 = omega arith in rw (ne→== p.pay_need 0 ne, e)

absorbed-zero : (p : Parser) (src : Array) → p.bytes < 2 ^ 32 → absorbed p 0 src ≡ p
absorbed-zero p src h =
    let e : min 0 (fw_payload_max - p.pay_got) ≡ 0 = omega arith in
    let f : p.pay_got + 0 ≡ p.pay_got = omega arith in
    let g : u32 (p.bytes + 0) ≡ p.bytes = omega arith in rw (e, f, g) (unfold copy_bytes in refl)

-- Payload bytes that do not run past the end: the byte path takes them in one after the other,
-- and acts on the last.
pub feed_all-absorbed :
    (xs : List ℕ) (x : ℕ) (s : FwState) (p : Parser) (o : Array)
    → p.pay_need < 2 ^ 16
    → p.pay_got + suc (length xs) ≤ p.pay_need
    → feed_all s p o (x ∷ xs) ≡ settled s (absorbed p (suc (length xs)) (of_list (x ∷ xs))) o
feed_all-absorbed [] x s p o small room =
    feed_all-one s p x o
    ∙ feed-one s p x o (omega arith) (omega arith) small
    ∙ ap (λ q. settled s q o)
        (sym (absorbed-zero (one p x) (from (of_list (x ∷ [])) 1) (omega arith))
          ∙ absorbed-one p 0 (of_list (x ∷ [])))
feed_all-absorbed (y ∷ ys) x s p o small room =
    feed_all-waiting s s p (one p x) x (y ∷ ys) o o (
      rw (feed-one s p x o (omega arith) (omega arith) small)
        (rw (lt→leb p.pay_need (p.pay_got + 1) (omega arith)) refl))
    ∙ feed_all-absorbed ys y s (one p x) o small (omega arith)
    ∙ ap (λ q. settled s q o)
        (subst
          (λ src.
            absorbed (one p x) (suc (length ys)) src
            ≡ absorbed p (suc (suc (length ys))) (of_list (x ∷ y ∷ ys)))
          (from-of_list x (y ∷ ys)) (absorbed-one p (suc (length ys)) (of_list (x ∷ y ∷ ys))))

copy_bytes-take :
    (m n : ℕ) (xs : List ℕ) (dst : Array) (at : ℕ)
    → m ≤ n
    → copy_bytes m dst at (of_list (take n xs)) ≡ copy_bytes m dst at (of_list xs)
unfolding copy_bytes
copy_bytes-take zero n xs dst at h = refl
copy_bytes-take (suc m) zero xs dst at h = absurd (omega arith)
copy_bytes-take (suc m) (suc n) [] dst at h = refl
copy_bytes-take (suc m) (suc n) (x ∷ xs) dst at h =
    rw (from-of_list x (take n xs), from-of_list x xs)
      (copy_bytes-take m n xs (update dst at x) (at + 1) (omega arith))

length-take : (n : ℕ) (xs : List ℕ) → n ≤ length xs → length (take n xs) ≡ n
length-take zero xs h = refl
length-take (suc n) [] h = absurd (omega arith)
length-take (suc n) (x ∷ xs) h = ap suc (length-take n xs (omega arith))

-- The byte path on the first `n` bytes of a batch.
pub feed_all-take :
    (n : ℕ) (xs : List ℕ) (s : FwState) (p : Parser) (o : Array)
    → 0 < n
    → n ≤ length xs
    → p.pay_need < 2 ^ 16
    → p.pay_got + n ≤ p.pay_need
    → feed_all s p o (take n xs) ≡ settled s (absorbed p n (of_list xs)) o
feed_all-take zero xs s p o h le small room = absurd (omega arith)
feed_all-take (suc n) [] s p o h le small room = absurd (omega arith)
feed_all-take (suc n) (x ∷ xs) s p o h le small room =
    let e : length (take n xs) ≡ n = length-take n xs (omega arith) in
    feed_all-absorbed (take n xs) x s p o small (omega arith)
    ∙ ap (λ k. settled s (absorbed p (suc k) (of_list (take (suc n) (x ∷ xs)))) o) e
    ∙ ap
        (λ (pay : Array).
          settled s
            (record p { pay = pay; pay_got = p.pay_got + suc n; bytes = u32 (p.bytes + suc n) }) o)
        (copy_bytes-take (min (suc n) (fw_payload_max - p.pay_got)) (suc n) (x ∷ xs) p.pay p.pay_got
          (omega arith))
