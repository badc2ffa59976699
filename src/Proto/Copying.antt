-- ===== src/Proto/Copying.antt =====
-- src/proto.c, FW_PROTO_FAST_COPY: copying by words is copying by bytes.
use open_gbflash_firmware.Common.{
  ℕ, zero, suc, ◌+◌, ◌*◌, ◌/◌, ◌%◌, ◌≡◌, refl, sym, ◌∙◌, ap, fun_ext, arith, Array, update, from,
  copy_bytes, leb, ltb, ◌≤◌, Bool-cases, inl, inr, ◌==◌, ◌<◌, ◌-◌, if◌then◌else◌, le→leb, Bool,
  true, false,
}
use open_gbflash_firmware.Proto.Feed.{copy_words, fast_copy}

from-from : (src : Array) (a b c : ℕ) → a + b ≡ c → from (from src a) b ≡ from src c
from-from src a b c e = fun_ext (λ j. ap src (omega arith))

copy_bytes_four :
    (n : ℕ) (dst : Array) (at : ℕ) (src : Array)
    → copy_bytes (suc (suc (suc (suc n)))) dst at src
      ≡ copy_bytes n
          (update
            (update (update (update dst at (src 0)) (at + 1) (src 1)) (at + 2) (src 2))
            (at + 3)
            (src 3))
          (at + 4)
          (from src 4)
unfolding copy_bytes
copy_bytes_four n dst at src =
    let two : at + 1 + 1 ≡ at + 2 = omega arith in
    let three : at + 2 + 1 ≡ at + 3 = omega arith in
    let four : at + 3 + 1 ≡ at + 4 = omega arith in
    rw (two, three, four)
      (ap
        (copy_bytes n
          (update (update (update (update dst at (src 0)) (at + 1) (src 1)) (at + 2) (src 2))
            (at + 3) (src 3))
          (at + 4))
        (fun_ext (λ j. ap src (omega arith))))

pub copy_words-eq-copy_bytes :
    (w : ℕ) (dst : Array) (at : ℕ) (src : Array)
    → copy_words w dst at src ≡ copy_bytes (w * 4) dst at src
unfolding copy_words
copy_words-eq-copy_bytes zero dst at src = let e : 0 * 4 ≡ 0 = refl in unfold copy_bytes in refl
copy_words-eq-copy_bytes (suc w) dst at src =
    let e : suc w * 4 ≡ suc (suc (suc (suc (w * 4)))) = omega arith in
    rw e (
      copy_words-eq-copy_bytes w _ (at + 4) (from src 4) ∙ sym (copy_bytes_four (w * 4) dst at src))

pub copy_bytes-add :
    (a b : ℕ) (dst : Array) (at : ℕ) (src : Array)
    → copy_bytes (a + b) dst at src ≡ copy_bytes b (copy_bytes a dst at src) (at + a) (from src a)
unfolding copy_bytes
copy_bytes-add zero b dst at src =
    let e : 0 + b ≡ b = omega arith in
    let f : at + 0 ≡ at = omega arith in
    let g : from src 0 ≡ src = fun_ext (λ j. ap src (omega arith)) in rw (e, f, g)
copy_bytes-add (suc a) b dst at src =
    let e : suc a + b ≡ suc (a + b) = omega arith in
    let f : at + suc a ≡ at + 1 + a = omega arith in
    let g : from src (suc a) ≡ from (from src 1) a =
      sym (from-from src 1 a (suc a) (omega arith)) in
    rw (e, f, g) (copy_bytes-add a b (update dst at (src 0)) (at + 1) (from src 1))

-- The word-wise copy leaves the bytes of the byte loop, on aligned and on unaligned addresses.
pub fast_copy-eq-copy_bytes :
    (aligned : Bool) (k : ℕ) (dst : Array) (at : ℕ) (src : Array)
    → fast_copy aligned k dst at src ≡ copy_bytes k dst at src
unfolding fast_copy
fast_copy-eq-copy_bytes false k dst at src = refl
fast_copy-eq-copy_bytes true k dst at src =
    let e : k ≡ k / 4 * 4 + k % 4 = omega arith in
    ap (λ d. copy_bytes (k % 4) d (at + k / 4 * 4) (from src (k / 4 * 4)))
      (copy_words-eq-copy_bytes (k / 4) dst at src)
    ∙ sym (copy_bytes-add (k / 4 * 4) (k % 4) dst at src)
    ∙ ap (λ n. copy_bytes n dst at src) (sym e)

-- What a copied range holds, and that the cells in front of it are as they were.
pub copy_bytes-get :
    (n : ℕ) (dst : Array) (at : ℕ) (src : Array) (j : ℕ)
    → j < at + n
    → copy_bytes n dst at src j ≡ (if leb at j then src (j - at) else dst j)
unfolding copy_bytes
copy_bytes-get zero dst at src j h = ground arith
copy_bytes-get (suc n) dst at src j h =
    let ih = copy_bytes-get n (update dst at (src 0)) (at + 1) (from src 1) j (omega arith) in
    let e : leb (at + 1) j ≡ true → src (1 + (j - (at + 1))) ≡ src (j - at) =
      λ le. ap src (ground arith) in
    let f : (at == j) ≡ true → src 0 ≡ src (j - at) = λ le. ap src (ground arith) in
    ground (arith, ih, e, f)

pub copy_bytes-at : (n j : ℕ) (dst src : Array) → j < n → copy_bytes n dst 0 src j ≡ src j
copy_bytes-at n j dst src h =
    copy_bytes-get n dst 0 src j (omega arith)
    ∙ rw (le→leb 0 j (omega arith)) (ap src (omega arith))

copy_bytes-behind :
    (n : ℕ) (dst : Array) (at : ℕ) (src : Array) (j : ℕ)
    → at + n ≤ j
    → copy_bytes n dst at src j ≡ dst j
unfolding copy_bytes
copy_bytes-behind zero dst at src j h = refl
copy_bytes-behind (suc n) dst at src j h =
    ground
      (arith, copy_bytes-behind n (update dst at (src 0)) (at + 1) (from src 1) j (omega arith))

-- Every cell after a copy.
pub copy_bytes-cell :
    (n : ℕ) (dst : Array) (at : ℕ) (src : Array) (j : ℕ)
    → copy_bytes n dst at src j
      ≡ (if ltb j (at + n) then (if leb at j then src (j - at) else dst j) else dst j)
copy_bytes-cell n dst at src j = elim (Bool-cases (ltb j (at + n))) [
  | inl e ↦ rw e (copy_bytes-get n dst at src j (ground arith))
  | inr e ↦ rw e (copy_bytes-behind n dst at src j (ground arith))
]
