-- ===== src/Usb/Control/Coding/Storing.antt =====
-- src/usb.c: the loop that stores a line coding.
use open_gbflash_firmware.Common.{
  ℕ, zero, suc, ◌+◌, ◌==◌, ltb, leb, not, ◌&&◌, ◌||◌, if◌then◌else◌, arith, ◌≡◌, refl, sym, ◌∙◌, ap,
  ap₂, Bool-cases, inl, inr, if_true, if_false, Array, from, update, fun_ext, Bool, true, false,
}
use open_gbflash_firmware.Usb.Control.Stages.{Coding, store_coding}

-- `memcmp(a, b, n) == 0`
abbrev pub same_bytes : ℕ → Array → Array → Bool
same_bytes zero a b = true
same_bytes (suc n) a b = a 0 == b 0 && same_bytes n (from a 1) (from b 1)

abbrev pub stored : ℕ → Array → Coding → Coding
stored i buf l =
    if l.bytes i == buf i then l else record { changed = true; bytes = update l.bytes i (buf i) }

stored-bytes :
    (i : ℕ) (buf : Array) (l : Coding) (j : ℕ)
    → (stored i buf l).bytes j ≡ (if i == j then buf i else l.bytes j)
stored-bytes i buf l j = elim (Bool-cases (l.bytes i == buf i)) [
  | inl e ↦
      ap (λ (m : Coding). m.bytes j) (if_true (l.bytes i == buf i) _ _ e)
      ∙ elim (Bool-cases (i == j)) [
        | inl q ↦
            let at : i ≡ j = ground arith in
            let v : l.bytes i ≡ buf i = ground arith in
            ap l.bytes (sym at) ∙ v ∙ sym (if_true (i == j) (buf i) (l.bytes j) q)
        | inr q ↦ sym (if_false (i == j) (buf i) (l.bytes j) q)
      ]
  | inr e ↦ ap (λ (m : Coding). m.bytes j) (if_false (l.bytes i == buf i) _ _ e)
]

stored-changed :
    (i : ℕ) (buf : Array) (l : Coding)
    → (stored i buf l).changed ≡ (l.changed || not (buf i == l.bytes i))
stored-changed i buf l = elim (Bool-cases (l.bytes i == buf i)) [
  | inl e ↦ ap (λ (m : Coding). m.changed) (if_true (l.bytes i == buf i) _ _ e) ∙ kept l.changed e
  | inr e ↦ ap (λ (m : Coding). m.changed) (if_false (l.bytes i == buf i) _ _ e) ∙ grown l.changed e
]
  where
    kept : (b : Bool) → (l.bytes i == buf i) ≡ true → b ≡ (b || not (buf i == l.bytes i))
    kept true e = refl
    kept false e = ground arith

    grown : (b : Bool) → (l.bytes i == buf i) ≡ false → true ≡ (b || not (buf i == l.bytes i))
    grown true e = refl
    grown false e = ground arith

pub store_coding-bytes :
    (k i : ℕ) (buf : Array) (l : Coding) (j : ℕ)
    → (store_coding k i buf l).bytes j ≡ (if leb i j && ltb j (i + k) then buf j else l.bytes j)
unfolding store_coding
store_coding-bytes zero i buf l j =
    let out : (leb i j && ltb j (i + 0)) ≡ false = ground arith in
    sym (if_false _ (buf j) (l.bytes j) out)
store_coding-bytes (suc k) i buf l j =
    store_coding-bytes k (i + 1) buf (stored i buf l) j
    ∙ ap (λ m. if leb (i + 1) j && ltb j (i + 1 + k) then buf j else m) (stored-bytes i buf l j)
    ∙ elim (Bool-cases (i == j)) [
      | inl q ↦
          let at : i ≡ j = ground arith in
          let here : (leb i j && ltb j (i + suc k)) ≡ true = ground arith in
          let past : (leb (i + 1) j && ltb j (i + 1 + k)) ≡ false = ground arith in
          if_false _ (buf j) _ past
          ∙ if_true (i == j) _ (l.bytes j) q
          ∙ ap buf at
          ∙ sym (if_true _ (buf j) (l.bytes j) here)
      | inr q ↦
          let same : (leb (i + 1) j && ltb j (i + 1 + k)) ≡ (leb i j && ltb j (i + suc k)) =
            ground arith in
          ap₂ (λ (b : Bool) (m : ℕ). if b then buf j else m) same
            (if_false (i == j) (buf i) (l.bytes j) q)
    ]

from_shift : (i : ℕ) (a : Array) → from a (i + 1) ≡ from (from a i) 1
from_shift i a = fun_ext λ j. ap a (omega arith)

stored-behind :
    (i : ℕ) (buf : Array) (l : Coding) → from (stored i buf l).bytes (i + 1) ≡ from l.bytes (i + 1)
stored-behind i buf l = fun_ext λ j.
    let other : (i == i + 1 + j) ≡ false = ground arith in
    stored-bytes i buf l (i + 1 + j) ∙ if_false (i == i + 1 + j) (buf i) (l.bytes (i + 1 + j)) other

or_not_and : (c p q : Bool) → (c || not p || not q) ≡ (c || not (p && q))
or_not_and true p q = refl
or_not_and false true q = refl
or_not_and false false q = refl

pub store_coding-changed :
    (k i : ℕ) (buf : Array) (l : Coding)
    → (store_coding k i buf l).changed
      ≡ (l.changed || not (same_bytes k (from buf i) (from l.bytes i)))
unfolding store_coding
store_coding-changed zero i buf l = no_change l.changed
  where
    no_change : (b : Bool) → b ≡ (b || false)
    no_change true = refl
    no_change false = refl
store_coding-changed (suc k) i buf l =
    let here = buf (i + 0) == l.bytes (i + 0) in
    let at : i ≡ i + 0 = omega arith in
    store_coding-changed k (i + 1) buf (stored i buf l)
    ∙ ap₂ (λ (b : Bool) (a : Array). b || not (same_bytes k (from buf (i + 1)) a))
        (stored-changed i buf l ∙ ap (λ (n : ℕ). l.changed || not (buf n == l.bytes n)) at)
        (stored-behind i buf l)
    ∙ ap₂ (λ (a b : Array). l.changed || not here || not (same_bytes k a b)) (from_shift i buf)
        (from_shift i l.bytes)
    ∙ or_not_and l.changed here (same_bytes k (from (from buf i) 1) (from (from l.bytes i) 1))
