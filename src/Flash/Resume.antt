-- ===== src/Flash/Resume.antt =====
-- src/main.c: what a pump has done and what the loop over the rest of the block still has to do.
use open_gbflash_firmware.Common.{
  ℕ, zero, suc, ◌+◌, ◌-◌, ◌*◌, ◌^◌, ◌≤◌, ◌<◌, ltb, leb, if◌then◌else◌, u16, arith, ◌≡◌, refl, sym,
  ◌∙◌, ap, if_true, if_false, le→ltb, Bool-cases, inl, inr, Option, some, none, Bool, true, false,
  ◌>>=◌, ◌==◌,
}
use open_gbflash_firmware.Flash.Bus.{Cart}
use open_gbflash_firmware.Flash.Wait.{Verdict, passed}
use open_gbflash_firmware.Flash.Loops.{Streamed, stream_loop, tail_loop, next_have, idle_pump}

-- The bytes of a bus word.
abbrev pub unit_of : Bool → ℕ
unit_of true = 2
unit_of false = 1

-- A round takes at least one byte of what is left.
next_have-positive :
    (wide : Bool) (program : ℕ → ℕ → Cart → Option Verdict) (words n done : ℕ)
    → 1 ≤ words
    → done + (unit_of wide - 1) < n
    → done + 1 ≤ done + next_have program (unit_of wide) words n done * unit_of wide
next_have-positive true program words n done h lt = ground arith
next_have-positive false program words n done h lt = ground arith

-- A whole chunk is taken where one is left.
next_have-whole :
    (wide : Bool) (program : ℕ → ℕ → Cart → Option Verdict) (words n done : ℕ)
    → done + words * unit_of wide ≤ n
    → next_have program (unit_of wide) words n done ≡ words
next_have-whole true program words n done h = ground arith
next_have-whole false program words n done h = ground arith

whole-ltb :
    (wide : Bool) (words n done : ℕ)
    → 1 ≤ words
    → done + words * unit_of wide ≤ n
    → ltb (done + (unit_of wide - 1)) n ≡ true
whole-ltb true words n done h le = ground arith
whole-ltb false words n done h le = ground arith

-- A chain of a step and what follows it, where the steps agree and so do the sequels.
abbrev pub and_then : Option Verdict → (Cart → Option Verdict) → Option Verdict
and_then m k = m >>= λ v. elim v.timed_out [ none ↦ k v.cart | some x ↦ some v ]

and_then-cong :
    (m : Option Verdict) (k l : Cart → Option Verdict)
    → ((c : Cart) → k c ≡ l c)
    → and_then m k ≡ and_then m l
and_then-cong none k l h = refl
and_then-cong (some v) k l h = go v.timed_out
  where
    go :
        (o : Option ℕ)
        → (elim o [ none ↦ k v.cart | some x ↦ some v ])
          ≡ (elim o [ none ↦ l v.cart | some x ↦ some v ])
    go none = h v.cart
    go (some x) = refl

-- Two fuels that both are enough give the same.
pub tail-fuel :
    (wide : Bool) (program : ℕ → ℕ → Cart → Option Verdict) (words k l n done : ℕ) (c : Cart)
    → 1 ≤ words
    → n ≤ done + k
    → n ≤ done + l
    → tail_loop program (unit_of wide) words k n done c
      ≡ tail_loop program (unit_of wide) words l n done c
unfolding tail_loop
tail-fuel wide program words zero zero n done c w p q = refl
tail-fuel wide program words zero (suc l) n done c w p q =
    sym (if_false (ltb (done + (unit_of wide - 1)) n) _ (passed c) (le→ltb _ n (omega arith)))
tail-fuel wide program words (suc k) zero n done c w p q =
    if_false (ltb (done + (unit_of wide - 1)) n) _ (passed c) (le→ltb _ n (omega arith))
tail-fuel wide program words (suc k) (suc l) n done c w p q =
    let b = ltb (done + (unit_of wide - 1)) n in
    let h = next_have program (unit_of wide) words n done in
    elim (Bool-cases b) [
      | inl e ↦
          let lt : done + (unit_of wide - 1) < n = ground arith in
          let le = next_have-positive wide program words n done w lt in
          if_true b _ (passed c) e
          ∙ and_then-cong (program done h c) _ _ (λ d.
            tail-fuel wide program words k l n (done + h * unit_of wide) d w (omega arith)
              (omega arith))
          ∙ sym (if_true b _ (passed c) e)
      | inr e ↦ if_false b _ (passed c) e ∙ sym (if_false b _ (passed c) e)
    ]

-- The rest of a block of `n` bytes after a pump; nothing after a chunk that timed out.
abbrev pub resume : Bool → (ℕ → ℕ → Cart → Option Verdict) → ℕ → ℕ → Streamed → Option Verdict
resume wide program words n s = elim s.verdict.timed_out [
  | none ↦ tail_loop program (unit_of wide) words n n s.done s.verdict.cart
  | some x ↦ some s.verdict
]

-- One round of the loop over the rest.
tail-step :
    (wide : Bool) (program : ℕ → ℕ → Cart → Option Verdict) (words n done : ℕ) (c : Cart)
    → 1 ≤ words
    → done + words * unit_of wide ≤ n
    → tail_loop program (unit_of wide) words n n done c
      ≡ and_then
          (program done words c)
          (tail_loop program (unit_of wide) words n n (done + words * unit_of wide))
unfolding tail_loop
tail-step wide program words zero done c w le = absurd (omega (arith, unit-positive wide words w))
  where
    unit-positive : (wide : Bool) (words : ℕ) → 1 ≤ words → 1 ≤ words * unit_of wide
    unit-positive true words w = omega arith
    unit-positive false words w = omega arith
tail-step wide program words (suc k) done c w le =
    let n = suc k in
    let b = ltb (done + (unit_of wide - 1)) n in
    let t = whole-ltb wide words n done w le in
    let h = next_have program (unit_of wide) words n done in
    let g = λ (m : ℕ).
      and_then (program done m c)
        (tail_loop program (unit_of wide) words k n (done + m * unit_of wide)) in
    let lt : done + (unit_of wide - 1) < n = ground arith in
    let le2 = next_have-positive wide program words n done w lt in
    let whole : h ≡ words = next_have-whole wide program words n done le in
    let more : done + 1 ≤ done + words * unit_of wide = rw (sym whole) le2 in
    if_true b _ (passed c) t
    ∙ ap g whole
    ∙ and_then-cong (program done words c) _ _ (λ d.
      tail-fuel wide program words k n n (done + words * unit_of wide) d w (omega arith)
        (omega arith))

-- A pump and then the rest do what the loop over the whole block does. `early` programs from the payload
-- as the pump saw it, `program` from the complete one.
pub stream-resume :
    (wide : Bool) (early program : ℕ → ℕ → Cart → Option Verdict)
    (words fuel filled n done streamed : ℕ) (c : Cart)
    → 1 ≤ words
    → filled ≤ n
    → n < 2 ^ 16
    → ((at : ℕ) (d : Cart)
        → at + words * unit_of wide ≤ filled
        → early at words d ≡ program at words d)
    → (stream_loop early (unit_of wide) words fuel filled done streamed c
        >>= resume wide program words n)
      ≡ tail_loop program (unit_of wide) words n n done c
unfolding stream_loop
stream-resume wide early program words zero filled n done streamed c w f small agree = refl
stream-resume wide early program words (suc fuel) filled n done streamed c w f small agree =
    let b = leb (done + words * unit_of wide) filled in
    let r = resume wide program words n in
    let s0 = if done == 0 then 0 else streamed in
    elim (Bool-cases b) [
      | inr e ↦ ap (λ m. m >>= r) (if_false b _ (idle_pump done streamed c) e)
      | inl e ↦
          let le : done + words * unit_of wide ≤ filled = ground arith in
          let exact : u16 (done + words * unit_of wide) ≡ done + words * unit_of wide =
            omega arith in
          ap (λ m. m >>= r) (if_true b _ (idle_pump done streamed c) e)
          ∙ go s0 (early done words c)
              (λ d.
                stream_loop early (unit_of wide) words fuel filled
                  (u16 (done + words * unit_of wide)) (u16 (s0 + 1)) d)
              (tail_loop program (unit_of wide) words n n (done + words * unit_of wide))
              (λ d.
                stream-resume wide early program words fuel filled n
                  (u16 (done + words * unit_of wide)) (u16 (s0 + 1)) d w f small agree
                ∙ ap (λ a. tail_loop program (unit_of wide) words n n a d) exact)
          ∙ ap
              (λ m.
                and_then m
                  (tail_loop program (unit_of wide) words n n (done + words * unit_of wide)))
              (agree done c le)
          ∙ sym (tail-step wide program words n done c w (omega arith))
    ]
  where
    go :
        (s0 : ℕ) (m : Option Verdict) (k : Cart → Option Streamed) (l : Cart → Option Verdict)
        → ((d : Cart) → (k d >>= resume wide program words n) ≡ l d)
        → ((m >>= λ v. elim v.timed_out [
          | none ↦ k v.cart
          | some x ↦ some (record { done = done; streamed = s0; verdict = v })
        ])
            >>= resume wide program words n)
          ≡ and_then m l
    go s0 none k l h = refl
    go s0 (some v) k l h = split v.timed_out refl
      where
        split :
            (o : Option ℕ)
            → v.timed_out ≡ o
            → ((elim o [
              | none ↦ k v.cart
              | some x ↦ some (record { done = done; streamed = s0; verdict = v })
            ])
                >>= resume wide program words n)
              ≡ (elim o [ none ↦ l v.cart | some x ↦ some v ])
        split none e = h v.cart
        split (some x) e =
            ap
              (λ (q : Option ℕ). elim q [
                | none ↦ tail_loop program (unit_of wide) words n n done v.cart
                | some y ↦ some v
              ])
              e
