-- ===== src/Flash/Placed.antt =====
-- src/main.c: what an AGB block that `do_flash_program` reports as programmed has put, and where.
use open_gbflash_firmware.Common.{
  ℕ, zero, suc, ◌+◌, ◌-◌, ◌*◌, ◌/◌, ◌%◌, ◌^◌, ◌≤◌, ◌<◌, ◌==◌, ltb, leb, not, ◌&&◌, u32, arith, ◌≡◌,
  refl, sym, ◌∙◌, ap, ap₂, subst, fun_ext, Bool-cases, inl, inr, if_true, if_false, Array, from,
  Option, some, none, Bool, true, false, >>=-eq-some,
}
use mathlib.Core.Option.{some-injective}
use open_gbflash_firmware.Proto.State.{FwState}
use open_gbflash_firmware.Usb.Queue.{to_list}
use open_gbflash_firmware.Flash.Bus.{Cart}
use open_gbflash_firmware.Flash.Wait.{Verdict, passed}
use open_gbflash_firmware.Flash.Loops.{tail_loop, next_have}
use open_gbflash_firmware.Flash.Agb.{Job, is_agb, failed, agb_program_chunk}
use open_gbflash_firmware.Flash.Program.{
  Programmed, finish, aborted, agb_buffered, do_flash_program,
}
use open_gbflash_firmware.Flash.Image.{image, place, placed, place-placed, image-agb_program_chunk}

-- After `done` bytes of the block.
IsPlaced : FwState → Array → Array → Array → ℕ → Cart → Type 0
IsPlaced st block mem old done c =
    (done % 2 ≡ 0)
    × (done ≤ st.program_len)
    × (image c.trace mem ≡ placed (st.address * 2) done block old)

chunk-IsPlaced :
    (st : FwState) (block mem old : Array) (done have : ℕ) (c : Cart) (v : Verdict)
    → st.address + st.program_len / 2 ≤ 2 ^ 32
    → 1 ≤ have
    → done + have * 2 ≤ st.program_len
    → IsPlaced st block mem old done c
    → agb_program_chunk st block done have c ≡ some v
    → IsPlaced st block mem old (done + have * 2) v.cart
unfolding IsPlaced
chunk-IsPlaced st block mem old done have c v room pos le (even, within, here) h =
    let at : u32 (st.address + done / 2) * 2 ≡ st.address * 2 + done = omega arith in
    let l = to_list (have * 2) (from block done) in
    (
      omega arith,
      le,
      image-agb_program_chunk st block done have c mem v h
          ∙ ap₂ (place l) at here
          ∙ fun_ext λ x. place-placed (st.address * 2) done (have * 2) block old x,
    )

stop-IsPlaced :
    (st : FwState) (block mem old : Array) (done : ℕ) (c : Cart) (v : Verdict)
    → st.program_len ≤ done + 1
    → IsPlaced st block mem old done c
    → passed c ≡ some v
    → IsPlaced st block mem old (st.program_len / 2 * 2) v.cart
unfolding IsPlaced
stop-IsPlaced st block mem old done c v stop (even, within, here) h =
    let all : done ≡ st.program_len / 2 * 2 = omega arith in
    subst (λ d. IsPlaced st block mem old d v.cart) all
      (subst (λ (u : Verdict). IsPlaced st block mem old done u.cart)
        (some-injective (record { timed_out = none; cart = c }) v h) (even, within, here))

next_have-fits :
    (program : ℕ → ℕ → Cart → Option Verdict) (words n done : ℕ)
    → 1 ≤ words
    → done + 1 < n
    → (1 ≤ next_have program 2 words n done) × (done + next_have program 2 words n done * 2 ≤ n)
next_have-fits program words n done pos lt = (ground arith, ground arith)

-- What follows a chunk that passed, in a chain that passes.
passed_on :
    (w v : Verdict) (k : Cart → Option Verdict) (o : Option ℕ)
    → w.timed_out ≡ o
    → (elim o [ none ↦ k w.cart | some x ↦ some w ]) ≡ some v
    → v.timed_out ≡ none
    → k w.cart ≡ some v
passed_on w v k none e h ok = h
passed_on w v k (some x) e h ok =
    let t : w.timed_out ≡ v.timed_out = ap (λ (u : Verdict). u.timed_out) (some-injective w v h) in
    absurd (cc (e, t, ok))

-- The loop over the rest: passing, it gets to the last whole word.
loop-IsPlaced :
    (fuel done : ℕ) (st : FwState) (block mem old : Array) (words : ℕ) (c : Cart) (v : Verdict)
    → st.address + st.program_len / 2 ≤ 2 ^ 32
    → 1 ≤ words
    → st.program_len ≤ done + fuel
    → IsPlaced st block mem old done c
    → tail_loop (agb_program_chunk st block) 2 words fuel st.program_len done c ≡ some v
    → v.timed_out ≡ none
    → IsPlaced st block mem old (st.program_len / 2 * 2) v.cart
unfolding tail_loop
loop-IsPlaced zero done st block mem old words c v room pos enough p h ok =
    stop-IsPlaced st block mem old done c v (omega arith) p h
loop-IsPlaced (suc fuel) done st block mem old words c v room pos enough p h ok =
    let n = st.program_len in
    let program = agb_program_chunk st block in
    let b = ltb (done + 1) n in
    let have = next_have program 2 words n done in
    elim (Bool-cases b) [
      | inr e ↦
          stop-IsPlaced st block mem old done c v (ground arith) p
            (sym (if_false b _ (passed c) e) ∙ h)
      | inl e ↦
          let lt : done + 1 < n = ground arith in
          let (some_words, fits) = next_have-fits program words n done pos lt in
          let (w, q, f) =
            >>=-eq-some (program done have c) _ (sym (if_true b _ (passed c) e) ∙ h) in
          loop-IsPlaced fuel (done + have * 2) st block mem old words w.cart v room pos
            (omega arith) (chunk-IsPlaced st block mem old done have c w room some_words fits p q)
            (passed_on w v (tail_loop program 2 words fuel n (done + have * 2)) w.timed_out refl f
              ok)
            ok
    ]

-- A buffered AGB block for which `do_flash_program` returns 1, from its start: the bursts have put its
-- bytes, up to the last whole word, at the addresses from the session's on, and nothing anywhere else.
pub do_flash_program-placed :
    (w : Bool) (block mem : Array) (j : Job) (p : Programmed)
    → is_agb j.st.mode ≡ true
    → j.st.flash_method ≡ 2
    → 2 ≤ j.st.buffer_size
    → j.st.program_done ≡ 0
    → j.st.address + j.st.program_len / 2 ≤ 2 ^ 32
    → do_flash_program w block j ≡ some p
    → p.ok ≡ true
    → image p.job.cart.trace mem
      ≡ placed (j.st.address * 2) (j.st.program_len / 2 * 2) block (image j.cart.trace mem)
unfolding do_flash_program agb_buffered IsPlaced
do_flash_program-placed w block mem j p agb method size fresh room h ok =
    let st = j.st in
    let n = st.program_len in
    let buffered = st.flash_method == 2 && leb 2 st.buffer_size in
    let dead = not (st.program_stream_err == 0) in
    let loop =
      tail_loop (agb_program_chunk st block) 2 (st.buffer_size / 2) n n st.program_done j.cart in
    let b : buffered ≡ true = ground arith in
    let run : agb_buffered block j ≡ some p =
      sym (if_true (is_agb st.mode) _ _ agb ∙ if_true buffered _ _ b) ∙ h in
    elim (Bool-cases dead) [
      | inl e ↦
          let q = some-injective (aborted st (n / 2) j.cart) p (sym (if_true dead _ _ e) ∙ run) in
          let no : p.ok ≡ false = ap (λ (r : Programmed). r.ok) (sym q) in absurd (cc (ok, no))
      | inr e ↦
          let (v, t, f) = >>=-eq-some loop _ (sym (if_false dead _ _ e) ∙ run) in
          let q : finish st (n / 2) v ≡ p = some-injective (finish st (n / 2) v) p f in
          let good = passing v.timed_out (ap (λ (r : Programmed). r.ok) q ∙ ok) in
          let (_, _, here) =
            loop-IsPlaced n st.program_done st block mem (image j.cart.trace mem)
              (st.buffer_size / 2) j.cart v room (omega arith) (omega arith)
              (start st.program_done fresh) t good in
          ap (λ (r : Programmed). image r.job.cart.trace mem) (sym q) ∙ here
    ]
  where
    passing : (o : Option ℕ) → not (failed o) ≡ true → o ≡ none
    passing none e = refl
    passing (some x) e = absurd (cc e)

    start : (done : ℕ) → done ≡ 0 → IsPlaced j.st block mem (image j.cart.trace mem) done j.cart
    start done z =
        let base = j.st.address * 2 in
        (
          omega arith,
          omega arith,
          fun_ext λ x.
              let out : (leb base x && ltb x (base + done)) ≡ false = ground arith in
              sym (
                if_false (leb base x && ltb x (base + done)) (block (x - base))
                  (image j.cart.trace mem x) out),
        )
