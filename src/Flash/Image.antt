-- ===== src/Flash/Image.antt =====
-- src/main.c: the bytes that the bursts of a buffered AGB block have put at the cartridge's addresses.
use open_gbflash_firmware.Common.{
  ℕ, zero, suc, ◌+◌, ◌-◌, ◌*◌, ◌/◌, ◌<◌, ltb, leb, not, ◌&&◌, if◌then◌else◌, u32, arith, ◌≡◌, refl,
  sym, ◌∙◌, ap, Bool-cases, inl, inr, if_true, if_false, List, [], ◌∷◌, length, of_list, Array,
  from, Option, some, Bool, true, false, >>=-eq-some,
}
use mathlib.Core.Option.{some-injective}
use open_gbflash_firmware.Proto.State.{FwState}
use open_gbflash_firmware.Usb.Queue.{to_list}
use open_gbflash_firmware.Glue.Link.{expired}
use open_gbflash_firmware.Flash.Bus.{Access, Poll, Cart, ◌▹◌}
use open_gbflash_firmware.Flash.Wait.{
  Verdict, is_amd, is_done, is_sharp, ask, agb_wait, deadline_of, agb_status_wait,
}
use open_gbflash_firmware.Flash.Agb.{agb_load, read_array, agb_program_chunk}

-- `bytes` from the byte address `at` on.
abbrev pub place : List ℕ → ℕ → Array → Array
place bytes at mem x =
    if leb at x && ltb x (at + length bytes) then of_list bytes (x - at) else mem x

-- The bytes after the calls of a trace. A word address counts two bytes.
abbrev pub image : List Access → Array → Array
image [] mem = mem
image (Access.agb_burst sa bytes ∷ before) mem = place bytes (sa * 2) (image before mem)
image (_ ∷ before) mem = image before mem

length-to_list : (n : ℕ) (a : Array) → length (to_list n a) ≡ n
length-to_list zero a = refl
length-to_list (suc n) a = omega (arith, length-to_list n (from a 1))

of_list-to_list : (n i : ℕ) (a : Array) → i < n → of_list (to_list n a) i ≡ a i
of_list-to_list zero i a lt = absurd (omega arith)
of_list-to_list (suc n) zero a lt = refl
of_list-to_list (suc n) (suc i) a lt =
    of_list-to_list n i (from a 1) (omega arith) ∙ ap a (omega arith)

-- The first `done` bytes of a block at the byte address `base`.
abbrev pub placed : ℕ → ℕ → Array → Array → Array
placed base done block mem x = if leb base x && ltb x (base + done) then block (x - base) else mem x

pub place-placed :
    (base done k : ℕ) (block mem : Array) (x : ℕ)
    → place (to_list k (from block done)) (base + done) (placed base done block mem) x
      ≡ placed base (done + k) block mem x
place-placed base done k block mem x =
    let l = to_list k (from block done) in
    let here = leb (base + done) x && ltb x (base + done + length l) in
    let len : length l ≡ k = length-to_list k (from block done) in
    elim (Bool-cases here) [
      | inl e ↦
          let i = x - (base + done) in
          let lt : i < k = ground (arith, len) in
          let in_range : (leb base x && ltb x (base + (done + k))) ≡ true = ground (arith, len) in
          let at : done + i ≡ x - base = ground arith in
          if_true here _ _ e
          ∙ of_list-to_list k i (from block done) lt
          ∙ ap block at
          ∙ sym (if_true _ (block (x - base)) (mem x) in_range)
      | inr e ↦
          let same : (leb base x && ltb x (base + done))
              ≡ (leb base x && ltb x (base + (done + k))) =
            ground (arith, len) in
          if_false here _ _ e ∙ ap (λ b. if b then block (x - base) else mem x) same
    ]

-- A status wait puts nothing.
abbrev Same : Array → Cart → Option Verdict → Type 0
Same mem c m = (v : Verdict) → m ≡ some v → image v.cart.trace mem ≡ image c.trace mem

Same-if :
    (b : Bool) {m n : Option Verdict} (mem : Array) (c : Cart)
    → Same mem c m
    → Same mem c n
    → Same mem c (if b then m else n)
Same-if true mem c p q = p
Same-if false mem c p q = q

Same-some :
    (v : Verdict) (mem : Array) (c : Cart)
    → image v.cart.trace mem ≡ image c.trace mem
    → Same mem c (some v)
Same-some v mem c e w h =
    ap (λ (x : Verdict). image x.cart.trace mem) (some-injective w v (sym h)) ∙ e

image-ask :
    (st : FwState) (a : ℕ) (c : Cart) (mem : Array)
    → image (ask st a c).trace mem ≡ image c.trace mem
image-ask st a c mem = go (is_sharp st)
  where
    go :
        (b : Bool)
        → image
            (if b
              then c ▹ Access.agb_write a 0x70 ▹ Access.delay_nops 56 ▹ Access.agb_peek a
              else c ▹ Access.agb_peek a).trace
            mem
          ≡ image c.trace mem
    go true = refl
    go false = refl

image-agb_wait :
    (ts : List Poll) (st : FwState) (deadline a want : ℕ) (c : Cart) (mem : Array)
    → Same mem c (agb_wait ts st deadline a want c)
unfolding agb_wait
image-agb_wait [] st deadline a want c mem v h = absurd (cc h)
image-agb_wait (t ∷ ts) st deadline a want c mem v h =
    let c1 = record (ask st a c) { turns = ts } in
    let c2 = if is_sharp st then c1 else c1 ▹ Access.agb_peek a in
    let kept : image c1.trace mem ≡ image c.trace mem = image-ask st a c mem in
    let kept2 : image c2.trace mem ≡ image c.trace mem = peeked (is_sharp st) c1 ∙ kept in
    Same-if (is_done st want t.first) mem c (Same-some _ mem c kept)
      (Same-if (expired t.now deadline) mem c (Same-some _ mem c kept) (
        Same-if (not (is_sharp st) && is_done st want t.again) mem c (Same-some _ mem c kept2)
          (λ u e. image-agb_wait ts st deadline a want c2 mem u e ∙ kept2)))
      v h
  where
    peeked :
        (b : Bool) (d : Cart)
        → image (if b then d else d ▹ Access.agb_peek a).trace mem ≡ image d.trace mem
    peeked true d = refl
    peeked false d = refl

image-agb_status_wait :
    (st : FwState) (a want : ℕ) (c : Cart) (mem : Array) → Same mem c (agb_status_wait st a want c)
unfolding agb_status_wait
image-agb_status_wait st a want c mem = image-agb_wait c.turns st (deadline_of c.turns) a want c mem

image-agb_load :
    (st : FwState) (sa have : ℕ) (c : Cart) (mem : Array)
    → image (agb_load st sa have c).trace mem ≡ image c.trace mem
image-agb_load st sa have c mem = elim (Bool-cases (is_amd st)) [
  | inl e ↦ ap (λ (d : Cart). image d.trace mem) (if_true (is_amd st) _ _ e)
  | inr e ↦ ap (λ (d : Cart). image d.trace mem) (if_false (is_amd st) _ _ e)
]

image-read_array :
    (st : FwState) (sa : ℕ) (v : Verdict) (mem : Array)
    → image (read_array st sa v).cart.trace mem ≡ image v.cart.trace mem
image-read_array st sa v mem = elim (Bool-cases (is_amd st)) [
  | inl e ↦ ap (λ (u : Verdict). image u.cart.trace mem) (if_true (is_amd st) _ _ e)
  | inr e ↦ ap (λ (u : Verdict). image u.cart.trace mem) (if_false (is_amd st) _ _ e)
]

-- A chunk puts its own bytes, whether or not it times out.
pub image-agb_program_chunk :
    (st : FwState) (block : Array) (done have : ℕ) (c : Cart) (mem : Array) (v : Verdict)
    → agb_program_chunk st block done have c ≡ some v
    → image v.cart.trace mem
      ≡ place
          (to_list (have * 2) (from block done))
          (u32 (st.address + done / 2) * 2)
          (image c.trace mem)
unfolding agb_program_chunk
image-agb_program_chunk st block done have c mem v h =
    let sa = u32 (st.address + done / 2) in
    let bytes = to_list (have * 2) (from block done) in
    let (w, e, f) = >>=-eq-some (agb_status_wait st _ _ _) (λ w. some (read_array st sa w)) h in
    ap (λ (u : Verdict). image u.cart.trace mem) (some-injective v (read_array st sa w) (sym f))
    ∙ image-read_array st sa w mem
    ∙ image-agb_status_wait st _ _ _ mem w e
    ∙ ap (place bytes (sa * 2)) (image-agb_load st sa have c mem)
