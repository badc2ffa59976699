-- ===== src/Usb/Stopped.antt =====
-- src/usb.c: `bl_usb_tx` returns even on a clock that stands still.
use Prim.{Unit}
use open_gbflash_firmware.Common.{
  ℕ, ◌+◌, ◌-◌, ◌≤◌, ◌<◌, ◌≡◌, refl, sym, ◌∙◌, ap, ap₂, fun_ext, subst, arith, ltb, leb, ◌==◌,
  if◌then◌else◌, sub32, Bool, true, false, Bool-cases, inl, inr, ◌⊎◌, if_true, if_false, eq→==,
  List, [], ◌∷◌, length, Array, from, Option, some, none,
}
use mathlib.Core.List.{append-nil}
use open_gbflash_firmware.Usb.Queue.{to_list}
use open_gbflash_firmware.Usb.Transmit.{Transmitter, Align, tx_buf_size}
use open_gbflash_firmware.Usb.Produce.{tx_queue}
use open_gbflash_firmware.Usb.Complete.{Line}
use open_gbflash_firmware.Usb.Handing.{tx_queue-owed}
use open_gbflash_firmware.Usb.Drained.{transactions}
use open_gbflash_firmware.Usb.Send.{
  Lull, Sent, started, queued_line, tx_loop, usb_tx, tx_timeout_ms, tx_dead_clock_polls,
}
use open_gbflash_firmware.Usb.Sending.{
  IsReady, Follows, stream_of, left-IsSpent, transactions-Follows, queued_line-Follows,
  tx_loop-Hands,
}

-- Every lull reads the clock at `now`.
abbrev pub AllAt : ℕ → List Lull → Type 0
AllAt now [] = Unit
AllAt now (t ∷ ts) = (t.now ≡ now) × AllAt now ts

abbrev Returns : Option Sent → Type 0
Returns o = (s : Sent) × (o ≡ some s)

if-Returns :
    (b : Bool) (x y : Option Sent)
    → (b ≡ true → Returns x)
    → (b ≡ false → Returns y)
    → Returns (if b then x else y)
if-Returns true x y p q = p refl
if-Returns false x y p q = q refl

leb-less : (a b : ℕ) → leb a b ≡ false → b < a
leb-less a b e = ground arith

ltb-less : (a b : ℕ) → ltb a b ≡ true → a < b
ltb-less a b e = ground arith

-- With room in the staging buffer a round takes something.
takes :
    (al : Align) (s : Transmitter) (n : ℕ) (src : Array)
    → IsReady s
    → s.head < tx_buf_size
    → 1 ≤ n
    → 1 ≤ (tx_queue al s n src).0
takes al s n src r room pos =
    let (k, _) = tx_queue-owed al s n src r.sound (left-IsSpent s r.spent) in omega (arith, k)

started-at :
    (start : Option ℕ) (now at : ℕ)
    → (start ≡ none) ⊎ (start ≡ some now)
    → at ≡ now
    → started start at ≡ now
started-at start now at (inl e) q = ap (λ o. started o at) e ∙ q
started-at start now at (inr e) q = ap (λ o. started o at) e

-- `idle` is 1 where the last round may have found the staging buffer full.
tx_loop-Returns :
    (ts : List Lull) (al : Align) (start : Option ℕ) (frozen : ℕ) (l : Line) (sent n : ℕ)
    (src : Array) (now idle : ℕ)
    → IsReady l.tx
    → sent ≤ n
    → (start ≡ none) ⊎ (start ≡ some now)
    → AllAt now ts
    → (l.tx.head < tx_buf_size) ⊎ (1 ≤ idle)
    → n - sent + (tx_dead_clock_polls - frozen) + idle ≤ length ts
    → Returns (tx_loop ts al start frozen l sent n src)
unfolding tx_loop
tx_loop-Returns [] al start frozen l sent n src now idle r le known at room enough =
    let more = (tx_queue al l.tx (n - sent) (from src sent)).0 in
    if-Returns (leb n (sent + more)) _ none (λ e. (_, refl))
      (λ e. absurd (omega (arith, leb-less n (sent + more) e)))
tx_loop-Returns (t ∷ ts) al start frozen l sent n src now idle r le known (here, at) room enough =
    let (p, fits) = queued_line-Follows al l (n - sent) (from src sent) r in
    let more = (tx_queue al l.tx (n - sent) (from src sent)).0 in
    let q = queued_line al l (n - sent) (from src sent) in
    let m = transactions t.taken al q in
    let since = started start t.now in
    let after = transactions-Follows t.taken al q p.ready in
    let level : since ≡ now = started-at start now t.now known here in
    if-Returns (leb n (sent + more)) _ _ (λ e. (_, refl))
      (λ e.
        let less = leb-less n (sent + more) e in
        let gain : 1 ≤ more + idle = elim room [
          | inl a ↦ omega (arith, takes al l.tx (n - sent) (from src sent) r a (omega arith))
          | inr a ↦ omega arith
        ] in
        if-Returns (ltb m.tx.head tx_buf_size) _ _
          (λ a.
            tx_loop-Returns ts al start frozen m (sent + more) n src now 0 after.ready (omega arith)
              known at (inl (ltb-less m.tx.head tx_buf_size a)) (omega arith))
          (λ a.
            if-Returns (leb tx_timeout_ms (sub32 t.now since)) _ _ (λ b. (_, refl))
              (λ b.
                if-Returns (t.now == since) _ _
                  (λ c.
                    if-Returns (leb tx_dead_clock_polls (frozen + 1)) _ _ (λ d. (_, refl))
                      (λ d.
                        let polls = leb-less tx_dead_clock_polls (frozen + 1) d in
                        tx_loop-Returns ts al (some since) (frozen + 1) m (sent + more) n src now 1
                          after.ready (omega arith) (inr (ap some level)) at (inr (omega arith))
                          (omega arith)))
                  (λ c. absurd (cc (c, eq→== t.now since (here ∙ sym level)))))))

-- From a sound transmitter with nothing of a region left: on a clock that stands still the call
-- returns, within a poll for every byte, one more, and the polls of the backstop, whatever the host
-- takes meanwhile. What it reports as sent has been handed over, in order.
pub usb_tx-Returns :
    (ts : List Lull) (al : Align) (l : Line) (n : ℕ) (src : Array) (now : ℕ)
    → IsReady l.tx
    → AllAt now ts
    → n + tx_dead_clock_polls + 1 ≤ length ts
    → (s : Sent) × (usb_tx ts al l n src ≡ some s)
      × (s.count ≤ n)
      × Follows l (to_list s.count src) s.line
unfolding usb_tx
usb_tx-Returns ts al l n src now r at enough = elim (Bool-cases (n == 0)) [
  | inl e ↦ (
    record { count = 0; line = l },
    if_true (n == 0) _ _ e,
    omega arith,
    record { ready = r; stream = sym (append-nil (stream_of l)) },
  )
  | inr e ↦
      let (s, h) =
        tx_loop-Returns ts al none 0 l 0 n src now 1 r (omega arith) (inl refl) at
          (inr (omega arith)) (omega arith) in
      let (a, b, p) = tx_loop-Hands ts al none 0 l 0 n src s r (omega arith) h in
      let from_start : from src 0 ≡ src = fun_ext λ i. ap src (omega arith) in
      (
        s,
        if_false (n == 0) _ _ e ∙ h,
        b,
        subst (λ t. Follows l t s.line) (ap₂ to_list (omega arith) from_start) p,
      )
]
