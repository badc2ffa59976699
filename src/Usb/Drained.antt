-- ===== src/Usb/Drained.antt =====
-- src/usb.c: a host that keeps asking gets everything, and the endpoint is parked in the end.
use open_gbflash_firmware.Common.{
  ℕ, zero, suc, ◌+◌, ◌-◌, ◌*◌, ◌≤◌, ◌<◌, ◌≡◌, refl, sym, subst, ◌∙◌, ap, ap₂, arith, ◌==◌,
  if◌then◌else◌, inl, inr, Bool, true, false, Bool-cases, List, [], ◌∷◌, ◌++◌, length, Array,
  if_true, if_false, from,
}
use mathlib.Core.List.{append-nil}
use open_gbflash_firmware.Common.Lists.{length-append}
use open_gbflash_firmware.Usb.Queue.{to_list}
use open_gbflash_firmware.Usb.Transmit.{Transmitter, Align}
use open_gbflash_firmware.Usb.Complete.{packet, accepted, service_in, Line, in_transaction}
use open_gbflash_firmware.Usb.Owed.{left, owed, IsWhole, IsSound}
use open_gbflash_firmware.Usb.Pump.{IsUp}
use open_gbflash_firmware.Usb.Delivery.{flat, IsNext, service_in-IsNext, in_transaction-IsOnward}

-- A packet is up, or a terminator, or nothing is owed.
pub data IsRunning (s : Transmitter) : Type 0 where
  packet_up : s.armed ≡ true → 0 < s.t_len → IsRunning s
  terminator : s.armed ≡ true → s.t_len ≡ 0 → s.last_full ≡ false → IsRunning s
  nothing : s.armed ≡ false → owed s ≡ [] → IsRunning s

-- `n` IN transactions.
unfoldable pub transactions : ℕ → Align → Line → Line
unfolding in_transaction
transactions zero al l = l
transactions (suc n) al l = transactions n al (in_transaction al l)

-- What the packet that is up counts for: a terminator may be followed by a packet.
abbrev pub weight : Bool → ℕ → ℕ
weight up n = if up then (if n == 0 then 3 else 1) else 0

-- How many more transactions there can be at most.
abbrev pub to_go : Transmitter → ℕ
to_go s = 3 * length (owed s) + weight s.armed s.t_len

length-to_list : (n : ℕ) (a : Array) → length (to_list n a) ≡ n
length-to_list zero a = refl
length-to_list (suc n) a = ap suc (length-to_list n (from a 1))

owed_nothing : (t : Transmitter) → t.armed ≡ false → t.head ≡ t.tail → left t ≡ 0 → owed t ≡ []
owed_nothing t na h z =
    let e : t.head - t.tail ≡ 0 = omega arith in
    elim (Bool-cases t.pipe_armed) [ inl p ↦ rw (na, e, z, p) refl | inr p ↦ rw (na, e, z, p) refl ]

IsRunning-next : (s t : Transmitter) → IsUp s t → IsRunning t
IsRunning-next s t u = elim u [
  | IsUp.packet_up a b ↦ IsRunning.packet_up a b
  | IsUp.terminator _ a b x ↦ IsRunning.terminator a b x
  | IsUp.nothing a b x ↦ IsRunning.nothing a (owed_nothing t a b x)
]

weight-packet : (up : Bool) (n : ℕ) → up ≡ true → 0 < n → weight up n ≡ 1
weight-packet up n e h = ground arith

weight-terminator : (up : Bool) (n : ℕ) → up ≡ true → n ≡ 0 → weight up n ≡ 3
weight-terminator up n e h = ground arith

weight-nothing : (up : Bool) (n : ℕ) → up ≡ false → weight up n ≡ 0
weight-nothing up n e = ground arith

weight-le : (up : Bool) (n : ℕ) → weight up n ≤ 3
weight-le up n = ground arith

fewer : (a b k w y : ℕ) → a ≡ k + b → 0 < k → w ≡ 1 → y ≤ 3 → 3 * b + y < 3 * a + w
fewer a b k w y e p f h = omega arith

no_more : (a b k w y : ℕ) → a ≡ k + b → k ≡ 0 → w ≡ 3 → y ≤ 1 → 3 * b + y < 3 * a + w
no_more a b k w y e p f h = omega arith

-- After a terminator comes no other.
weight-next : (s t : Transmitter) → s.last_full ≡ false → IsUp s t → weight t.armed t.t_len ≤ 1
weight-next s t f u = elim u [
  | IsUp.packet_up a b ↦ let w = weight-packet t.armed t.t_len a b in omega arith
  | IsUp.terminator lf a b x ↦ absurd (cc (f, lf))
  | IsUp.nothing a b x ↦ let w = weight-nothing t.armed t.t_len a in omega arith
]

to_go-next : (s t : Transmitter) → IsRunning s → s.armed ≡ true → IsNext s t → to_go t < to_go s
to_go-next s t r up n =
    let e : length (owed s) ≡ s.t_len + length (owed t) =
      ap length n.sends
      ∙ length-append (packet s) (owed t)
      ∙ ap (λ k. k + length (owed t)) (length-to_list s.t_len _) in
    elim r [
      | IsRunning.packet_up a b ↦
          fewer (length (owed s)) (length (owed t)) s.t_len (weight s.armed s.t_len)
            (weight t.armed t.t_len) e b (weight-packet s.armed s.t_len a b)
            (weight-le t.armed t.t_len)
      | IsRunning.terminator a b x ↦
          no_more (length (owed s)) (length (owed t)) s.t_len (weight s.armed s.t_len)
            (weight t.armed t.t_len) e b (weight-terminator s.armed s.t_len a b)
            (weight-next s t x n.next)
      | IsRunning.nothing a b ↦ absurd (cc (up, a))
    ]

-- Nothing to go is nothing up and nothing owed.
still : (s : Transmitter) → IsRunning s → s.armed ≡ false → owed s ≡ []
still s r na = elim r [
  | IsRunning.packet_up a b ↦ absurd (cc (na, a))
  | IsRunning.terminator a b x ↦ absurd (cc (na, a))
  | IsRunning.nothing a b ↦ b
]

weight_pos : (up : Bool) (n : ℕ) → up ≡ true → 0 < weight up n
weight_pos up n e = ground arith

up_to_go : (s : Transmitter) → s.armed ≡ true → 0 < to_go s
up_to_go s up = pos (length (owed s)) (weight s.armed s.t_len) (weight_pos s.armed s.t_len up)
  where
    pos : (a w : ℕ) → 0 < w → 0 < 3 * a + w
    pos a w h = omega arith

to_go_still : (s : Transmitter) → IsRunning s → s.armed ≡ false → to_go s ≡ 0
to_go_still s r na =
    ap₂ (λ (o : List ℕ) (k : ℕ). 3 * length o + k) (still s r na)
      (weight-nothing s.armed s.t_len na)

-- The line after the transaction of an armed endpoint.
abbrev taken : Align → Line → Line
taken al l = record { tx = service_in al (accepted l.tx); wire = l.wire ++ (packet l.tx ∷ []) }

-- After `n` transactions the endpoint is parked, and the wire carries `bytes`.
abbrev Emptied : ℕ → Align → List ℕ → Line → Type 0
Emptied n al bytes k =
    ((transactions n al k).tx.armed ≡ false) × (flat (transactions n al k).wire ≡ bytes)

-- From a sound transmitter that has published whole packets or the whole region, and that has a
-- packet or the terminator up or owes nothing: a host that goes on asking gets every byte owed, in
-- order and once, and then the endpoint is parked. Three transactions for every byte owed and three more are more than
-- enough.
pub transactions-drain :
    (n : ℕ) (al : Align) (l : Line)
    → IsSound l.tx
    → IsWhole l.tx
    → IsRunning l.tx
    → to_go l.tx ≤ n
    → let m = transactions n al l in (m.tx.armed ≡ false) × (flat m.wire ≡ flat l.wire ++ owed l.tx)
unfolding transactions
transactions-drain zero al l v w r h = elim (Bool-cases l.tx.armed) [
  | inl up ↦ absurd (lt_zero (to_go l.tx) (up_to_go l.tx up) h)
  | inr na ↦ (na, sym (ap (λ o. flat l.wire ++ o) (still l.tx r na) ∙ append-nil (flat l.wire)))
]
  where
    lt_zero : (k : ℕ) → 0 < k → k ≤ 0 → ⊥
    lt_zero k a b = omega arith
transactions-drain (suc n) al l v w r h = elim (Bool-cases l.tx.armed) [
  | inl up ↦
      let e : in_transaction al l ≡ taken al l =
        unfold in_transaction in if_true l.tx.acking (taken al l) l (v.shown ∙ up) in
      let q = service_in-IsNext al l.tx v w up in
      let run = IsRunning-next l.tx (service_in al (accepted l.tx)) q.next in
      let d =
        transactions-drain n al (taken al l) q.sound q.whole run
          (less (to_go (taken al l).tx) (to_go l.tx) n (to_go-next l.tx _ r up q) h) in
      let b : flat (taken al l).wire ++ owed (taken al l).tx ≡ flat l.wire ++ owed l.tx =
        ap (λ m. flat m.wire ++ owed m.tx) (sym e) ∙ (in_transaction-IsOnward al l v w).bytes in
      subst (Emptied n al (flat l.wire ++ owed l.tx)) (sym e) (d.0, d.1 ∙ b)
  | inr na ↦
      let e : in_transaction al l ≡ l =
        unfold in_transaction in if_false l.tx.acking (taken al l) l (v.shown ∙ na) in
      subst (Emptied n al (flat l.wire ++ owed l.tx)) (sym e)
        (transactions-drain n al l v w r (none (to_go l.tx) n (to_go_still l.tx r na)))
]
  where
    less : (a b n : ℕ) → a < b → b ≤ suc n → a ≤ n
    less a b n x y = omega arith

    none : (a n : ℕ) → a ≡ 0 → a ≤ n
    none a n x = omega arith
