-- ===== src/Usb/Sending.antt =====
-- src/usb.c: what `bl_usb_tx` sends, and in which order.
use open_gbflash_firmware.Common.{
  ℕ, zero, suc, ◌+◌, ◌-◌, ◌≤◌, ◌≡◌, refl, sym, ◌∙◌, ap, subst, arith, ltb, leb, ◌==◌, sub32,
  Bool-cases, inl, inr, if_true, if_false, List, [], ◌∷◌, ◌++◌, Array, from, Option, some, none,
}
use mathlib.Core.List.{append-nil, append_assoc}
use mathlib.Core.Option.{some-injective}
use open_gbflash_firmware.Usb.Queue.{to_list, to_list-add, to_list-cong}
use open_gbflash_firmware.Usb.Transmit.{Transmitter, Align, tx_buf_size}
use open_gbflash_firmware.Usb.Produce.{tx_queue}
use open_gbflash_firmware.Usb.Complete.{Line, in_transaction}
use open_gbflash_firmware.Usb.Owed.{left, owed, IsSound, IsWhole}
use open_gbflash_firmware.Usb.Delivery.{flat, in_transaction-IsOnward}
use open_gbflash_firmware.Usb.Drained.{transactions}
use open_gbflash_firmware.Usb.Handing.{tx_queue-owed}
use open_gbflash_firmware.Usb.Spent.{IsSpent, transactions-IsSpent, tx_queue-IsSpent}
use open_gbflash_firmware.Usb.Send.{
  Lull, Sent, started, queued_line, tx_loop, tx_timeout_ms, tx_dead_clock_polls,
}

-- A sound transmitter with nothing of a region left.
pub record IsReady (s : Transmitter) : Type 0 where
  pub sound : IsSound s
  pub whole : IsWhole s
  pub spent : IsSpent s

-- All that has gone out and is still to go, in order.
abbrev pub stream_of : Line → List ℕ
stream_of l = flat l.wire ++ owed l.tx

-- `l'` follows `l` with `bytes` handed over in between.
pub record Follows (l : Line) (bytes : List ℕ) (l' : Line) : Type 0 where
  pub ready : IsReady l'.tx
  pub stream : stream_of l' ≡ stream_of l ++ bytes

pub left-IsSpent : (s : Transmitter) → IsSpent s → left s ≡ 0
left-IsSpent s p = omega (arith, p.level)

pub transactions-Follows :
    (n : ℕ) (al : Align) (l : Line) → IsReady l.tx → Follows l [] (transactions n al l)
unfolding transactions
transactions-Follows n al l r =
    let (v, w, e) = go n l r.sound r.whole in
    record {
      ready = record { sound = v; whole = w; spent = transactions-IsSpent n al l r.spent };
      stream = e ∙ sym (append-nil (stream_of l));
    }
  where
    go :
        (n : ℕ) (l : Line)
        → IsSound l.tx
        → IsWhole l.tx
        → IsSound (transactions n al l).tx
          × IsWhole (transactions n al l).tx
          × (stream_of (transactions n al l) ≡ stream_of l)
    go zero l v w = (v, w, refl)
    go (suc n) l v w =
        let o = in_transaction-IsOnward al l v w in
        let (v2, w2, e) = go n (in_transaction al l) o.sound o.whole in (v2, w2, e ∙ o.bytes)

pub queued_line-Follows :
    (al : Align) (l : Line) (n : ℕ) (src : Array)
    → IsReady l.tx
    → Follows l (to_list (tx_queue al l.tx n src).0 src) (queued_line al l n src)
      × ((tx_queue al l.tx n src).0 ≤ n)
queued_line-Follows al l n src r =
    let (k, (v, (w, e))) = tx_queue-owed al l.tx n src r.sound (left-IsSpent l.tx r.spent) in
    (
      record {
        ready = record { sound = v; whole = w; spent = tx_queue-IsSpent al l.tx n src r.spent };
        stream =
            ap (λ o. flat l.wire ++ o) e
            ∙ sym (append_assoc (flat l.wire) (owed l.tx) (to_list (tx_queue al l.tx n src).0 src));
      },
      omega (arith, k),
    )

Follows-then : (l m k : Line) (a b : List ℕ) → Follows l a m → Follows m b k → Follows l (a ++ b) k
Follows-then l m k a b p q = record {
  ready = q.ready;
  stream = q.stream ∙ ap (λ s. s ++ b) p.stream ∙ append_assoc (stream_of l) a b;
}

-- The bytes from `sent` to `count` have been handed over.
abbrev pub Hands : Line → ℕ → ℕ → Array → Sent → Type 0
Hands l sent n src s =
    (sent ≤ s.count) × (s.count ≤ n) × Follows l (to_list (s.count - sent) (from src sent)) s.line

-- One step of `more` bytes, and then the rest.
Hands-step :
    (l m : Line) (sent more n : ℕ) (src : Array) (s : Sent)
    → Follows l (to_list more (from src sent)) m
    → Hands m (sent + more) n src s
    → Hands l sent n src s
Hands-step l m sent more n src s p (a, b, q) =
    let d = s.count - (sent + more) in
    let len : s.count - sent ≡ more + d = omega arith in
    let bytes : to_list more (from src sent) ++ to_list d (from src (sent + more))
        ≡ to_list (s.count - sent) (from src sent) =
      ap (λ t. to_list more (from src sent) ++ t)
        (to_list-cong d (from src (sent + more)) (from (from src sent) more)
          (λ i lt. ap src (omega arith)))
      ∙ sym (to_list-add more d (from src sent))
      ∙ ap (λ k. to_list k (from src sent)) (sym len) in
    (omega arith, b, subst (λ t. Follows l t s.line) bytes (Follows-then l m s.line _ _ p q))

-- The call ends here.
Hands-end :
    (l m : Line) (sent more n : ℕ) (src : Array) (s : Sent)
    → sent + more ≤ n
    → Follows l (to_list more (from src sent)) m
    → some (record { count = sent + more; line = m }) ≡ some s
    → Hands l sent n src s
Hands-end l m sent more n src s le p h =
    let e : record { count = sent + more; line = m } ≡ s = some-injective _ s h in
    let len : more ≡ sent + more - sent = omega arith in
    subst (Hands l sent n src) e
      (omega arith, le, subst (λ k. Follows l (to_list k (from src sent)) m) len p)

pub tx_loop-Hands :
    (ts : List Lull) (al : Align) (start : Option ℕ) (frozen : ℕ) (l : Line) (sent n : ℕ)
    (src : Array) (s : Sent)
    → IsReady l.tx
    → sent ≤ n
    → tx_loop ts al start frozen l sent n src ≡ some s
    → Hands l sent n src s
unfolding tx_loop
tx_loop-Hands [] al start frozen l sent n src s r le h =
    let (p, fits) = queued_line-Follows al l (n - sent) (from src sent) r in
    let more = (tx_queue al l.tx (n - sent) (from src sent)).0 in
    elim (Bool-cases (leb n (sent + more))) [
      | inl e ↦ Hands-end l _ sent more n src s (omega arith) p (sym (if_true _ _ _ e) ∙ h)
      | inr e ↦ absurd (cc (sym (if_false (leb n (sent + more)) _ none e) ∙ h))
    ]
tx_loop-Hands (t ∷ ts) al start frozen l sent n src s r le h =
    let (p, fits) = queued_line-Follows al l (n - sent) (from src sent) r in
    let more = (tx_queue al l.tx (n - sent) (from src sent)).0 in
    let q = queued_line al l (n - sent) (from src sent) in
    let m = transactions t.taken al q in
    let since = started start t.now in
    let after = transactions-Follows t.taken al q p.ready in
    let onward : Follows l (to_list more (from src sent)) m =
      subst (λ b. Follows l b m) (append-nil (to_list more (from src sent)))
        (Follows-then l q m (to_list more (from src sent)) [] p after) in
    let stops = Hands-end l m sent more n src s (omega arith) onward in
    let goes = λ (st : Option ℕ) (f : ℕ) (g : tx_loop ts al st f m (sent + more) n src ≡ some s).
      Hands-step l m sent more n src s onward
        (tx_loop-Hands ts al st f m (sent + more) n src s after.ready (omega arith) g) in
    elim (Bool-cases (leb n (sent + more))) [
      | inl e ↦ Hands-end l q sent more n src s (omega arith) p (sym (if_true _ _ _ e) ∙ h)
      | inr e ↦
          let h1 = sym (if_false (leb n (sent + more)) _ _ e) ∙ h in
          elim (Bool-cases (ltb m.tx.head tx_buf_size)) [
            | inl a ↦ goes start frozen (sym (if_true _ _ _ a) ∙ h1)
            | inr a ↦
                let h2 = sym (if_false (ltb m.tx.head tx_buf_size) _ _ a) ∙ h1 in
                elim (Bool-cases (leb tx_timeout_ms (sub32 t.now since))) [
                  | inl b ↦ stops (sym (if_true _ _ _ b) ∙ h2)
                  | inr b ↦
                      let h3 = sym (if_false (leb tx_timeout_ms (sub32 t.now since)) _ _ b) ∙ h2 in
                      elim (Bool-cases (t.now == since)) [
                        | inl c ↦
                            let h4 = sym (if_true (t.now == since) _ _ c) ∙ h3 in
                            elim (Bool-cases (leb tx_dead_clock_polls (frozen + 1))) [
                              | inl d ↦ stops (sym (if_true _ _ _ d) ∙ h4)
                              | inr d ↦ goes (some since) (frozen + 1) (sym (if_false _ _ _ d) ∙ h4)
                            ]
                        | inr c ↦ goes (some since) frozen (sym (if_false _ _ _ c) ∙ h3)
                      ]
                ]
          ]
    ]
