-- ===== src/Usb/Spent.antt =====
-- src/usb.c: with nothing of a region left, no completion and no queueing sends from one.
use open_gbflash_firmware.Common.{
  ℕ, zero, suc, ◌+◌, ◌-◌, ◌^◌, ◌%◌, ◌<◌, u16, sub16, ◌≡◌, refl, sym, ◌∙◌, ap, subst, arith, ltb,
  leb, not, ◌&&◌, ◌||◌, if◌then◌else◌, ◌==◌, if_false, [], ◌∷◌, ◌++◌, Array, from, Bool, true,
  false,
}
use open_gbflash_firmware.Usb.Copy.{usb_copy}
use open_gbflash_firmware.Usb.Transmit.{
  Transmitter, Align, tx_buf_size, tx_stage_slots, tx_stage_pop, tx_direct_ready, pump_ring,
  pump_idle, pump_region, tx_pump, tx_pumps,
}
use open_gbflash_firmware.Usb.Complete.{
  Line, packet, credit_sent, refill, service_in, accepted, in_transaction,
}
use open_gbflash_firmware.Usb.Produce.{tx_lock_chunk, fill_queue, tx_queue}
use open_gbflash_firmware.Usb.Drained.{transactions}

-- Everything published has been copied; packets of 64 bytes.
pub record IsSpent (s : Transmitter) : Type 0 where
  pub level : s.dir_pos ≡ s.dir_avail
  pub small : s.dir_avail < 2 ^ 16
  pub size : s.pkt_in ≡ 64

if-IsSpent : (b : Bool) (x y : Transmitter) → IsSpent x → IsSpent y → IsSpent (if b then x else y)
if-IsSpent true x y p q = p
if-IsSpent false x y p q = q

pair-IsSpent :
    (b : Bool) (x y : ℕ × Transmitter)
    → IsSpent (x.1)
    → IsSpent (y.1)
    → IsSpent ((if b then x else y).1)
pair-IsSpent true x y p q = p
pair-IsSpent false x y p q = q

-- What only moves other fields.
moved :
    (s t : Transmitter)
    → IsSpent s
    → t.dir_pos ≡ s.dir_pos
    → t.dir_avail ≡ s.dir_avail
    → t.pkt_in ≡ s.pkt_in
    → IsSpent t
moved s t p a b c = record {
  level = a ∙ p.level ∙ sym b;
  small = omega (arith, p.small, b);
  size = c ∙ p.size;
}

ready-IsSpent : (s : Transmitter) → IsSpent s → tx_direct_ready s ≡ 0
unfolding tx_direct_ready
ready-IsSpent s p = go s.dir_nominated
  where
    none_left : sub16 s.dir_avail s.dir_pos ≡ 0
    none_left = omega (arith, p.level, p.small)

    go : (b : Bool) → (if b then sub16 s.dir_avail s.dir_pos else 0) ≡ 0
    go true = none_left
    go false = refl

tx_pump-IsSpent : (al : Align) (s : Transmitter) → IsSpent s → IsSpent (tx_pump al s)
unfolding tx_pump pump_ring pump_idle
tx_pump-IsSpent al s p =
    let none : not (tx_direct_ready s == 0) ≡ false =
      ap (λ (n : ℕ). not (n == 0)) (ready-IsSpent s p) in
    let n = sub16 s.head s.tail in
    if-IsSpent (not (n == 0)) (pump_ring al s n) _ (moved s (pump_ring al s n) p refl refl refl) (
      subst IsSpent
        (sym (if_false (not (tx_direct_ready s == 0)) (pump_region al s) (pump_idle s) none))
        (if-IsSpent s.last_full
          (record s { t_len = 0; last_full = false; acking = true; armed = true })
          (record s { head = 0; tail = 0; t_len = 0; acking = false; armed = false })
          (moved s _ p refl refl refl) (moved s _ p refl refl refl)))

popped : (s : Transmitter) → IsSpent s → IsSpent ((tx_stage_pop s).1)
popped s p =
    let out = if s.stage_dir s.stage_tail == 0 then 0 else s.stage_len s.stage_tail in
    let r : Transmitter = record s { stage_tail = (s.stage_tail + 1) % tx_stage_slots } in
    pair-IsSpent (s.stage_head == s.stage_tail) (0, s) (out, r) p (moved s r p refl refl refl)

credit_sent-IsSpent : (s : Transmitter) → IsSpent s → IsSpent (credit_sent s)
unfolding credit_sent
credit_sent-IsSpent s p =
    let pop = tx_stage_pop s in
    let q = popped s p in
    if-IsSpent (not (s.pipe_outstanding == 0))
      (record s {
        pipe_outstanding = s.pipe_outstanding - 1;
        dir_sent = u16 (s.dir_sent + s.pkt_in);
      })
      (record (pop.1) { dir_sent = u16 (s.dir_sent + pop.0) }) (moved s _ p refl refl refl)
      (moved (pop.1) _ q refl refl refl)

refill-IsSpent : (al : Align) (s : Transmitter) → IsSpent s → IsSpent (refill al s)
unfolding refill tx_direct_ready
refill-IsSpent al s p =
    let none : leb s.pkt_in (tx_direct_ready s) ≡ false =
      ground (arith, p.size, ready-IsSpent s p) in
    subst IsSpent (sym (if_false (leb s.pkt_in (tx_direct_ready s)) _ _ none))
      (record { level = p.level; small = p.small; size = p.size })

tx_pumps-IsSpent : (al : Align) (s : Transmitter) → IsSpent s → IsSpent (tx_pumps al s)
unfolding tx_pumps
tx_pumps-IsSpent al s p =
    if-IsSpent (not s.armed && (not (s.head == s.tail) || not (tx_direct_ready s == 0)))
      (tx_pump al s) s (tx_pump-IsSpent al s p) p

in_transaction-IsSpent : (al : Align) (l : Line) → IsSpent l.tx → IsSpent (in_transaction al l).tx
unfolding in_transaction service_in
in_transaction-IsSpent al l p =
    let s = accepted l.tx in
    let c = credit_sent s in
    let q = credit_sent-IsSpent s (record { level = p.level; small = p.small; size = p.size }) in
    let next = if c.pipe_armed then refill al c else tx_pump al c in
    let q2 =
      if-IsSpent c.pipe_armed (refill al c) (tx_pump al c) (refill-IsSpent al c q)
        (tx_pump-IsSpent al c q) in
    go l.tx.acking (record { tx = tx_pumps al next; wire = l.wire ++ (packet l.tx ∷ []) })
      (tx_pumps-IsSpent al next q2)
  where
    go : (b : Bool) (x : Line) → IsSpent x.tx → IsSpent (if b then x else l).tx
    go true x h = h
    go false x h = p

pub transactions-IsSpent :
    (n : ℕ) (al : Align) (l : Line) → IsSpent l.tx → IsSpent (transactions n al l).tx
unfolding transactions
transactions-IsSpent zero al l p = p
transactions-IsSpent (suc n) al l p =
    transactions-IsSpent n al (in_transaction al l) (in_transaction-IsSpent al l p)

fill_queue-IsSpent :
    (fuel : ℕ) (al : Align) (s : Transmitter) (n : ℕ) (src : Array)
    → IsSpent s
    → IsSpent ((fill_queue fuel al s n src).1)
unfolding fill_queue
fill_queue-IsSpent zero al s n src p = p
fill_queue-IsSpent (suc fuel) al s n src p =
    let chunk = if ltb tx_lock_chunk n then tx_lock_chunk else n in
    let room = tx_buf_size - s.head in
    let want = if ltb room chunk then room else chunk in
    let q = record s {
      buf = usb_copy (al false s.head 0) want s.buf s.head src;
      head = u16 (s.head + want);
    } in
    let rest = fill_queue fuel al q (n - want) (from src want) in
    pair-IsSpent (want == 0) (0, s) (want + rest.0, rest.1) p
      (fill_queue-IsSpent fuel al q (n - want) (from src want)
        (record { level = p.level; small = p.small; size = p.size }))

pub tx_queue-IsSpent :
    (al : Align) (s : Transmitter) (n : ℕ) (src : Array)
    → IsSpent s
    → IsSpent ((tx_queue al s n src).1)
unfolding tx_queue
tx_queue-IsSpent al s n src p =
    let r = fill_queue n al s n src in
    let q = fill_queue-IsSpent n al s n src p in
    pair-IsSpent (not (r.0 == 0) && not (r.1).armed && not ((r.1).head == (r.1).tail))
      (r.0, tx_pump al (r.1)) r (tx_pump-IsSpent al (r.1) q) q
