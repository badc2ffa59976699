-- ===== src/Glue/Waiting.antt =====
-- src/lk_glue.c: one turn of the waiting loop of `fw_lk_conn_recv`.
use open_gbflash_firmware.Common.{
  ℕ, ◌+◌, ◌-◌, ◌≤◌, ◌<◌, ◌≡◌, ◌≢◌, ap, false, refl, arith, ◌==◌, min, u32, List, [], ◌∷◌, ◌++◌,
  length, take, drop, Option, some, none, true, Bool-cases, inl, inr,
}
use open_gbflash_firmware.Proto.State.{fw_parser_timeout_ms}
use open_gbflash_firmware.Glue.Seam.{Seam, Round}
use open_gbflash_firmware.Glue.Link.{
  Received, wait_bytes, replicate, received_after, polled, expired, fw_lk_recv_fill,
}
use open_gbflash_firmware.Common.Lists.{length-eq-zero, take_all, drop_all}

pub received_after-inv :
    (xs : List ℕ) (m : Option Received) (r : Received)
    → received_after xs m ≡ some r
    → (u : Received) × (m ≡ some u) × (r ≡ record { bytes = xs ++ u.bytes; seam = u.seam })
received_after-inv xs none r h = cc
received_after-inv xs (some u) r h = (u, refl, cc)

-- The turns of a wait in which the host falls silent, from the poll after a byte came in at `since`
-- with `queued` in the ring, and those that are left: each turn that finds bytes starts the wait
-- again, and turns that find none follow until one reads the clock FW_PARSER_TIMEOUT_MS past.
pub data FallsSilent : ℕ → List ℕ → List Round → List Round → Type 0 where
  lapse :
      {since : ℕ} {queued : List ℕ} {x : Round} {rs left : List Round}
      → queued ++ x.arrived ≡ []
      → expired x.now (u32 (since + fw_parser_timeout_ms)) ≡ true
      → left ≡ rs
      → FallsSilent since queued (x ∷ rs) left
  quiet :
      {since : ℕ} {queued : List ℕ} {x : Round} {rs left : List Round}
      → queued ++ x.arrived ≡ []
      → expired x.now (u32 (since + fw_parser_timeout_ms)) ≡ false
      → FallsSilent since [] rs left
      → FallsSilent since queued (x ∷ rs) left
  spoke :
      {since : ℕ} {queued : List ℕ} {x : Round} {rs left : List Round}
      → queued ++ x.arrived ≢ []
      → FallsSilent x.now [] rs left
      → FallsSilent since queued (x ∷ rs) left

-- The four ways out of one turn.
pub data Turn (x : Round) (rs : List Round) (need deadline : ℕ) (s : Seam) (r : Received)
    : Type 0 where
  gave_up :
      (polled s x rs).incoming ≡ []
      → expired x.now deadline ≡ true
      → r ≡ record {
        bytes = replicate need fw_lk_recv_fill;
        seam = record (polled s x rs) { recv_short = true };
      }
      → Turn x rs need deadline s r
  nothing :
      (polled s x rs).incoming ≡ []
      → expired x.now deadline ≡ false
      → wait_bytes rs need deadline (polled s x rs) ≡ some r
      → Turn x rs need deadline s r
  all_there :
      need ≤ length (polled s x rs).incoming
      → r ≡ record {
        bytes = take need (polled s x rs).incoming;
        seam = record (polled s x rs) { incoming = drop need (polled s x rs).incoming };
      }
      → Turn x rs need deadline s r
  some_there :
      (u : Received)
      → (polled s x rs).incoming ≢ []
      → length (polled s x rs).incoming < need
      → wait_bytes rs
          (need - length (polled s x rs).incoming)
          (u32 (x.now + fw_parser_timeout_ms))
          (record (polled s x rs) { incoming = [] })
        ≡ some u
      → r ≡ record { bytes = (polled s x rs).incoming ++ u.bytes; seam = u.seam }
      → Turn x rs need deadline s r

pub wait_bytes-Turn :
    (x : Round) (rs : List Round) (need deadline : ℕ) (s : Seam) (r : Received)
    → 0 < need
    → wait_bytes (x ∷ rs) need deadline s ≡ some r
    → Turn x rs need deadline s r
unfolding wait_bytes
wait_bytes-Turn x rs need deadline s r pos h =
    let q = (polled s x rs).incoming in
    elim (Bool-cases (min need (length q) == 0)) [
      | inl z ↦ elim (Bool-cases (expired x.now deadline)) [
        | inl e ↦ gave_up (length-eq-zero q (ground arith)) e (cc (rw (z, e) at h))
        | inr e ↦ nothing (length-eq-zero q (ground arith)) e (rw (z, e) at h)
      ]
      | inr z ↦ elim (Bool-cases (min need (length q) == need)) [
        | inl e ↦
            let k : min need (length q) ≡ need = ground arith in
            all_there (omega arith) (cc (rw k at (rw (z, e) at h)))
        | inr e ↦
            let k : min need (length q) ≡ length q = ground arith in
            let lt : length q < need = ground arith in
            let pos : length q ≢ 0 = ground arith in
            let ne : q ≢ [] = λ c. pos (ap (λ (l : List ℕ). length l) c) in
            let f : take (min need (length q)) q ≡ q = rw k (take_all (length q) q (omega arith)) in
            let d : drop (min need (length q)) q ≡ [] =
              rw k (drop_all (length q) q (omega arith)) in
            let inv = received_after-inv q _ r (rw (f, d, k) at (rw (z, e) at h)) in
            some_there inv.0 ne lt inv.1 inv.2
      ]
    ]
