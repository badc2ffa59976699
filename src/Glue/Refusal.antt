-- ===== src/Glue/Refusal.antt =====
-- src/lk_glue.c: a refused batch is taken off the wire whole.
use mathlib.Core.List.{append_assoc}
use open_gbflash_firmware.Common.{
  ℕ, zero, suc, ◌+◌, ◌-◌, ◌*◌, ◌^◌, ◌≤◌, ◌<◌, ◌≡◌, ◌≢◌, refl, sym, subst, ap, ◌∙◌, arith, ◌==◌, leb,
  not, ◌&&◌, if_true, if_false, true, min, if◌then◌else◌, List, [], ◌∷◌, ◌++◌, length, take, drop,
  ◌>>=◌, Option, some, none, false, Bool-cases, inl, inr,
}
use open_gbflash_firmware.Common.Lists.{length-eq-zero, length-drop, length-take, take-drop}
use open_gbflash_firmware.Proto.State.{ack_error}
use open_gbflash_firmware.Glue.Seam.{Seam}
use open_gbflash_firmware.Glue.Link.{Received, conn_recv, conn_send_raw}
use open_gbflash_firmware.Glue.Mirror.{Core, LkVars}
use open_gbflash_firmware.Glue.Dispatch.{
  lk_admit, Script, drain_bytes, batch_admit, lk_dispatch, lk_refuse, admit_batch, second,
  Dispatched, closed, refused, Admitted, run_core,
}
use open_gbflash_firmware.Glue.Stream.{arrivals, stream}
use open_gbflash_firmware.Glue.Arriving.{AllInWindow, Supplied}
use open_gbflash_firmware.Glue.Prompt.{InTime, conn_recv-InTime}

-- The state before the error byte of a refusal: `rest` is all that is left of the stream, what the
-- tail in hand has given is counted, no receive was short, and the protocol state, the 5 V select and
-- the bytes sent are those of the state `s`.
pub record IsSkipped (tail rest : List ℕ) (s t : Seam) : Type 0 where
  pub bytes : stream t ≡ rest
  pub used : t.pend ≡ drop t.pend_used tail
  pub short : t.recv_short ≡ false
  pub stall : t.send_stall ≡ false
  pub sent : t.sent ≡ s.sent
  pub st : t.st ≡ s.st
  pub vsel : t.vsel ≡ s.vsel

InTime-IsSkipped :
    (base calls more : ℕ) (tail rest : List ℕ) (s t : Seam)
    → InTime base calls more tail rest s t
    → IsSkipped tail rest s t
InTime-IsSkipped base calls more tail rest s t h = record {
  bytes = h.bytes;
  used = h.used;
  short = h.short;
  stall = h.stall;
  sent = h.sent;
  st = h.st;
  vsel = h.vsel;
}

drain_bytes-next :
    (fuel drain : ℕ) (t : Seam) (u : Received)
    → (drain == 0) ≡ false
    → t.recv_short ≡ false
    → conn_recv (min drain 16) t ≡ some u
    → drain_bytes (suc fuel) drain t ≡ drain_bytes fuel (drain - min drain 16) u.seam
unfolding drain_bytes
drain_bytes-next fuel drain t u z short e =
    let c : (not (drain == 0) && not t.recv_short) ≡ true = cc (z, short) in
    if_true _ _ _ c ∙ ap (λ m. m >>= λ r. drain_bytes fuel (drain - min drain 16) r.seam) e

drain_bytes-IsSkipped :
    (fuel base more : ℕ) (tail xs rest : List ℕ) (s t : Seam)
    → base < 2 ^ 32
    → length xs ≤ fuel
    → length xs ≤ more
    → InTime base fuel more tail (xs ++ rest) s t
    → (u : Seam) × (drain_bytes fuel (length xs) t ≡ some u) × IsSkipped tail rest s u
unfolding drain_bytes
drain_bytes-IsSkipped zero base more tail xs rest s t b f le h =
    let e : xs ≡ [] = length-eq-zero xs (omega arith) in
    (t, refl, InTime-IsSkipped base zero more tail rest s t (rw e at h))
drain_bytes-IsSkipped (suc fuel) base more tail xs rest s t b f le h =
    elim (Bool-cases (length xs == 0)) [
      | inl z ↦
          let e : xs ≡ [] = length-eq-zero xs (ground arith) in
          (t, rw z refl, InTime-IsSkipped base (suc fuel) more tail rest s t (rw e at h))
      | inr z ↦
          let k : ℕ = min (length xs) 16 in
          let pos : length xs ≢ 0 = ground arith in
          let n : length (take k xs) ≡ k = omega (arith, length-take k xs) in
          let parted : take k xs ++ (drop k xs ++ rest) ≡ xs ++ rest =
            sym (append_assoc (take k xs) (drop k xs) rest)
            ∙ ap (λ l. l ++ rest) (take-drop k xs) in
          let r =
            conn_recv-InTime base fuel more tail (take k xs) (drop k xs ++ rest) s t
              (rw (← parted) at h) b (omega (arith, n, le)) in
          let ld = length-drop k xs in
          let d =
            drain_bytes-IsSkipped fuel base (more - length (take k xs)) tail (drop k xs) rest s
              (r.0) b (omega (arith, ld)) (omega (arith, ld, n)) (r.2) in
          let e : conn_recv k t ≡ some (record { bytes = take k xs; seam = r.0 }) =
            subst (λ j. conn_recv j t ≡ some (record { bytes = take k xs; seam = r.0 })) n (r.1) in
          let m : drain_bytes fuel (length xs - k) (r.0) ≡ some (d.0) =
            ap (λ j. drain_bytes fuel j (r.0)) (sym ld) ∙ d.1 in
          (
            d.0,
            drain_bytes-next fuel (length xs) t (record { bytes = take k xs; seam = r.0 }) z h.short
                  e
                ∙ m,
            d.2,
          )
    ]

settled :
    (m : Option Seam) (f : Admitted → Option Dispatched)
    → ((m >>= refused) >>= f) ≡ (m >>= λ t. f (record { ok = false; seam = t }))
settled none f = refl
settled (some t) f = refl

admit_batch-refused :
    (core : Core) (hdr : List ℕ) (t u : Seam)
    → leb (second hdr) (batch_admit core) ≡ false
    → drain_bytes (second hdr * 6) (second hdr * 6) t ≡ some u
    → admit_batch core hdr t ≡ (conn_send_raw (ack_error ∷ []) u >>= refused)
unfolding admit_batch lk_refuse
admit_batch-refused core hdr t u b e =
    let c : (not t.recv_short && leb (second hdr) (batch_admit core)) ≡ false = ground (arith, b) in
    if_false _ _ _ c ∙ ap (λ m. (m >>= conn_send_raw (ack_error ∷ [])) >>= refused) e

-- A CART_WRITE_FLASH_CMD that announces more pairs than are admitted, of which the tail in hand may
-- hold any part, and the rest of which comes in with the turns to come, on a clock less than
-- FW_PARSER_TIMEOUT_MS past the start and with a turn left for every receive: the core is not run,
-- no receive is short, the header and all the announced pairs are taken off the stream and nothing
-- more, and then one error byte is sent and the dispatch is over.
pub lk_dispatch-overlong :
    (core : Core) (lk_loop : ℕ → LkVars → Script) (flashcart n : ℕ) (tail pairs rest : List ℕ)
    (v : LkVars) (s : Seam)
    → batch_admit core < n
    → length pairs ≡ n * 6
    → tail ++ (s.incoming ++ arrivals s.rounds) ≡ flashcart ∷ n ∷ (pairs ++ rest)
    → Supplied (suc (n * 6)) (2 + n * 6 - length tail - length s.incoming) s.rounds
    → s.now < 2 ^ 32
    → AllInWindow s.now s.rounds
    → (t : Seam) × IsSkipped tail rest s t
      × (lk_dispatch core lk_loop 0xD4 tail v s
          ≡ (conn_send_raw (ack_error ∷ []) t >>= λ u. some (closed v u)))
unfolding lk_dispatch lk_admit
lk_dispatch-overlong core lk_loop flashcart n tail pairs rest v s over e comes sup small clocks =
    let fresh : Seam = record s {
      pend = tail;
      pend_used = 0;
      push = [];
      recv_short = false;
      send_stall = false;
    } in
    let start : InTime s.now (suc (n * 6)) (2 + n * 6) tail (flashcart ∷ n ∷ (pairs ++ rest)) s
        fresh =
      record {
        bytes = comes;
        supplied = sup;
        clock = (small, omega arith);
        clocks = clocks;
        push = refl;
        used = refl;
        short = refl;
        stall = refl;
        sent = refl;
        st = refl;
        vsel = refl;
      } in
    let r =
      conn_recv-InTime s.now (n * 6) (2 + n * 6) tail (flashcart ∷ n ∷ []) (pairs ++ rest) s fresh
        start small (omega arith) in
    let d =
      drain_bytes-IsSkipped (n * 6) s.now _ tail pairs rest s (r.0) small (omega (arith, e))
        (omega (arith, e)) (r.2) in
    let drained : drain_bytes (n * 6) (n * 6) (r.0) ≡ some (d.0) =
      ap (λ k. drain_bytes (n * 6) k (r.0)) (sym e) ∙ d.1 in
    let b : leb n (batch_admit core) ≡ false = ground arith in
    let finish : Admitted → Option Dispatched =
      λ a. if a.ok then run_core core lk_loop 0xD4 v a.seam else some (closed v a.seam) in
    let m = conn_send_raw (ack_error ∷ []) (d.0) in
    (
      d.0,
      d.2,
      ap (λ k. (k >>= λ q. admit_batch core q.bytes q.seam) >>= finish) (r.1)
          ∙ ap (λ k. k >>= finish)
              (admit_batch-refused core (flashcart ∷ n ∷ []) (r.0) (d.0) b drained)
          ∙ settled m finish,
    )
