-- ===== src/Glue/Silence.antt =====
-- src/lk_glue.c: a host that falls silent in the middle of a command.
use open_gbflash_firmware.Common.{
  ℕ, ◌+◌, ◌-◌, ◌<◌, ◌≡◌, inl, inr, refl, sym, ◌∙◌, ap, arith, ◌==◌, min, if◌then◌else◌, u32, List,
  [], ◌∷◌, ◌++◌, length, >>=-eq-some, some, true, false, Bool-cases,
}
use open_gbflash_firmware.Proto.State.{fw_parser_timeout_ms}
use open_gbflash_firmware.Glue.Seam.{Seam, Round}
use open_gbflash_firmware.Glue.Link.{
  Received, conn_recv, conn_send, wait_bytes, wait_until, delay_ms, buffered, polled, expired,
  replicate, fw_lk_recv_fill,
}
use open_gbflash_firmware.Glue.Dispatch.{Script, Ran, run_script, lk_voltage_5v}
use open_gbflash_firmware.Glue.Waiting.{Turn, wait_bytes-Turn, received_after-inv}

-- Nothing was sent, and a short mark stays.
record IsMute (s t : Seam) : Type 0 where
  sent : t.sent ≡ s.sent
  short : s.recv_short ≡ true → t.recv_short ≡ true

self-IsMute : (s : Seam) → IsMute s s
self-IsMute s = record { sent = refl; short = λ h. h }

trans-IsMute : (s t u : Seam) → IsMute s t → IsMute t u → IsMute s u
trans-IsMute s t u h k = record { sent = k.sent ∙ h.sent; short = λ e. k.short (h.short e) }

Turn-IsMute :
    (x : Round) (rs : List Round) (need deadline : ℕ) (s : Seam) (r : Received)
    → ((need' deadline' : ℕ) (t : Seam) (u : Received)
        → 0 < need'
        → wait_bytes rs need' deadline' t ≡ some u
        → IsMute t u.seam)
    → 0 < need
    → Turn x rs need deadline s r
    → IsMute s r.seam
Turn-IsMute x rs need deadline s r ih pos (Turn.gave_up i y e) =
    rw e (record { sent = refl; short = λ h. refl })
Turn-IsMute x rs need deadline s r ih pos (Turn.nothing e y w) =
    let k = ih need deadline (polled s x rs) r pos w in record { sent = k.sent; short = k.short }
Turn-IsMute x rs need deadline s r ih pos (Turn.all_there le e) =
    rw e (record { sent = refl; short = λ h. h })
Turn-IsMute x rs need deadline s r ih pos (Turn.some_there u ne lt w e) =
    let k = ih _ _ _ u (omega arith) w in rw e (record { sent = k.sent; short = k.short })

wait_bytes-IsMute :
    (rs : List Round) (need deadline : ℕ) (s : Seam) (r : Received)
    → 0 < need
    → wait_bytes rs need deadline s ≡ some r
    → IsMute s r.seam
wait_bytes-IsMute [] need deadline s r pos e = absurd (unfold wait_bytes in cc e)
wait_bytes-IsMute (x ∷ rs) need deadline s r pos e =
    Turn-IsMute x rs need deadline s r (wait_bytes-IsMute rs) pos
      (wait_bytes-Turn x rs need deadline s r pos e)

conn_recv-IsMute :
    (want : ℕ) (s : Seam) (r : Received) → conn_recv want s ≡ some r → IsMute s r.seam
unfolding conn_recv
conn_recv-IsMute want s r h =
    let b = buffered want s in
    elim (Bool-cases (want - length b.bytes == 0)) [
      | inl z ↦ let e : b ≡ r = cc (rw z at h) in rw (← e) (record { sent = refl; short = λ k. k })
      | inr z ↦
          let inv = received_after-inv b.bytes _ r (rw z at h) in
          let k = wait_bytes-IsMute s.rounds _ _ b.seam inv.0 (ground arith) inv.1 in
          rw (inv.2) (record { sent = k.sent; short = k.short })
    ]

wait_until-IsMute :
    (rs : List Round) (deadline : ℕ) (s t : Seam) → wait_until rs deadline s ≡ some t → IsMute s t
unfolding wait_until
wait_until-IsMute [] deadline s t h = absurd (cc h)
wait_until-IsMute (r ∷ rs) deadline s t h =
    let p = polled s r rs in
    elim (Bool-cases (expired r.now deadline)) [
      | inl z ↦ let e : p ≡ t = cc (rw z at h) in rw (← e) (record { sent = refl; short = λ k. k })
      | inr z ↦
          let k = wait_until-IsMute rs deadline p t (rw z at h) in
          record { sent = k.sent; short = k.short }
    ]

muted_send : (xs : List ℕ) (s t : Seam) → s.recv_short ≡ true → conn_send xs s ≡ some t → s ≡ t
unfolding conn_send
muted_send xs s t short h = ground (arith, h)

-- Once a receive of the command has come up short, nothing that the LK core sends in the rest of its
-- run reaches the host, and the short mark stays for the error byte that follows the run.
pub run_script-IsMute :
    (sc : Script) (s : Seam) (r : Ran)
    → s.recv_short ≡ true
    → run_script sc s ≡ some r
    → (r.seam.sent ≡ s.sent) × (r.seam.recv_short ≡ true)
unfolding run_script
run_script-IsMute (Script.finish v) s r short h =
    let e : record { vars = v; seam = s } ≡ r = cc h in rw (← e) (refl, short)
run_script-IsMute (Script.recv n next) s r short h =
    let i = >>=-eq-some (conn_recv n s) (λ u. run_script (next u.bytes) u.seam) h in
    let k = conn_recv-IsMute n s i.0 i.1 in
    let l = run_script-IsMute (next i.0.bytes) i.0.seam r (k.short short) i.2 in (l.0 ∙ k.sent, l.1)
run_script-IsMute (Script.send xs next) s r short h =
    let i = >>=-eq-some (conn_send xs s) (run_script next) h in
    let e = muted_send xs s i.0 short i.1 in
    let l = run_script-IsMute next i.0 r (ap (λ (x : Seam). x.recv_short) (sym e) ∙ short) i.2 in
    (l.0 ∙ sym (ap (λ (x : Seam). x.sent) e), l.1)
run_script-IsMute (Script.voltage_5v next) s r short h =
    unfold lk_voltage_5v in run_script-IsMute next (lk_voltage_5v s) r short h
run_script-IsMute (Script.delay ms next) s r short h =
    let i = >>=-eq-some (delay_ms ms s) (run_script next) h in
    let k : IsMute s i.0 = unfold delay_ms in wait_until-IsMute s.rounds _ s i.0 i.1 in
    let l = run_script-IsMute next i.0 r (k.short short) i.2 in (l.0 ∙ k.sent, l.1)

-- Turns without a byte, one of which reads the clock at or past the deadline.
pub data Lapses (deadline : ℕ) : List Round → Type 0 where
  at_last :
      {x : Round} {rs : List Round}
      → x.arrived ≡ []
      → expired x.now deadline ≡ true
      → Lapses deadline (x ∷ rs)
  later :
      {x : Round} {rs : List Round} → x.arrived ≡ [] → Lapses deadline rs → Lapses deadline (x ∷ rs)

silent_turn :
    (x : Round) (rs : List Round) (need deadline : ℕ) (s : Seam)
    → s.incoming ≡ []
    → x.arrived ≡ []
    → wait_bytes (x ∷ rs) need deadline s ≡ (
        if expired x.now deadline
        then some (record {
          bytes = replicate need fw_lk_recv_fill;
          seam = record s { incoming = []; rounds = rs; now = x.now; recv_short = true };
        })
        else wait_bytes rs need deadline (record s { incoming = []; rounds = rs; now = x.now }))
unfolding wait_bytes
silent_turn x rs need deadline s e f =
    let q : s.incoming ++ x.arrived ≡ [] = rw (e, f) in
    let z : min need 0 ≡ 0 = omega arith in rw (q, z)

wait_bytes-lapse :
    (rs : List Round) (need deadline : ℕ) (s : Seam)
    → s.incoming ≡ []
    → Lapses deadline rs
    → (t : Seam) × (wait_bytes rs need deadline s
        ≡ some (record { bytes = replicate need fw_lk_recv_fill; seam = t }))
      × (t.recv_short ≡ true)
wait_bytes-lapse [] need deadline s e l = elim l [ ]
wait_bytes-lapse (x ∷ rs) need deadline s e (at_last f g) = (
  record s { incoming = []; rounds = rs; now = x.now; recv_short = true },
  silent_turn x rs need deadline s e f ∙ rw g,
  refl,
)
wait_bytes-lapse (x ∷ rs) need deadline s e (later f l) =
    let p : Seam = record s { incoming = []; rounds = rs; now = x.now } in
    let u = silent_turn x rs need deadline s e f in
    let i = wait_bytes-lapse rs need deadline p refl l in
    elim (Bool-cases (expired x.now deadline)) [
      | inl z ↦ (record p { recv_short = true }, u ∙ rw z, refl)
      | inr z ↦ (i.0, u ∙ rw z i.1, i.2)
    ]

-- A receive does not wait for ever on a silent host: with too few bytes at hand and no byte coming
-- in, it returns at the latest with the turn that reads the clock past the deadline, with the bytes
-- at hand, fill bytes for the others, and the short mark.
pub conn_recv-lapse :
    (want : ℕ) (s : Seam)
    → length (buffered want s).bytes < want
    → s.incoming ≡ []
    → Lapses (u32 (s.now + fw_parser_timeout_ms)) s.rounds
    → (r : Received) × (conn_recv want s ≡ some r)
      × (r.bytes
          ≡ (buffered want s).bytes
            ++ replicate (want - length (buffered want s).bytes) fw_lk_recv_fill)
      × (r.seam.recv_short ≡ true)
unfolding conn_recv
conn_recv-lapse want s lt e l =
    let b = buffered want s in
    let need : ℕ = want - length b.bytes in
    let i = wait_bytes-lapse s.rounds need (u32 (s.now + fw_parser_timeout_ms)) b.seam e l in
    let z : (need == 0) ≡ false = ground arith in
    (
      record { bytes = b.bytes ++ replicate need fw_lk_recv_fill; seam = i.0 },
      rw z (rw (i.1)),
      refl,
      i.2,
    )
