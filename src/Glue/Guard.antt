-- ===== src/Glue/Guard.antt =====
-- src/lk_glue.c: what a run of the LK core may change outside its own tables, whatever it does.
use open_gbflash_firmware.Common.{
  ℕ, zero, suc, min, ◌-◌, ◌<◌, ◌≡◌, ◌⊎◌, inl, inr, refl, ◌∙◌, ap, arith, ◌==◌, ltb, not, ◌&&◌, ◌||◌,
  List, [], ◌∷◌, length, leb, elem, ◌*◌, ◌>>=◌, >>=-eq-some, some, true, false, Bool-cases,
}
use open_gbflash_firmware.Proto.State.{FwState, ack_error}
use open_gbflash_firmware.Glue.Seam.{Seam, Round}
use open_gbflash_firmware.Glue.Link.{
  Received, conn_recv, conn_send, conn_send_raw, send_bytes, wait_bytes, wait_until, delay_ms,
  buffered, polled, expired,
}
use open_gbflash_firmware.Glue.Mirror.{Core}
use open_gbflash_firmware.Glue.Dispatch.{
  Script, Ran, run_script, lk_voltage_5v, cart_voltage, is_dmg, lk_admit, admit_batch, lk_refuse,
  drain_bytes, Admitted, admitted, refused, second, batch_admit,
}
use open_gbflash_firmware.Glue.Waiting.{Turn, wait_bytes-Turn, received_after-inv}

-- A receive or a send: the protocol state and the 5 V select stay.
pub record Leaves (s t : Seam) : Type 0 where
  pub st : t.st ≡ s.st
  pub vsel : t.vsel ≡ s.vsel

pub trans-Leaves : (s t u : Seam) → Leaves s t → Leaves t u → Leaves s u
trans-Leaves s t u h k = record { st = k.st ∙ h.st; vsel = k.vsel ∙ h.vsel }

Turn-Leaves :
    (x : Round) (rs : List Round) (need deadline : ℕ) (s : Seam) (r : Received)
    → 0 < need
    → ((need' deadline' : ℕ) (t : Seam) (u : Received)
        → 0 < need'
        → wait_bytes rs need' deadline' t ≡ some u
        → Leaves t u.seam)
    → Turn x rs need deadline s r
    → Leaves s r.seam
Turn-Leaves x rs need deadline s r pos ih (Turn.gave_up i y e) =
    rw e (record { st = refl; vsel = refl })
Turn-Leaves x rs need deadline s r pos ih (Turn.nothing e y w) =
    let k = ih need deadline (polled s x rs) r pos w in record { st = k.st; vsel = k.vsel }
Turn-Leaves x rs need deadline s r pos ih (Turn.all_there le e) =
    rw e (record { st = refl; vsel = refl })
Turn-Leaves x rs need deadline s r pos ih (Turn.some_there u ne lt w e) =
    let k = ih _ _ _ u (omega arith) w in rw e (record { st = k.st; vsel = k.vsel })

wait_bytes-Leaves :
    (rs : List Round) (need deadline : ℕ) (s : Seam) (r : Received)
    → 0 < need
    → wait_bytes rs need deadline s ≡ some r
    → Leaves s r.seam
wait_bytes-Leaves [] need deadline s r pos e = absurd (unfold wait_bytes in cc e)
wait_bytes-Leaves (x ∷ rs) need deadline s r pos e =
    Turn-Leaves x rs need deadline s r pos (wait_bytes-Leaves rs)
      (wait_bytes-Turn x rs need deadline s r pos e)

pub conn_recv-Leaves :
    (want : ℕ) (s : Seam) (r : Received) → conn_recv want s ≡ some r → Leaves s r.seam
unfolding conn_recv
conn_recv-Leaves want s r h =
    let b = buffered want s in
    elim (Bool-cases (want - length b.bytes == 0)) [
      | inl z ↦ let e : b ≡ r = cc (rw z at h) in rw (← e) (record { st = refl; vsel = refl })
      | inr z ↦
          let inv = received_after-inv b.bytes _ r (rw z at h) in
          let k = wait_bytes-Leaves s.rounds _ _ b.seam inv.0 (ground arith) inv.1 in
          rw (inv.2) (record { st = k.st; vsel = k.vsel })
    ]

send_bytes-Leaves :
    (rs : List Round) (xs : List ℕ) (deadline : ℕ) (s t : Seam)
    → send_bytes rs xs deadline s ≡ some t
    → Leaves s t
unfolding send_bytes
send_bytes-Leaves rs [] deadline s t h =
    let e : s ≡ t = cc h in rw (← e) (record { st = refl; vsel = refl })
send_bytes-Leaves [] (x ∷ xs) deadline s t h = absurd (cc h)
send_bytes-Leaves (r ∷ rs) (x ∷ xs) deadline s t h =
    let p = polled s r rs in
    elim (Bool-cases (min r.room (length (x ∷ xs)) == 0)) [
      | inl z ↦ elim (Bool-cases (expired r.now deadline)) [
        | inl e ↦
            let f : record p { send_stall = true } ≡ t = cc (rw (z, e) at h) in
            rw (← f) (record { st = refl; vsel = refl })
        | inr e ↦
            let k = send_bytes-Leaves rs (x ∷ xs) deadline p t (rw (z, e) at h) in
            record { st = k.st; vsel = k.vsel }
      ]
      | inr z ↦
          let k = send_bytes-Leaves rs _ _ _ t (rw z at h) in record { st = k.st; vsel = k.vsel }
    ]

pub conn_send_raw-Leaves : (xs : List ℕ) (s t : Seam) → conn_send_raw xs s ≡ some t → Leaves s t
unfolding conn_send_raw
conn_send_raw-Leaves xs s t h = send_bytes-Leaves s.rounds xs _ s t h

conn_send-Leaves : (xs : List ℕ) (s t : Seam) → conn_send xs s ≡ some t → Leaves s t
unfolding conn_send
conn_send-Leaves xs s t h = elim (Bool-cases (s.recv_short || s.send_stall)) [
  | inl z ↦ let e : s ≡ t = cc (rw z at h) in rw (← e) (record { st = refl; vsel = refl })
  | inr z ↦ conn_send_raw-Leaves xs s t (rw z at h)
]

pub wait_until-Leaves :
    (rs : List Round) (deadline : ℕ) (s t : Seam) → wait_until rs deadline s ≡ some t → Leaves s t
unfolding wait_until
wait_until-Leaves [] deadline s t h = absurd (cc h)
wait_until-Leaves (r ∷ rs) deadline s t h =
    let p = polled s r rs in
    elim (Bool-cases (expired r.now deadline)) [
      | inl z ↦ let e : p ≡ t = cc (rw z at h) in rw (← e) (record { st = refl; vsel = refl })
      | inr z ↦
          let k = wait_until-Leaves rs deadline p t (rw z at h) in
          record { st = k.st; vsel = k.vsel }
    ]

-- What a run may leave: the protocol state but for the voltage mark, and outside DMG mode neither
-- the 5 V select nor the mark newly set.
pub record IsGuarded (s t : Seam) : Type 0 where
  pub mark : ℕ
  pub st : t.st ≡ record s.st { voltage_is_five = mark }
  pub mark_guard : is_dmg s.st.mode ≡ false → (mark ≡ s.st.voltage_is_five) ⊎ (mark ≡ 0)
  pub pin_guard : is_dmg s.st.mode ≡ false → t.vsel ≡ true → s.vsel ≡ true

pub Leaves-IsGuarded : (s t : Seam) → Leaves s t → IsGuarded s t
Leaves-IsGuarded s t h = record {
  mark = s.st.voltage_is_five;
  st = h.st;
  mark_guard = λ d. inl refl;
  pin_guard = λ d p. cc h.vsel;
}

pub trans-IsGuarded : (s t u : Seam) → IsGuarded s t → IsGuarded t u → IsGuarded s u
trans-IsGuarded s t u h k =
    let m : t.st.mode ≡ s.st.mode = ap (λ (x : FwState). x.mode) h.st in
    let v : t.st.voltage_is_five ≡ h.mark = ap (λ (x : FwState). x.voltage_is_five) h.st in
    record {
      mark = k.mark;
      st = k.st ∙ ap (λ (x : FwState). record x { voltage_is_five = k.mark }) h.st;
      mark_guard = λ d. elim (k.mark_guard (ap is_dmg m ∙ d)) [
        | inl e ↦ elim (h.mark_guard d) [ inl f ↦ inl (e ∙ v ∙ f) | inr f ↦ inr (e ∙ v ∙ f) ]
        | inr e ↦ inr e
      ];
      pin_guard = λ d p. h.pin_guard d (k.pin_guard (ap is_dmg m ∙ d) p);
    }

lk_voltage_5v-IsGuarded : (s : Seam) → IsGuarded s (lk_voltage_5v s)
unfolding lk_voltage_5v cart_voltage
lk_voltage_5v-IsGuarded s = record {
  mark = (cart_voltage true (is_dmg s.st.mode)).1;
  st = refl;
  mark_guard = λ d. inr (rw d);
  pin_guard = λ d p. cc (rw d at p);
}

pub run_script-IsGuarded :
    (sc : Script) (s : Seam) (r : Ran) → run_script sc s ≡ some r → IsGuarded s r.seam
unfolding run_script
run_script-IsGuarded (Script.finish v) s r h =
    let e : record { vars = v; seam = s } ≡ r = cc h in
    rw (← e) (Leaves-IsGuarded s s (record { st = refl; vsel = refl }))
run_script-IsGuarded (Script.recv n next) s r h =
    let i = >>=-eq-some (conn_recv n s) (λ u. run_script (next u.bytes) u.seam) h in
    trans-IsGuarded s i.0.seam r.seam (Leaves-IsGuarded s i.0.seam (conn_recv-Leaves n s i.0 i.1))
      (run_script-IsGuarded (next i.0.bytes) i.0.seam r i.2)
run_script-IsGuarded (Script.send xs next) s r h =
    let i = >>=-eq-some (conn_send xs s) (run_script next) h in
    trans-IsGuarded s i.0 r.seam (Leaves-IsGuarded s i.0 (conn_send-Leaves xs s i.0 i.1))
      (run_script-IsGuarded next i.0 r i.2)
run_script-IsGuarded (Script.voltage_5v next) s r h =
    trans-IsGuarded s (lk_voltage_5v s) r.seam (lk_voltage_5v-IsGuarded s)
      (run_script-IsGuarded next (lk_voltage_5v s) r h)
run_script-IsGuarded (Script.delay ms next) s r h =
    let i = >>=-eq-some (delay_ms ms s) (run_script next) h in
    trans-IsGuarded s i.0 r.seam
      (Leaves-IsGuarded s i.0 (unfold delay_ms in wait_until-Leaves s.rounds _ s i.0 i.1))
      (run_script-IsGuarded next i.0 r i.2)

drain_bytes-Leaves : (fuel drain : ℕ) (s t : Seam) → drain_bytes fuel drain s ≡ some t → Leaves s t
unfolding drain_bytes
drain_bytes-Leaves zero drain s t h =
    let e : s ≡ t = cc h in rw (← e) (record { st = refl; vsel = refl })
drain_bytes-Leaves (suc fuel) drain s t h =
    elim (Bool-cases (not (drain == 0) && not s.recv_short)) [
      | inl z ↦
          let i =
            >>=-eq-some (conn_recv (min drain 16) s)
              (λ r. drain_bytes fuel (drain - min drain 16) r.seam) (rw z at h) in
          trans-Leaves s i.0.seam t (conn_recv-Leaves (min drain 16) s i.0 i.1)
            (drain_bytes-Leaves fuel (drain - min drain 16) i.0.seam t i.2)
      | inr z ↦ let e : s ≡ t = cc (rw z at h) in rw (← e) (record { st = refl; vsel = refl })
    ]

lk_refuse-Leaves : (drain : ℕ) (s t : Seam) → lk_refuse drain s ≡ some t → Leaves s t
unfolding lk_refuse
lk_refuse-Leaves drain s t h =
    let i = >>=-eq-some (drain_bytes drain drain s) (conn_send_raw (ack_error ∷ [])) h in
    trans-Leaves s i.0 t (drain_bytes-Leaves drain drain s i.0 i.1)
      (conn_send_raw-Leaves (ack_error ∷ []) i.0 t i.2)

refused-Leaves :
    (drain : ℕ) (s : Seam) (a : Admitted)
    → (lk_refuse drain s >>= refused) ≡ some a
    → Leaves s a.seam
refused-Leaves drain s a h =
    let i = >>=-eq-some (lk_refuse drain s) refused h in
    let e : record { ok = false; seam = i.0 } ≡ a = cc (i.2) in
    rw (← e) (lk_refuse-Leaves drain s i.0 i.1)

admitted-Leaves : (s t : Seam) (a : Admitted) → Leaves s t → admitted t ≡ some a → Leaves s a.seam
admitted-Leaves s t a k h = let e : record { ok = true; seam = t } ≡ a = cc h in rw (← e) k

admit_batch-Leaves :
    (core : Core) (hdr : List ℕ) (s : Seam) (a : Admitted)
    → admit_batch core hdr s ≡ some a
    → Leaves s a.seam
unfolding admit_batch
admit_batch-Leaves core hdr s a h =
    elim (Bool-cases (not s.recv_short && leb (second hdr) (batch_admit core))) [
      | inl z ↦
          admitted-Leaves s (record s { push = hdr }) a (record { st = refl; vsel = refl })
            (rw z at h)
      | inr z ↦ refused-Leaves (second hdr * 6) s a (rw z at h)
    ]

pub lk_admit-Leaves :
    (core : Core) (op : ℕ) (s : Seam) (a : Admitted) → lk_admit core op s ≡ some a → Leaves s a.seam
unfolding lk_admit
lk_admit-Leaves core op s a h =
    let self : Leaves s s = record { st = refl; vsel = refl } in
    elim (Bool-cases (elem op (0xB3 ∷ 0xB6 ∷ 0xB7 ∷ 0xB9 ∷ []))) [
      | inl z ↦ elim (Bool-cases (ltb core.data_buffer_size s.st.transfer_size)) [
        | inl y ↦ refused-Leaves s.st.transfer_size s a (rw (z, y) at h)
        | inr y ↦ admitted-Leaves s s a self (rw (z, y) at h)
      ]
      | inr z ↦ elim (Bool-cases (not (op == 0xD4))) [
        | inl y ↦ admitted-Leaves s s a self (rw (z, y) at h)
        | inr y ↦
            let i =
              >>=-eq-some (conn_recv 2 s) (λ r. admit_batch core r.bytes r.seam) (rw (z, y) at h) in
            trans-Leaves s i.0.seam a.seam (conn_recv-Leaves 2 s i.0 i.1)
              (admit_batch-Leaves core i.0.bytes i.0.seam a i.2)
      ]
    ]
