-- ===== src/Glue/Confine.antt =====
-- src/lk_glue.c: what a whole dispatch may change in the protocol state and on the voltage pin.
use open_gbflash_firmware.Common.{
  ℕ, ◌≡◌, ◌⊎◌, inl, inr, refl, sym, ◌∙◌, ap, ◌&&◌, not, List, [], ◌∷◌, ◌>>=◌, >>=-eq-some, some,
  true, false, Bool-cases,
}
use open_gbflash_firmware.Proto.State.{FwState, ack_error}
use open_gbflash_firmware.Glue.Seam.{Seam}
use open_gbflash_firmware.Glue.Link.{conn_send_raw, cart_wait_ready}
use open_gbflash_firmware.Glue.Mirror.{Core, LkVars, mirror_to_lk, mirror_from_lk}
use open_gbflash_firmware.Glue.Dispatch.{
  Script, Ran, run_script, is_dmg, Dispatched, lk_dispatch, lk_admit, run_core, settle, closed,
}
use open_gbflash_firmware.Glue.Guard.{
  Leaves, IsGuarded, trans-IsGuarded, Leaves-IsGuarded, run_script-IsGuarded, conn_send_raw-Leaves,
  wait_until-Leaves, lk_admit-Leaves,
}

-- The protocol state stays but for the three cells that LK advances and the voltage mark; outside
-- DMG mode neither the mark nor the 5 V select is newly set.
pub record IsConfined (s t : Seam) : Type 0 where
  pub address : ℕ
  pub bank : ℕ
  pub status : ℕ
  pub mark : ℕ
  pub st : t.st ≡ record s.st {
    address = address;
    last_bank_accessed = bank;
    status_register = status;
    voltage_is_five = mark;
  }
  pub mark_guard : is_dmg s.st.mode ≡ false → (mark ≡ s.st.voltage_is_five) ⊎ (mark ≡ 0)
  pub pin_guard : is_dmg s.st.mode ≡ false → t.vsel ≡ true → s.vsel ≡ true

settle-Leaves :
    (r : Ran) (d : Dispatched)
    → settle r ≡ some d
    → (d.seam.st ≡ mirror_from_lk r.vars r.seam.st) × (d.seam.vsel ≡ r.seam.vsel)
unfolding settle
settle-Leaves r d h =
    let s : Seam = record r.seam { st = mirror_from_lk r.vars r.seam.st } in
    elim (Bool-cases (s.recv_short && not s.send_stall)) [
      | inl z ↦
          let i =
            >>=-eq-some (conn_send_raw (ack_error ∷ []) s) (λ t. some (closed r.vars t))
              (rw z at h) in
          let k = conn_send_raw-Leaves (ack_error ∷ []) s i.0 i.1 in
          let e : closed r.vars i.0 ≡ d = cc (i.2) in rw (← e) (k.st, k.vsel)
      | inr z ↦ let e : closed r.vars s ≡ d = cc (rw z at h) in rw (← e) (refl, refl)
    ]

guarded-IsConfined :
    (s t u : Seam) (v : LkVars)
    → IsGuarded s t
    → u.st ≡ mirror_from_lk v t.st
    → u.vsel ≡ t.vsel
    → IsConfined s u
unfolding mirror_from_lk
guarded-IsConfined s t u v h e f = record {
  address = v.address;
  bank = v.last_bank_accessed;
  status = v.status_register;
  mark = h.mark;
  st = e ∙ ap (mirror_from_lk v) h.st;
  mark_guard = h.mark_guard;
  pin_guard = λ d p. h.pin_guard d (sym f ∙ p);
}

run_core-IsConfined :
    (core : Core) (lk_loop : ℕ → LkVars → Script) (op : ℕ) (v : LkVars) (s : Seam) (d : Dispatched)
    → run_core core lk_loop op v s ≡ some d
    → IsConfined s d.seam
unfolding run_core
run_core-IsConfined core lk_loop op v s d h =
    let script = λ (t : Seam). lk_loop op (mirror_to_lk core t.st v) in
    let i = >>=-eq-some (cart_wait_ready s) (λ t. run_script (script t) t >>= settle) h in
    let j = >>=-eq-some (run_script (script i.0) i.0) settle (i.2) in
    let w : Leaves s i.0 = unfold cart_wait_ready in wait_until-Leaves s.rounds _ s i.0 i.1 in
    let g =
      trans-IsGuarded s i.0 j.0.seam (Leaves-IsGuarded s i.0 w)
        (run_script-IsGuarded (script i.0) i.0 j.0 j.1) in
    let k = settle-Leaves j.0 d j.2 in guarded-IsConfined s j.0.seam d.seam j.0.vars g k.0 k.1

Leaves-IsConfined : (s t : Seam) → Leaves s t → IsConfined s t
Leaves-IsConfined s t h = record {
  address = s.st.address;
  bank = s.st.last_bank_accessed;
  status = s.st.status_register;
  mark = s.st.voltage_is_five;
  st = h.st;
  mark_guard = λ d. inl refl;
  pin_guard = λ d p. cc h.vsel;
}

moved-IsConfined : (s t u : Seam) → Leaves s t → IsConfined t u → IsConfined s u
moved-IsConfined s t u h k =
    let m : t.st.mode ≡ s.st.mode = ap (λ (x : FwState). x.mode) h.st in
    record {
      address = k.address;
      bank = k.bank;
      status = k.status;
      mark = k.mark;
      st =
          k.st
          ∙ ap
              (λ (x : FwState). record x {
                address = k.address;
                last_bank_accessed = k.bank;
                status_register = k.status;
                voltage_is_five = k.mark;
              })
              h.st;
      mark_guard = λ d. elim (k.mark_guard (ap is_dmg m ∙ d)) [
        | inl e ↦ inl (e ∙ ap (λ (x : FwState). x.voltage_is_five) h.st)
        | inr e ↦ inr e
      ];
      pin_guard = λ d p. sym h.vsel ∙ k.pin_guard (ap is_dmg m ∙ d) p;
    }

-- Whatever the LK core does between `lk_loop`'s start and its end, and whether or not the command
-- is admitted: a dispatch that returns has changed nothing of the protocol state but the address,
-- the last bank, the status register and the voltage mark. Outside DMG mode the 5 V select is not
-- set if it was not before, and the mark stays or is cleared.
pub lk_dispatch-IsConfined :
    (core : Core) (lk_loop : ℕ → LkVars → Script) (op : ℕ) (tail : List ℕ) (v : LkVars) (s : Seam)
    (d : Dispatched)
    → lk_dispatch core lk_loop op tail v s ≡ some d
    → IsConfined s d.seam
unfolding lk_dispatch
lk_dispatch-IsConfined core lk_loop op tail v s d h =
    let fresh : Seam = record s {
      pend = tail;
      pend_used = 0;
      push = [];
      recv_short = false;
      send_stall = false;
    } in
    let i = >>=-eq-some (lk_admit core op fresh) _ h in
    let k = lk_admit-Leaves core op fresh i.0 i.1 in
    let kept : Leaves s i.0.seam = record { st = k.st; vsel = k.vsel } in
    elim (Bool-cases i.0.ok) [
      | inl z ↦
          moved-IsConfined s i.0.seam d.seam kept
            (run_core-IsConfined core lk_loop op v i.0.seam d (rw z at i.2))
      | inr z ↦
          let e : closed v i.0.seam ≡ d = cc (rw z at i.2) in
          rw (← e) (
            Leaves-IsConfined s (closed v i.0.seam).seam
              (record { st = kept.st; vsel = kept.vsel }))
    ]
