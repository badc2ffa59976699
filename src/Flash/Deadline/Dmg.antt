-- ===== src/Flash/Deadline/Dmg.antt =====
-- src/main.c: the loops of `dmg_status_wait`.
use open_gbflash_firmware.Common.{
  ℕ, ◌==◌, u8, ◌≡◌, refl, sym, ◌∙◌, ap, Bool-cases, inl, inr, if_true, if_false, List, [], ◌∷◌,
  ◌++◌, some, none, true, false, fun_ext, subst,
}
use open_gbflash_firmware.Proto.State.{FwState}
use open_gbflash_firmware.Glue.Link.{expired}
use open_gbflash_firmware.Flash.Bus.{Access, Poll, Cart, ◌▹◌}
use open_gbflash_firmware.Flash.Wait.{
  is_amd, is_done, deadline_of, dmg_poll, dmg_wait, dmg_status_wait,
}
use open_gbflash_firmware.Flash.Deadline.Answer.{IsAnswer, Returns}

dmg_wait-Returns :
    (before : List Poll) (last : Poll) (after : List Poll) (st : FwState) (deadline a want : ℕ)
    (c : Cart)
    → expired last.now deadline ≡ true
    → Returns u8
        (is_done st want)
        false
        deadline
        (before ++ last ∷ [])
        (dmg_wait (before ++ last ∷ after) st deadline a want c)
unfolding dmg_wait
dmg_wait-Returns [] t after st deadline a want c late =
    let c1 = record (c ▹ Access.dmg_read a) { turns = after } in
    elim (Bool-cases (is_done st want (u8 t.first))) [
      | inl g ↦ (record { timed_out = none; cart = c1 }, if_true _ _ _ g, IsAnswer.first g)
      | inr g ↦ (
        record { timed_out = some (u8 t.first); cart = c1 },
        if_false _ _ _ g ∙ if_true _ _ _ late,
        IsAnswer.lapse g late,
      )
    ]
dmg_wait-Returns (t ∷ before) last after st deadline a want c late =
    let c1 = record (c ▹ Access.dmg_read a) { turns = before ++ last ∷ after } in
    elim (Bool-cases (is_done st want (u8 t.first))) [
      | inl g ↦ (record { timed_out = none; cart = c1 }, if_true _ _ _ g, IsAnswer.first g)
      | inr g ↦ elim (Bool-cases (expired t.now deadline)) [
        | inl x ↦ (
          record { timed_out = some (u8 t.first); cart = c1 },
          if_false _ _ _ g ∙ if_true _ _ _ x,
          IsAnswer.lapse g x,
        )
        | inr x ↦
            let (v, e, r) = dmg_wait-Returns before last after st deadline a want c1 late in
            (v, if_false _ _ _ g ∙ if_false _ _ _ x ∙ e, IsAnswer.later g x refl r)
      ]
    ]

dmg_poll-Returns :
    (before : List Poll) (last : Poll) (after : List Poll) (deadline a want : ℕ) (c : Cart)
    → expired last.now deadline ≡ true
    → Returns u8
        (λ v. v == want)
        false
        deadline
        (before ++ last ∷ [])
        (dmg_poll (before ++ last ∷ after) deadline a want c)
unfolding dmg_poll
dmg_poll-Returns [] t after deadline a want c late =
    let c1 = record (c ▹ Access.poll_read a) { turns = after } ▹ Access.poll_close in
    elim (Bool-cases (u8 t.first == want)) [
      | inl g ↦ (record { timed_out = none; cart = c1 }, if_true _ _ _ g, IsAnswer.first g)
      | inr g ↦ (
        record { timed_out = some (u8 t.first); cart = c1 },
        if_false _ _ _ g ∙ if_true _ _ _ late,
        IsAnswer.lapse g late,
      )
    ]
dmg_poll-Returns (t ∷ before) last after deadline a want c late =
    let c1 = record (c ▹ Access.poll_read a) { turns = before ++ last ∷ after } in
    elim (Bool-cases (u8 t.first == want)) [
      | inl g ↦ (
        record { timed_out = none; cart = c1 ▹ Access.poll_close },
        if_true _ _ _ g,
        IsAnswer.first g,
      )
      | inr g ↦ elim (Bool-cases (expired t.now deadline)) [
        | inl x ↦ (
          record { timed_out = some (u8 t.first); cart = c1 ▹ Access.poll_close },
          if_false _ _ _ g ∙ if_true _ _ _ x,
          IsAnswer.lapse g x,
        )
        | inr x ↦
            let (v, e, r) = dmg_poll-Returns before last after deadline a want c1 late in
            (v, if_false _ _ _ g ∙ if_false _ _ _ x ∙ e, IsAnswer.later g x refl r)
      ]
    ]

pub dmg_status_wait-Returns :
    (before : List Poll) (last : Poll) (after : List Poll) (st : FwState) (a want : ℕ) (c : Cart)
    → c.turns ≡ before ++ last ∷ after
    → expired last.now (deadline_of c.turns) ≡ true
    → Returns u8
        (is_done st want)
        false
        (deadline_of c.turns)
        (before ++ last ∷ [])
        (dmg_status_wait st a want c)
unfolding dmg_status_wait
dmg_status_wait-Returns before last after st a want c e late =
    let d = deadline_of c.turns in
    let seen = before ++ last ∷ [] in
    elim (Bool-cases (is_amd st)) [
      | inl amd ↦
          let good : (λ v. v == want) ≡ is_done st want =
            fun_ext λ v. sym (if_true (is_amd st) (v == want) _ amd) in
          let poll = λ (ts : List Poll). dmg_poll ts d a want (c ▹ Access.poll_open) in
          subst (λ m. Returns u8 (is_done st want) false d seen m)
            (ap poll (sym e) ∙ sym (if_true (is_amd st) (poll c.turns) _ amd))
            (subst (λ g. Returns u8 g false d seen (poll (before ++ last ∷ after))) good
              (dmg_poll-Returns before last after d a want (c ▹ Access.poll_open) late))
      | inr other ↦
          let wait = λ (ts : List Poll). dmg_wait ts st d a want c in
          subst (λ m. Returns u8 (is_done st want) false d seen m)
            (ap wait (sym e) ∙ sym (if_false (is_amd st) _ (wait c.turns) other))
            (dmg_wait-Returns before last after st d a want c late)
    ]
