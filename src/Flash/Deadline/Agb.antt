-- ===== src/Flash/Deadline/Agb.antt =====
-- src/main.c: the loop of `agb_status_wait`.
use open_gbflash_firmware.Common.{
  ℕ, not, ◌&&◌, if◌then◌else◌, ◌≡◌, ◌∙◌, Bool-cases, inl, inr, if_true, if_false, List, [], ◌∷◌,
  ◌++◌, some, none, true,
}
use open_gbflash_firmware.Proto.State.{FwState}
use open_gbflash_firmware.Glue.Link.{expired}
use open_gbflash_firmware.Flash.Bus.{Access, Poll, Cart, ◌▹◌}
use open_gbflash_firmware.Flash.Wait.{is_done, is_sharp, ask, agb_wait}
use open_gbflash_firmware.Flash.Deadline.Answer.{IsAnswer, Returns}

pub agb_wait-Returns :
    (before : List Poll) (last : Poll) (after : List Poll) (st : FwState) (deadline a want : ℕ)
    (c : Cart)
    → expired last.now deadline ≡ true
    → Returns
        (λ v. v)
        (is_done st want)
        (not (is_sharp st))
        deadline
        (before ++ last ∷ [])
        (agb_wait (before ++ last ∷ after) st deadline a want c)
unfolding agb_wait
agb_wait-Returns [] t after st deadline a want c late =
    let c1 = record (ask st a c) { turns = after } in
    elim (Bool-cases (is_done st want t.first)) [
      | inl g ↦ (record { timed_out = none; cart = c1 }, if_true _ _ _ g, IsAnswer.first g)
      | inr g ↦ (
        record { timed_out = some t.first; cart = c1 },
        if_false _ _ _ g ∙ if_true _ _ _ late,
        IsAnswer.lapse g late,
      )
    ]
agb_wait-Returns (t ∷ before) last after st deadline a want c late =
    let c1 = record (ask st a c) { turns = before ++ last ∷ after } in
    let c2 = if is_sharp st then c1 else c1 ▹ Access.agb_peek a in
    let twice = not (is_sharp st) in
    elim (Bool-cases (is_done st want t.first)) [
      | inl g ↦ (record { timed_out = none; cart = c1 }, if_true _ _ _ g, IsAnswer.first g)
      | inr g ↦ elim (Bool-cases (expired t.now deadline)) [
        | inl x ↦ (
          record { timed_out = some t.first; cart = c1 },
          if_false _ _ _ g ∙ if_true _ _ _ x,
          IsAnswer.lapse g x,
        )
        | inr x ↦ elim (Bool-cases (twice && is_done st want t.again)) [
          | inl y ↦ (
            record { timed_out = none; cart = c2 },
            if_false _ _ _ g ∙ if_false _ _ _ x ∙ if_true _ _ _ y,
            IsAnswer.again g x y,
          )
          | inr y ↦
              let (v, e, r) = agb_wait-Returns before last after st deadline a want c2 late in
              (
                v,
                if_false _ _ _ g ∙ if_false _ _ _ x ∙ if_false _ _ _ y ∙ e,
                IsAnswer.later g x y r,
              )
        ]
      ]
    ]
