-- ===== src/Flash/Deadline.antt =====
-- src/main.c: when a status wait returns, and with what.
use open_gbflash_firmware.Common.{
  ℕ, ◌==◌, not, ◌&&◌, if◌then◌else◌, u8, ◌≡◌, refl, sym, ◌∙◌, ap, Bool-cases, inl, inr, if_true,
  if_false, List, [], ◌∷◌, ◌++◌, Option, some, none, Bool, true, false, fun_ext, subst,
}
use open_gbflash_firmware.Proto.State.{FwState}
use open_gbflash_firmware.Glue.Link.{expired}
use open_gbflash_firmware.Flash.Bus.{Access, Poll, Cart, ◌▹◌}
use open_gbflash_firmware.Flash.Wait.{
  Verdict, is_amd, is_done, is_sharp, ask, agb_wait, deadline_of, agb_status_wait, dmg_poll,
  dmg_wait, dmg_status_wait,
}
mod Answer
mod Agb
mod Dmg
pub use Answer.*
pub use Agb.*
pub use Dmg.*

agb_status_wait-Returns :
    (before : List Poll) (last : Poll) (after : List Poll) (st : FwState) (a want : ℕ) (c : Cart)
    → c.turns ≡ before ++ last ∷ after
    → expired last.now (deadline_of c.turns) ≡ true
    → Returns
        (λ v. v)
        (is_done st want)
        (not (is_sharp st))
        (deadline_of c.turns)
        (before ++ last ∷ [])
        (agb_status_wait st a want c)
unfolding agb_status_wait
agb_status_wait-Returns before last after st a want c e late =
    let d = deadline_of c.turns in
    subst (λ m. Returns (λ v. v) (is_done st want) (not (is_sharp st)) d (before ++ last ∷ []) m)
      (ap (λ ts. agb_wait ts st d a want c) (sym e))
      (agb_wait-Returns before last after st d a want c late)

-- Each status wait returns by the first turn that reads the clock at 500 ms or more past its start. It
-- passes exactly where a reading that counts is good before the clock has run out, the second of a turn
-- on AGB without the Sharp check included; else it fails with the reading, not good, of the first turn
-- whose clock has run out.
pub status_waits-Return :
    (before : List Poll) (last : Poll) (after : List Poll) (st : FwState) (a want : ℕ) (c : Cart)
    → c.turns ≡ before ++ last ∷ after
    → expired last.now (deadline_of c.turns) ≡ true
    → Returns
        (λ v. v)
        (is_done st want)
        (not (is_sharp st))
        (deadline_of c.turns)
        (before ++ last ∷ [])
        (agb_status_wait st a want c)
      × Returns u8
          (is_done st want)
          false
          (deadline_of c.turns)
          (before ++ last ∷ [])
          (dmg_status_wait st a want c)
status_waits-Return before last after st a want c e late = (
  agb_status_wait-Returns before last after st a want c e late,
  dmg_status_wait-Returns before last after st a want c e late,
)
