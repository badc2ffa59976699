-- ===== src/Flash/Chunks/Waits.antt =====
-- src/main.c: a status wait does not depend on the marks of the pump.
use open_gbflash_firmware.Common.{
  ℕ, ◌<◌, if◌then◌else◌, u8, ◌≡◌, refl, ap, Array, List, [], ◌∷◌, ◌&&◌, not,
}
use open_gbflash_firmware.Proto.State.{FwState}
use open_gbflash_firmware.Glue.Link.{expired}
use open_gbflash_firmware.Flash.Bus.{Access, Poll, Cart, ◌▹◌}
use open_gbflash_firmware.Flash.Wait.{
  passed, is_amd, is_sharp, is_done, ask, gave_up, agb_wait, dmg_wait, dmg_poll, deadline_of,
  agb_status_wait, dmg_status_wait,
}

-- The state with other marks of the pump.
abbrev pub marked : FwState → ℕ → ℕ → FwState
marked st d s = record st { program_done = d; program_streamed = s }

-- The first `n` bytes are the same.
abbrev pub Agree : ℕ → Array → Array → Type 0
Agree n a b = (i : ℕ) → i < n → a i ≡ b i

agb_wait-marked :
    (ts : List Poll) (st : FwState) (d s deadline a want : ℕ) (c : Cart)
    → agb_wait ts (marked st d s) deadline a want c ≡ agb_wait ts st deadline a want c
unfolding agb_wait
agb_wait-marked [] st d s deadline a want c = refl
agb_wait-marked (t ∷ ts) st d s deadline a want c =
    let c1 = record (ask st a c) { turns = ts } in
    let c2 = if is_sharp st then c1 else c1 ▹ Access.agb_peek a in
    ap
      (λ rest.
        if is_done st want t.first
        then passed c1
        else if expired t.now deadline
        then gave_up t.first c1
        else if not (is_sharp st) && is_done st want t.again
        then passed c2
        else rest)
      (agb_wait-marked ts st d s deadline a want c2)

pub agb_status_wait-marked :
    (st : FwState) (d s a want : ℕ) (c : Cart)
    → agb_status_wait (marked st d s) a want c ≡ agb_status_wait st a want c
unfolding agb_status_wait
agb_status_wait-marked st d s a want c =
    agb_wait-marked c.turns st d s (deadline_of c.turns) a want c

dmg_wait-marked :
    (ts : List Poll) (st : FwState) (d s deadline a want : ℕ) (c : Cart)
    → dmg_wait ts (marked st d s) deadline a want c ≡ dmg_wait ts st deadline a want c
unfolding dmg_wait
dmg_wait-marked [] st d s deadline a want c = refl
dmg_wait-marked (t ∷ ts) st d s deadline a want c =
    let c1 = record (c ▹ Access.dmg_read a) { turns = ts } in
    ap
      (λ rest.
        if is_done st want (u8 t.first)
        then passed c1
        else if expired t.now deadline
        then gave_up (u8 t.first) c1
        else rest)
      (dmg_wait-marked ts st d s deadline a want c1)

pub dmg_status_wait-marked :
    (st : FwState) (d s a want : ℕ) (c : Cart)
    → dmg_status_wait (marked st d s) a want c ≡ dmg_status_wait st a want c
unfolding dmg_status_wait
dmg_status_wait-marked st d s a want c =
    ap
      (λ m.
        if is_amd st
        then dmg_poll c.turns (deadline_of c.turns) a want (c ▹ Access.poll_open)
        else m)
      (dmg_wait-marked c.turns st d s (deadline_of c.turns) a want c)
