-- ===== src/Flash/Loops.antt =====
-- src/main.c: the loops that the AGB and DMG programming share: the stream pumps and the loops over the
-- rest of a block. `program done have` programs one chunk; `unit` is the bytes of one bus word, 2 or 1.
use open_gbflash_firmware.Common.{
  ℕ, zero, suc, ◌+◌, ◌-◌, ◌*◌, ◌/◌, ltb, leb, if◌then◌else◌, u16, Option, some, none, ◌>>=◌, ◌==◌,
}
use open_gbflash_firmware.Flash.Bus.{Cart}
use open_gbflash_firmware.Flash.Wait.{Verdict, passed}

-- What a pump leaves: `program_done`, `program_streamed`, and whether a chunk timed out.
pub record Streamed : Type 0 where
  pub done : ℕ
  pub streamed : ℕ
  pub verdict : Verdict

abbrev pub idle_pump : ℕ → ℕ → Cart → Option Streamed
idle_pump done streamed c =
    some
      (record { done = done; streamed = streamed; verdict = record { timed_out = none; cart = c } })

module _ (program : ℕ → ℕ → Cart → Option Verdict) (unit words : ℕ) where
  -- `while (filled >= program_done + chunk)`
  unfoldable pub stream_loop : ℕ → ℕ → ℕ → ℕ → Cart → Option Streamed
  stream_loop zero filled done streamed c = idle_pump done streamed c
  stream_loop (suc fuel) filled done streamed c =
      let s0 = if done == 0 then 0 else streamed in
      let turn = program done words c >>= λ v. elim v.timed_out [
        | none ↦ stream_loop fuel filled (u16 (done + words * unit)) (u16 (s0 + 1)) v.cart
        | some x ↦ some (record { done = done; streamed = s0; verdict = v })
      ] in
      if leb (done + words * unit) filled then turn else idle_pump done streamed c

  abbrev pub next_have : ℕ → ℕ → ℕ
  next_have n done = if ltb words ((n - done) / unit) then words else (n - done) / unit

  -- `while (done + (unit - 1) < n)`
  unfoldable pub tail_loop : ℕ → ℕ → ℕ → Cart → Option Verdict
  tail_loop zero n done c = passed c
  tail_loop (suc fuel) n done c =
      let turn = program done (next_have n done) c >>= λ v. elim v.timed_out [
        | none ↦ tail_loop fuel n (done + next_have n done * unit) v.cart
        | some x ↦ some v
      ] in
      if ltb (done + (unit - 1)) n then turn else passed c
