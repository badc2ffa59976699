-- ===== src/Timebase.antt =====
-- src/timebase.c, include/timebase.h: the millisecond clock over the free-running 24-bit SysTick
-- counter, at the shipped 40 MHz (so the path without a divide). What the register SYST_CVR reads
-- is an argument.
pub mod Exact
pub mod Tests
use open_gbflash_firmware.Common.{
  ℕ, zero, suc, ◌+◌, ◌-◌, ◌*◌, ◌/◌, ◌%◌, ◌^◌, ◌==◌, leb, if◌then◌else◌, u32, sub32,
}

abbrev pub cycles_per_us : ℕ
cycles_per_us = 40

abbrev pub us_recip : ℕ
us_recip = 0x10000 / cycles_per_us

abbrev pub us_block : ℕ
us_block = 0x10000 / cycles_per_us

-- BL_TIME_SYST_MAX + 1: the counter's modulus.
abbrev pub lap : ℕ
lap = 2 ^ 24

-- The file's statics.
pub record Clock : Type 0 where
  pub ms : ℕ
  pub us : ℕ
  pub cyc : ℕ
  pub last : ℕ
  pub running : ℕ

-- `bl_time_init`; `cvr` is the sample read after the start. A live epoch is kept.
pub time_init : Clock → ℕ → Clock
time_init c cvr =
    if c.running == 0 then record { ms = 0; us = 0; cyc = 0; last = cvr % lap; running = 1 } else c

-- A loop's two variables.
pub record Pair : Type 0 where
  pub count : ℕ
  pub left : ℕ

-- `while (elapsed >= 0x10000u)`
pub peel : ℕ → ℕ → ℕ → Pair
peel zero us elapsed = record { count = us; left = elapsed }
peel (suc fuel) us elapsed =
    let rest = peel fuel (u32 (us + us_block)) (elapsed - us_block * cycles_per_us) in
    if leb 0x10000 elapsed then rest else record { count = us; left = elapsed }

-- `while (r >= BL_TIME_CYCLES_PER_US)`
pub correct : ℕ → ℕ → ℕ → Pair
correct zero q r = record { count = q; left = r }
correct (suc fuel) q r =
    let rest = correct fuel (u32 (q + 1)) (r - cycles_per_us) in
    if leb cycles_per_us r then rest else record { count = q; left = r }

-- `while (us >= BL_TIME_US_PER_MS)`
pub carry : ℕ → ℕ → ℕ → Pair
carry zero ms us = record { count = ms; left = us }
carry (suc fuel) ms us =
    let rest = carry fuel (u32 (ms + 1)) (us - 1000) in
    if leb 1000 us then rest else record { count = ms; left = us }

-- The split of at most 0x10000 - 1 cycles by the reciprocal.
pub split : ℕ → Pair
unfolding correct
split elapsed =
    let q = u32 (elapsed * us_recip) / 2 ^ 16 in
    correct 2 q (sub32 elapsed (u32 (q * cycles_per_us)))

-- `bl_time_ms`. The fuels are the most rounds that one lap of the counter can ask for.
pub time_ms : Clock → ℕ → Clock
unfolding peel carry split
time_ms c cvr =
    if c.running == 0
    then c
    else let now = cvr % lap in
      let elapsed = u32 (sub32 c.last now % lap + c.cyc) in
      let p = peel 257 c.us elapsed in
      let s = split p.left in
      let k = carry 512 c.ms (u32 (p.count + s.count)) in
      record c { ms = k.count; us = k.left; cyc = s.left; last = now }
