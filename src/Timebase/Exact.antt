-- ===== src/Timebase/Exact.antt =====
-- src/timebase.c: the loops without a divide compute the quotients and remainders, so that no cycle
-- is lost.
use open_gbflash_firmware.Common.{
  ℕ, zero, suc, ◌+◌, ◌-◌, ◌*◌, ◌/◌, ◌%◌, ◌^◌, ◌≤◌, ◌<◌, ◌≡◌, ◌≢◌, arith, u32, sub32, ne→==,
}
use open_gbflash_firmware.Timebase.{
  Clock, cycles_per_us, us_block, us_recip, lap, peel, correct, carry, split, time_ms, time_init,
}

-- 65,520 cycles a round: with a round for each, the loop ends below 0x10000 and keeps the sum.
peel_lem :
    (fuel us elapsed : ℕ)
    → elapsed < 0x10000 + fuel * 65520
    → us * 40 + elapsed < 2 ^ 32
    → let p = peel fuel us elapsed in
      (p.count * 40 + p.left ≡ us * 40 + elapsed) × (p.left < 0x10000)
unfolding peel
peel_lem zero us elapsed h small = omega arith
peel_lem (suc fuel) us elapsed h small =
    ground (arith, peel_lem fuel (u32 (us + us_block)) (elapsed - us_block * cycles_per_us))

correct_lem :
    (fuel q r : ℕ)
    → r < 40 + fuel * 40
    → q * 40 + r < 2 ^ 32
    → let p = correct fuel q r in (p.count * 40 + p.left ≡ q * 40 + r) × (p.left < 40)
unfolding correct
correct_lem zero q r h small = omega arith
correct_lem (suc fuel) q r h small =
    ground (arith, correct_lem fuel (u32 (q + 1)) (r - cycles_per_us))

split_lem :
    (elapsed : ℕ)
    → elapsed < 0x10000
    → ((split elapsed).count ≡ elapsed / 40) × ((split elapsed).left ≡ elapsed % 40)
unfolding split
split_lem elapsed h =
    let q = u32 (elapsed * us_recip) / 2 ^ 16 in
    let r = sub32 elapsed (u32 (q * cycles_per_us)) in
    let low : q * 40 ≤ elapsed = omega arith in
    let high : elapsed < q * 40 + 80 = omega arith in
    let sum : q * 40 + r ≡ elapsed = omega arith in
    omega (arith, correct_lem 2 q r (omega arith) (omega arith))

carry_lem :
    (fuel ms us : ℕ)
    → us < 1000 + fuel * 1000
    → ms < 2 ^ 32
    → let p = carry fuel ms us in (p.count ≡ u32 (ms + us / 1000)) × (p.left ≡ us % 1000)
unfolding carry
carry_lem zero ms us h small = omega arith
carry_lem (suc fuel) ms us h small = ground (arith, carry_lem fuel (u32 (ms + 1)) (us - 1000))

-- What holds of a started clock.
pub record IsValid (c : Clock) : Type 0 where
  pub ms : c.ms < 2 ^ 32
  pub us : c.us < 1000
  pub cyc : c.cyc < 40
  pub last : c.last < lap
  pub running : c.running ≢ 0

-- The first start gives a clock at 0 ms, and a second start changes nothing.
pub time_init-IsValid :
    (c : Clock) (cvr later : ℕ)
    → c.running ≡ 0
    → IsValid (time_init c cvr)
      × ((time_init c cvr).ms ≡ 0)
      × (time_init (time_init c cvr) later ≡ time_init c cvr)
unfolding time_init
time_init-IsValid c cvr later h = ground arith

-- The cycles since the clock's millisecond began, with those since the last sample.
abbrev pub cycles : Clock → ℕ → ℕ
cycles c cvr = c.us * 40 + c.cyc + (c.last + lap - cvr % lap) % lap

-- A reading accounts for every cycle since the last one, to the cycle: the milliseconds advance by
-- the whole milliseconds of the cycles due, modulo 2 ^ 32, and the rest is carried over.
pub time_ms-exact :
    (c : Clock) (cvr : ℕ)
    → IsValid c
    → let d = time_ms c cvr in
      (d.ms ≡ u32 (c.ms + cycles c cvr / 40000))
      × (d.us ≡ cycles c cvr % 40000 / 40)
      × (d.cyc ≡ cycles c cvr % 40)
      × (d.last ≡ cvr % lap)
      × IsValid d
unfolding time_ms
time_ms-exact c cvr v =
    let elapsed = u32 (sub32 c.last (cvr % lap) % lap + c.cyc) in
    let e : elapsed ≡ (c.last + lap - cvr % lap) % lap + c.cyc = omega arith in
    let p = peel 257 c.us elapsed in
    let pl = peel_lem 257 c.us elapsed (omega arith) (omega arith) in
    let s = split p.left in
    let sl = split_lem p.left pl.1 in
    let k = u32 (p.count + s.count) in
    let kl = carry_lem 512 c.ms k (omega arith) v.ms in
    rw (ne→== c.running 0 v.running) (omega (arith, e, pl, sl, kl))
