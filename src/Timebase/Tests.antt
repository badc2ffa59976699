-- ===== src/Timebase/Tests.antt =====
-- src/timebase.c: a reading across the counter's wrap.
use open_gbflash_firmware.Common.{refl, ◌+◌, ◌/◌, ◌%◌, ◌≡◌, arith, u32}
use open_gbflash_firmware.Timebase.{Clock, lap, time_init, time_ms}
use open_gbflash_firmware.Timebase.Exact.{IsValid, cycles, time_ms-exact, time_init-IsValid}

-- 100 cycles before the counter wraps.
abbrev clock : Clock
clock = record { ms = 5; us = 990; cyc = 7; last = 100; running = 1 }

clock-IsValid : IsValid clock
clock-IsValid = omega arith

time_ms-exact_example :
    let d = time_ms clock 16777000 in
    (d.ms ≡ u32 (clock.ms + cycles clock 16777000 / 40000))
    × (d.us ≡ cycles clock 16777000 % 40000 / 40)
    × (d.cyc ≡ cycles clock 16777000 % 40)
    × (d.last ≡ 16777000 % lap)
    × IsValid d
time_ms-exact_example = time_ms-exact clock 16777000 clock-IsValid

-- Not started.
abbrev cold : Clock
cold = record { ms = 9; us = 9; cyc = 9; last = 9; running = 0 }

time_init-IsValid_example :
    IsValid (time_init cold 16777215)
    × ((time_init cold 16777215).ms ≡ 0)
    × (time_init (time_init cold 16777215) 12 ≡ time_init cold 16777215)
time_init-IsValid_example = time_init-IsValid cold 16777215 12 refl
