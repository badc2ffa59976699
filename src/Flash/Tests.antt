-- ===== src/Flash/Tests.antt =====
-- src/main.c: flash programming on concrete blocks.
use Prim.{tt}
use open_gbflash_firmware.Common.{
  ℕ, zero, suc, ◌<◌, ◌%◌, ◌^◌, ◌≡◌, refl, arith, Array, of_list, List, [], ◌∷◌, ◌>>=◌, some, none,
  true, false, not,
}
use open_gbflash_firmware.Proto.State.{FwState, Mode, init_state}
use open_gbflash_firmware.Flash.Bus.{Access, Poll, Cart, ◌▹◌}
use open_gbflash_firmware.Flash.Wait.{is_done, is_sharp, agb_status_wait, dmg_status_wait, agb_wait}
use open_gbflash_firmware.Flash.Loops.{tail_loop}
use open_gbflash_firmware.Flash.Agb.{Job, agb_program_chunk}
use open_gbflash_firmware.Flash.Program.{Programmed, finish, agb_buffered, do_flash_program}
use open_gbflash_firmware.Flash.Streaming.{rounds, outcome, rounds-then-do_flash_program}
use open_gbflash_firmware.Flash.Deadline.{Returns, status_waits-Return}
use open_gbflash_firmware.Flash.Image.{image, placed}
use open_gbflash_firmware.Flash.Placed.{do_flash_program-placed}

-- A block of four bytes in two chunks of a word, on an AMD chip.
abbrev block : Array
block = of_list (0x11 ∷ 0x22 ∷ 0x33 ∷ 0x44 ∷ [])

abbrev half : Array
half = of_list (0x11 ∷ 0x22 ∷ [])

abbrev st : FwState
st = record init_state {
  mode = Mode.agb;
  flash_method = 2;
  flash_command_set = 1;
  flash_sharp_verify_sr = 0;
  flash_double_die = 0;
  buffer_size = 2;
  program_len = 4;
  program_done = 0;
  program_stream_err = 0;
  address = 0x100;
  flash_cmd_addr = of_list (0x555 ∷ 0x2AA ∷ []);
  flash_cmd_val = of_list (0xAA ∷ 0x55 ∷ 0x25 ∷ 0 ∷ 0 ∷ 0x29 ∷ []);
}

abbrev turn : ℕ → ℕ → Poll
turn first now = record { start = 10; first = first; now = now; again = 0 }

-- The first chunk is done at the second turn, the other at once.
abbrev cart : Cart
cart = record { trace = []; turns = turn 0 11 ∷ turn 0x2211 12 ∷ turn 0x4433 13 ∷ [] }

abbrev job : Job
job = record { st = st; cart = cart }

rounds-then-do_flash_program_example :
    (rounds true (record { filled = 2; payload = half } ∷ []) job >>= outcome true block)
    ≡ outcome true block job
rounds-then-do_flash_program_example =
    rounds-then-do_flash_program true block (record { filled = 2; payload = half } ∷ []) job
      (omega arith) (record { within = omega arith; same = same }, tt)
  where
    same : (i : ℕ) → i < 2 → half i ≡ block i
    same zero h = refl
    same (suc zero) h = refl
    same (suc (suc i)) h = absurd (omega arith)

abbrev load : ℕ → List ℕ → Cart → Cart
load sa bytes c =
    c
    ▹ Access.agb_write 0x555 0xAA
    ▹ Access.agb_write 0x2AA 0x55
    ▹ Access.agb_write sa 0x25
    ▹ Access.agb_write sa 0
    ▹ Access.agb_burst sa bytes
    ▹ Access.agb_write sa 0x29
    ▹ Access.agb_peek sa

abbrev after : Cart
after =
    record (load 0x101 (0x33 ∷ 0x44 ∷ [])
      (load 0x100 (0x11 ∷ 0x22 ∷ []) cart ▹ Access.agb_peek 0x100 ▹ Access.agb_peek 0x100)) {
        turns = [];
      }

abbrev programmed : Programmed
programmed = finish st 2 (record { timed_out = none; cart = after })

run_example : do_flash_program true block job ≡ some programmed
unfolding do_flash_program agb_buffered tail_loop agb_program_chunk agb_status_wait agb_wait
run_example = refl

do_flash_program-placed_example : image after.trace (λ x. 0xFF) ≡ placed 0x200 4 block (λ x. 0xFF)
do_flash_program-placed_example =
    do_flash_program-placed true block (λ x. 0xFF) job programmed refl refl (omega arith) refl
      (omega arith) run_example refl

-- Both chips still busy when the clock runs out: a turn at 12 ms, one at 510 ms, one that is never read.
abbrev busy : Cart
busy = record { trace = []; turns = turn 0 12 ∷ turn 0x80 510 ∷ turn 0x2211 511 ∷ [] }

status_waits-Return_example :
    Returns
      (λ v. v)
      (is_done st 0x2211)
      (not (is_sharp st))
      510
      (turn 0 12 ∷ turn 0x80 510 ∷ [])
      (agb_status_wait st 0x100 0x2211 busy)
    × Returns
        (λ v. v % 2 ^ 8)
        (is_done st 0x2211)
        false
        510
        (turn 0 12 ∷ turn 0x80 510 ∷ [])
        (dmg_status_wait st 0x100 0x2211 busy)
status_waits-Return_example =
    status_waits-Return (turn 0 12 ∷ []) (turn 0x80 510) (turn 0x2211 511 ∷ []) st 0x100 0x2211 busy
      refl refl
