-- ===== src/Glue/Tests.antt =====
-- src/lk_glue.c: runs of the seam on concrete bytes.
use Prim.{tt}
use open_gbflash_firmware.Common.{
  ℕ, zero, suc, inl, inr, ◌+◌, ◌-◌, ◌*◌, ◌≡◌, refl, arith, u32, List, [], ◌∷◌, ◌++◌, length, ◌>>=◌,
  some, true, false,
}
use open_gbflash_firmware.Proto.State.{Mode, init_state, ack_ok, ack_error, fw_parser_timeout_ms}
use open_gbflash_firmware.Glue.Seam.{Seam, Round}
use open_gbflash_firmware.Glue.Link.{
  Received, conn_recv, conn_send_raw, conn_send, cart_wait_ready, replicate, buffered,
  fw_lk_recv_fill,
}
use open_gbflash_firmware.Glue.Mirror.{Core, LkVars, mirror_to_lk, mirror_from_lk}
use open_gbflash_firmware.Glue.Dispatch.{
  Script, Ran, run_script, lk_admit, Admitted, lk_dispatch, Dispatched, closed,
}
use open_gbflash_firmware.Glue.Stream.{Delivers, conn_recv-Delivers, arrivals, stream}
use open_gbflash_firmware.Glue.Confine.{IsConfined, lk_dispatch-IsConfined}
use open_gbflash_firmware.Glue.Admission.{IsBounded, lk_admit-IsBounded}
use open_gbflash_firmware.Glue.Refusal.{IsSkipped, lk_dispatch-overlong}
use open_gbflash_firmware.Glue.Arriving.{AllInWindow, Supplied}
use open_gbflash_firmware.Glue.Silence.{Lapses, conn_recv-lapse, run_script-IsMute}

-- The sizes that the comments of src/lk_glue.c give.
abbrev core : Core
core = record {
  flashcmd_addr_n = 32;
  flashcmd_data_n = 32;
  data_buffer_size = 0x1000;
  mode_dmg = 1;
  mode_agb = 2;
}

abbrev blank : ℕ → ℕ
blank = λ _. 0

abbrev vars : LkVars
vars = record {
  address = 0;
  transfer_size = 0;
  buffer_size = 0;
  dmg_rom_bank = 0;
  status_register = 0;
  last_bank_accessed = 0;
  status_register_mask = 0;
  status_register_value = 0;
  cart_mode = 0;
  dmg_access_mode = 0;
  flash_command_set = 0;
  flash_method = 0;
  flash_we_pin = 0;
  flash_pulse_reset = 0;
  flash_commands_bank_1 = 0;
  flash_sharp_verify_sr = 0;
  dmg_read_cs_pulse = 0;
  dmg_write_cs_pulse = 0;
  flash_double_die = 0;
  dmg_read_method = 0;
  agb_read_method = 0;
  cart_powered = 0;
  pullups_enabled = 0;
  auto_poweroff_enabled = 0;
  agb_irq_enabled = 0;
  dmg_audio_enabled = 0;
  flashcmd_addr = blank;
  flashcmd_data = blank;
  write_cycle_addr = blank;
  write_cycle_data = blank;
  bankcmd_num = 0;
  bankcmd_addr = blank;
  bankcmd_mode = blank;
}

-- A core that reads a batch's header, drives the voltage and answers.
abbrev echo_core : ℕ → LkVars → Script
echo_core op v =
    Script.recv 2 (λ hdr. Script.voltage_5v (Script.send (ack_ok ∷ []) (Script.finish v)))

abbrev turn : ℕ → List ℕ → Round
turn now xs = record { arrived = xs; now = now; room = 64 }

abbrev seam : Seam
seam = record {
  st = record init_state { mode = Mode.agb };
  push = [];
  pend = 1 ∷ 2 ∷ [];
  pend_used = 0;
  recv_short = false;
  send_stall = false;
  incoming = [];
  sent = [];
  rounds = turn 1 [] ∷ turn 2 (3 ∷ 4 ∷ []) ∷ turn 3 [] ∷ turn 4 [] ∷ [];
  now = 0;
  ready_at = 0;
  vsel = false;
}

abbrev got_three : Received
got_three = record {
  bytes = 1 ∷ 2 ∷ 3 ∷ [];
  seam = record seam {
    pend = [];
    pend_used = 2;
    incoming = 4 ∷ [];
    rounds = turn 3 [] ∷ turn 4 [] ∷ [];
    now = 2;
  };
}

recv_three : conn_recv 3 seam ≡ some got_three
unfolding conn_recv
recv_three = refl

conn_recv-Delivers_example : Delivers 0 seam 3 got_three
conn_recv-Delivers_example = conn_recv-Delivers 3 seam got_three recv_three

-- The whole dispatch of a batch header at hand.
abbrev dispatched : Dispatched
dispatched = closed (mirror_to_lk core seam.st vars) (record seam {
  st = mirror_from_lk (mirror_to_lk core seam.st vars) seam.st;
  push = [];
  pend = [];
  pend_used = 2;
  incoming = 3 ∷ 4 ∷ [];
  sent = ack_ok ∷ [];
  rounds = turn 3 [] ∷ turn 4 [] ∷ [];
  now = 2;
})

dispatch_runs : lk_dispatch core echo_core 0xD4 (1 ∷ 2 ∷ []) vars seam ≡ some dispatched
unfolding lk_dispatch conn_recv conn_send mirror_from_lk init_state cart_wait_ready
dispatch_runs = refl

lk_dispatch-IsConfined_example : IsConfined seam dispatched.seam
lk_dispatch-IsConfined_example =
    lk_dispatch-IsConfined core echo_core 0xD4 (1 ∷ 2 ∷ []) vars seam dispatched dispatch_runs

abbrev admitted_batch : Admitted
admitted_batch = record {
  ok = true;
  seam = record seam { push = 1 ∷ 2 ∷ []; pend = []; pend_used = 2 };
}

admit_runs : lk_admit core 0xD4 seam ≡ some admitted_batch
unfolding lk_admit conn_recv
admit_runs = refl

lk_admit-IsBounded_example :
    IsBounded core 0xD4 admitted_batch.seam × (stream admitted_batch.seam ≡ stream seam)
lk_admit-IsBounded_example =
    lk_admit-IsBounded core 0xD4 seam admitted_batch (omega arith) (omega arith) refl refl
      admit_runs refl

-- Turns without a byte.
unfoldable idle_turns : ℕ → List Round
idle_turns zero = []
idle_turns (suc n) = turn 1900 [] ∷ idle_turns n

idle_turns-AllInWindow : (n : ℕ) → AllInWindow 0 (idle_turns n)
unfolding idle_turns AllInWindow
idle_turns-AllInWindow zero = tt
idle_turns-AllInWindow (suc n) = ((omega arith, omega arith), idle_turns-AllInWindow n)

-- 17 pairs: the header and 40 bytes of them at hand, 30 more behind in the ring, the others over
-- three turns, with one byte of the next command behind them, and turns to spare.
abbrev late_seam : Seam
late_seam = record seam {
  pend = [];
  incoming = replicate 30 5;
  rounds =
      turn 1 []
      ∷ turn 3 (replicate 20 5)
      ∷ turn 1500 []
      ∷ turn 1501 (replicate 12 5 ++ (9 ∷ []))
      ∷ idle_turns 103;
}

abbrev late_tail : List ℕ
late_tail = 1 ∷ 17 ∷ replicate 40 5

late-comes :
    late_tail ++ (late_seam.incoming ++ arrivals late_seam.rounds)
    ≡ 1 ∷ 17 ∷ (replicate 102 5 ++ (9 ∷ []))
unfolding replicate idle_turns
late-comes = refl

late-Supplied :
    Supplied
      (suc (17 * 6))
      (2 + 17 * 6 - length late_tail - length late_seam.incoming)
      late_seam.rounds
unfolding Supplied replicate idle_turns
late-Supplied = inr (inr (inr (inr (inl (refl, omega arith)))))

late-AllInWindow : AllInWindow late_seam.now late_seam.rounds
unfolding AllInWindow
late-AllInWindow = (
  (omega arith, omega arith),
  (
    (omega arith, omega arith),
    ((omega arith, omega arith), ((omega arith, omega arith), idle_turns-AllInWindow 103)),
  ),
)

lk_dispatch-overlong_example :
    (t : Seam) × IsSkipped late_tail (9 ∷ []) late_seam t
    × (lk_dispatch core echo_core 0xD4 late_tail vars late_seam
        ≡ (conn_send_raw (ack_error ∷ []) t >>= λ u. some (closed vars u)))
lk_dispatch-overlong_example =
    lk_dispatch-overlong core echo_core 1 17 late_tail (replicate 102 5) (9 ∷ []) vars late_seam
      (omega arith) (unfold replicate in refl) late-comes late-Supplied (omega arith)
      late-AllInWindow

-- A host that is gone.
abbrev gone : Seam
gone = record seam { rounds = turn 1 [] ∷ turn 2500 [] ∷ [] }

gone-Lapses : Lapses (u32 (gone.now + fw_parser_timeout_ms)) gone.rounds
gone-Lapses = Lapses.later refl (Lapses.at_last refl refl)

conn_recv-lapse_example :
    (r : Received) × (conn_recv 3 gone ≡ some r)
    × (r.bytes
        ≡ (buffered 3 gone).bytes ++ replicate (3 - length (buffered 3 gone).bytes) fw_lk_recv_fill)
    × (r.seam.recv_short ≡ true)
conn_recv-lapse_example = conn_recv-lapse 3 gone (omega arith) refl gone-Lapses

abbrev short_seam : Seam
short_seam = record seam { recv_short = true }

abbrev short_run : Ran
short_run = record { vars = vars; seam = short_seam }

short_script : Script
short_script = Script.send (1 ∷ []) (Script.finish vars)

short_runs : run_script short_script short_seam ≡ some short_run
unfolding run_script conn_send short_script
short_runs = refl

run_script-IsMute_example :
    (short_run.seam.sent ≡ short_seam.sent) × (short_run.seam.recv_short ≡ true)
run_script-IsMute_example = run_script-IsMute short_script short_seam short_run refl short_runs
