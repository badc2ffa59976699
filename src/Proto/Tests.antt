-- ===== src/Proto/Tests.antt =====
-- src/proto.c: runs of the parser on concrete bytes.
use Prim.{tt}
use open_gbflash_firmware.Proto.Progress.{payload_remaining-feed}
use open_gbflash_firmware.Common.{
  ◌+◌, ◌&&◌, ◌||◌, not, ℕ, zero, suc, ◌≤◌, ◌≡◌, refl, ◌∙◌, ap, arith, ◌==◌, leb, if◌then◌else◌,
  sub32, Array, update, copy_bytes, of_list, List, [], ◌∷◌, ◌++◌, length, take, true, false,
}
use open_gbflash_firmware.Proto.Command.{decode, arg_len}
use open_gbflash_firmware.Proto.State.{
  FwState, Parser, init_state, init_parser, ack_ok, ack_error, fw_max_transfer,
  fw_parser_timeout_ms,
}
use open_gbflash_firmware.Proto.Variable.{get_variable, set_variable, var_of}
use open_gbflash_firmware.Proto.Blob.{get_var_state, set_var_state}
use open_gbflash_firmware.Proto.Payload.{payload_len}
use open_gbflash_firmware.Proto.Feed.{
  Fed, feed, feed_all, feed_bulk, idle, tick, link_reset, payload_remaining, payload_filled,
}
use open_gbflash_firmware.Proto.Parsing.{Holds, IsValid}
use open_gbflash_firmware.Proto.Events.{Reach, IsContained, Reach-IsContained, Step}
use open_gbflash_firmware.Proto.Framing.{run_command, with_args, feed_all-command}
use open_gbflash_firmware.Proto.Replies.{command_reply, count-feed_all_command}
use open_gbflash_firmware.Proto.Quiet.{IsSilent, feed-quiet, ticks, AllWithin, tick_timeout}
use open_gbflash_firmware.Proto.Bulk.{feed_bulk-eq-feed_all}
use open_gbflash_firmware.Proto.Batch.{Carries, feed_all-batch}
use open_gbflash_firmware.Proto.Refusal.{IsOpened, feed_all-overlong}
use open_gbflash_firmware.Proto.VariableLaws.{written, updated, get_variable-set_variable}
use open_gbflash_firmware.Proto.BlobLaws.{IsTyped, restored, set_var_state-get_var_state}
use open_gbflash_firmware.Proto.Keeps.{five_after, due_after}
use open_gbflash_firmware.Proto.Safety.{
  voltage_five-feed_all, page_terminator_due-feed_all, feed-resync, resync_after_payload,
}

abbrev quiet_out : Array
quiet_out = λ _. 0

start-Holds : Holds init_state init_parser
start-Holds = (Reach-IsContained (Reach.start refl refl)).0

-- CART_WRITE_FLASH_CMD with one pair, address 0x00000AAA and value 0x00AA.
abbrev batch_args : List ℕ
batch_args = 1 ∷ 1 ∷ []

abbrev batch_pair : List ℕ
batch_pair = 0 ∷ 0 ∷ 0x0A ∷ 0xAA ∷ 0 ∷ 0xAA ∷ []

start_idle : idle init_parser ≡ true
unfolding idle
start_idle = refl

batch_args_len : length batch_args ≡ arg_len 0xD4
unfolding arg_len decode
batch_args_len = refl

batch_pair_len : length batch_pair ≡ payload_len init_state (with_args init_parser 0xD4 batch_args)
unfolding payload_len decode copy_bytes
batch_pair_len = refl

feed_all-command_example :
    let r = feed_all init_state init_parser quiet_out (0xD4 ∷ batch_args ++ batch_pair) in
    (r ≡ run_command init_state init_parser quiet_out 0xD4 batch_args batch_pair)
    × (idle r.parser ≡ true)
feed_all-command_example =
    feed_all-command init_state init_parser quiet_out 0xD4 batch_args batch_pair start-Holds
      start_idle batch_args_len batch_pair_len

count-feed_all_command_example :
    let r = feed_all init_state init_parser quiet_out (0xD4 ∷ batch_args ++ batch_pair) in
    (r.count
      ≡ command_reply
          (decode 0xD4)
          0xD4
          init_state.page_terminator_due
          init_state.transfer_size
          (length batch_pair))
    × (r.count ≤ fw_max_transfer)
count-feed_all_command_example =
    count-feed_all_command init_state init_parser quiet_out 0xD4 batch_args batch_pair start-Holds
      start_idle batch_args_len batch_pair_len

feed_all-batch_example :
    let r = feed_all init_state init_parser quiet_out (0xD4 ∷ 1 ∷ 1 ∷ batch_pair) in
    Carries r.st 1 1 (of_list batch_pair) × (r.out 0 ≡ ack_ok) × (r.count ≡ 1)
feed_all-batch_example =
    feed_all-batch init_state init_parser quiet_out 1 1 batch_pair start-Holds start_idle
      (omega arith) (omega arith) refl

voltage_five-feed_all_example :
    (feed_all init_state init_parser quiet_out (0xA5 ∷ [] ++ [])).st.voltage_five
    ≡ five_after (decode 0xA5) init_state.voltage_five
voltage_five-feed_all_example =
    voltage_five-feed_all init_state init_parser quiet_out 0xA5 [] [] start-Holds start_idle
      (unfold arg_len decode in refl) (unfold payload_len decode in refl)

-- A 3D read is done and its page terminator is due.
abbrev due_state : FwState
due_state = record init_state { page_terminator_due = 1 }

due-Holds : Holds due_state init_parser
unfolding init_state
due-Holds = (start-Holds.0, omega arith)

due_pair_len : length batch_pair ≡ payload_len due_state (with_args init_parser 0xD4 batch_args)
unfolding payload_len decode copy_bytes
due_pair_len = refl

page_terminator_due-feed_all_example :
    (feed_all due_state init_parser quiet_out
      (0xD4 ∷ batch_args ++ batch_pair)).st.page_terminator_due
    ≡ (if length batch_pair == 0 then due_after (decode 0xD4) else due_state.page_terminator_due)
page_terminator_due-feed_all_example =
    page_terminator_due-feed_all due_state init_parser quiet_out 0xD4 batch_args batch_pair
      due-Holds start_idle batch_args_len due_pair_len

feed-resync_example :
    let r = feed due_state init_parser 0 quiet_out in
    (idle r.parser ≡ true)
    × (r.st.page_terminator_due ≡ 0)
    × (if due_state.page_terminator_due == 0
        then (r.count ≡ 1)
          × (r.out 0 ≡ ack_ok)
          × (r.st.page_end_requested ≡ due_state.page_end_requested)
        else (r.count ≡ 0) × (r.out ≡ quiet_out) × (r.st.page_end_requested ≡ 1))
feed-resync_example = feed-resync due_state init_parser quiet_out start_idle

resync_after_payload_example :
    let r = feed_all due_state init_parser quiet_out (0xD4 ∷ batch_args ++ batch_pair) in
    let t = feed r.st r.parser 0 r.out in (t.count ≡ 0) × (t.st.page_end_requested ≡ 1)
resync_after_payload_example =
    resync_after_payload due_state init_parser quiet_out 0xD4 batch_args batch_pair due-Holds
      start_idle batch_args_len due_pair_len (omega arith) refl

-- FLASH_PROGRAM of one byte more than `pay[]` holds.
abbrev long_state : FwState
long_state = record init_state { transfer_size = 0x801 }

unfoldable blanks : ℕ → List ℕ
blanks zero = []
blanks (suc n) = 0xFF ∷ blanks n

length-blanks : (n : ℕ) → length (blanks n) ≡ n
unfolding blanks
length-blanks zero = refl
length-blanks (suc n) = ap suc (length-blanks n)

long-Holds : Holds long_state init_parser
unfolding init_state
long-Holds = (start-Holds.0, omega arith)

feed_all-overlong_example :
    let r = feed_all long_state init_parser quiet_out (0xD3 ∷ [] ++ blanks 0x801) in
    IsOpened long_state r.st
    × (r.out ≡ update quiet_out 0 ack_error)
    × (r.count ≡ 1)
    × (idle r.parser ≡ true)
feed_all-overlong_example =
    feed_all-overlong long_state init_parser quiet_out 0xD3 [] (blanks 0x801) long-Holds start_idle
      (unfold arg_len decode in refl) (length-blanks 0x801 ∙ (unfold payload_len decode in refl))
      (omega (arith, length-blanks 0x801))

-- A FLASH_PROGRAM of four bytes is open.
abbrev open_parser : Parser
open_parser = record init_parser { op = 0xD3; pay_need = 4 }

open-IsValid : IsValid open_parser
open-IsValid = ground arith

feed_bulk-eq-feed_all_example :
    let r =
      feed_bulk true init_state open_parser (of_list batch_pair) (length batch_pair) quiet_out in
    (r.0 ≡ feed_all init_state open_parser quiet_out (take r.1 batch_pair))
    × (r.1 ≤ length batch_pair)
    × ((r.1 == 0) ≡ (open_parser.pay_need == 0 || length batch_pair == 0))
feed_bulk-eq-feed_all_example =
    feed_bulk-eq-feed_all true init_state open_parser batch_pair quiet_out open-IsValid

-- One byte and then the link reset.
abbrev first_byte : Fed
first_byte = feed init_state init_parser 0xD4 quiet_out

reset-Reach : Reach first_byte.st (link_reset first_byte.parser)
reset-Reach =
    Reach.next (Reach.next (Reach.start refl refl) (Step.byte 0xD4 quiet_out refl refl))
      (Step.link refl refl)

Reach-IsContained_example : IsContained first_byte.st (link_reset first_byte.parser)
Reach-IsContained_example = Reach-IsContained reset-Reach

still_open : idle (feed init_state open_parser 7 quiet_out).parser ≡ false
unfolding idle feed
still_open = refl

-- FLASH_PROGRAM has been heard, three bytes since the last tick.
abbrev heard_parser : Parser
heard_parser = record open_parser { bytes = 3 }

heard_busy : idle heard_parser ≡ false
unfolding idle
heard_busy = refl

feed-quiet_example : IsSilent (feed init_state open_parser 7 quiet_out) quiet_out
feed-quiet_example = feed-quiet init_state open_parser 7 quiet_out still_open

-- A polling loop that reads the clock three times before the timeout.
abbrev polls : List ℕ
polls = 101 ∷ 1000 ∷ 2099 ∷ []

polls-AllWithin : AllWithin 100 polls
unfolding AllWithin
polls-AllWithin = (omega arith, (omega arith, (omega arith, tt)))

tick_timeout_example :
    (idle (ticks polls (tick heard_parser 100)) ≡ false)
    × (idle (tick (ticks polls (tick heard_parser 100)) 2100)
        ≡ leb fw_parser_timeout_ms (sub32 2100 100))
tick_timeout_example =
    tick_timeout heard_parser 100 polls 2100 heard_busy (omega arith) polls-AllWithin

-- TRANSFER_SIZE set to 0x4000 and read back.
get_variable-set_variable_example :
    get_variable (set_variable init_state 2 0 0x4000) 2 0
    ≡ updated (written (var_of 2 0) 0x4000 (var_of 2 0)) (get_variable init_state 2 0)
get_variable-set_variable_example = get_variable-set_variable init_state 2 0 2 0 0x4000

init-IsTyped : IsTyped due_state
unfolding init_state
init-IsTyped = record {
  address = omega arith;
  buffer_size = omega arith;
  dmg_rom_bank = omega arith;
  flash_cmd_addr = λ i. omega arith;
  flash_cmd_val = λ i. omega arith;
}

set_var_state-get_var_state_example :
    set_var_state long_state (get_var_state due_state quiet_out).out ≡ restored due_state long_state
set_var_state-get_var_state_example =
    set_var_state-get_var_state due_state long_state quiet_out init-IsTyped due-Holds.1

payload_remaining-feed_example :
    let q = (feed init_state open_parser 7 quiet_out).parser in
    (payload_remaining open_parser ≡ payload_remaining q + 1)
    × (idle q ≡ (payload_remaining open_parser == 1))
    × (payload_filled q ≡ (
        if open_parser.op == 0xD3
          && open_parser.pay_over == 0
          && not (payload_remaining open_parser == 1)
        then payload_filled open_parser + 1
        else 0))
payload_remaining-feed_example =
    payload_remaining-feed init_state open_parser 7 quiet_out open-IsValid (omega arith)
