-- ===== src/Flash/Agb.antt =====
-- src/main.c: `agb_program_chunk`, `agb_stream_pump` and the unbuffered AGB loop of `do_flash_program`,
-- with FW_AGB_WRITE_BURST and FW_WRITE_STREAM on and FW_AGB_SKIP_FF off.
use Prim.Native.Nat.{bit_or}
use open_gbflash_firmware.Common.{
  ℕ, zero, suc, ◌+◌, ◌-◌, ◌*◌, ◌/◌, ◌^◌, ◌==◌, ltb, not, ◌&&◌, ◌||◌, if◌then◌else◌, u16, u32, sub32,
  Array, from, Option, some, none, Bool, true, false, ◌>>=◌,
}
use open_gbflash_firmware.Proto.State.{FwState, Mode}
use open_gbflash_firmware.Usb.Queue.{to_list}
use open_gbflash_firmware.Flash.Bus.{Access, Cart, ◌▹◌}
use open_gbflash_firmware.Flash.Wait.{Verdict, passed, is_amd, agb_status_wait}
use open_gbflash_firmware.Flash.Loops.{Streamed, stream_loop}

-- The state and the cartridge.
pub record Job : Type 0 where
  pub st : FwState
  pub cart : Cart

-- `st->status_register = v` where a wait timed out.
abbrev pub noted : FwState → Option ℕ → FwState
noted st timed_out = record st {
  status_register = elim timed_out [ none ↦ st.status_register | some v ↦ v ];
}

abbrev pub failed : Option ℕ → Bool
failed none = false
failed (some v) = true

abbrev pub is_agb : Mode → Bool
is_agb Mode.agb = true
is_agb _ = false

-- `have - 1`, in both halves for two dies.
abbrev pub count_word : FwState → ℕ → ℕ
count_word st have =
    if st.flash_double_die == 0
    then u16 (sub32 have 1)
    else u16 (bit_or (sub32 have 1 * 2 ^ 8) (sub32 have 1))

-- The command words in front of the data.
abbrev pub agb_load : FwState → ℕ → ℕ → Cart → Cart
agb_load st sa have c =
    if is_amd st
    then c
      ▹ Access.agb_write (st.flash_cmd_addr 0) (st.flash_cmd_val 0)
      ▹ Access.agb_write (st.flash_cmd_addr 1) (st.flash_cmd_val 1)
      ▹ Access.agb_write sa (st.flash_cmd_val 2)
      ▹ Access.agb_write sa (count_word st have)
    else c ▹ Access.agb_write sa (st.flash_cmd_val 0) ▹ Access.agb_write sa (u16 (sub32 have 1))

-- Read-array after an Intel chunk, whether or not the wait passed.
abbrev pub read_array : FwState → ℕ → Verdict → Verdict
read_array st sa v =
    if is_amd st then v else record v { cart = v.cart ▹ Access.agb_write sa (st.flash_cmd_val 4) }

unfoldable pub agb_program_chunk : FwState → Array → ℕ → ℕ → Cart → Option Verdict
unfolding agb_status_wait
agb_program_chunk st data_bytes done have c =
    let sa = u32 (st.address + done / 2) in
    let lastoff = done + (have - 1) * 2 in
    let want = data_bytes lastoff + data_bytes (lastoff + 1) * 2 ^ 8 in
    let confirm = if is_amd st then st.flash_cmd_val 5 else st.flash_cmd_val 3 in
    let loaded =
      agb_load st sa have c
      ▹ Access.agb_burst sa (to_list (have * 2) (from data_bytes done))
      ▹ Access.agb_write sa confirm in
    agb_status_wait st (u32 (sa + (have - 1))) want loaded >>= λ v. some (read_array st sa v)

-- The state after the loop of a pump.
abbrev pub pumped : FwState → Streamed → Job
pumped st s = record {
  st = record (noted st s.verdict.timed_out) {
    program_done = s.done;
    program_streamed = s.streamed;
    program_stream_err = if failed s.verdict.timed_out then 1 else st.program_stream_err;
  };
  cart = s.verdict.cart;
}

-- `filled` is `fw_proto_payload_filled()`. Every round of the loop takes at least two bytes.
unfoldable pub agb_stream_pump : ℕ → Array → Job → Option Job
unfolding stream_loop agb_program_chunk
agb_stream_pump filled data_bytes j =
    let st = j.st in
    if filled == 0
      || (not (is_agb st.mode) || not (st.flash_method == 2) || ltb st.buffer_size 2)
      || not (st.program_stream_err == 0)
    then some j
    else (stream_loop (agb_program_chunk st data_bytes) 2 (st.buffer_size / 2) filled filled
          st.program_done st.program_streamed j.cart
        >>= λ s. some (pumped st s))

-- The host's unlock sequence, unused slots left out.
abbrev pub unlock_slot : FwState → ℕ → Cart → Cart
unlock_slot st k c =
    if st.flash_cmd_addr k == 0 && st.flash_cmd_val k == 0
    then c
    else c ▹ Access.agb_write (st.flash_cmd_addr k) (st.flash_cmd_val k)

abbrev pub unlock : FwState → Cart → Cart
unlock st c =
    unlock_slot st 5 (
      unlock_slot st 4
        (unlock_slot st 3 (unlock_slot st 2 (unlock_slot st 1 (unlock_slot st 0 c)))))

-- A chain of waits: the second only if the first passed.
abbrev pub then_wait : Option Verdict → (Cart → Option Verdict) → Option Verdict
then_wait m k = m >>= λ v. elim v.timed_out [ none ↦ k v.cart | some x ↦ some v ]

-- One word, FLASH_METHOD 1.
unfoldable pub agb_word : FwState → ℕ → ℕ → Cart → Option Verdict
unfolding agb_status_wait
agb_word st pa w c =
    if is_amd st
    then agb_status_wait st pa w (unlock st c ▹ Access.agb_write pa w)
    else then_wait (agb_status_wait st pa 0 (c ▹ Access.agb_write pa (st.flash_cmd_val 0))) (λ d.
      agb_status_wait st pa w
        (d ▹ Access.agb_write pa (st.flash_cmd_val 1) ▹ Access.agb_write pa w))

-- `for (i = 0; i + 1 < n; i += 2)`, `k` words to go.
unfoldable pub agb_words : ℕ → FwState → Array → ℕ → Cart → Option Verdict
unfolding agb_word
agb_words zero st data_bytes i c = passed c
agb_words (suc k) st data_bytes i c =
    then_wait (agb_word st (u32 (st.address + i / 2)) (data_bytes i + data_bytes (i + 1) * 2 ^ 8) c)
      (agb_words k st data_bytes (i + 2))
