-- ===== src/Flash/Program.antt =====
-- src/main.c: `do_flash_program`, and the pumps of a receive loop in front of it.
use open_gbflash_firmware.Common.{
  ℕ, ◌+◌, ◌/◌, ◌==◌, leb, not, ◌&&◌, if◌then◌else◌, u32, Array, Option, some, Bool, false, ◌>>=◌,
}
use open_gbflash_firmware.Proto.State.{FwState}
use open_gbflash_firmware.Flash.Bus.{Cart}
use open_gbflash_firmware.Flash.Wait.{Verdict}
use open_gbflash_firmware.Flash.Loops.{tail_loop}
use open_gbflash_firmware.Flash.Agb.{
  Job, noted, failed, is_agb, agb_program_chunk, agb_words, agb_stream_pump,
}
use open_gbflash_firmware.Flash.Dmg.{dmg_program_chunk, dmg_program_unbuffered, dmg_stream_pump}

-- What `do_flash_program` returns and leaves.
pub record Programmed : Type 0 where
  pub ok : Bool
  pub job : Job

-- The marks are cleared up front.
abbrev pub taken_up : FwState → FwState
taken_up st = record st { program_requested = 0; program_done = 0; program_stream_err = 0 }

-- `st->address += by; return ok;`
abbrev pub finish : FwState → ℕ → Verdict → Programmed
finish st by v = record {
  ok = not (failed v.timed_out);
  job = record {
    st = record (noted (taken_up st) v.timed_out) { address = u32 (st.address + by) };
    cart = v.cart;
  };
}

-- The pump had timed out: nothing more is programmed.
abbrev pub aborted : FwState → ℕ → Cart → Programmed
aborted st by c = record {
  ok = false;
  job = record { st = record (taken_up st) { address = u32 (st.address + by) }; cart = c };
}

-- The rest of a buffered block; every round takes at least one byte.
unfoldable pub agb_buffered : Array → Job → Option Programmed
unfolding tail_loop agb_program_chunk
agb_buffered data_bytes j =
    let st = j.st in
    let n = st.program_len in
    if not (st.program_stream_err == 0)
    then some (aborted st (n / 2) j.cart)
    else (tail_loop (agb_program_chunk st data_bytes) 2 (st.buffer_size / 2) n n st.program_done
          j.cart
        >>= λ v. some (finish st (n / 2) v))

unfoldable pub dmg_program_buffered : Bool → Array → Job → Option Programmed
unfolding tail_loop dmg_program_chunk
dmg_program_buffered we_is_wr data_bytes j =
    let st = j.st in
    let n = st.program_len in
    if not (st.program_stream_err == 0)
    then some (aborted st n j.cart)
    else (tail_loop (dmg_program_chunk we_is_wr st data_bytes) 1 st.buffer_size n n st.program_done
          j.cart
        >>= λ v. some (finish st n v))

unfoldable pub do_flash_program : Bool → Array → Job → Option Programmed
unfolding agb_buffered dmg_program_buffered agb_words dmg_program_unbuffered
do_flash_program we_is_wr data_bytes j =
    let st = j.st in
    let n = st.program_len in
    if is_agb st.mode
    then if st.flash_method == 2 && leb 2 st.buffer_size
      then agb_buffered data_bytes j
      else (agb_words (n / 2) st data_bytes 0 j.cart >>= λ v. some (finish st (n / 2) v))
    else if st.flash_method == 2 && leb 1 st.buffer_size
    then dmg_program_buffered we_is_wr data_bytes j
    else (dmg_program_unbuffered we_is_wr st data_bytes n j.cart >>= λ v. some (finish st n v))

-- `agb_stream_pump(&g_state); dmg_stream_pump(&g_state);`, as `fw_main` calls them.
unfoldable pub stream_pumps : Bool → ℕ → Array → Job → Option Job
unfolding agb_stream_pump dmg_stream_pump
stream_pumps we_is_wr filled data_bytes j =
    agb_stream_pump filled data_bytes j >>= dmg_stream_pump we_is_wr filled data_bytes
