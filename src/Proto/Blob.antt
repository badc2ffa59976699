-- ===== src/Proto/Blob.antt =====
-- src/proto.c: the big-endian helpers, and the variable-state blob of GET_VAR_STATE and
-- SET_VAR_STATE.
use open_gbflash_firmware.Common.{
  ℕ, zero, suc, ◌+◌, ◌*◌, ◌/◌, ◌^◌, ◌==◌, ltb, not, if◌then◌else◌, u8, u16, join32, join16, Array,
  update,
}
use open_gbflash_firmware.Proto.State.{FwState, Outcome, fw_max_transfer, fw_var_state_len}

-- `be32(&p[i])`
unfoldable pub be32 : Array → ℕ → ℕ
be32 p i = join32 (p i) (p (i + 1)) (p (i + 2)) (p (i + 3))

-- `put_be32(&p[i], v)` and `put_be16(&p[i], v)`: the array that each leaves. They return 4 and 2.
unfoldable pub put_be32 : Array → ℕ → ℕ → Array
put_be32 p i v =
    update
      (update (update (update p i (u8 (v / 2 ^ 24))) (i + 1) (u8 (v / 2 ^ 16))) (i + 2)
        (u8 (v / 2 ^ 8)))
      (i + 3) (u8 v)

unfoldable pub put_be16 : Array → ℕ → ℕ → Array
put_be16 p i v = update (update p i (u8 (v / 2 ^ 8))) (i + 1) (u8 v)

-- `for (i = 0; i < n; i++) out[i] = 0;`
clear_bytes : ℕ → Array → Array
clear_bytes zero out = out
clear_bytes (suc n) out = update (clear_bytes n out) n 0

-- The loop over the six unlock pairs; `k` of them are left, starting at pair `i`.
put_pairs : ℕ → ℕ → FwState → Array → Array
unfolding put_be32 put_be16
put_pairs zero i st out = out
put_pairs (suc k) i st out =
    put_pairs k (i + 1) st
      (put_be16 (put_be32 out (21 + i * 4) (st.flash_cmd_addr i)) (45 + i * 2) (st.flash_cmd_val i))

put_vars : FwState → Array → Array
unfolding put_be32 put_be16
put_vars st out0 =
    let o1 = update out0 0 1 in
    let o2 = update o1 1 st.cart_mode in
    let o3 = update o2 2 st.dmg_access_mode in
    let o4 = update o3 3 st.dmg_read_method in
    let o5 = update o4 4 st.dmg_read_cs_pulse in
    let o6 = update o5 5 st.dmg_write_cs_pulse in
    let o7 = update o6 6 st.agb_read_method in
    let o8 = update o7 7 st.pullups_enabled in
    let o9 = put_be32 o8 8 st.address in
    let o10 = put_be16 o9 12 st.transfer_size in
    let o11 = put_be16 o10 14 st.buffer_size in
    let o12 = put_be16 o11 16 st.dmg_rom_bank in
    let o13 = update o12 18 st.flash_command_set in
    let o14 = update o13 19 st.flash_method in update o14 20 st.flash_we_pin_var

unfoldable pub get_var_state : FwState → Array → Outcome
unfolding clear_bytes put_vars put_pairs
get_var_state s o = record {
  st = s;
  out = put_pairs 6 0 s (put_vars s (clear_bytes fw_var_state_len o));
  count = fw_var_state_len;
}

-- The loop that reads the six unlock pairs back.
unfoldable pub take_pairs : ℕ → ℕ → FwState → Array → FwState
unfolding be32
take_pairs zero i st blob = st
take_pairs (suc k) i st blob =
    take_pairs k (i + 1)
      (record st {
        flash_cmd_addr = update st.flash_cmd_addr i (be32 blob (21 + i * 4));
        flash_cmd_val =
            update st.flash_cmd_val i (u16 (join16 (blob (45 + i * 2)) (blob (45 + i * 2 + 1))));
      })
      blob

pub take_vars : FwState → Array → FwState
unfolding be32
take_vars st blob =
    let size = u16 (join16 (blob 12) (blob 13)) in
    record st {
      cart_mode = blob 1;
      dmg_access_mode = blob 2;
      dmg_read_method = blob 3;
      dmg_read_cs_pulse = blob 4;
      dmg_write_cs_pulse = blob 5;
      agb_read_method = blob 6;
      pullups_enabled = blob 7;
      address = be32 blob 8;
      transfer_size = if ltb fw_max_transfer size then fw_max_transfer else size;
      buffer_size = u16 (join16 (blob 14) (blob 15));
      dmg_rom_bank = u16 (join16 (blob 16) (blob 17));
      flash_command_set = blob 18;
      flash_method = blob 19;
      flash_we_pin = blob 20;
      flash_we_pin_var = blob 20;
      we_pin_requested = 1;
    }

-- An unknown version restores nothing.
unfoldable pub set_var_state : FwState → Array → FwState
unfolding take_vars take_pairs
set_var_state st blob = if not (blob 0 == 1) then st else take_pairs 6 0 (take_vars st blob) blob
