-- ===== src/Proto/Replies.antt =====
-- src/proto.c: how many bytes every command is answered with.
use open_gbflash_firmware.Common.{
  ℕ, ◌+◌, ◌≤◌, ◌++◌, of_list, List, ◌∷◌, length, true, ◌≡◌, refl, arith, ◌==◌, ltb, if◌then◌else◌,
  flag, min, Array,
}
use open_gbflash_firmware.Proto.Command.{Command, decode, known_opcode, arg_len}
use open_gbflash_firmware.Proto.State.{
  FwState, Parser, fw_max_transfer, fw_payload_max, fw_var_state_len,
}
use open_gbflash_firmware.Proto.Execute.{execute_cmd, execute}
use open_gbflash_firmware.Proto.Payload.{done_cmd, payload_done, payload_len, payload_opened}
use open_gbflash_firmware.Proto.Feed.{close_payload, feed_all, idle}
use open_gbflash_firmware.Proto.Clamp.{transfer_size-payload_opened}
use open_gbflash_firmware.Proto.Parsing.{Holds}
use open_gbflash_firmware.Proto.Absorb.{absorbed}
use open_gbflash_firmware.Proto.Framing.{run_command, with_args, feed_all-command}

-- The reply of a command without a payload: nothing where main.c answers, a fixed length for the
-- queries, one byte for the rest, and for the opcodes that have no handler one error byte if the
-- host's table has the opcode. `due` is the sampled terminator flag.
abbrev reply_len : Command → ℕ → ℕ → ℕ → ℕ
reply_len Command.query_fw_info op due size = 24
reply_len Command.get_variable op due size = 4
reply_len Command.agb_read_gpio_rtc op due size = 8
reply_len Command.get_var_state op due size = fw_var_state_len
reply_len Command.fw_dump_payload op due size = min size fw_payload_max + 2
reply_len Command.dmg_cart_read op due size = 0
reply_len Command.agb_cart_read op due size = 0
reply_len Command.agb_cart_read_3d_memory op due size = 0
reply_len Command.agb_cart_read_sram op due size = 0
reply_len Command.agb_cart_read_eeprom op due size = 0
reply_len Command.calc_crc32 op due size = 0
reply_len Command.fw_bench_tx op due size = 0
reply_len Command.resync op due size = flag (due == 0)
reply_len Command.unlisted op due size = flag (known_opcode op)
reply_len Command.flash_program op due size = flag (known_opcode op)
reply_len Command.cart_write_flash_cmd op due size = flag (known_opcode op)
reply_len Command.set_var_state op due size = flag (known_opcode op)
reply_len Command.dmg_cart_write_sram op due size = flag (known_opcode op)
reply_len Command.dmg_mbc7_read_eeprom op due size = flag (known_opcode op)
reply_len Command.dmg_mbc7_write_eeprom op due size = flag (known_opcode op)
reply_len Command.dmg_mbc6_mmsa_write_flash op due size = flag (known_opcode op)
reply_len Command.dmg_eeprom_write op due size = flag (known_opcode op)
reply_len Command.agb_cart_write_sram op due size = flag (known_opcode op)
reply_len Command.agb_cart_write_eeprom op due size = flag (known_opcode op)
reply_len Command.agb_cart_write_flash_data op due size = flag (known_opcode op)
reply_len Command.fw_echo_payload op due size = flag (known_opcode op)
reply_len _ op due size = 1

-- The reply of a command with a payload, once the payload is in.
abbrev done_len : Command → ℕ → ℕ
done_len Command.fw_echo_payload op = 4
done_len Command.cart_write_flash_cmd op = 1
done_len Command.flash_program op = 1
done_len Command.agb_cart_write_eeprom op = 1
done_len Command.agb_cart_write_flash_data op = 1
done_len Command.agb_cart_write_sram op = 1
done_len Command.dmg_cart_write_sram op = 1
done_len Command.dmg_set_bank_change_cmd op = 1
done_len Command.set_var_state op = 1
done_len _ op = flag (known_opcode op)

-- A whole command with `n` payload bytes: an overlong payload is answered with one error byte.
abbrev pub command_reply : Command → ℕ → ℕ → ℕ → ℕ → ℕ
command_reply c op due size n =
    if n == 0 then reply_len c op due size else if ltb fw_payload_max n then 1 else done_len c op

count-execute_cmd :
    (c : Command) (due : ℕ) (s : FwState) (p : Parser) (o : Array)
    → (execute_cmd c due s p o).count ≡ reply_len c p.op due s.transfer_size
unfolding execute_cmd
count-execute_cmd Command.query_fw_info due s p o = refl
count-execute_cmd _ due s p o = ground arith

count-done_cmd :
    (c : Command) (s : FwState) (p : Parser) (o : Array)
    → (done_cmd c s p o).count ≡ done_len c p.op
unfolding done_cmd
count-done_cmd Command.fw_echo_payload s p o = refl
count-done_cmd _ s p o = ground arith

reply_len-le : (c : Command) (op due size : ℕ) → reply_len c op due size ≤ fw_max_transfer
reply_len-le Command.query_fw_info op due size = omega arith
reply_len-le _ op due size = ground arith

done_len-le : (c : Command) (op : ℕ) → done_len c op ≤ 4
done_len-le Command.fw_echo_payload op = omega arith
done_len-le _ op = ground arith

count-run_command :
    (s : FwState) (p : Parser) (o : Array) (b : ℕ) (args payload : List ℕ)
    → (run_command s p o b args payload).count
      ≡ command_reply
          (decode b)
          b
          s.page_terminator_due
          s.transfer_size
          (payload_len s (with_args p b args))
unfolding run_command execute close_payload payload_done
count-run_command s p o b args payload =
    let q = with_args p b args in
    let n = payload_len s q in
    let t = record q { pay_need = n } in
    ground (
      arith,
      count-execute_cmd (decode b) s.page_terminator_due (record s { page_terminator_due = 0 }) t o,
      transfer_size-payload_opened s t,
      count-done_cmd (decode b) (payload_opened s t)
          (let u =
              absorbed (record t { pay_over = flag (ltb fw_payload_max n) }) n (of_list payload) in
            record u { last_pay_got = u.pay_got })
          o,
    )

-- The replies to all the bytes of a command together are exactly as long as the table says, and
-- never longer than the FW_MAX_TRANSFER bytes of the caller's buffer.
pub count-feed_all_command :
    (s : FwState) (p : Parser) (o : Array) (b : ℕ) (args payload : List ℕ)
    → Holds s p
    → idle p ≡ true
    → length args ≡ arg_len b
    → length payload ≡ payload_len s (with_args p b args)
    → let r = feed_all s p o (b ∷ args ++ payload) in
      (r.count ≡ command_reply (decode b) b s.page_terminator_due s.transfer_size (length payload))
      × (r.count ≤ fw_max_transfer)
count-feed_all_command s p o b args payload h ready ea ep =
    rw
      (
        (feed_all-command s p o b args payload h ready ea ep).0,
        count-run_command s p o b args payload,
        ep,
      )
      (
        refl,
        ground (
          arith,
          reply_len-le (decode b) b s.page_terminator_due s.transfer_size,
          done_len-le (decode b) b,
        ),
      )
