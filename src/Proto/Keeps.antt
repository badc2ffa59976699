-- ===== src/Proto/Keeps.antt =====
-- src/proto.c: which commands touch the voltage request and the page-terminator mark.
use open_gbflash_firmware.Common.{
  ℕ, zero, suc, ◌+◌, ◌≡◌, refl, arith, Array, Bool, true, false, if◌then◌else◌, ltb,
}
use open_gbflash_firmware.Proto.Command.{Command, decode, known_opcode}
use open_gbflash_firmware.Proto.State.{
  FwState, Parser, Outcome, reply_byte, silent, ack_error, fw_batch_max, fw_bank_cmd_max,
}
use open_gbflash_firmware.Proto.Execute.{execute_cmd, read_flash_cmds, refuse_known}
use open_gbflash_firmware.Proto.Variable.{Var, set_var, var_of, set_variable}
use open_gbflash_firmware.Proto.Blob.{be32, take_pairs, take_vars, set_var_state}
use open_gbflash_firmware.Proto.Payload.{
  payload_done, done_cmd, read_batch, read_bank_cmds, payload_opened, opened, write_flash_cmd,
  flash_program, set_bank_change,
}

-- What no loop over pairs touches.
pub record Keeps (s t : FwState) : Type 0 where
  pub five : t.voltage_five ≡ s.voltage_five
  pub due : t.page_terminator_due ≡ s.page_terminator_due

set_variable-Keeps : (s : FwState) (size key x : ℕ) → Keeps s (set_variable s size key x)
unfolding set_variable
set_variable-Keeps s size key x = go (var_of size key)
  where
    go : (v : Var) → Keeps s (set_var v s x)
    go Var.address = ground arith
    go _ = ground arith

read_flash_cmds-Keeps : (k i : ℕ) (s : FwState) (a : Array) → Keeps s (read_flash_cmds k i s a)
unfolding read_flash_cmds
read_flash_cmds-Keeps zero i s a = record { five = refl; due = refl }
read_flash_cmds-Keeps (suc k) i s a =
    let ih = read_flash_cmds-Keeps k (i + 1) _ a in record { five = ih.five; due = ih.due }

take_pairs-Keeps : (k i : ℕ) (s : FwState) (a : Array) → Keeps s (take_pairs k i s a)
unfolding take_pairs
take_pairs-Keeps zero i s a = record { five = refl; due = refl }
take_pairs-Keeps (suc k) i s a =
    let ih = take_pairs-Keeps k (i + 1) _ a in record { five = ih.five; due = ih.due }

read_batch-Keeps : (k i : ℕ) (s : FwState) (a : Array) → Keeps s (read_batch k i s a)
unfolding read_batch
read_batch-Keeps zero i s a = record { five = refl; due = refl }
read_batch-Keeps (suc k) i s a =
    let ih = read_batch-Keeps k (i + 1) _ a in record { five = ih.five; due = ih.due }

read_bank_cmds-Keeps : (k i : ℕ) (s : FwState) (a : Array) → Keeps s (read_bank_cmds k i s a)
unfolding read_bank_cmds
read_bank_cmds-Keeps zero i s a = record { five = refl; due = refl }
read_bank_cmds-Keeps (suc k) i s a =
    let ih = read_bank_cmds-Keeps k (i + 1) _ a in record { five = ih.five; due = ih.due }

-- Only SET_VOLTAGE_5V can ask for 5 V.
abbrev pub five_after : Command → ℕ → ℕ
five_after Command.set_voltage_5v old = 1
five_after Command.set_voltage_3_3v old = 0
five_after Command.set_mode_agb old = 0
five_after _ old = old

-- Only the 3D read leaves the terminator due.
abbrev pub due_after : Command → ℕ
due_after Command.agb_cart_read_3d_memory = 1
due_after _ = 0

pub execute_cmd-five :
    (c : Command) (due : ℕ) (s : FwState) (p : Parser) (o : Array)
    → s.page_terminator_due ≡ 0
    → ((execute_cmd c due s p o).st.voltage_five ≡ five_after c s.voltage_five)
      × ((execute_cmd c due s p o).st.page_terminator_due ≡ due_after c)
unfolding execute_cmd
execute_cmd-five Command.set_variable due s p o h =
    let k = set_variable-Keeps s (p.arg 0) (be32 p.arg 1) (be32 p.arg 5) in omega (arith, k)
execute_cmd-five Command.set_flash_cmd due s p o h =
    let k =
      read_flash_cmds-Keeps 6 0
        (record s {
          flash_command_set = p.arg 0;
          flash_method = p.arg 1;
          flash_we_pin = p.arg 2;
          flash_we_pin_var = p.arg 2;
          we_pin_requested = 1;
        })
        p.arg in
    omega (arith, k)
execute_cmd-five _ due s p o h = ground arith

set_var_state-Keeps : (s : FwState) (blob : Array) → Keeps s (set_var_state s blob)
unfolding set_var_state
set_var_state-Keeps s blob =
    let k = take_pairs-Keeps 6 0 (take_vars s blob) blob in
    record { five = ground (arith, k); due = ground (arith, k) }

-- Two outcomes that keep the marks, under any test.
either-Keeps :
    (b : Bool) (s : FwState) (x y : Outcome)
    → Keeps s x.st
    → Keeps s y.st
    → Keeps s (if b then x else y).st
either-Keeps true s x y h k = h
either-Keeps false s x y h k = k

unchanged : (s : FwState) → Keeps s s
unchanged s = record { five = refl; due = refl }

refuse_known-Keeps : (s : FwState) (p : Parser) (o : Array) → Keeps s (refuse_known s p o).st
unfolding refuse_known
refuse_known-Keeps s p o =
    either-Keeps (known_opcode p.op) s (reply_byte s o ack_error) (silent s o) (unchanged s)
      (unchanged s)

write_flash_cmd-Keeps : (s : FwState) (p : Parser) (o : Array) → Keeps s (write_flash_cmd s p o).st
unfolding write_flash_cmd
write_flash_cmd-Keeps s p o =
    let k = read_batch-Keeps (p.arg 1) 0 s p.pay in
    either-Keeps (ltb fw_batch_max (p.arg 1)) s (reply_byte s o ack_error) _ (unchanged s)
      (record { five = k.five; due = k.due })

flash_program-Keeps : (s : FwState) (p : Parser) (o : Array) → Keeps s (flash_program s p o).st
unfolding flash_program
flash_program-Keeps s p o =
    either-Keeps (ltb 2 s.flash_method) s (reply_byte s o ack_error) _ (unchanged s)
      (record { five = refl; due = refl })

set_bank_change-Keeps : (s : FwState) (p : Parser) (o : Array) → Keeps s (set_bank_change s p o).st
unfolding set_bank_change
set_bank_change-Keeps s p o =
    let k = read_bank_cmds-Keeps (p.arg 0) 0 s p.pay in
    either-Keeps (ltb fw_bank_cmd_max (p.arg 0)) s (reply_byte s o ack_error) _ (unchanged s)
      (record { five = k.five; due = k.due })

done_cmd-Keeps :
    (c : Command) (s : FwState) (p : Parser) (o : Array) → Keeps s (done_cmd c s p o).st
unfolding done_cmd
done_cmd-Keeps Command.cart_write_flash_cmd s p o = write_flash_cmd-Keeps s p o
done_cmd-Keeps Command.flash_program s p o = flash_program-Keeps s p o
done_cmd-Keeps Command.dmg_set_bank_change_cmd s p o = set_bank_change-Keeps s p o
done_cmd-Keeps Command.set_var_state s p o = set_var_state-Keeps s p.pay
done_cmd-Keeps Command.agb_cart_write_eeprom s p o = record { five = refl; due = refl }
done_cmd-Keeps Command.agb_cart_write_flash_data s p o = record { five = refl; due = refl }
done_cmd-Keeps Command.agb_cart_write_sram s p o = record { five = refl; due = refl }
done_cmd-Keeps Command.dmg_cart_write_sram s p o = record { five = refl; due = refl }
done_cmd-Keeps Command.fw_echo_payload s p o = record { five = refl; due = refl }
done_cmd-Keeps _ s p o = refuse_known-Keeps s p o

-- No command that carries a payload touches the voltage request or the terminator mark.
pub payload_done-Keeps : (s : FwState) (p : Parser) (o : Array) → Keeps s (payload_done s p o).st
unfolding payload_done
payload_done-Keeps s p o = done_cmd-Keeps (decode p.op) s _ o

pub payload_opened-Keeps : (s : FwState) (p : Parser) → Keeps s (payload_opened s p)
unfolding payload_opened
payload_opened-Keeps s p = go (decode p.op)
  where
    go : (c : Command) → Keeps s (opened c s)
    go Command.flash_program = record { five = refl; due = refl }
    go _ = record { five = refl; due = refl }
