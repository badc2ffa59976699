-- ===== src/Proto/Clamp.antt =====
-- src/proto.c: every path that writes `transfer_size` clamps it to FW_MAX_TRANSFER.
use open_gbflash_firmware.Common.{ℕ, zero, suc, ◌+◌, ◌≤◌, ◌≡◌, refl, arith, Array}
use open_gbflash_firmware.Proto.Command.{Command, decode}
use open_gbflash_firmware.Proto.State.{FwState, Parser, fw_max_transfer}
use open_gbflash_firmware.Proto.Variable.{Var, set_var, var_of, set_variable}
use open_gbflash_firmware.Proto.Blob.{take_pairs, take_vars, set_var_state}
use open_gbflash_firmware.Proto.Execute.{execute_cmd, execute, read_flash_cmds}
use open_gbflash_firmware.Proto.Payload.{
  read_batch, read_bank_cmds, done_cmd, payload_done, payload_opened, opened,
}

abbrev pub IsClamped : FwState → Type 0
IsClamped s = s.transfer_size ≤ fw_max_transfer

-- SET_VARIABLE keeps the clamp, whatever size, key and value the host sends.
set_variable-IsClamped :
    (s : FwState) (size key value : ℕ) → IsClamped s → IsClamped (set_variable s size key value)
unfolding set_variable
set_variable-IsClamped s size key value h = go (var_of size key)
  where
    go : (v : Var) → IsClamped (set_var v s value)
    go Var.address = h
    go _ = ground arith

transfer_size-read_flash_cmds :
    (k i : ℕ) (s : FwState) (a : Array) → (read_flash_cmds k i s a).transfer_size ≡ s.transfer_size
unfolding read_flash_cmds
transfer_size-read_flash_cmds zero i s a = refl
transfer_size-read_flash_cmds (suc k) i s a = transfer_size-read_flash_cmds k (i + 1) _ a

transfer_size-take_pairs :
    (k i : ℕ) (s : FwState) (a : Array) → (take_pairs k i s a).transfer_size ≡ s.transfer_size
unfolding take_pairs
transfer_size-take_pairs zero i s a = refl
transfer_size-take_pairs (suc k) i s a = transfer_size-take_pairs k (i + 1) _ a

transfer_size-read_batch :
    (k i : ℕ) (s : FwState) (a : Array) → (read_batch k i s a).transfer_size ≡ s.transfer_size
unfolding read_batch
transfer_size-read_batch zero i s a = refl
transfer_size-read_batch (suc k) i s a = transfer_size-read_batch k (i + 1) _ a

transfer_size-read_bank_cmds :
    (k i : ℕ) (s : FwState) (a : Array) → (read_bank_cmds k i s a).transfer_size ≡ s.transfer_size
unfolding read_bank_cmds
transfer_size-read_bank_cmds zero i s a = refl
transfer_size-read_bank_cmds (suc k) i s a = transfer_size-read_bank_cmds k (i + 1) _ a

-- SET_VAR_STATE restores a clamped size, whatever the blob holds.
set_var_state-IsClamped :
    (s : FwState) (blob : Array) → IsClamped s → IsClamped (set_var_state s blob)
unfolding set_var_state
set_var_state-IsClamped s blob h =
    ground (arith, transfer_size-take_pairs 6 0 (take_vars s blob) blob)

execute_cmd-IsClamped :
    (c : Command) (due : ℕ) (s : FwState) (p : Parser) (o : Array)
    → IsClamped s
    → IsClamped (execute_cmd c due s p o).st
unfolding execute_cmd
execute_cmd-IsClamped Command.null due s p o h = h
execute_cmd-IsClamped Command.set_variable due s p o h = set_variable-IsClamped s _ _ _ h
execute_cmd-IsClamped Command.set_flash_cmd due s p o h =
    omega (arith, transfer_size-read_flash_cmds 6 0)
execute_cmd-IsClamped _ due s p o h = ground arith

pub execute-IsClamped :
    (s : FwState) (p : Parser) (o : Array) → IsClamped s → IsClamped (execute s p o).st
unfolding execute
execute-IsClamped s p o h = execute_cmd-IsClamped (decode p.op) _ _ p o h

done_cmd-IsClamped :
    (c : Command) (s : FwState) (p : Parser) (o : Array)
    → IsClamped s
    → IsClamped (done_cmd c s p o).st
unfolding done_cmd
done_cmd-IsClamped Command.cart_write_flash_cmd s p o h =
    ground (arith, transfer_size-read_batch (p.arg 1) 0 s p.pay)
done_cmd-IsClamped Command.dmg_set_bank_change_cmd s p o h =
    ground (arith, transfer_size-read_bank_cmds (p.arg 0) 0 s p.pay)
done_cmd-IsClamped Command.set_var_state s p o h = set_var_state-IsClamped s p.pay h
done_cmd-IsClamped _ s p o h = ground arith

pub payload_done-IsClamped :
    (s : FwState) (p : Parser) (o : Array) → IsClamped s → IsClamped (payload_done s p o).st
unfolding payload_done
payload_done-IsClamped s p o h = done_cmd-IsClamped (decode p.op) s _ o h

pub transfer_size-payload_opened :
    (s : FwState) (p : Parser) → (payload_opened s p).transfer_size ≡ s.transfer_size
unfolding payload_opened
transfer_size-payload_opened s p = go (decode p.op)
  where
    go : (c : Command) → (opened c s).transfer_size ≡ s.transfer_size
    go Command.flash_program = refl
    go _ = refl
