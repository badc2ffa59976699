-- ===== src/Proto/Batch.antt =====
-- src/proto.c: CART_WRITE_FLASH_CMD hands its (address, value) pairs over unchanged.
use open_gbflash_firmware.Common.{
  ℕ, zero, suc, ◌+◌, ◌-◌, ◌*◌, ◌≤◌, ◌<◌, ◌≡◌, inl, inr, refl, sym, ◌∙◌, ap, arith, leb, ltb, min,
  Array, update, copy_bytes, Bool, true, ◌==◌, ◌&&◌, if◌then◌else◌, Bool-cases, List, [], ◌∷◌,
  length, of_list, u16, join16, ne→==, le→ltb,
}
use open_gbflash_firmware.Proto.Command.{decode, arg_len}
use open_gbflash_firmware.Proto.State.{FwState, Parser, fw_payload_max, fw_batch_max, ack_ok}
use open_gbflash_firmware.Proto.Blob.{be32}
use open_gbflash_firmware.Proto.Payload.{
  payload_done, done_cmd, read_batch, write_flash_cmd, payload_len, payload_opened,
}
use open_gbflash_firmware.Proto.Feed.{feed_all, close_payload, idle}
use open_gbflash_firmware.Proto.Parsing.{Holds}
use open_gbflash_firmware.Proto.Copying.{copy_bytes-at}
use open_gbflash_firmware.Proto.Framing.{run_command, with_args, feed_all-command}
use open_gbflash_firmware.Proto.Absorb.{absorbed}

-- The pairs that the copy loop has written; `j` runs over the pairs.
abbrev in_range : ℕ → ℕ → ℕ → Bool
in_range i k j = leb i j && ltb j (i + k)

batch-read_batch :
    (k i j : ℕ) (s : FwState) (pay : Array)
    → let r = read_batch k i s pay in
      (r.batch_addr j ≡ (if in_range i k j then be32 pay (j * 6) else s.batch_addr j))
      × (r.batch_val j ≡ (
          if in_range i k j
          then u16 (join16 (pay (j * 6 + 4)) (pay (j * 6 + 5)))
          else s.batch_val j))
unfolding read_batch
batch-read_batch zero i j s pay = ground arith
batch-read_batch (suc k) i j s pay =
    let t = record s {
      batch_addr = update s.batch_addr i (be32 pay (i * 6));
      batch_val = update s.batch_val i (u16 (join16 (pay (i * 6 + 4)) (pay (i * 6 + 5))));
    } in
    let ih = batch-read_batch k (i + 1) j t pay in
    elim (Bool-cases (i == j)) [
      | inl e ↦
          let f : i ≡ j = ground arith in
          let g = ap (λ k. be32 pay (k * 6)) f in
          let h = ap (λ k. u16 (join16 (pay (k * 6 + 4)) (pay (k * 6 + 5)))) f in
          ground (arith, ih, g, h)
      | inr e ↦ ground (arith, ih)
    ]

-- The batch that the pairs in the payload `src` make.
pub record Carries (t : FwState) (flashcart n : ℕ) (src : Array) : Type 0 where
  pub requested : t.batch_requested ≡ 1
  pub count : t.batch_count ≡ n
  pub flashcart_is : t.batch_flashcart ≡ flashcart
  pub addr : (j : ℕ) → j < n → t.batch_addr j ≡ be32 src (j * 6)
  pub val : (j : ℕ) → j < n → t.batch_val j ≡ u16 (join16 (src (j * 6 + 4)) (src (j * 6 + 5)))

be32-copy_bytes :
    (n : ℕ) (dst src : Array) (i : ℕ) → i + 3 < n → be32 (copy_bytes n dst 0 src) i ≡ be32 src i
unfolding be32
be32-copy_bytes n dst src i h = rw (
  copy_bytes-at n i dst src (omega arith),
  copy_bytes-at n (i + 1) dst src (omega arith),
  copy_bytes-at n (i + 2) dst src (omega arith),
  copy_bytes-at n (i + 3) dst src (omega arith),
)

-- The pairs that the loop reads out of a payload buffer that holds `src`.
read_batch-copied :
    (n j : ℕ) (s : FwState) (dst src : Array)
    → j < n
    → let r = read_batch n 0 s (copy_bytes (n * 6) dst 0 src) in
      (r.batch_addr j ≡ be32 src (j * 6))
      × (r.batch_val j ≡ u16 (join16 (src (j * 6 + 4)) (src (j * 6 + 5))))
read_batch-copied n j s dst src h =
    let b = batch-read_batch n 0 j s (copy_bytes (n * 6) dst 0 src) in
    let t : in_range 0 n j ≡ true = ground arith in
    (
      b.0 ∙ rw t (be32-copy_bytes (n * 6) dst src (j * 6) (omega arith)),
      b.1
          ∙ rw t (
              rw (
                copy_bytes-at (n * 6) (j * 6 + 4) dst src (omega arith),
                copy_bytes-at (n * 6) (j * 6 + 5) dst src (omega arith),
              )),
    )

write_flash_cmd-Carries :
    (s : FwState) (p : Parser) (dst src : Array) (o : Array)
    → p.pay ≡ copy_bytes (p.arg 1 * 6) dst 0 src
    → p.arg 1 ≤ fw_batch_max
    → Carries (write_flash_cmd s p o).st (p.arg 0) (p.arg 1) src
      × ((write_flash_cmd s p o).out 0 ≡ ack_ok)
unfolding write_flash_cmd
write_flash_cmd-Carries s p dst src o e le =
    rw (le→ltb fw_batch_max (p.arg 1) le, e)
      (
        record {
          requested = refl;
          count = omega arith;
          flashcart_is = refl;
          addr = λ j h. (read_batch-copied (p.arg 1) j s dst src h).0;
          val = λ j h. (read_batch-copied (p.arg 1) j s dst src h).1;
        },
        refl,
      )

payload_len-batch :
    (s : FwState) (p : Parser) (flashcart n : ℕ)
    → n ≤ fw_batch_max
    → payload_len s (with_args p 0xD4 (flashcart ∷ n ∷ [])) ≡ n * 6
unfolding payload_len decode copy_bytes
payload_len-batch s p flashcart n le = omega arith

close_payload-batch :
    (s : FwState) (u : Parser) (o : Array) (src dst : Array)
    → u.op ≡ 0xD4
    → u.pay_over ≡ 0
    → u.pay ≡ copy_bytes (u.arg 1 * 6) dst 0 src
    → u.arg 1 ≤ fw_batch_max
    → let r = close_payload s u o in
      Carries r.st (u.arg 0) (u.arg 1) src × (r.out 0 ≡ ack_ok) × (r.count ≡ 1)
close_payload-batch s u o src dst op over pay le =
    let v = record u { last_pay_got = u.pay_got } in
    let w = write_flash_cmd-Carries s v dst src o pay le in
    let c : (write_flash_cmd s v o).count ≡ 1 =
      unfold write_flash_cmd in rw (le→ltb fw_batch_max (u.arg 1) le) in
    unfold close_payload payload_done done_cmd decode in rw (over, op) (w.0, w.1, c)

opened-batch : (s : FwState) (q : Parser) → q.op ≡ 0xD4 → payload_opened s q ≡ s
unfolding payload_opened decode
opened-batch s q e = rw e

run_command-batch :
    (s : FwState) (p : Parser) (o : Array) (flashcart n : ℕ) (pairs : List ℕ)
    → p.pay_got ≡ 0
    → 0 < n
    → n ≤ fw_batch_max
    → let r = run_command s p o 0xD4 (flashcart ∷ n ∷ []) pairs in
      Carries r.st flashcart n (of_list pairs) × (r.out 0 ≡ ack_ok) × (r.count ≡ 1)
unfolding run_command copy_bytes
run_command-batch s p o flashcart n pairs got pos le =
    let q = with_args p 0xD4 (flashcart ∷ n ∷ []) in
    let e = payload_len-batch s p flashcart n le in
    let t = record q { pay_need = n * 6 } in
    let u = absorbed (record t { pay_over = 0 }) (n * 6) (of_list pairs) in
    let fits : min (n * 6) (fw_payload_max - p.pay_got) ≡ n * 6 = omega arith in
    rw (e, ne→== (n * 6) 0 (omega arith), le→ltb fw_payload_max (n * 6) (omega arith))
      (rw (opened-batch s t refl)
        (close_payload-batch s u o (of_list pairs) p.pay refl refl (rw (fits, got)) le))

-- CART_WRITE_FLASH_CMD on the wire, with one to FW_BATCH_MAX pairs: the batch that main.c is handed
-- holds exactly the pairs sent, in their order, and the command is acknowledged.
pub feed_all-batch :
    (s : FwState) (p : Parser) (o : Array) (flashcart n : ℕ) (pairs : List ℕ)
    → Holds s p
    → idle p ≡ true
    → 0 < n
    → n ≤ fw_batch_max
    → length pairs ≡ n * 6
    → let r = feed_all s p o (0xD4 ∷ flashcart ∷ n ∷ pairs) in
      Carries r.st flashcart n (of_list pairs) × (r.out 0 ≡ ack_ok) × (r.count ≡ 1)
feed_all-batch s p o flashcart n pairs h ready pos le e =
    let f =
      feed_all-command s p o 0xD4 (flashcart ∷ n ∷ []) pairs h ready (unfold arg_len decode in refl)
        (e ∙ sym (payload_len-batch s p flashcart n le)) in
    rw f.0 (
      run_command-batch s p o flashcart n pairs (h.0.pay_closed (unfold idle in ground arith)) pos
        le)
