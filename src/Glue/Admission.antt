-- ===== src/Glue/Admission.antt =====
-- src/lk_glue.c: which commands reach the LK core, and with what left on the wire.
use mathlib.Core.List.{append-nil}
use open_gbflash_firmware.Common.{
  ℕ, ◌+◌, ◌-◌, ◌*◌, ◌≤◌, ◌<◌, ◌≡◌, ◌≢◌, refl, ◌∙◌, ap, arith, ◌==◌, ltb, leb, not, ◌&&◌, [], ◌∷◌,
  ◌++◌, length, elem, ◌>>=◌, >>=-eq-some, some, true, false, Bool-cases, inl, inr,
}
use open_gbflash_firmware.Proto.State.{fw_batch_max}
use open_gbflash_firmware.Glue.Seam.{Seam}
use open_gbflash_firmware.Glue.Link.{Received, conn_recv, replicate}
use open_gbflash_firmware.Glue.Mirror.{Core}
use open_gbflash_firmware.Glue.Dispatch.{
  lk_admit, admit_batch, lk_refuse, Admitted, refused, second, batch_admit,
}
use open_gbflash_firmware.Glue.Stream.{Delivers, conn_recv-Delivers, stream}

-- What the LK core's unchecked accesses need: a batch stays within both tables behind their first
-- 16 elements, and a payload within `data_buffer`.
pub record IsBounded (core : Core) (op : ℕ) (s : Seam) : Type 0 where
  pub batch_addr : op ≡ 0xD4 → 16 + second s.push ≤ core.flashcmd_addr_n
  pub batch_data : op ≡ 0xD4 → 16 + second s.push ≤ core.flashcmd_data_n
  pub batch_max : op ≡ 0xD4 → second s.push ≤ fw_batch_max
  pub payload :
      elem op (0xB3 ∷ 0xB6 ∷ 0xB7 ∷ 0xB9 ∷ []) ≡ true → s.st.transfer_size ≤ core.data_buffer_size

refused-ok :
    (drain : ℕ) (s : Seam) (a : Admitted) → (lk_refuse drain s >>= refused) ≡ some a → a.ok ≡ false
refused-ok drain s a h = let i = >>=-eq-some (lk_refuse drain s) refused h in cc (i.2)

header_stream :
    (s : Seam) (r : Received)
    → s.push ≡ []
    → s.recv_short ≡ false
    → r.seam.recv_short ≡ false
    → Delivers s.now s 2 r
    → stream (record r.seam { push = r.bytes }) ≡ stream s
header_stream s r push long long' d =
    let n : length d.got ≡ 2 = ground (arith, d.short) in
    let z : replicate (2 - length d.got) 0xFF ≡ [] = rw n (unfold replicate in refl) in
    let e : r.bytes ≡ d.got = d.bytes ∙ ap (λ l. d.got ++ l) z ∙ append-nil d.got in
    let p = d.no_push push in rw e (rw p at d.kept)

admit_batch-IsBounded :
    (core : Core) (s : Seam) (r : Received) (a : Admitted)
    → 16 < core.flashcmd_addr_n
    → 16 < core.flashcmd_data_n
    → s.push ≡ []
    → s.recv_short ≡ false
    → Delivers s.now s 2 r
    → admit_batch core r.bytes r.seam ≡ some a
    → a.ok ≡ true
    → IsBounded core 0xD4 a.seam × (stream a.seam ≡ stream s)
unfolding admit_batch
admit_batch-IsBounded core s r a big big' push long d h ok =
    elim (Bool-cases (not r.seam.recv_short && leb (second r.bytes) (batch_admit core))) [
      | inl z ↦
          let t : Seam = record r.seam { push = r.bytes } in
          let e : record { ok = true; seam = t } ≡ a = cc (rw z at h) in
          let le : second r.bytes ≤ batch_admit core = ground arith in
          let short : r.seam.recv_short ≡ false = ground arith in
          rw (← e) (
            record {
              batch_addr = λ k. omega arith;
              batch_data = λ k. omega arith;
              batch_max = λ k. omega arith;
              payload = λ k. absurd (cc k);
            },
            header_stream s r push long short d,
          )
      | inr z ↦ absurd (cc (refused-ok (second r.bytes * 6) r.seam a (rw z at h)))
    ]

-- An admitted command: the core's table and buffer accesses are in bounds, and the core finds on
-- its stream exactly the bytes that were there, the header that was read ahead included.
pub lk_admit-IsBounded :
    (core : Core) (op : ℕ) (s : Seam) (a : Admitted)
    → 16 < core.flashcmd_addr_n
    → 16 < core.flashcmd_data_n
    → s.push ≡ []
    → s.recv_short ≡ false
    → lk_admit core op s ≡ some a
    → a.ok ≡ true
    → IsBounded core op a.seam × (stream a.seam ≡ stream s)
unfolding lk_admit
lk_admit-IsBounded core op s a big big' push long h ok =
    elim (Bool-cases (elem op (0xB3 ∷ 0xB6 ∷ 0xB7 ∷ 0xB9 ∷ []))) [
      | inl z ↦ elim (Bool-cases (ltb core.data_buffer_size s.st.transfer_size)) [
        | inl y ↦ absurd (cc (refused-ok s.st.transfer_size s a (rw (z, y) at h)))
        | inr y ↦
            let e : record { ok = true; seam = s } ≡ a = cc (rw (z, y) at h) in
            let ne : op ≢ 0xD4 = λ k. cc (rw k at z) in
            rw (← e) (
              record {
                batch_addr = λ k. absurd (ne k);
                batch_data = λ k. absurd (ne k);
                batch_max = λ k. absurd (ne k);
                payload = λ k. ground arith;
              },
              refl,
            )
      ]
      | inr z ↦ elim (Bool-cases (not (op == 0xD4))) [
        | inl y ↦
            let e : record { ok = true; seam = s } ≡ a = cc (rw (z, y) at h) in
            let ne : op ≢ 0xD4 = λ k. ground arith in
            rw (← e) (
              record {
                batch_addr = λ k. absurd (ne k);
                batch_data = λ k. absurd (ne k);
                batch_max = λ k. absurd (ne k);
                payload = λ k. absurd (cc z);
              },
              refl,
            )
        | inr y ↦
            let i =
              >>=-eq-some (conn_recv 2 s) (λ r. admit_batch core r.bytes r.seam) (rw (z, y) at h) in
            let op_eq : op ≡ 0xD4 = ground arith in
            rw op_eq (
              admit_batch-IsBounded core s i.0 a big big' push long (conn_recv-Delivers 2 s i.0 i.1)
                i.2 ok)
      ]
    ]
