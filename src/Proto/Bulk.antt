-- ===== src/Proto/Bulk.antt =====
-- src/proto.c: `fw_proto_feed_bulk` against `fw_proto_feed` on the same bytes.
use open_gbflash_firmware.Common.{
  ℕ, ◌+◌, ◌-◌, ◌≤◌, ◌<◌, min, ◌≡◌, ◌≢◌, refl, sym, ap₂, arith, ltb, if◌then◌else◌, u16, u32, Array,
  ◌==◌, ◌||◌, ◌∙◌, true, of_list, copy_bytes, Bool, Bool-cases, ne→==, inl, inr, List, length, take,
}
use open_gbflash_firmware.Proto.State.{FwState, Parser, fw_payload_max}
use open_gbflash_firmware.Proto.Feed.{
  Fed, feed_all, feed_bulk, fast_copy, waiting, bulk_want, bulk_fits,
}
use open_gbflash_firmware.Proto.Parsing.{IsValid}
use open_gbflash_firmware.Proto.Copying.{fast_copy-eq-copy_bytes}
use open_gbflash_firmware.Proto.Absorb.{absorbed, settled, feed_all-take}

bulk_pay : Bool → Parser → ℕ → Array → Array
bulk_pay aligned p want src =
    if ltb p.pay_got fw_payload_max
    then fast_copy aligned (bulk_fits p want) p.pay p.pay_got src
    else p.pay

bulk_pay_lem :
    (aligned : Bool) (p : Parser) (want : ℕ) (src : Array)
    → bulk_pay aligned p want src
      ≡ copy_bytes (min want (fw_payload_max - p.pay_got)) p.pay p.pay_got src
unfolding bulk_pay
bulk_pay_lem aligned p want src = elim (Bool-cases (ltb p.pay_got fw_payload_max)) [
  | inl t ↦
      let e : bulk_fits p want ≡ min want (fw_payload_max - p.pay_got) = ground arith in
      rw (t, fast_copy-eq-copy_bytes aligned (bulk_fits p want) p.pay p.pay_got src, e)
  | inr t ↦
      let e : min want (fw_payload_max - p.pay_got) ≡ 0 = ground arith in
      rw (t, e) (unfold copy_bytes in refl)
]

bulk_want-le :
    (p : Parser) (len : ℕ)
    → IsValid p
    → p.pay_need ≢ 0
    → 0 < len
    → (0 < bulk_want p len) × (bulk_want p len ≤ len) × (p.pay_got + bulk_want p len ≤ p.pay_need)
bulk_want-le p len v ne pos = ground arith

-- The bulk intake is one settled absorption of the bytes that it consumes.
feed_bulk-settled :
    (aligned : Bool) (s : FwState) (p : Parser) (src : Array) (len : ℕ) (o : Array)
    → IsValid p
    → p.pay_need ≢ 0
    → 0 < len
    → feed_bulk aligned s p src len o
      ≡ (settled s (absorbed p (bulk_want p len) src) o, bulk_want p len)
unfolding feed_bulk
feed_bulk-settled aligned s p src len o v ne pos =
    let lt = bulk_want-le p len v ne pos in
    let w = bulk_want p len in
    let e : u16 (p.pay_got + w) ≡ p.pay_got + w = omega arith in
    let f : bulk_pay aligned p w src
        ≡ copy_bytes (min w (fw_payload_max - p.pay_got)) p.pay p.pay_got src =
      bulk_pay_lem aligned p w src in
    rw (ne→== p.pay_need 0 ne, ne→== len 0 (omega arith))
      (ap₂
        (λ (pay : Array) (got : ℕ).
          let q = record p { pay = pay; pay_got = got; bytes = u32 (p.bytes + w) } in
          let r : Fed × ℕ = (settled s q o, w) in r)
        (unfold bulk_pay in f) e)

feed_bulk-closed :
    (aligned : Bool) (s : FwState) (p : Parser) (src : Array) (len : ℕ) (o : Array)
    → (p.pay_need == 0 || len == 0) ≡ true
    → feed_bulk aligned s p src len o ≡ (waiting s p o, 0)
unfolding feed_bulk
feed_bulk-closed aligned s p src len o e = rw e

-- A bulk intake is the byte intake of exactly the bytes that it reports as consumed, with the same
-- state, parser, reply and count, on aligned and on unaligned buffers. It consumes no more than the
-- batch, and nothing exactly when no payload is open or the batch is empty.
pub feed_bulk-eq-feed_all :
    (aligned : Bool) (s : FwState) (p : Parser) (xs : List ℕ) (o : Array)
    → IsValid p
    → let r = feed_bulk aligned s p (of_list xs) (length xs) o in
      (r.0 ≡ feed_all s p o (take r.1 xs))
      × (r.1 ≤ length xs)
      × ((r.1 == 0) ≡ (p.pay_need == 0 || length xs == 0))
feed_bulk-eq-feed_all aligned s p xs o v = elim (Bool-cases (p.pay_need == 0 || length xs == 0)) [
  | inl z ↦
      rw (feed_bulk-closed aligned s p (of_list xs) (length xs) o z)
        (unfold feed_all in refl, omega arith, sym z)
  | inr z ↦
      let ne : p.pay_need ≢ 0 = ground arith in
      let pos : 0 < length xs = ground arith in
      let lt = bulk_want-le p (length xs) v ne pos in
      let e = feed_bulk-settled aligned s p (of_list xs) (length xs) o v ne pos in
      rw e (
        sym (feed_all-take (bulk_want p (length xs)) xs s p o lt.0 lt.1 v.pay_small lt.2),
        lt.1,
        ne→== (bulk_want p (length xs)) 0 (omega arith) ∙ sym z,
      )
]
