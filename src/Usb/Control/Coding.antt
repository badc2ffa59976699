-- ===== src/Usb/Control/Coding.antt =====
-- src/usb.c: the line coding that a host sets and reads back.
use open_gbflash_firmware.Common.{
  ℕ, zero, suc, ◌+◌, ◌*◌, ◌/◌, ◌%◌, ◌^◌, ◌≤◌, ◌<◌, ◌==◌, ltb, leb, not, ◌&&◌, ◌||◌, if◌then◌else◌,
  u32, arith, ◌≡◌, refl, sym, ◌∙◌, ap, ap₂, Bool-cases, inl, inr, if_true, if_false, eq→==, Array,
  from, update, fun_ext, Bool, true, false,
}
use open_gbflash_firmware.Usb.Copying.{usb_copy-eq-copy_bytes}
use open_gbflash_firmware.Proto.Copying.{copy_bytes-at}
use open_gbflash_firmware.Usb.Control.Descriptors.{
  line_coding_len, set_line_coding, get_line_coding, class_in, class_out, vendor_in, vendor_out,
}
use open_gbflash_firmware.Usb.Control.Setup.{
  Control, new_session, begin_read, ep0_class_in, ep0_setup, decoded, answered, data_stage, ep0_len,
}
use open_gbflash_firmware.Usb.Control.Stages.{Coding, store_coding, ep0_out}
mod Storing
pub use Storing.*

-- GET_LINE_CODING for at least the whole coding, in the buffer.
pub record IsGetLineCoding (c : Control) : Type 0 where
  pub direction : c.buf 0 ≡ 0xA1
  pub code : c.buf 1 ≡ 0x21
  pub asked : line_coding_len ≤ c.buf 6 + c.buf 7 * 2 ^ 8

get_line_coding-begin_read :
    (aligned : Bool) (c : Control)
    → IsGetLineCoding c
    → ep0_setup aligned 8 c
      ≡ data_stage (begin_read aligned c.line_coding line_coding_len (decoded c))
unfolding ep0_setup ep0_class_in
get_line_coding-begin_read aligned c r =
    let a : (c.buf 0 == vendor_in) ≡ false = ground (arith, r.direction) in
    let b : (c.buf 0 == vendor_out) ≡ false = ground (arith, r.direction) in
    ap (answered (decoded c)) (
      if_false (c.buf 0 == vendor_in) _ _ a
      ∙ if_false (c.buf 0 == vendor_out) _ _ b
      ∙ if_true (c.buf 0 == class_in) _ _ (eq→== (c.buf 0) class_in r.direction)
      ∙ if_true (c.buf 1 == get_line_coding) _ _ (eq→== (c.buf 1) get_line_coding r.code))

-- The answer to GET_LINE_CODING: the seven bytes in store.
get_line_coding-answer :
    (aligned : Bool) (c : Control)
    → IsGetLineCoding c
    → ((ep0_setup aligned 8 c).t_len ≡ line_coding_len)
      × ((i : ℕ) → i < line_coding_len → (ep0_setup aligned 8 c).buf i ≡ c.line_coding i)
get_line_coding-answer aligned c r =
    let e = get_line_coding-begin_read aligned c r in
    let d = begin_read aligned c.line_coding line_coding_len (decoded c) in
    let inward : (c.buf 0 / 2 ^ 7 % 2 == 0) ≡ false = ground (arith, r.direction) in
    let whole : d.req_len ≡ line_coding_len = ground (arith, r.asked) in
    let len : ep0_len d.req_len ≡ line_coding_len = ap ep0_len whole in
    (
      ap (λ (x : Control). x.t_len) e
          ∙ if_false (c.buf 0 / 2 ^ 7 % 2 == 0) 0 (ep0_len d.req_len) inward
          ∙ len,
      λ i lt.
          ap (λ (x : Control). x.buf i) e
          ∙ ap (λ a. a i) (usb_copy-eq-copy_bytes aligned (ep0_len d.req_len) c.buf 0 c.line_coding)
          ∙ copy_bytes-at (ep0_len d.req_len) i c.buf c.line_coding (omega (arith, len)),
    )

sessions-if :
    (b : Bool) (c : Control)
    → (if b then new_session c else c).sessions
      ≡ (if not b then c.sessions else u32 (c.sessions + 1))
sessions-if true c = refl
sessions-if false c = refl

-- The bytes that an OUT packet of `n` bytes can set.
abbrev pub coding_bytes : ℕ → ℕ
coding_bytes n = if ltb line_coding_len n then line_coding_len else n

ep0_out-store :
    (n : ℕ) (c : Control)
    → c.req_type ≡ class_out
    → c.req_code ≡ set_line_coding
    → ((i : ℕ)
        → (ep0_out n c).line_coding i
          ≡ (if ltb i (coding_bytes n) then c.buf i else c.line_coding i))
      × ((ep0_out n c).sessions ≡ (
          if same_bytes (coding_bytes n) c.buf c.line_coding
          then c.sessions
          else u32 (c.sessions + 1)))
unfolding ep0_out
ep0_out-store n c out set =
    let coding = c.req_type == class_out && c.req_code == set_line_coding in
    let due : coding ≡ true =
      ap₂ ◌&&◌ (eq→== c.req_type class_out out) (eq→== c.req_code set_line_coding set) in
    let k = coding_bytes n in
    let l0 : Coding = record { changed = false; bytes = c.line_coding } in
    let l = store_coding k 0 c.buf l0 in
    (
      λ i.
          let range : (leb 0 i && ltb i (0 + k)) ≡ ltb i k = ground arith in
          ap (λ (d : Control). d.line_coding i) (if_true coding _ _ due)
          ∙ store_coding-bytes k 0 c.buf l0 i
          ∙ ap (λ (b : Bool). if b then c.buf i else c.line_coding i) range,
      ap (λ (d : Control). d.sessions) (if_true coding _ _ due)
          ∙ sessions-if l.changed c
          ∙ ap (λ (b : Bool). if b then c.sessions else u32 (c.sessions + 1))
              (ap not (store_coding-changed k 0 c.buf l0)
                ∙ not_not (same_bytes k (from c.buf 0) (from c.line_coding 0))
                ∙ ap₂ (same_bytes k) (from_start c.buf) (from_start c.line_coding)),
    )
  where
    not_not : (b : Bool) → not (false || not b) ≡ b
    not_not true = refl
    not_not false = refl

    from_start : (a : Array) → from a 0 ≡ a
    from_start a = fun_ext λ i. ap a (omega arith)

-- What a host sets with SET_LINE_CODING it reads back with GET_LINE_CODING: the seven bytes, of a
-- shorter packet as many as it has, with the old ones behind. No longer packet writes past them. The
-- session changes exactly if one of the bytes does.
pub line_coding-round :
    (aligned : Bool) (n : ℕ) (c : Control) (get : Array)
    → c.req_type ≡ class_out
    → c.req_code ≡ set_line_coding
    → IsGetLineCoding (record (ep0_out n c) { buf = get })
    → ((ep0_setup aligned 8 (record (ep0_out n c) { buf = get })).t_len ≡ line_coding_len)
      × ((i : ℕ)
          → i < line_coding_len
          → (ep0_setup aligned 8 (record (ep0_out n c) { buf = get })).buf i
            ≡ (if ltb i n then c.buf i else c.line_coding i))
      × ((i : ℕ) → line_coding_len ≤ i → (ep0_out n c).line_coding i ≡ c.line_coding i)
      × ((ep0_out n c).sessions ≡ (
          if same_bytes (coding_bytes n) c.buf c.line_coding
          then c.sessions
          else u32 (c.sessions + 1)))
line_coding-round aligned n c get out set r =
    let (bytes, session) = ep0_out-store n c out set in
    let (len, answer) = get_line_coding-answer aligned (record (ep0_out n c) { buf = get }) r in
    (
      len,
      (λ i lt.
          let within : ltb i (coding_bytes n) ≡ ltb i n = ground arith in
          answer i lt ∙ bytes i ∙ ap (λ (b : Bool). if b then c.buf i else c.line_coding i) within),
      (λ i le.
          let past : ltb i (coding_bytes n) ≡ false = ground arith in
          bytes i ∙ if_false (ltb i (coding_bytes n)) (c.buf i) (c.line_coding i) past),
      session,
    )
