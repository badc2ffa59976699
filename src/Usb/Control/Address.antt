-- ===== src/Usb/Control/Address.antt =====
-- src/usb.c: when the device's address changes.
use open_gbflash_firmware.Common.{
  ℕ, ◌+◌, ◌-◌, ◌*◌, ◌/◌, ◌%◌, ◌^◌, ◌<◌, ◌==◌, ltb, not, ◌&&◌, if◌then◌else◌, u8, arith, ◌≡◌, refl,
  sym, ◌∙◌, ap, ap₂, Bool-cases, inl, inr, if_true, if_false, eq→==, of_list, Array, Option, some,
  none, Bool, true, false,
}
use mathlib.Core.Option.{some-injective}
use open_gbflash_firmware.Usb.Control.Descriptors.{
  desc_device, desc_config, line_coding_len, set_address, get_descriptor, get_config, set_config,
  get_interface, set_interface, serial_init, set_line_coding, get_line_coding,
  set_control_line_state, vendor_in, vendor_out, class_in, class_out,
}
use open_gbflash_firmware.Usb.Control.Setup.{
  Control, new_session, begin_read, one_byte, ep0_vendor_in, ep0_class_in, ep0_class_out,
  ep0_standard, ep0_setup, decoded, routed, answered, data_stage, ep0_len,
}
use open_gbflash_firmware.Usb.Control.Routing.{ep0_setup-standard}
use open_gbflash_firmware.Usb.Control.Stages.{store_coding, is_standard, loaded, ep0_in, ep0_out}

-- An accepted request has not touched the address.
abbrev Keeps : ℕ → Option Control → Type 0
Keeps a o = (d : Control) → o ≡ some d → d.dev_ad ≡ a

Keeps-if :
    (b : Bool) {a : ℕ} {m n : Option Control} → Keeps a m → Keeps a n → Keeps a (if b then m else n)
Keeps-if true p q = p
Keeps-if false p q = q

Keeps-some : (d : Control) (a : ℕ) → d.dev_ad ≡ a → Keeps a (some d)
Keeps-some d a e x h = ap (λ (y : Control). y.dev_ad) (some-injective x d (sym h)) ∙ e

Keeps-none : (a : ℕ) → Keeps a none
Keeps-none a x h = absurd (cc h)

dev_ad-if :
    (b : Bool) (c d : Control) → c.dev_ad ≡ d.dev_ad → (if b then c else d).dev_ad ≡ d.dev_ad
dev_ad-if true c d e = e
dev_ad-if false c d e = refl

ep0_class_out-Keeps : (wvalue : ℕ) (c : Control) → Keeps c.dev_ad (ep0_class_out wvalue c)
unfolding ep0_class_out
ep0_class_out-Keeps wvalue c =
    let opens = not (wvalue % 2 == 0) && c.dtr == 0 in
    Keeps-if (c.req_code == set_line_coding) (Keeps-some c c.dev_ad refl) (
      Keeps-if (c.req_code == set_control_line_state)
        (Keeps-some (record (if opens then new_session c else c) { dtr = wvalue % 2 }) c.dev_ad
          (dev_ad-if opens (new_session c) c refl))
        (Keeps-none c.dev_ad))

ep0_standard-Keeps :
    (aligned : Bool) (wvalue : ℕ) (c : Control) → Keeps c.dev_ad (ep0_standard aligned wvalue c)
unfolding ep0_standard
ep0_standard-Keeps aligned wvalue c =
    let same = λ (d : Control) (e : d.dev_ad ≡ c.dev_ad). Keeps-some d c.dev_ad e in
    let no = Keeps-none c.dev_ad in
    Keeps-if (c.req_code == set_address) (same (record c { req_len = u8 wvalue }) refl) (
      Keeps-if (c.req_code == get_descriptor)
        (Keeps-if (wvalue / 2 ^ 8 == 1)
          (same (begin_read aligned (of_list desc_device) (of_list desc_device 0) c) refl)
          (Keeps-if (wvalue / 2 ^ 8 == 2)
            (same (begin_read aligned (of_list desc_config) (of_list desc_config 2) c) refl) no))
        (Keeps-if (c.req_code == get_config) (same (one_byte c.config c) refl) (
          Keeps-if (c.req_code == set_config) (same (record c { config = u8 wvalue }) refl) (
            Keeps-if (c.req_code == get_interface) (same (one_byte 0 c) refl) (
              Keeps-if (c.req_code == set_interface) (Keeps-if (u8 wvalue == 0) (same c refl) no)
                no)))))

routed-Keeps : (aligned : Bool) (c : Control) → Keeps c.dev_ad (routed aligned c)
unfolding ep0_vendor_in ep0_class_in
routed-Keeps aligned c =
    let wvalue = c.buf 2 + c.buf 3 * 2 ^ 8 in
    let initial = c.req_code == serial_init in
    Keeps-if (c.req_type == vendor_in) (Keeps-some (ep0_vendor_in c) c.dev_ad refl) (
      Keeps-if (c.req_type == vendor_out)
        (Keeps-some (if initial then new_session c else c) c.dev_ad
          (dev_ad-if initial (new_session c) c refl))
        (Keeps-if (c.req_type == class_in)
          (Keeps-if (c.req_code == get_line_coding)
            (Keeps-some (begin_read aligned c.line_coding line_coding_len c) c.dev_ad refl)
            (Keeps-none c.dev_ad))
          (Keeps-if (c.req_type == class_out) (ep0_class_out-Keeps wvalue c)
            (ep0_standard-Keeps aligned wvalue c))))

dev_ad-answered :
    (c : Control) (o : Option Control) → Keeps c.dev_ad o → (answered c o).dev_ad ≡ c.dev_ad
dev_ad-answered c none h = refl
dev_ad-answered c (some d) h = h d refl

dev_ad-ep0_setup :
    (aligned : Bool) (n : ℕ) (c : Control) → (ep0_setup aligned n c).dev_ad ≡ c.dev_ad
unfolding ep0_setup
dev_ad-ep0_setup aligned n c = elim (Bool-cases (n == 8)) [
  | inl e ↦
      ap (λ (d : Control). d.dev_ad) (if_true (n == 8) _ _ e)
      ∙ dev_ad-answered (decoded c) (routed aligned (decoded c)) (routed-Keeps aligned (decoded c))
  | inr e ↦ ap (λ (d : Control). d.dev_ad) (if_false (n == 8) _ _ e)
]

dev_ad-ep0_out : (n : ℕ) (c : Control) → (ep0_out n c).dev_ad ≡ c.dev_ad
unfolding ep0_out
dev_ad-ep0_out n c =
    let coding = c.req_type == class_out && c.req_code == set_line_coding in
    let len = if ltb line_coding_len n then line_coding_len else n in
    let l = store_coding len 0 c.buf (record { changed = false; bytes = c.line_coding }) in
    elim (Bool-cases coding) [
      | inl e ↦
          ap (λ (d : Control). d.dev_ad) (if_true coding _ _ e)
          ∙ dev_ad-if l.changed (new_session c) c refl
      | inr e ↦ ap (λ (d : Control). d.dev_ad) (if_false coding _ _ e)
    ]

dev_ad-loaded :
    (aligned : Bool) (c : Control) (o : Option Array) → (loaded aligned c o).dev_ad ≡ c.dev_ad
dev_ad-loaded aligned c none = refl
dev_ad-loaded aligned c (some source) = refl

-- The request whose status stage sets the address.
abbrev pub pending : Control → Bool
pending c = is_standard c && c.req_code == set_address

dev_ad-ep0_in :
    (aligned : Bool) (c : Control)
    → (ep0_in aligned c).dev_ad
      ≡ (if pending c then c.dev_ad / 2 ^ 7 % 2 * 2 ^ 7 + c.req_len % 2 ^ 7 else c.dev_ad)
unfolding ep0_in
dev_ad-ep0_in aligned c =
    let get = is_standard c && c.req_code == get_descriptor in
    elim (Bool-cases get) [
      | inl e ↦
          let idle : pending c ≡ false = ground arith in
          ap (λ (d : Control). d.dev_ad) (if_true get _ _ e)
          ∙ dev_ad-loaded aligned c c.descr
          ∙ sym (if_false (pending c) _ c.dev_ad idle)
      | inr e ↦
          ap (λ (d : Control). d.dev_ad) (if_false get _ _ e) ∙ elim (Bool-cases (pending c)) [
            | inl q ↦
                ap (λ (d : Control). d.dev_ad) (if_true (pending c) _ _ q)
                ∙ sym (if_true (pending c) _ c.dev_ad q)
            | inr q ↦
                ap (λ (d : Control). d.dev_ad) (if_false (pending c) _ _ q)
                ∙ sym (if_false (pending c) _ c.dev_ad q)
          ]
    ]

-- One event on endpoint 0: a SETUP or OUT packet, with its length, or an IN packet taken.
pub data Stage : Type 0 where
  setup_stage out_stage : ℕ → Stage
  in_stage : Stage

unfoldable pub run_stage : Bool → Stage → Control → Control
unfolding ep0_setup ep0_in ep0_out
run_stage aligned (Stage.setup_stage n) c = ep0_setup aligned n c
run_stage aligned (Stage.out_stage n) c = ep0_out n c
run_stage aligned Stage.in_stage c = ep0_in aligned c

-- The one event that sets the address.
abbrev pub sets_address : Stage → Control → Bool
sets_address Stage.in_stage c = pending c
sets_address _ c = false

dev_ad-run_stage :
    (aligned : Bool) (s : Stage) (c : Control)
    → (run_stage aligned s c).dev_ad
      ≡ (if sets_address s c then c.dev_ad / 2 ^ 7 % 2 * 2 ^ 7 + c.req_len % 2 ^ 7 else c.dev_ad)
unfolding run_stage
dev_ad-run_stage aligned (Stage.setup_stage n) c = dev_ad-ep0_setup aligned n c
dev_ad-run_stage aligned (Stage.out_stage n) c = dev_ad-ep0_out n c
dev_ad-run_stage aligned Stage.in_stage c = dev_ad-ep0_in aligned c

-- SET_ADDRESS, in the buffer.
pub record IsSetAddress (c : Control) : Type 0 where
  pub direction : c.buf 0 ≡ 0
  pub code : c.buf 1 ≡ 5
  pub address : c.buf 2 < 2 ^ 7
  pub page : c.buf 3 ≡ 0

set_address-ep0_setup :
    (aligned : Bool) (c : Control)
    → IsSetAddress c
    → ep0_setup aligned 8 c ≡ data_stage (record (decoded c) { req_len = c.buf 2 })
unfolding ep0_standard
set_address-ep0_setup aligned c r =
    let standard : is_standard (decoded c) ≡ true = ground (arith, r.direction) in
    let parked : u8 (c.buf 2 + c.buf 3 * 2 ^ 8) ≡ c.buf 2 = omega (arith, r.page, r.address) in
    ep0_setup-standard aligned c standard
    ∙ ap (answered (decoded c)) (
        if_true (c.buf 1 == set_address) _ _ (eq→== (c.buf 1) set_address r.code)
        ∙ ap (λ (n : ℕ). some (record (decoded c) { req_len = n })) parked)

-- SET_ADDRESS is answered with an empty ep0_len, and the address is set, its top bit kept, when the host
-- has taken that packet. No other event on endpoint 0 changes the address: no SETUP, no OUT packet,
-- and no IN packet but the first after a standard request with SET_ADDRESS's code.
pub set_address-applies :
    (aligned : Bool) (c : Control)
    → IsSetAddress c
    → ((ep0_setup aligned 8 c).t_len ≡ 0)
      × ((ep0_in aligned (ep0_setup aligned 8 c)).dev_ad ≡ c.dev_ad / 2 ^ 7 % 2 * 2 ^ 7 + c.buf 2)
      × ((s : Stage) (d : Control)
          → (run_stage aligned s d).dev_ad ≡ (
              if sets_address s d
              then d.dev_ad / 2 ^ 7 % 2 * 2 ^ 7 + d.req_len % 2 ^ 7
              else d.dev_ad))
set_address-applies aligned c r =
    let e = set_address-ep0_setup aligned c r in
    let d = data_stage (record (decoded c) { req_len = c.buf 2 }) in
    let out : (c.buf 0 / 2 ^ 7 % 2 == 0) ≡ true = ground (arith, r.direction) in
    let standard : is_standard d ≡ true = ground (arith, r.direction) in
    let due : pending d ≡ true = ap₂ ◌&&◌ standard (eq→== (c.buf 1) set_address r.code) in
    let sent = if_true (c.buf 0 / 2 ^ 7 % 2 == 0) 0 (ep0_len (c.buf 2)) out in
    let whole : (c.buf 2 - 0) % 2 ^ 7 ≡ c.buf 2 = omega (arith, r.address) in
    (
      ap (λ (x : Control). x.t_len) e ∙ sent,
      ap (λ x. (ep0_in aligned x).dev_ad) e
          ∙ dev_ad-ep0_in aligned d
          ∙ if_true (pending d) _ d.dev_ad due
          ∙ ap₂ (λ (n : ℕ) (m : ℕ). n + m) refl
              (ap (λ (n : ℕ). (c.buf 2 - n) % 2 ^ 7) sent ∙ whole),
      dev_ad-run_stage aligned,
    )
