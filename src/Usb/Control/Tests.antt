-- ===== src/Usb/Control/Tests.antt =====
-- src/usb.c: requests to endpoint 0.
use open_gbflash_firmware.Common.{
  ℕ, ◌+◌, ◌*◌, ◌/◌, ◌%◌, ◌^◌, ◌<◌, ◌≤◌, ◌≡◌, refl, arith, Array, of_list, List, [], ◌∷◌, ltb,
  if◌then◌else◌, take, none, true, false,
}
use open_gbflash_firmware.Usb.Control.Descriptors.{
  desc_config, line_coding_len, class_out, set_line_coding,
}
use open_gbflash_firmware.Usb.Control.Setup.{Control, ep0_standard, ep0_setup}
use open_gbflash_firmware.Usb.Control.Stages.{ep0_in, ep0_out}
use open_gbflash_firmware.Usb.Control.Reading.{delivered, delivered-descriptor}
use open_gbflash_firmware.Usb.Control.Address.{Stage, run_stage, sets_address, set_address-applies}
use open_gbflash_firmware.Usb.Control.Coding.{line_coding-round}

-- After the power-up, with a packet in the buffer.
abbrev fresh : List ℕ → Control
fresh l = record {
  buf = of_list l;
  descr = none;
  req_len = 0;
  req_code = 0;
  req_type = 0;
  config = 0;
  cursor = 0;
  line_coding = of_list (0x00 ∷ 0xC2 ∷ 0x01 ∷ 0x00 ∷ 0x00 ∷ 0x00 ∷ 0x08 ∷ []);
  dtr = 0;
  sessions = 0;
  dev_ad = 0;
  t_len = 0;
  ctrl = 2;
}

-- The configuration, nine bytes asked for.
abbrev get_config_9 : Control
get_config_9 = fresh (0x80 ∷ 6 ∷ 0 ∷ 2 ∷ 0 ∷ 0 ∷ 9 ∷ 0 ∷ [])

delivered-descriptor_example : delivered true 3 (ep0_setup true 8 get_config_9) ≡ take 9 desc_config
delivered-descriptor_example =
    delivered-descriptor true false get_config_9 3
      (record { direction = refl; code = refl; index = omega arith; kind = refl })

abbrev set_address_7 : Control
set_address_7 = fresh (0 ∷ 5 ∷ 7 ∷ 0 ∷ 0 ∷ 0 ∷ 0 ∷ 0 ∷ [])

set_address-applies_example :
    ((ep0_setup true 8 set_address_7).t_len ≡ 0)
    × ((ep0_in true (ep0_setup true 8 set_address_7)).dev_ad ≡ 7)
    × ((s : Stage) (d : Control)
        → (run_stage true s d).dev_ad ≡ (
            if sets_address s d
            then d.dev_ad / 2 ^ 7 % 2 * 2 ^ 7 + d.req_len % 2 ^ 7
            else d.dev_ad))
set_address-applies_example =
    set_address-applies true set_address_7
      (record { direction = refl; code = refl; address = omega arith; page = refl })

-- 9600 baud, in the data stage of SET_LINE_CODING.
abbrev coding_stage : Control
coding_stage = record (fresh (0x80 ∷ 0x25 ∷ 0x00 ∷ 0x00 ∷ 0x00 ∷ 0x00 ∷ 0x08 ∷ [])) {
  req_type = class_out;
  req_code = set_line_coding;
  req_len = 7;
}

abbrev get_coding : Array
get_coding = of_list (0xA1 ∷ 0x21 ∷ 0 ∷ 0 ∷ 0 ∷ 0 ∷ 7 ∷ 0 ∷ [])

line_coding-round_example :
    ((ep0_setup true 8 (record (ep0_out 7 coding_stage) { buf = get_coding })).t_len
      ≡ line_coding_len)
    × ((i : ℕ)
        → i < line_coding_len
        → (ep0_setup true 8 (record (ep0_out 7 coding_stage) { buf = get_coding })).buf i
          ≡ (if ltb i 7 then coding_stage.buf i else coding_stage.line_coding i))
    × ((i : ℕ)
        → line_coding_len ≤ i
        → (ep0_out 7 coding_stage).line_coding i ≡ coding_stage.line_coding i)
    × ((ep0_out 7 coding_stage).sessions ≡ 1)
line_coding-round_example =
    line_coding-round true 7 coding_stage get_coding refl refl
      (record { direction = refl; code = refl; asked = omega arith })

-- A GET_DESCRIPTOR with the direction bit clear: the read starts at the second ep0_len, its length is not
-- reduced by the first, and ends eight bytes behind the descriptor.
abbrev outward_read : Control
outward_read = fresh (0 ∷ 6 ∷ 0 ∷ 1 ∷ 0 ∷ 0 ∷ 18 ∷ 0 ∷ [])

outward : (ep0_setup true 8 outward_read).req_len ≡ 18
unfolding ep0_setup ep0_standard
outward = refl
