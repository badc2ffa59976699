-- ===== src/Usb/Control/Descriptors.antt =====
-- src/usb_desc.c: the tables that endpoint 0 delivers, with FW_USB_CDC on and FW_USB_CDC_BREAK 0.
-- src/usb.h: the constants of the control requests.
use open_gbflash_firmware.Common.{ℕ, List, [], ◌∷◌}

-- `bl_usb_desc_device_cdc`, the identity 0x1209, 0x0008 of include/usb.h in it.
abbrev pub desc_device : List ℕ
desc_device =
    0x12 ∷ 0x01 ∷ 0x10 ∷ 0x01 ∷ 0x02 ∷ 0x02 ∷ 0x00 ∷ 0x08 ∷ 0x09 ∷ 0x12 ∷ 0x08 ∷ 0x00 ∷ 0x00 ∷ 0x01
    ∷ 0x00 ∷ 0x00 ∷ 0x00 ∷ 0x01 ∷ []

-- `bl_usb_desc_config_cdc`
abbrev pub desc_config : List ℕ
desc_config =
    0x09 ∷ 0x02 ∷ 0x43 ∷ 0x00 ∷ 0x02 ∷ 0x01 ∷ 0x00 ∷ 0x80 ∷ 0xF0 ∷ 0x09 ∷ 0x04 ∷ 0x00 ∷ 0x00 ∷ 0x01
    ∷ 0x02 ∷ 0x02 ∷ 0x01 ∷ 0x00 ∷ 0x05 ∷ 0x24 ∷ 0x00 ∷ 0x10 ∷ 0x01 ∷ 0x05 ∷ 0x24 ∷ 0x01 ∷ 0x00
    ∷ 0x01 ∷ 0x04 ∷ 0x24 ∷ 0x02 ∷ 0x02 ∷ 0x05 ∷ 0x24 ∷ 0x06 ∷ 0x00 ∷ 0x01 ∷ 0x07 ∷ 0x05 ∷ 0x81
    ∷ 0x03 ∷ 0x08 ∷ 0x00 ∷ 0x10 ∷ 0x09 ∷ 0x04 ∷ 0x01 ∷ 0x00 ∷ 0x02 ∷ 0x0A ∷ 0x00 ∷ 0x00 ∷ 0x00
    ∷ 0x07 ∷ 0x05 ∷ 0x02 ∷ 0x02 ∷ 0x40 ∷ 0x00 ∷ 0x00 ∷ 0x07 ∷ 0x05 ∷ 0x82 ∷ 0x02 ∷ 0x40 ∷ 0x00
    ∷ 0x00 ∷ []

-- `bl_usb_ch340_vendor_tbl`
abbrev pub vendor_tbl : List ℕ
vendor_tbl =
    0x30 ∷ 0x00 ∷ 0xC3 ∷ 0x00 ∷ 0xFF ∷ 0xEC ∷ 0x9F ∷ 0xEC ∷ 0xFF ∷ 0xEC ∷ 0xDF ∷ 0xEC ∷ 0xDF ∷ 0xEC
    ∷ 0xDF ∷ 0xEC ∷ 0x9F ∷ 0xEC ∷ 0x9F ∷ 0xEC ∷ 0x9F ∷ 0xEC ∷ 0x9F ∷ 0xEC ∷ 0xFF ∷ 0xEC ∷ []

abbrev pub ep0_pkt : ℕ
ep0_pkt = 8

abbrev pub vendor_tbl_last : ℕ
vendor_tbl_last = 24

abbrev pub line_coding_len : ℕ
line_coding_len = 7

abbrev pub set_address : ℕ
set_address = 5

abbrev pub get_descriptor : ℕ
get_descriptor = 6

abbrev pub get_config : ℕ
get_config = 8

abbrev pub set_config : ℕ
set_config = 9

abbrev pub get_interface : ℕ
get_interface = 10

abbrev pub set_interface : ℕ
set_interface = 11

abbrev pub serial_init : ℕ
serial_init = 0xA1

abbrev pub set_line_coding : ℕ
set_line_coding = 0x20

abbrev pub get_line_coding : ℕ
get_line_coding = 0x21

abbrev pub set_control_line_state : ℕ
set_control_line_state = 0x22

abbrev pub vendor_in : ℕ
vendor_in = 0xC0

abbrev pub vendor_out : ℕ
vendor_out = 0x40

abbrev pub class_in : ℕ
class_in = 0xA1

abbrev pub class_out : ℕ
class_out = 0x21

-- The values of R8_UEP0_CTRL.
abbrev pub ep0_idle : ℕ
ep0_idle = 0x02

abbrev pub setup_arm : ℕ
setup_arm = 0xC2

abbrev pub data_ready : ℕ
data_ready = 0xC0

abbrev pub stall : ℕ
stall = 0xCF

abbrev pub status_in : ℕ
status_in = 0x40
