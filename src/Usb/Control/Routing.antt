-- ===== src/Usb/Control/Routing.antt =====
-- src/usb.c: which requests `ep0_setup` hands to `ep0_standard`.
use open_gbflash_firmware.Common.{
  ◌+◌, ◌*◌, ◌^◌, ◌==◌, arith, ◌≡◌, ◌∙◌, ap, if_false, Bool, true, false,
}
use open_gbflash_firmware.Usb.Control.Descriptors.{vendor_in, vendor_out, class_in, class_out}
use open_gbflash_firmware.Usb.Control.Setup.{
  Control, ep0_standard, ep0_setup, decoded, routed, answered,
}
use open_gbflash_firmware.Usb.Control.Stages.{is_standard}

pub routed-standard :
    (aligned : Bool) (d : Control)
    → is_standard d ≡ true
    → routed aligned d ≡ ep0_standard aligned (d.buf 2 + d.buf 3 * 2 ^ 8) d
routed-standard aligned d r =
    let a : (d.req_type == vendor_in) ≡ false = ground arith in
    let b : (d.req_type == vendor_out) ≡ false = ground arith in
    let e : (d.req_type == class_in) ≡ false = ground arith in
    let f : (d.req_type == class_out) ≡ false = ground arith in
    if_false (d.req_type == vendor_in) _ _ a
    ∙ if_false (d.req_type == vendor_out) _ _ b
    ∙ if_false (d.req_type == class_in) _ _ e
    ∙ if_false (d.req_type == class_out) _ _ f

-- A SETUP of eight bytes of a standard request.
pub ep0_setup-standard :
    (aligned : Bool) (c : Control)
    → is_standard (decoded c) ≡ true
    → ep0_setup aligned 8 c
      ≡ answered (decoded c) (ep0_standard aligned (c.buf 2 + c.buf 3 * 2 ^ 8) (decoded c))
unfolding ep0_setup
ep0_setup-standard aligned c r = ap (answered (decoded c)) (routed-standard aligned (decoded c) r)
