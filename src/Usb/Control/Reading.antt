-- ===== src/Usb/Control/Reading.antt =====
-- src/usb.c: what a host reads of a descriptor.
use Prim.Native.Nat.{bit_xor}
use open_gbflash_firmware.Proto.Copying.{copy_bytes-at}
use open_gbflash_firmware.Common.{
  ℕ, zero, suc, ◌+◌, ◌-◌, ◌*◌, ◌/◌, ◌%◌, ◌^◌, ◌<◌, min, ◌==◌, ◌&&◌, if◌then◌else◌, arith, ◌≡◌, refl,
  sym, ◌∙◌, ap, ap₂, if_true, if_false, eq→==, List, [], ◌∷◌, ◌++◌, length, take, Array, from,
  of_list, some, Bool, true, false,
}
use open_gbflash_firmware.Usb.Copy.{usb_copy}
use open_gbflash_firmware.Usb.Copying.{usb_copy-eq-copy_bytes}
use open_gbflash_firmware.Usb.Queue.{to_list, to_list-cong, to_list-add}
use open_gbflash_firmware.Usb.Control.Descriptors.{desc_device, desc_config, get_descriptor}
use open_gbflash_firmware.Usb.Control.Setup.{
  Control, ep0_setup, ep0_standard, ep0_len, begin_read, decoded, data_stage, answered,
}
use open_gbflash_firmware.Usb.Control.Routing.{ep0_setup-standard}
use open_gbflash_firmware.Usb.Control.Stages.{ep0_in, is_standard, loaded}

-- What `k` IN transactions deliver: each takes the packet that is up, and the handler loads the next.
unfoldable pub delivered : Bool → ℕ → Control → List ℕ
unfolding ep0_in
delivered aligned zero c = []
delivered aligned (suc k) c = to_list c.t_len c.buf ++ delivered aligned k (ep0_in aligned c)

-- A read under way: its next packet comes from `source`.
record Reads (c : Control) (source : Array) : Type 0 where
  request : c.req_code ≡ get_descriptor
  standard : is_standard c ≡ true
  pointer : c.descr ≡ some source

ep0_in-loaded :
    (aligned : Bool) (c : Control) (source : Array)
    → Reads c source
    → ep0_in aligned c ≡ record (loaded aligned c (some source)) { ctrl = bit_xor c.ctrl 0x40 }
unfolding ep0_in
ep0_in-loaded aligned c source r =
    if_true (is_standard c && c.req_code == get_descriptor) _ _
      (ap₂ ◌&&◌ r.standard (eq→== c.req_code get_descriptor r.request))
    ∙ ap (λ o. record (loaded aligned c o) { ctrl = bit_xor c.ctrl 0x40 }) r.pointer

copied :
    (aligned : Bool) (n : ℕ) (dst src : Array)
    → to_list n (usb_copy aligned n dst 0 src) ≡ to_list n src
copied aligned n dst src = to_list-cong n _ src (λ i lt.
    ap (λ a. a i) (usb_copy-eq-copy_bytes aligned n dst 0 src) ∙ copy_bytes-at n i dst src lt)

-- Cutting what is left into packets.
min_split : (k left : ℕ) → min (suc k * 8) left ≡ ep0_len left + min (k * 8) (left - ep0_len left)
min_split k left = ground arith

-- The packets after the one that is up.
delivered-Reads :
    (aligned : Bool) (k : ℕ) (c : Control) (source : Array)
    → Reads c source
    → delivered aligned k (ep0_in aligned c) ≡ to_list (min (k * 8) c.req_len) source
unfolding delivered
delivered-Reads aligned zero c source r =
    let e : min (0 * 8) c.req_len ≡ 0 = omega arith in ap (λ m. to_list m source) (sym e)
delivered-Reads aligned (suc k) c source r =
    let n = ep0_len c.req_len in
    let d = record (loaded aligned c (some source)) { ctrl = bit_xor c.ctrl 0x40 } in
    let next : Reads d (from source n) = record {
      request = r.request;
      standard = r.standard;
      pointer = refl;
    } in
    ap (delivered aligned (suc k)) (ep0_in-loaded aligned c source r)
    ∙ ap₂ ◌++◌ (copied aligned n c.buf source) (delivered-Reads aligned k d (from source n) next)
    ∙ sym (to_list-add n (min (k * 8) (c.req_len - n)) source)
    ∙ ap (λ m. to_list m source) (sym (min_split k c.req_len))

-- The two descriptors that the firmware has, by their type.
abbrev pub descriptor : Bool → List ℕ
descriptor true = desc_device
descriptor false = desc_config

abbrev pub descriptor_type : Bool → ℕ
descriptor_type true = 1
descriptor_type false = 2

-- GET_DESCRIPTOR of one of them, in the buffer.
pub record IsGetDescriptor (device : Bool) (c : Control) : Type 0 where
  pub direction : c.buf 0 ≡ 0x80
  pub code : c.buf 1 ≡ 6
  pub index : c.buf 2 < 2 ^ 8
  pub kind : c.buf 3 ≡ descriptor_type device

get_descriptor-begin_read :
    (aligned device : Bool) (wvalue : ℕ) (d : Control)
    → d.req_code ≡ get_descriptor
    → wvalue / 2 ^ 8 ≡ descriptor_type device
    → ep0_standard aligned wvalue d
      ≡ some (begin_read aligned (of_list (descriptor device)) (length (descriptor device)) d)
unfolding ep0_standard
get_descriptor-begin_read aligned true wvalue d code kind = ground arith
get_descriptor-begin_read aligned false wvalue d code kind = ground arith

setup-begin_read :
    (aligned device : Bool) (c : Control)
    → IsGetDescriptor device c
    → ep0_setup aligned 8 c
      ≡ data_stage (
          begin_read aligned (of_list (descriptor device)) (length (descriptor device)) (decoded c))
setup-begin_read aligned device c r =
    let standard : is_standard (decoded c) ≡ true = ground (arith, r.direction) in
    let kind : (c.buf 2 + c.buf 3 * 2 ^ 8) / 2 ^ 8 ≡ descriptor_type device =
      omega (arith, r.kind, r.index) in
    ep0_setup-standard aligned c standard
    ∙ ap (answered (decoded c)) (get_descriptor-begin_read aligned device _ (decoded c) r.code kind)

take-to_list : (m : ℕ) (l : List ℕ) → to_list (min m (length l)) (of_list l) ≡ take m l
take-to_list m [] =
    let e : min m 0 ≡ 0 = omega arith in ap (λ n. to_list n (of_list [])) e ∙ empty m
  where
    empty : (m : ℕ) → to_list 0 (of_list []) ≡ take m []
    empty zero = refl
    empty (suc m) = refl
take-to_list zero (x ∷ l) =
    let e : min 0 (suc (length l)) ≡ 0 = omega arith in ap (λ n. to_list n (of_list (x ∷ l))) e
take-to_list (suc m) (x ∷ l) =
    let e : min (suc m) (suc (length l)) ≡ suc (min m (length l)) = omega arith in
    ap (λ n. to_list n (of_list (x ∷ l))) e
    ∙ ap (λ t. x ∷ t)
        (to_list-cong (min m (length l)) (from (of_list (x ∷ l)) 1) (of_list l)
            (λ i lt. ap (of_list (x ∷ l)) (one_add i))
          ∙ take-to_list m l)
  where
    one_add : (i : ℕ) → 1 + i ≡ suc i
    one_add i = omega arith

-- The first ep0_len, up after the SETUP, and those behind it.
delivered-first :
    (aligned : Bool) (k len : ℕ) (source : Array) (c : Control)
    → Reads c (from source (ep0_len len))
    → c.t_len ≡ ep0_len len
    → to_list (ep0_len len) c.buf ≡ to_list (ep0_len len) source
    → c.req_len ≡ len - ep0_len len
    → delivered aligned k c ≡ to_list (min (k * 8) len) source
unfolding delivered
delivered-first aligned zero len source c r size bytes rest =
    let e : min (0 * 8) len ≡ 0 = omega arith in ap (λ m. to_list m source) (sym e)
delivered-first aligned (suc k) len source c r size bytes rest =
    let n = ep0_len len in
    ap₂ ◌++◌ (ap (λ m. to_list m c.buf) size ∙ bytes) (
      delivered-Reads aligned k c (from source n) r
      ∙ ap (λ m. to_list (min (k * 8) m) (from source n)) rest)
    ∙ sym (to_list-add n (min (k * 8) (len - n)) source)
    ∙ ap (λ m. to_list m source) (sym (min_split k len))

-- A host that asks for a descriptor with GET_DESCRIPTOR and any length has, after any number of IN
-- transactions, the first bytes of that descriptor and nothing behind them: eight a transaction as far
-- as the length asked for and the descriptor go, and no more bytes from there on.
pub delivered-descriptor :
    (aligned device : Bool) (c : Control) (k : ℕ)
    → IsGetDescriptor device c
    → delivered aligned k (ep0_setup aligned 8 c)
      ≡ take (min (k * 8) (c.buf 6 + c.buf 7 * 2 ^ 8)) (descriptor device)
delivered-descriptor aligned device c k r =
    let l = descriptor device in
    let source = of_list l in
    let d = begin_read aligned source (length l) (decoded c) in
    let asked = c.buf 6 + c.buf 7 * 2 ^ 8 in
    let inward : (c.buf 0 / 2 ^ 7 % 2 == 0) ≡ false = ground (arith, r.direction) in
    let sent : (if c.buf 0 / 2 ^ 7 % 2 == 0 then 0 else ep0_len d.req_len) ≡ ep0_len d.req_len =
      if_false (c.buf 0 / 2 ^ 7 % 2 == 0) 0 (ep0_len d.req_len) inward in
    let standard : is_standard d ≡ true = ground (arith, r.direction) in
    let cut : min (k * 8) d.req_len ≡ min (min (k * 8) asked) (length l) = ground arith in
    ap (delivered aligned k) (setup-begin_read aligned device c r)
    ∙ delivered-first aligned k d.req_len source (data_stage d)
        (record { request = r.code; standard = standard; pointer = refl }) sent
        (copied aligned (ep0_len d.req_len) c.buf source) (ap (λ m. d.req_len - m) sent)
    ∙ ap (λ m. to_list m source) cut
    ∙ take-to_list (min (k * 8) asked) l
