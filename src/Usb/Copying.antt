-- ===== src/Usb/Copying.antt =====
-- src/usb.c: `usb_copy` copies bytes.
use open_gbflash_firmware.Common.{
  ℕ, zero, suc, ◌+◌, ◌*◌, ◌/◌, ◌%◌, ◌&&◌, leb, ◌≡◌, refl, sym, ◌∙◌, ap, arith, Array, from,
  copy_bytes, Bool, true, false, Bool-cases, inl, inr,
}
use open_gbflash_firmware.Proto.Feed.{copy_words}
use open_gbflash_firmware.Proto.Copying.{copy_words-eq-copy_bytes, copy_bytes-add}
use open_gbflash_firmware.Usb.Copy.{copy_blocks, usb_copy_tail, usb_copy}

-- A copy in two parts is one copy.
rejoin :
    (a b n : ℕ) (dst : Array) (at : ℕ) (src : Array)
    → n ≡ a + b
    → copy_bytes b (copy_bytes a dst at src) (at + a) (from src a) ≡ copy_bytes n dst at src
rejoin a b n dst at src e =
    sym (copy_bytes-add a b dst at src) ∙ ap (λ k. copy_bytes k dst at src) (sym e)

copy_blocks-step :
    (k : ℕ) (dst : Array) (at : ℕ) (src : Array)
    → copy_blocks (suc k) dst at src
      ≡ copy_blocks k (copy_words 4 dst at src) (at + 16) (from src 16)
unfolding copy_blocks
copy_blocks-step k dst at src = refl

copy_blocks-eq-copy_bytes :
    (k : ℕ) (dst : Array) (at : ℕ) (src : Array)
    → copy_blocks k dst at src ≡ copy_bytes (k * 16) dst at src
copy_blocks-eq-copy_bytes zero dst at src = unfold copy_blocks copy_bytes in refl
copy_blocks-eq-copy_bytes (suc k) dst at src =
    copy_blocks-step k dst at src
    ∙ copy_blocks-eq-copy_bytes k (copy_words 4 dst at src) (at + 16) (from src 16)
    ∙ ap (λ d. copy_bytes (k * 16) d (at + 16) (from src 16))
        (copy_words-eq-copy_bytes 4 dst at src)
    ∙ rejoin 16 (k * 16) (suc k * 16) dst at src (omega arith)

usb_copy_tail-eq-copy_bytes :
    (aligned : Bool) (n : ℕ) (dst : Array) (at : ℕ) (src : Array)
    → usb_copy_tail aligned n dst at src ≡ copy_bytes n dst at src
usb_copy_tail-eq-copy_bytes aligned n dst at src = elim (Bool-cases (leb 4 n && aligned)) [
  | inl e ↦
      unfold usb_copy_tail in
      rw e (
        ap (λ d. copy_bytes (n % 4) d (at + n / 4 * 4) (from src (n / 4 * 4)))
          (copy_words-eq-copy_bytes (n / 4) dst at src)
        ∙ rejoin (n / 4 * 4) (n % 4) n dst at src (omega arith))
  | inr e ↦ unfold usb_copy_tail in rw e refl
]

-- The block-wise copy leaves exactly the bytes of the byte loop, for every length and alignment.
pub usb_copy-eq-copy_bytes :
    (aligned : Bool) (n : ℕ) (dst : Array) (at : ℕ) (src : Array)
    → usb_copy aligned n dst at src ≡ copy_bytes n dst at src
usb_copy-eq-copy_bytes aligned n dst at src = elim (Bool-cases (leb 16 n && aligned)) [
  | inl e ↦
      big e
      ∙ usb_copy_tail-eq-copy_bytes aligned (n % 16) (copy_blocks (n / 16) dst at src)
          (at + n / 16 * 16) (from src (n / 16 * 16))
      ∙ ap (λ d. copy_bytes (n % 16) d (at + n / 16 * 16) (from src (n / 16 * 16)))
          (copy_blocks-eq-copy_bytes (n / 16) dst at src)
      ∙ rejoin (n / 16 * 16) (n % 16) n dst at src (omega arith)
  | inr e ↦ small e ∙ usb_copy_tail-eq-copy_bytes aligned n dst at src
]
  where
    big :
        (leb 16 n && aligned) ≡ true
        → usb_copy aligned n dst at src
          ≡ usb_copy_tail aligned
              (n % 16)
              (copy_blocks (n / 16) dst at src)
              (at + n / 16 * 16)
              (from src (n / 16 * 16))
    big e = unfold usb_copy in rw e refl

    small :
        (leb 16 n && aligned) ≡ false
        → usb_copy aligned n dst at src ≡ usb_copy_tail aligned n dst at src
    small e = unfold usb_copy in rw e refl
