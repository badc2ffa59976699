-- ===== src/Usb/Copy.antt =====
-- src/usb.c: `usb_copy`, in 16-byte blocks, words and bytes (FW_FAST_COPY). `aligned` is the test on
-- the two addresses, which every whole block and word leaves as it was.
use open_gbflash_firmware.Common.{
  ℕ, zero, suc, ◌+◌, ◌*◌, ◌/◌, ◌%◌, ◌&&◌, leb, if◌then◌else◌, Array, from, copy_bytes, Bool,
}
use open_gbflash_firmware.Proto.Feed.{copy_words}

-- Four words a round.
unfoldable pub copy_blocks : ℕ → Array → ℕ → Array → Array
unfolding copy_words
copy_blocks zero dst at src = dst
copy_blocks (suc k) dst at src = copy_blocks k (copy_words 4 dst at src) (at + 16) (from src 16)

-- The word loop and the byte loop.
unfoldable pub usb_copy_tail : Bool → ℕ → Array → ℕ → Array → Array
unfolding copy_words copy_bytes
usb_copy_tail aligned n dst at src =
    if leb 4 n && aligned
    then copy_bytes (n % 4) (copy_words (n / 4) dst at src) (at + n / 4 * 4) (from src (n / 4 * 4))
    else copy_bytes n dst at src

unfoldable pub usb_copy : Bool → ℕ → Array → ℕ → Array → Array
unfolding copy_blocks usb_copy_tail
usb_copy aligned n dst at src =
    if leb 16 n && aligned
    then usb_copy_tail aligned (n % 16) (copy_blocks (n / 16) dst at src) (at + n / 16 * 16)
        (from src (n / 16 * 16))
    else usb_copy_tail aligned n dst at src
