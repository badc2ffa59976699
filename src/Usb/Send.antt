-- ===== src/Usb/Send.antt =====
-- src/usb.c: `bl_usb_tx`, with FW_FAST_CLOCK on. A round of its loop that finds the staging buffer full
-- polls; what the wire does meanwhile is a number of IN transactions, after which the clock is read.
use open_gbflash_firmware.Common.{
  ℕ, ◌+◌, ◌-◌, ◌==◌, ltb, leb, if◌then◌else◌, sub32, List, [], ◌∷◌, Array, from, Option, some, none,
}
use open_gbflash_firmware.Usb.Transmit.{Align, tx_buf_size}
use open_gbflash_firmware.Usb.Produce.{tx_queue}
use open_gbflash_firmware.Usb.Complete.{Line}
use open_gbflash_firmware.Usb.Drained.{transactions}

pub record Lull : Type 0 where
  pub taken : ℕ
  pub now : ℕ

-- What the call returns, and the wire with the transmitter behind it.
pub record Sent : Type 0 where
  pub count : ℕ
  pub line : Line

abbrev pub tx_timeout_ms : ℕ
tx_timeout_ms = 250

abbrev pub tx_dead_clock_polls : ℕ
tx_dead_clock_polls = 65536

-- The clock at the first stall.
abbrev pub started : Option ℕ → ℕ → ℕ
started none now = now
started (some start) now = start

abbrev pub queued_line : Align → Line → ℕ → Array → Line
queued_line al l n src = record l { tx = (tx_queue al l.tx n src).1 }

-- The loop with `sent` bytes of `n` taken. `none`: the lulls run out while it still waits.
unfoldable pub tx_loop : List Lull → Align → Option ℕ → ℕ → Line → ℕ → ℕ → Array → Option Sent
unfolding tx_queue transactions
tx_loop [] al start frozen l sent n src =
    let more = (tx_queue al l.tx (n - sent) (from src sent)).0 in
    if leb n (sent + more)
    then some (record { count = sent + more; line = queued_line al l (n - sent) (from src sent) })
    else none
tx_loop (t ∷ ts) al start frozen l sent n src =
    let more = (tx_queue al l.tx (n - sent) (from src sent)).0 in
    let q = queued_line al l (n - sent) (from src sent) in
    let m = transactions t.taken al q in
    let since = started start t.now in
    let stop = some (record { count = sent + more; line = m }) in
    let roomy = tx_loop ts al start frozen m (sent + more) n src in
    let stuck = tx_loop ts al (some since) (frozen + 1) m (sent + more) n src in
    let waiting = tx_loop ts al (some since) frozen m (sent + more) n src in
    if leb n (sent + more)
    then some (record { count = sent + more; line = q })
    else if ltb m.tx.head tx_buf_size
    then roomy
    else if leb tx_timeout_ms (sub32 t.now since)
    then stop
    else if t.now == since
    then if leb tx_dead_clock_polls (frozen + 1) then stop else stuck
    else waiting

unfoldable pub usb_tx : List Lull → Align → Line → ℕ → Array → Option Sent
unfolding tx_loop
usb_tx ts al l n src =
    if n == 0 then some (record { count = 0; line = l }) else tx_loop ts al none 0 l 0 n src
