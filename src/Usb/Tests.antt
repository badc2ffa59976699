-- ===== src/Usb/Tests.antt =====
-- src/usb.c: runs of the copy and of the receive ring.
use open_gbflash_firmware.Common.{
  ℕ, zero, suc, ◌≤◌, List, length, ap, some, ◌%◌, ◌≡◌, refl, arith, if◌then◌else◌, min, Array,
  of_list, copy_bytes, [], ◌∷◌, ◌++◌, true, false, inl,
}
use open_gbflash_firmware.Usb.Copy.{usb_copy}
use open_gbflash_firmware.Usb.Copying.{usb_copy-eq-copy_bytes}
use open_gbflash_firmware.Usb.Receive.{Receiver, rx_used, service_out, usb_rx}
use open_gbflash_firmware.Usb.Queue.{IsValid, queue, to_list}
use open_gbflash_firmware.Usb.Fifo.{service_out-queue}
use open_gbflash_firmware.Usb.Drain.{usb_rx-queue}
use open_gbflash_firmware.Usb.Send.{Lull, Sent, usb_tx}
use open_gbflash_firmware.Usb.Sending.{Follows}
use open_gbflash_firmware.Usb.Stopped.{AllAt, usb_tx-Returns}
use open_gbflash_firmware.Usb.Transmit.{Transmitter, Align, tx_direct_ready}
use open_gbflash_firmware.Usb.Produce.{tx_queue, tx_direct_publish}
use open_gbflash_firmware.Usb.Complete.{accepted, service_in, Line, in_transaction}
use open_gbflash_firmware.Usb.Owed.{left, region_bytes, owed, IsWhole, IsSound}
use open_gbflash_firmware.Usb.Delivery.{flat, IsOnward, in_transaction-IsOnward}
use open_gbflash_firmware.Usb.Drained.{IsRunning, transactions, transactions-drain}
use open_gbflash_firmware.Usb.Stale.{IsStale, service_in-IsStale}
use open_gbflash_firmware.Usb.Handing.{tx_queue-owed, tx_direct_publish-owed}

abbrev blank : Array
blank = λ _. 0

abbrev packet : Array
packet = of_list (7 ∷ 8 ∷ 9 ∷ [])

usb_copy-eq-copy_bytes_example : usb_copy true 23 blank 4 packet ≡ copy_bytes 23 blank 4 packet
usb_copy-eq-copy_bytes_example = usb_copy-eq-copy_bytes true 23 blank 4 packet

-- Two bytes are queued, and the next packet goes round the end of the ring.
abbrev ring : Receiver
ring = record { buf = λ i. i % 256; head = 511; tail = 509; credit_dirty = false; acking = true }

ring-IsValid : IsValid ring
unfolding rx_used
ring-IsValid = ground arith

service_out-queue_example :
    let t = service_out true false true ring 3 packet in
    IsValid t × (queue t ≡ queue ring ++ (if true then to_list 3 packet else []))
service_out-queue_example =
    service_out-queue true false true ring 3 packet ring-IsValid refl (omega arith)

usb_rx-queue_example :
    let t = usb_rx false true ring blank 1 in
    (t.count ≡ min 1 (rx_used ring))
    × (to_list t.count t.out ++ queue t.ring ≡ queue ring)
    × IsValid t.ring
usb_rx-queue_example = usb_rx-queue false true ring blank 1 ring-IsValid

-- A transmitter with one byte up and two in the staging buffer.
abbrev sender : Transmitter
sender = record {
  buf = λ i. i % 256;
  head = 5;
  tail = 3;
  armed = true;
  last_full = false;
  dir_nominated = false;
  dir_base = λ i. i % 7;
  dir_avail = 0;
  dir_pos = 0;
  dir_total = 0;
  tog_pred = 0x80;
  tog_valid = false;
  pipe_armed = false;
  pipe_engaged = false;
  pipe_outstanding = 0;
  stage_dir = blank;
  stage_len = blank;
  stage_head = 0;
  stage_tail = 0;
  dir_sent = 0;
  ep2_buf = λ i. i % 5;
  t_len = 1;
  acking = true;
  tog = false;
  dbuf = true;
  pkt_in = 64;
}

abbrev al : Align
al = λ _ _ _. true

abbrev line : Line
line = record { tx = sender; wire = [] }

sender-IsSound : IsSound sender
sender-IsSound = record {
  pkt = refl;
  head_le = omega arith;
  tail_le = omega arith;
  pos_le = omega arith;
  avail_lt = omega arith;
  ready = unfold tx_direct_ready in refl;
  shown = refl;
  pipe = inl refl;
}

in_transaction-IsOnward_example : IsOnward line (in_transaction al line)
in_transaction-IsOnward_example =
    in_transaction-IsOnward al line sender-IsSound (IsWhole.packets refl)

transactions-drain_example :
    ((transactions 12 al line).tx.armed ≡ false)
    × (flat (transactions 12 al line).wire ≡ flat line.wire ++ owed sender)
transactions-drain_example =
    transactions-drain 12 al line sender-IsSound (IsWhole.packets refl)
      (IsRunning.packet_up refl (omega arith)) (omega arith)

tx_queue-owed_example :
    ((tx_queue al sender 2 packet).0 ≡ 2)
    × (IsSound ((tx_queue al sender 2 packet).1)
        × (IsWhole ((tx_queue al sender 2 packet).1)
            × (owed ((tx_queue al sender 2 packet).1)
                ≡ owed sender ++ to_list ((tx_queue al sender 2 packet).0) packet)))
tx_queue-owed_example = tx_queue-owed al sender 2 packet sender-IsSound refl

-- A region of 192 bytes, of which 96 are published and 64 are up.
abbrev behind : Transmitter
behind = record sender {
  head = 0;
  tail = 0;
  dir_nominated = true;
  dir_avail = 96;
  dir_pos = 64;
  dir_total = 192;
  t_len = 64;
}

behind-IsSound : IsSound behind
behind-IsSound = record {
  pkt = refl;
  head_le = omega arith;
  tail_le = omega arith;
  pos_le = omega arith;
  avail_lt = omega arith;
  ready = unfold tx_direct_ready in refl;
  shown = refl;
  pipe = inl refl;
}

service_in-IsStale_example : IsStale behind (service_in al (accepted behind))
service_in-IsStale_example =
    service_in-IsStale al behind behind-IsSound refl refl refl (λ e. absurd (omega arith))
      (omega arith) (λ e. absurd (omega arith))

tx_direct_publish-owed_example :
    let t = tx_direct_publish al behind 128 in
    IsSound t × (IsWhole t × (owed t ≡ owed behind ++ region_bytes behind (left behind) 32))
tx_direct_publish-owed_example =
    tx_direct_publish-owed al behind 128 behind-IsSound refl refl (omega arith) (omega arith)
      (inl refl)

-- Polls that find the host away and the clock at 7 ms.
unfoldable lulls : ℕ → List Lull
lulls zero = []
lulls (suc k) = record { taken = 0; now = 7 } ∷ lulls k

length-lulls : (k : ℕ) → length (lulls k) ≡ k
unfolding lulls
length-lulls zero = refl
length-lulls (suc k) = ap suc (length-lulls k)

lulls-AllAt : (k : ℕ) → AllAt 7 (lulls k)
unfolding lulls
lulls-AllAt zero = record {}
lulls-AllAt (suc k) = (refl, lulls-AllAt k)

usb_tx-Returns_example :
    (s : Sent) × (usb_tx (lulls 65539) al line 2 packet ≡ some s)
    × (s.count ≤ 2)
    × Follows line (to_list s.count packet) s.line
usb_tx-Returns_example =
    usb_tx-Returns (lulls 65539) al line 2 packet 7
      (record {
        sound = sender-IsSound;
        whole = IsWhole.packets refl;
        spent = record { level = refl; small = omega arith; size = refl };
      })
      (lulls-AllAt 65539) (omega (arith, length-lulls 65539))
