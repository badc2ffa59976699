-- ===== src/Proto/Progress.antt =====
-- src/proto.c: the two queries by which fw_main follows an open payload.
use open_gbflash_firmware.Common.{ℕ, ◌+◌, ◌≡◌, ◌≢◌, ◌==◌, ◌&&◌, not, arith, if◌then◌else◌, Array}
use open_gbflash_firmware.Proto.State.{FwState, Parser, parser_reset}
use open_gbflash_firmware.Proto.Feed.{
  feed, feed_payload, close_payload, idle, payload_remaining, payload_filled,
}
use open_gbflash_firmware.Proto.Parsing.{IsValid}

-- With a payload open, one more byte lowers by one what `fw_proto_payload_remaining` reports, down
-- to 0, which the last byte gives; and until the last one it raises by one what
-- `fw_proto_payload_filled` reports, for a FLASH_PROGRAM that fits the buffer.
pub payload_remaining-feed :
    (s : FwState) (p : Parser) (b : ℕ) (o : Array)
    → IsValid p
    → p.pay_need ≢ 0
    → let q = (feed s p b o).parser in
      (payload_remaining p ≡ payload_remaining q + 1)
      × (idle q ≡ (payload_remaining p == 1))
      × (payload_filled q ≡ (
          if p.op == 0xD3 && p.pay_over == 0 && not (payload_remaining p == 1)
          then payload_filled p + 1
          else 0))
unfolding feed feed_payload close_payload payload_remaining payload_filled idle parser_reset
payload_remaining-feed s p b o v h = ground (arith, v)
