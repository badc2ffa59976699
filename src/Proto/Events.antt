-- ===== src/Proto/Events.antt =====
-- src/proto.c: the parser under every sequence of calls that fw_main makes, as a step relation.
use open_gbflash_firmware.Common.{ℕ, ◌≡◌, arith, Array, Bool, List, [], ◌∷◌, length, of_list, take}
use open_gbflash_firmware.Proto.State.{FwState, Parser, init_state, init_parser}
use open_gbflash_firmware.Proto.Feed.{feed, feed_all, feed_bulk, tick, link_reset}
use open_gbflash_firmware.Proto.Clamp.{IsClamped}
use open_gbflash_firmware.Proto.Parsing.{IsValid, Holds, feed-Holds, reset-IsValid}
use open_gbflash_firmware.Proto.Bulk.{feed_bulk-eq-feed_all}
use open_gbflash_firmware.Proto.Within.{
  InBuffers, init-InBuffers, feed-InBuffers, feed_all-InBuffers, tick-InBuffers, reset-InBuffers,
}

-- One call. Between calls fw_main serves the requests in the state, which it may change in any way
-- that keeps the transfer size clamped; it does not reach the parser.
pub data Step : FwState → Parser → FwState → Parser → Type 0 where
  byte :
      {s t : FwState} {p q : Parser} (b : ℕ) (o : Array)
      → t ≡ (feed s p b o).st
      → q ≡ (feed s p b o).parser
      → Step s p t q
  bulk :
      {s t : FwState} {p q : Parser} (aligned : Bool) (xs : List ℕ) (o : Array)
      → t ≡ (feed_bulk aligned s p (of_list xs) (length xs) o).0.st
      → q ≡ (feed_bulk aligned s p (of_list xs) (length xs) o).0.parser
      → Step s p t q
  clock : {s t : FwState} {p q : Parser} (now : ℕ) → t ≡ s → q ≡ tick p now → Step s p t q
  link : {s t : FwState} {p q : Parser} → t ≡ s → q ≡ link_reset p → Step s p t q
  served : {s t : FwState} {p q : Parser} → IsClamped t → q ≡ p → Step s p t q

-- From `fw_proto_init` on.
pub data Reach : FwState → Parser → Type 0 where
  start : {s : FwState} {p : Parser} → s ≡ init_state → p ≡ init_parser → Reach s p
  next : {s t : FwState} {p q : Parser} → Reach s p → Step s p t q → Reach t q

tick-IsValid : (p : Parser) (now : ℕ) → IsValid p → IsValid (tick p now)
unfolding tick
tick-IsValid p now v = ground arith

feed_all-Holds :
    (xs : List ℕ) (s : FwState) (p : Parser) (o : Array)
    → Holds s p
    → Holds (feed_all s p o xs).st (feed_all s p o xs).parser
unfolding feed_all
feed_all-Holds [] s p o h = h
feed_all-Holds (x ∷ xs) s p o h =
    let r = feed s p x o in feed_all-Holds xs r.st r.parser r.out (feed-Holds s p x o h)

-- The parser's invariant, the transfer-size clamp, and nothing written beyond the two buffers.
abbrev pub IsContained : FwState → Parser → Type 0
IsContained s p = Holds s p × InBuffers p

feed_bulk-IsContained :
    (aligned : Bool) (s : FwState) (p : Parser) (xs : List ℕ) (o : Array)
    → IsContained s p
    → let r = (feed_bulk aligned s p (of_list xs) (length xs) o).0 in IsContained r.st r.parser
feed_bulk-IsContained aligned s p xs o h =
    let n = (feed_bulk aligned s p (of_list xs) (length xs) o).1 in
    rw (feed_bulk-eq-feed_all aligned s p xs o h.0.0).0
      (feed_all-Holds (take n xs) s p o h.0, feed_all-InBuffers (take n xs) s p o h.1)

Step-IsContained : {s t : FwState} {p q : Parser} → Step s p t q → IsContained s p → IsContained t q
Step-IsContained {s} {t} {p} {q} (byte b o e f) h =
    rw (e, f) (feed-Holds s p b o h.0, feed-InBuffers s p b o h.1)
Step-IsContained {s} {t} {p} {q} (bulk aligned xs o e f) h =
    rw (e, f) (feed_bulk-IsContained aligned s p xs o h)
Step-IsContained {s} {t} {p} {q} (clock now e f) h =
    rw (e, f) ((tick-IsValid p now h.0.0, h.0.1), tick-InBuffers p now h.1)
Step-IsContained {s} {t} {p} {q} (link e f) h =
    rw (e, f) (unfold link_reset in ((reset-IsValid p, h.0.1), reset-InBuffers p h.1))
Step-IsContained {s} {t} {p} {q} (served c f) h = rw f ((h.0.0, c), h.1)

-- Whatever the host sends and however the calls are mixed, with any service of the requests that
-- keeps the transfer size clamped: the parser's invariant holds between two calls, nothing has been
-- written beyond the ends of arg[] and pay[], and the transfer size stays within FW_MAX_TRANSFER.
pub Reach-IsContained : {s : FwState} {p : Parser} → Reach s p → IsContained s p
Reach-IsContained (start e f) = rw (e, f) ((unfold init_state in ground arith), init-InBuffers)
Reach-IsContained (next r st) = Step-IsContained st (Reach-IsContained r)
