-- ===== src/Proto/Stream.antt =====
-- src/proto.c: how the replies of consecutive `fw_proto_feed` calls add up.
use open_gbflash_firmware.Common.{ℕ, ◌+◌, ◌≡◌, arith, Array, List, [], ◌∷◌, ◌++◌}
use open_gbflash_firmware.Proto.State.{FwState, Parser}
use open_gbflash_firmware.Proto.Feed.{Fed, waiting, feed, feed_all}

pub feed_all-one :
    (s : FwState) (p : Parser) (x : ℕ) (o : Array) → feed_all s p o (x ∷ []) ≡ feed s p x o
unfolding feed_all
feed_all-one s p x o = ground arith

-- A byte that is only taken in is no reply: the rest decides.
pub feed_all-waiting :
    (s s' : FwState) (p p' : Parser) (x : ℕ) (xs : List ℕ) (o o' : Array)
    → feed s p x o ≡ waiting s' p' o'
    → feed_all s p o (x ∷ xs) ≡ feed_all s' p' o' xs
unfolding feed_all
feed_all-waiting s s' p p' x xs o o' e = rw e (ground arith)

-- Two streams, one after the other.
abbrev pub followed : Fed → List ℕ → Fed
followed r ys =
    let rest = feed_all r.st r.parser r.out ys in
    record { st = rest.st; parser = rest.parser; out = rest.out; count = r.count + rest.count }

pub followed-nil : (r : Fed) → followed r [] ≡ r
unfolding feed_all
followed-nil r = ground arith

pub followed-waiting :
    (s : FwState) (p : Parser) (o : Array) (ys : List ℕ)
    → followed (waiting s p o) ys ≡ feed_all s p o ys
followed-waiting s p o ys = ground arith

pub feed_all-append :
    (xs ys : List ℕ) (s : FwState) (p : Parser) (o : Array)
    → feed_all s p o (xs ++ ys) ≡ followed (feed_all s p o xs) ys
unfolding feed_all
feed_all-append [] ys s p o = ground arith
feed_all-append (x ∷ xs) ys s p o =
    let r = feed s p x o in rw (feed_all-append xs ys r.st r.parser r.out) (ground arith)
