-- ===== src/Glue/Prompt.antt =====
-- src/lk_glue.c: `fw_lk_conn_recv` from a host that sends all that is asked for in time.
use mathlib.Core.List.{append_assoc}
use open_gbflash_firmware.Common.{
  ℕ, suc, ◌+◌, ◌-◌, ◌^◌, ◌≤◌, ◌<◌, ◌≡◌, refl, sym, subst, ◌∙◌, ap, arith, ◌==◌, u32, if_true,
  if_false, if◌then◌else◌, List, [], ◌++◌, length, take, drop, Option, some, false, Bool-cases, inl,
  inr,
}
use open_gbflash_firmware.Common.Lists.{
  length-drop, length-take, length-append, take-drop, take_all, drop_all, drop_none, take_none,
  drop_more, drop_taken, split_front,
}
use open_gbflash_firmware.Proto.State.{fw_parser_timeout_ms}
use open_gbflash_firmware.Glue.Seam.{Seam}
use open_gbflash_firmware.Glue.Link.{Received, conn_recv, wait_bytes, received_after}
use open_gbflash_firmware.Glue.Stream.{arrivals, stream}
use open_gbflash_firmware.Glue.Arriving.{
  InWindow, AllInWindow, Supplied, Supplied-less, Came, wait_bytes-Came,
}

-- What is left of a command that the host sends in time: `more` bytes are still wanted of it, and
-- what the tail in hand has given is counted. Nothing but the stream's ends and the clock has
-- changed since the state `s`.
pub record InTime (base calls more : ℕ) (tail all : List ℕ) (s t : Seam) : Type 0 where
  pub bytes : stream t ≡ all
  pub supplied : Supplied calls (more - length t.pend - length t.incoming) t.rounds
  pub clock : InWindow base t.now
  pub clocks : AllInWindow base t.rounds
  pub push : t.push ≡ []
  pub used : t.pend ≡ drop t.pend_used tail
  pub short : t.recv_short ≡ false
  pub stall : t.send_stall ≡ false
  pub sent : t.sent ≡ s.sent
  pub st : t.st ≡ s.st
  pub vsel : t.vsel ≡ s.vsel

-- What is taken off the pending bytes alone.
abbrev from_pend : ℕ → Seam → Seam
from_pend want t = record t {
  push = [];
  pend = drop want t.pend;
  pend_used = t.pend_used + length (take want t.pend);
}

conn_recv-pend :
    (want : ℕ) (t : Seam)
    → t.push ≡ []
    → conn_recv want t ≡ (
        let a = take want t.pend in
        if want - length a == 0
        then some (record { bytes = a; seam = from_pend want t })
        else received_after a (
            wait_bytes t.rounds
              (want - length a)
              (u32 (t.now + fw_parser_timeout_ms))
              (from_pend want t)))
unfolding conn_recv
conn_recv-pend want t e =
    let z : want - 0 ≡ want = omega arith in rw (e, take_none want, drop_none want, z) refl

pend_used-next :
    (want : ℕ) (tail : List ℕ) (t : Seam)
    → t.pend ≡ drop t.pend_used tail
    → (from_pend want t).pend ≡ drop (from_pend want t).pend_used tail
pend_used-next want tail t e =
    drop_taken want t.pend
    ∙ ap (λ l. drop (length (take want t.pend)) l) e
    ∙ drop_more (length (take want t.pend)) t.pend_used tail

module _ (base calls more : ℕ) (tail xs rest : List ℕ) (s t : Seam)
    (h : InTime base (suc calls) more tail (xs ++ rest) s t) where
  -- The stream, with nothing pushed back.
  unpushed : t.pend ++ (t.incoming ++ arrivals t.rounds) ≡ xs ++ rest
  unpushed = ap (λ l. l ++ (t.pend ++ (t.incoming ++ arrivals t.rounds))) (sym h.push) ∙ h.bytes

  -- The pending bytes are enough.
  at_hand :
      length (take (length xs) t.pend) ≡ length xs
      → (take (length xs) t.pend ≡ xs)
        × InTime base calls (more - length xs) tail rest s (from_pend (length xs) t)
  at_hand n =
      let want : ℕ = length xs in
      let a = take want t.pend in
      let g = from_pend want t in
      let la = length-take want t.pend in
      let ld = length-drop want t.pend in
      let k = split_front a (g.pend ++ (t.incoming ++ arrivals t.rounds)) xs rest n (
        sym (append_assoc a g.pend _)
        ∙ ap (λ l. l ++ (t.incoming ++ arrivals t.rounds)) (take-drop want t.pend)
        ∙ unpushed) in
      let m : more - length t.pend - length t.incoming
          ≡ more - want - length g.pend - length t.incoming =
        omega (arith, la, ld, n) in
      (
        k.0,
        record {
          bytes = k.1;
          supplied =
              rw m at (
                Supplied-less t.rounds calls (more - length t.pend - length t.incoming) h.supplied);
          clock = h.clock;
          clocks = h.clocks;
          push = refl;
          used = pend_used-next want tail t h.used;
          short = h.short;
          stall = h.stall;
          sent = h.sent;
          st = h.st;
          vsel = h.vsel;
        },
      )

  -- The pending bytes are not enough, and the wait has brought the others.
  awaited :
      (m : Option Received)
      → length (take (length xs) t.pend) < length xs
      → Came base calls
          (more - length (take (length xs) t.pend) - (length xs - length (take (length xs) t.pend)))
          (t.incoming ++ arrivals t.rounds)
          (length xs - length (take (length xs) t.pend))
          (from_pend (length xs) t)
          m
      → (u : Seam) × (received_after (take (length xs) t.pend) m
          ≡ some (record { bytes = xs; seam = u }))
        × InTime base calls (more - length xs) tail rest s u
  awaited m lt c =
      let want : ℕ = length xs in
      let a = take want t.pend in
      let g = from_pend want t in
      let la = length-take want t.pend in
      let u : Seam = record g { incoming = c.incoming; rounds = c.left; now = c.now } in
      let whole : a ≡ t.pend = take_all want t.pend (omega (arith, la)) in
      let gone : g.pend ≡ [] = drop_all want t.pend (omega (arith, la)) in
      let full = c.full in
      let k =
        split_front (a ++ c.bytes) (c.incoming ++ arrivals c.left) xs rest
          (omega (arith, length-append a c.bytes, full))
          (append_assoc a c.bytes _
            ∙ ap (λ l. a ++ l) c.kept
            ∙ ap (λ l. l ++ (t.incoming ++ arrivals t.rounds)) whole
            ∙ unpushed) in
      let m : more - length a - (want - length a) - length c.incoming
          ≡ more - want - 0 - length c.incoming =
        omega (arith, lt) in
      (
        u,
        ap (received_after a) c.result ∙ ap (λ l. some (record { bytes = l; seam = u })) (k.0),
        record {
          bytes = ap (λ l. l ++ (c.incoming ++ arrivals c.left)) gone ∙ k.1;
          supplied =
              subst
                (λ (l : List ℕ). Supplied calls (more - want - length l - length c.incoming) c.left)
                (sym gone) (subst (λ k. Supplied calls k c.left) m c.supplied);
          clock = c.clock;
          clocks = c.clocks;
          push = refl;
          used = pend_used-next want tail t h.used;
          short = h.short;
          stall = h.stall;
          sent = h.sent;
          st = h.st;
          vsel = h.vsel;
        },
      )

  -- A receive of bytes that come in time gives those bytes, and leaves the others to come in time.
  pub conn_recv-InTime :
      base < 2 ^ 32
      → length xs ≤ more
      → (u : Seam) × (conn_recv (length xs) t ≡ some (record { bytes = xs; seam = u }))
        × InTime base calls (more - length xs) tail rest s u
  conn_recv-InTime b le =
      let want : ℕ = length xs in
      let a = take want t.pend in
      let la = length-take want t.pend in
      let g = from_pend want t in
      let e = conn_recv-pend want t h.push in
      elim (Bool-cases (want - length a == 0)) [
        | inl z ↦
            let k = at_hand (ground (arith, la)) in
            (g, e ∙ if_true _ _ _ z ∙ ap (λ l. some (record { bytes = l; seam = g })) (k.0), k.1)
        | inr z ↦
            let lt : length a < want = ground arith in
            let n : length t.pend ≡ length a = omega (arith, la) in
            let k = awaited _ lt (
              wait_bytes-Came t.rounds base calls (more - length a) (want - length a) t.now g b
                h.clock h.clocks (omega arith) (omega arith)
                (subst (λ k. Supplied (suc calls) (more - k - length t.incoming) t.rounds) n
                  h.supplied)) in
            (k.0, e ∙ if_false _ _ _ z ∙ k.1, k.2)
      ]
