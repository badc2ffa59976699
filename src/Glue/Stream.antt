-- ===== src/Glue/Stream.antt =====
-- src/lk_glue.c: what the LK core receives is what came in, in order.
use mathlib.Core.List.{append_assoc, append-nil}
use open_gbflash_firmware.Common.{
  ℕ, zero, suc, ◌+◌, ◌-◌, ◌≤◌, ◌<◌, ◌≡◌, ◌⊎◌, refl, sym, ◌∙◌, ap, arith, ◌==◌, ltb, if◌then◌else◌,
  u32, List, [], ◌∷◌, ◌++◌, length, take, drop, some, true, Bool-cases, inl, inr,
}
use open_gbflash_firmware.Proto.State.{fw_parser_timeout_ms}
use open_gbflash_firmware.Glue.Seam.{Seam, Round}
use open_gbflash_firmware.Glue.Link.{
  Received, conn_recv, wait_bytes, buffered, replicate, polled, fw_lk_recv_fill,
}
use open_gbflash_firmware.Common.Lists.{
  take-drop, length-take, length-append, take_all, drop_all, take_short,
}
use open_gbflash_firmware.Glue.Waiting.{Turn, FallsSilent, wait_bytes-Turn, received_after-inv}

abbrev pub arrivals : List Round → List ℕ
arrivals [] = []
arrivals (r ∷ rs) = r.arrived ++ arrivals rs

-- Every byte that the seam has not handed on, in the order of arrival.
abbrev pub stream : Seam → List ℕ
stream s = s.push ++ (s.pend ++ (s.incoming ++ arrivals s.rounds))

pub length-replicate : (n v : ℕ) → length (replicate n v) ≡ n
unfolding replicate
length-replicate zero v = refl
length-replicate (suc n) v = ap suc (length-replicate n v)

-- A receive of `want` bytes that starts to wait at `since`: `got` of them off the front of the
-- stream, the others fill bytes, with the mark that says so, and only if the host fell silent.
pub record Delivers (since : ℕ) (s : Seam) (want : ℕ) (r : Received) : Type 0 where
  pub got : List ℕ
  pub bytes : r.bytes ≡ got ++ replicate (want - length got) fw_lk_recv_fill
  pub kept : got ++ stream r.seam ≡ stream s
  pub fits : length got ≤ want
  pub no_push : s.push ≡ [] → r.seam.push ≡ []
  pub short : r.seam.recv_short ≡ (if length got == want then s.recv_short else true)
  pub silent : (length got ≡ want) ⊎ FallsSilent since s.incoming s.rounds r.seam.rounds

pub length-Delivers :
    (since : ℕ) (s : Seam) (want : ℕ) (r : Received)
    → Delivers since s want r
    → length r.bytes ≡ want
length-Delivers since s want r d =
    ap length d.bytes
    ∙ omega (
      arith,
      length-append d.got (replicate (want - length d.got) fw_lk_recv_fill),
      length-replicate (want - length d.got) fw_lk_recv_fill,
      d.fits,
    )

-- More bytes in front.
after-Delivers :
    (since since' : ℕ) (s t : Seam) (want : ℕ) (xs : List ℕ) (r : Received)
    → length xs ≤ want
    → xs ++ stream t ≡ stream s
    → t.recv_short ≡ s.recv_short
    → (s.push ≡ [] → t.push ≡ [])
    → (FallsSilent since' t.incoming t.rounds r.seam.rounds
        → FallsSilent since s.incoming s.rounds r.seam.rounds)
    → Delivers since' t (want - length xs) r
    → Delivers since s want (record { bytes = xs ++ r.bytes; seam = r.seam })
after-Delivers since since' s t want xs r le e same np fs d =
    let n = length-append xs d.got in
    let f = d.fits in
    record {
      got = xs ++ d.got;
      bytes =
          ap (λ l. xs ++ l) d.bytes
          ∙ sym
              (append_assoc xs d.got (replicate (want - length xs - length d.got) fw_lk_recv_fill))
          ∙ ap (λ k. (xs ++ d.got) ++ replicate k fw_lk_recv_fill) (omega (arith, n));
      kept = append_assoc xs d.got (stream r.seam) ∙ ap (λ l. xs ++ l) d.kept ∙ e;
      fits = omega (arith, n, f);
      no_push = λ k. d.no_push (np k);
      short = ground (arith, d.short, n);
      silent = elim d.silent [ inl k ↦ inl (omega (arith, n)) | inr k ↦ inr (fs k) ];
    }

-- Both buffers are used up, and `rs` are the turns to come.
pub record IsParked (s : Seam) (rs : List Round) : Type 0 where
  pub push : s.push ≡ []
  pub pend : s.pend ≡ []
  pub rounds : s.rounds ≡ rs

parked_stream : (s : Seam) (rs : List Round) → IsParked s rs → stream s ≡ s.incoming ++ arrivals rs
parked_stream s rs h = rw (h.push, h.pend, h.rounds)

polled-stream :
    (s : Seam) (x : Round) (rs : List Round)
    → IsParked s (x ∷ rs)
    → (polled s x rs).incoming ++ arrivals rs ≡ stream s
polled-stream s x rs h =
    append_assoc s.incoming x.arrived (arrivals rs) ∙ sym (parked_stream s (x ∷ rs) h)

Turn-Delivers :
    (x : Round) (rs : List Round) (need since : ℕ) (s : Seam) (r : Received)
    → 0 < need
    → IsParked s (x ∷ rs)
    → ((need' since' : ℕ) (t : Seam) (u : Received)
        → 0 < need'
        → IsParked t rs
        → wait_bytes rs need' (u32 (since' + fw_parser_timeout_ms)) t ≡ some u
        → Delivers since' t need' u)
    → Turn x rs need (u32 (since + fw_parser_timeout_ms)) s r
    → Delivers since s need r
Turn-Delivers x rs need since s r pos h ih (Turn.gave_up i y e) =
    let p : Seam = record (polled s x rs) { recv_short = true } in
    rw e (record {
      got = [];
      bytes = ap (λ k. replicate k fw_lk_recv_fill) (omega arith);
      kept =
          parked_stream p rs (record { push = h.push; pend = h.pend; rounds = refl })
          ∙ polled-stream s x rs h;
      fits = omega arith;
      no_push = λ k. h.push;
      short = ground arith;
      silent = inr (rw h.rounds (FallsSilent.lapse i y refl));
    })
Turn-Delivers x rs need since s r pos h ih (Turn.nothing i y w) =
    let p = polled s x rs in
    let kp : IsParked p rs = record { push = h.push; pend = h.pend; rounds = refl } in
    let d = ih need since p r pos kp w in
    record {
      got = d.got;
      bytes = d.bytes;
      kept = d.kept ∙ parked_stream p rs kp ∙ polled-stream s x rs h;
      fits = d.fits;
      no_push = d.no_push;
      short = d.short;
      silent = elim d.silent [
        | inl k ↦ inl k
        | inr k ↦ inr (rw h.rounds (FallsSilent.quiet i y (rw i at k)))
      ];
    }
Turn-Delivers x rs need since s r pos h ih (Turn.all_there le e) =
    let p = polled s x rs in
    let q : Seam = record p { incoming = drop need p.incoming } in
    let n : length (take need p.incoming) ≡ need = omega (arith, length-take need p.incoming) in
    rw e (record {
      got = take need p.incoming;
      bytes = rw n (
          let z : need - need ≡ 0 = omega arith in
          rw z (unfold replicate in sym (append-nil (take need p.incoming))));
      kept =
          ap (λ l. take need p.incoming ++ l)
            (parked_stream q rs (record { push = h.push; pend = h.pend; rounds = refl }))
          ∙ sym (append_assoc (take need p.incoming) (drop need p.incoming) (arrivals rs))
          ∙ ap (λ l. l ++ arrivals rs) (take-drop need p.incoming)
          ∙ polled-stream s x rs h;
      fits = omega (arith, n);
      no_push = λ k. h.push;
      short = ground (arith, n);
      silent = inl n;
    })
Turn-Delivers x rs need since s r pos h ih (Turn.some_there u ne lt w e) =
    let p = polled s x rs in
    let q : Seam = record p { incoming = [] } in
    let kq : IsParked q rs = record { push = h.push; pend = h.pend; rounds = refl } in
    let d = ih (need - length p.incoming) x.now q u (omega arith) kq w in
    rw e (
      after-Delivers since x.now s q need p.incoming u (omega arith)
        (ap (λ l. p.incoming ++ l) (parked_stream q rs kq) ∙ polled-stream s x rs h) refl
        (λ k. h.push) (λ k. rw h.rounds (FallsSilent.spoke ne k)) d)

wait_bytes-Delivers :
    (rs : List Round) (need since : ℕ) (s : Seam) (r : Received)
    → 0 < need
    → IsParked s rs
    → wait_bytes rs need (u32 (since + fw_parser_timeout_ms)) s ≡ some r
    → Delivers since s need r
wait_bytes-Delivers [] need since s r pos h e = absurd (unfold wait_bytes in cc e)
wait_bytes-Delivers (x ∷ rs) need since s r pos h e =
    Turn-Delivers x rs need since s r pos h (wait_bytes-Delivers rs)
      (wait_bytes-Turn x rs need (u32 (since + fw_parser_timeout_ms)) s r pos e)

pub length-buffered : (want : ℕ) (s : Seam) → length (buffered want s).bytes ≤ want
length-buffered want s =
    let a = take want s.push in
    let b = take (want - length a) s.pend in
    omega (arith, length-append a b, length-take want s.push, length-take (want - length a) s.pend)

-- The buffers give from the front of the stream.
pub buffered-stream :
    (want : ℕ) (s : Seam) → (buffered want s).bytes ++ stream (buffered want s).seam ≡ stream s
buffered-stream want s = elim (Bool-cases (ltb want (length s.push))) [
  | inl lt ↦
      let a = take want s.push in
      let n : length a ≡ want = take_short want s.push (ground arith) in
      let z : want - length a ≡ 0 = omega arith in
      let tail = s.incoming ++ arrivals s.rounds in
      rw z (
        ap (λ l. l ++ (drop want s.push ++ (s.pend ++ tail))) (append-nil a)
        ∙ sym (append_assoc a (drop want s.push) (s.pend ++ tail))
        ∙ ap (λ l. l ++ (s.pend ++ tail)) (take-drop want s.push))
  | inr ge ↦
      let a = take want s.push in
      let m : ℕ = want - length a in
      let tail = s.incoming ++ arrivals s.rounds in
      let e : a ≡ s.push = take_all want s.push (ground arith) in
      let f : drop want s.push ≡ [] = drop_all want s.push (ground arith) in
      rw f (
        append_assoc a (take m s.pend) (drop m s.pend ++ tail)
        ∙ ap (λ l. a ++ l)
            (sym (append_assoc (take m s.pend) (drop m s.pend) tail)
              ∙ ap (λ l. l ++ tail) (take-drop m s.pend))
        ∙ ap (λ l. l ++ (s.pend ++ tail)) e)
]

-- With bytes still wanted, both buffers are used up.
pub buffered-IsParked :
    (want : ℕ) (s : Seam)
    → length (buffered want s).bytes < want
    → IsParked (buffered want s).seam s.rounds
buffered-IsParked want s h =
    let a = take want s.push in
    let m : ℕ = want - length a in
    let n = length-append a (take m s.pend) in
    let la = length-take want s.push in
    let lb = length-take m s.pend in
    record {
      push = drop_all want s.push (omega arith);
      pend = drop_all m s.pend (omega arith);
      rounds = refl;
    }

-- Whatever stands in the pushed-back header, in the pending bytes and in the ring, and whatever
-- comes in while it waits: a receive that returns has taken the bytes off the front of that one
-- stream, in order, as many as were asked for. Only if the host fell silent, no poll bringing a byte
-- from the last one that did, or from the start, to a clock reading FW_PARSER_TIMEOUT_MS or more past
-- it, are the missing ones fill bytes, and then the receive is marked short.
pub conn_recv-Delivers :
    (want : ℕ) (s : Seam) (r : Received) → conn_recv want s ≡ some r → Delivers s.now s want r
unfolding conn_recv
conn_recv-Delivers want s r h =
    let b = buffered want s in
    let need : ℕ = want - length b.bytes in
    let le = length-buffered want s in
    elim (Bool-cases (need == 0)) [
      | inl z ↦
          let e : b ≡ r = cc (rw z at h) in
          let full : length b.bytes ≡ want = ground arith in
          rw (← e) (record {
            got = b.bytes;
            bytes = rw full (
                let z : want - want ≡ 0 = omega arith in
                rw z (unfold replicate in sym (append-nil b.bytes)));
            kept = buffered-stream want s;
            fits = le;
            no_push = λ k. rw k (drop_all want [] (omega arith));
            short = ground (arith, full);
            silent = inl full;
          })
      | inr z ↦
          let w = u32 (s.now + fw_parser_timeout_ms) in
          let inv = received_after-inv b.bytes (wait_bytes s.rounds need w b.seam) r (rw z at h) in
          let lt : length b.bytes < want = ground arith in
          let d =
            wait_bytes-Delivers s.rounds need s.now b.seam inv.0 (ground arith)
              (buffered-IsParked want s lt) inv.1 in
          rw (inv.2) (
            after-Delivers s.now s.now s b.seam want b.bytes inv.0 le (buffered-stream want s) refl
              (λ k. (buffered-IsParked want s lt).push) (λ k. k) d)
    ]
