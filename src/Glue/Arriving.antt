-- ===== src/Glue/Arriving.antt =====
-- src/lk_glue.c: the waiting loop of `fw_lk_conn_recv` when the bytes come in time.
use mathlib.Core.List.{append_assoc}
use open_gbflash_firmware.Common.{
  ℕ, suc, ◌+◌, ◌-◌, ◌^◌, ◌≤◌, ◌<◌, ◌≡◌, ◌⊎◌, refl, sym, ◌∙◌, ap, arith, ◌==◌, min, sub32, u32, List,
  [], ◌∷◌, ◌++◌, length, take, drop, Option, some, false, Bool-cases, inl, inr,
}
use open_gbflash_firmware.Common.Lists.{
  length-drop, length-append, take-drop, take_short, take_all, drop_all,
}
use open_gbflash_firmware.Proto.State.{fw_parser_timeout_ms}
use open_gbflash_firmware.Glue.Seam.{Seam, Round}
use open_gbflash_firmware.Glue.Link.{Received, wait_bytes, polled, expired, received_after}
use open_gbflash_firmware.Glue.Stream.{arrivals}

-- A reading of the clock at `base` or less than FW_PARSER_TIMEOUT_MS after it.
abbrev pub InWindow : ℕ → ℕ → Type 0
InWindow base now = (now < 2 ^ 32) × (sub32 now base < fw_parser_timeout_ms)

-- So read all the turns to come.
unfoldable pub AllInWindow : ℕ → List Round → Type 0
AllInWindow base [] = Unit
AllInWindow base (x ∷ rs) = InWindow base x.now × AllInWindow base rs

-- No deadline that was set in the window has passed in it.
window_open :
    (base since now : ℕ)
    → base < 2 ^ 32
    → InWindow base since
    → InWindow base now
    → expired now (u32 (since + fw_parser_timeout_ms)) ≡ false
window_open base since now b h k = ground arith

-- `missing` bytes come in during the turns to come, and `calls` turns follow or there are that many.
unfoldable pub Supplied : ℕ → ℕ → List Round → Type 0
Supplied calls missing [] = (missing ≡ 0) × (calls ≡ 0)
Supplied calls missing (x ∷ rs) =
    ((missing ≡ 0) × (calls ≤ length (x ∷ rs))) ⊎ Supplied calls (missing - length x.arrived) rs

Supplied-now :
    (rs : List Round) (calls missing : ℕ)
    → missing ≡ 0
    → calls ≤ length rs
    → Supplied calls missing rs
unfolding Supplied
Supplied-now [] calls missing e le = (e, omega arith)
Supplied-now (x ∷ rs) calls missing e le = inl (e, le)

-- One turn fewer is asked for.
pub Supplied-less :
    (rs : List Round) (calls missing : ℕ)
    → Supplied (suc calls) missing rs
    → Supplied calls missing rs
unfolding Supplied
Supplied-less [] calls missing h = absurd (omega (arith, h.1))
Supplied-less (x ∷ rs) calls missing h = elim h [
  | inl k ↦ inl (k.0, omega (arith, k.1))
  | inr k ↦ inr (Supplied-less rs calls (missing - length x.arrived) k)
]

-- A wait that has come to its end with all its bytes, in the window, with `more` bytes still wanted.
pub record Came (base all_calls more : ℕ) (all : List ℕ) (need : ℕ) (s : Seam) (m : Option Received)
    : Type 0 where
  pub bytes : List ℕ
  pub incoming : List ℕ
  pub left : List Round
  pub now : ℕ
  pub result :
      m
      ≡ some (record {
        bytes = bytes;
        seam = record s { incoming = incoming; rounds = left; now = now };
      })
  pub kept : bytes ++ (incoming ++ arrivals left) ≡ all
  pub full : length bytes ≡ need
  pub supplied : Supplied all_calls (more - length incoming) left
  pub clock : InWindow base now
  pub clocks : AllInWindow base left

-- The poll of a turn is part of the wait.
Came-polled :
    (x : Round) (rs : List Round) (base calls more need : ℕ) (s : Seam) (m : Option Received)
    → Came base calls more ((polled s x rs).incoming ++ arrivals rs) need (polled s x rs) m
    → Came base calls more (s.incoming ++ (x.arrived ++ arrivals rs)) need s m
Came-polled x rs base calls more need s m c = record {
  bytes = c.bytes;
  incoming = c.incoming;
  left = c.left;
  now = c.now;
  result = c.result;
  kept = c.kept ∙ append_assoc s.incoming x.arrived (arrivals rs);
  full = c.full;
  supplied = c.supplied;
  clock = c.clock;
  clocks = c.clocks;
}

-- The ring holds all that is wanted.
Came-full :
    (rs : List Round) (base calls total need : ℕ) (p : Seam)
    → InWindow base p.now
    → AllInWindow base rs
    → p.rounds ≡ rs
    → need ≤ length p.incoming
    → Supplied calls (total - length p.incoming) rs
    → Came base calls (total - need) (p.incoming ++ arrivals rs) need p (
        some (record {
          bytes = take need p.incoming;
          seam = record p { incoming = drop need p.incoming };
        }))
Came-full rs base calls total need p w ws r le h =
    let q = p.incoming in
    let d = length-drop need q in
    let m : total - length q ≡ total - need - length (drop need q) = omega (arith, d, le) in
    rw (← r) (record {
      bytes = take need q;
      incoming = drop need q;
      left = p.rounds;
      now = p.now;
      result = refl;
      kept =
          sym (append_assoc (take need q) (drop need q) (arrivals p.rounds))
          ∙ ap (λ l. l ++ arrivals p.rounds) (take-drop need q);
      full = take_short need q le;
      supplied = rw (m, ← r) at h;
      clock = w;
      clocks = rw (← r) at ws;
    })

-- The ring holds some of it, and the wait goes on for the others.
Came-more :
    (rs : List Round) (base calls total need : ℕ) (p : Seam) (m : Option Received)
    → length p.incoming < need
    → Came base calls
        (total - length p.incoming - (need - length p.incoming))
        (arrivals rs)
        (need - length p.incoming)
        p
        m
    → Came base calls
        (total - need)
        (p.incoming ++ arrivals rs)
        need
        p
        (received_after p.incoming m)
Came-more rs base calls total need p m lt c =
    let q = p.incoming in
    let u : total - length q - (need - length q) ≡ total - need = omega arith in
    let full = c.full in
    record {
      bytes = q ++ c.bytes;
      incoming = c.incoming;
      left = c.left;
      now = c.now;
      result = ap (received_after q) c.result;
      kept = append_assoc q c.bytes _ ∙ ap (λ l. q ++ l) c.kept;
      full = omega (arith, length-append q c.bytes, full);
      supplied = rw u at c.supplied;
      clock = c.clock;
      clocks = c.clocks;
    }

pub wait_bytes-Came :
    (rs : List Round) (base calls total need since : ℕ) (s : Seam)
    → base < 2 ^ 32
    → InWindow base since
    → AllInWindow base rs
    → 0 < need
    → need ≤ total
    → Supplied (suc calls) (total - length s.incoming) rs
    → Came base calls
        (total - need)
        (s.incoming ++ arrivals rs)
        need
        s
        (wait_bytes rs need (u32 (since + fw_parser_timeout_ms)) s)
unfolding wait_bytes AllInWindow Supplied
wait_bytes-Came [] base calls total need since s b w ws pos le h = absurd (omega (arith, h.1))
wait_bytes-Came (x ∷ rs) base calls total need since s b w ws pos le h =
    let p = polled s x rs in
    let q = p.incoming in
    let n = length-append s.incoming x.arrived in
    let e : total - length s.incoming - length x.arrived ≡ total - length q = omega (arith, n) in
    let later : length q < need → Supplied (suc calls) (total - length q) rs =
      λ lt. elim h [ inl k ↦ absurd (omega (arith, n, k.0)) | inr k ↦ rw e at k ] in
    elim (Bool-cases (min need (length q) == 0)) [
      | inl z ↦
          rw (z, window_open base since x.now b w ws.0)
            (Came-polled x rs base calls (total - need) need s _ (
              wait_bytes-Came rs base calls total need since p b w ws.1 pos le
                (later (ground arith))))
      | inr z ↦ elim (Bool-cases (min need (length q) == need)) [
        | inl y ↦
            let k : min need (length q) ≡ need = ground arith in
            let sup : Supplied calls (total - length q) rs = elim h [
              | inl j ↦
                  Supplied-now rs calls (total - length q) (omega (arith, n, j.0))
                    (omega (arith, j.1))
              | inr j ↦ Supplied-less rs calls (total - length q) (rw e at j)
            ] in
            rw (z, y, k)
              (Came-polled x rs base calls (total - need) need s _
                (Came-full rs base calls total need p ws.0 ws.1 refl (omega (arith, k)) sup))
        | inr y ↦
            let k : min need (length q) ≡ length q = ground arith in
            let lt : length q < need = ground arith in
            let t : Seam = record p { incoming = [] } in
            let v : total - length q - 0 ≡ total - length q = omega arith in
            let f : take (length q) q ≡ q = take_all (length q) q (omega arith) in
            let g : drop (length q) q ≡ [] = drop_all (length q) q (omega arith) in
            let c =
              wait_bytes-Came rs base calls (total - length q) (need - length q) x.now t b ws.0 ws.1
                (omega arith) (omega (arith, le)) (rw v (later lt)) in
            rw (z, y, k, f, g)
              (Came-polled x rs base calls (total - need) need s _ (
                Came-more rs base calls total need p _ lt (record {
                  bytes = c.bytes;
                  incoming = c.incoming;
                  left = c.left;
                  now = c.now;
                  result = c.result;
                  kept = c.kept;
                  full = c.full;
                  supplied = c.supplied;
                  clock = c.clock;
                  clocks = c.clocks;
                })))
      ]
    ]
