-- ===== src/Flash/Streaming/Pumps.antt =====
-- src/main.c: `agb_stream_pump` and `dmg_stream_pump` in front of `do_flash_program`.
use open_gbflash_firmware.Common.{
  ℕ, ◌/◌, ◌^◌, ◌≤◌, ◌<◌, ◌==◌, ltb, leb, not, ◌&&◌, ◌||◌, if◌then◌else◌, arith, ◌≡◌, sym, ◌∙◌, ap,
  Bool-cases, inl, inr, if_true, if_false, Array, Option, some, none, Bool, true, false, ◌>>=◌,
  >>=-cong, >>=-assoc,
}
use mathlib.Core.Option.{some-injective}
use open_gbflash_firmware.Flash.Loops.{Streamed, stream_loop, tail_loop}
use open_gbflash_firmware.Flash.Agb.{Job, pumped, is_agb, agb_program_chunk, agb_stream_pump}
use open_gbflash_firmware.Flash.Dmg.{dmg_program_chunk, dmg_stream_pump}
use open_gbflash_firmware.Flash.Program.{finish, agb_buffered, dmg_program_buffered}
use open_gbflash_firmware.Flash.Resume.{resume, stream-resume}
use open_gbflash_firmware.Flash.Chunks.{Agree, agb_program_chunk-Agree, dmg_program_chunk-Agree}
use open_gbflash_firmware.Flash.Streaming.Outcome.{
  agb_outcome, agb_rest, dmg_outcome, dmg_rest, outcome, settled, uncounted,
}

-- One pump in front of `do_flash_program` changes nothing of what that leaves.
pub agb_pump :
    (w : Bool) (block early : Array) (filled : ℕ) (j : Job)
    → filled ≤ j.st.program_len
    → j.st.program_len < 2 ^ 16
    → Agree filled early block
    → (agb_stream_pump filled early j >>= outcome w block) ≡ outcome w block j
unfolding agb_stream_pump agb_buffered
agb_pump w block early filled j le small same =
    let st = j.st in
    let idle =
      filled == 0
      || (not (is_agb st.mode) || not (st.flash_method == 2) || ltb st.buffer_size 2)
      || not (st.program_stream_err == 0) in
    let n = st.program_len in
    let words = st.buffer_size / 2 in
    let pump =
      stream_loop (agb_program_chunk st early) 2 words filled filled st.program_done
        st.program_streamed j.cart in
    let rest = resume true (agb_program_chunk st block) words n in
    let whole = tail_loop (agb_program_chunk st block) 2 words n n st.program_done j.cart in
    elim (Bool-cases idle) [
      | inl e ↦ ap (λ m. m >>= outcome w block) (if_true idle (some j) _ e)
      | inr e ↦
          let agb : is_agb st.mode ≡ true = ground arith in
          let b : (st.flash_method == 2 && leb 2 st.buffer_size) ≡ true = ground arith in
          let clear : (st.program_stream_err == 0) ≡ true = ground arith in
          let pos : 1 ≤ words = ground arith in
          ap (λ m. m >>= outcome w block) (if_false idle (some j) _ e)
          ∙ >>=-assoc pump (λ s. some (pumped st s)) (outcome w block)
          ∙ >>=-cong pump _ (λ s. rest s >>= settled st (n / 2))
              (λ s q.
                agb_outcome w block (pumped st s) agb b
                ∙ agb_rest block st s.done s.streamed s.verdict.cart s.verdict.timed_out clear)
          ∙ sym (>>=-assoc pump rest (settled st (n / 2)))
          ∙ ap (λ m. m >>= settled st (n / 2))
              (stream-resume true (agb_program_chunk st early) (agb_program_chunk st block) words
                filled filled n st.program_done st.program_streamed j.cart pos le small
                (λ at d h. agb_program_chunk-Agree st early block filled at words d pos same h))
          ∙ sym (
              agb_outcome w block j agb b
              ∙ ap (λ m. m >>= λ p. some (uncounted p))
                  (if_false (not (st.program_stream_err == 0)) _ _ (ap not clear))
              ∙ >>=-assoc whole (λ v. some (finish st (n / 2) v)) (λ p. some (uncounted p)))
    ]

pub dmg_pump :
    (w : Bool) (block early : Array) (filled : ℕ) (j : Job)
    → filled ≤ j.st.program_len
    → j.st.program_len < 2 ^ 16
    → Agree filled early block
    → (dmg_stream_pump w filled early j >>= outcome w block) ≡ outcome w block j
unfolding dmg_stream_pump dmg_program_buffered
dmg_pump w block early filled j le small same =
    let st = j.st in
    let idle =
      filled == 0
      || (is_agb st.mode || not (st.flash_method == 2) || ltb st.buffer_size 1)
      || not (st.program_stream_err == 0) in
    let n = st.program_len in
    let words = st.buffer_size in
    let pump =
      stream_loop (dmg_program_chunk w st early) 1 words filled filled st.program_done
        st.program_streamed j.cart in
    let rest = resume false (dmg_program_chunk w st block) words n in
    let whole = tail_loop (dmg_program_chunk w st block) 1 words n n st.program_done j.cart in
    elim (Bool-cases idle) [
      | inl e ↦ ap (λ m. m >>= outcome w block) (if_true idle (some j) _ e)
      | inr e ↦
          let dmg : is_agb st.mode ≡ false = ground arith in
          let b : (st.flash_method == 2 && leb 1 st.buffer_size) ≡ true = ground arith in
          let clear : (st.program_stream_err == 0) ≡ true = ground arith in
          let pos : 1 ≤ words = ground arith in
          ap (λ m. m >>= outcome w block) (if_false idle (some j) _ e)
          ∙ >>=-assoc pump (λ s. some (pumped st s)) (outcome w block)
          ∙ >>=-cong pump _ (λ s. rest s >>= settled st n)
              (λ s q.
                dmg_outcome w block (pumped st s) dmg b
                ∙ dmg_rest w block st s.done s.streamed s.verdict.cart s.verdict.timed_out clear)
          ∙ sym (>>=-assoc pump rest (settled st n))
          ∙ ap (λ m. m >>= settled st n)
              (stream-resume false (dmg_program_chunk w st early) (dmg_program_chunk w st block)
                words filled filled n st.program_done st.program_streamed j.cart pos le small
                (λ at d h. dmg_program_chunk-Agree w st early block filled at words d pos same h))
          ∙ sym (
              dmg_outcome w block j dmg b
              ∙ ap (λ m. m >>= λ p. some (uncounted p))
                  (if_false (not (st.program_stream_err == 0)) _ _ (ap not clear))
              ∙ >>=-assoc whole (λ v. some (finish st n v)) (λ p. some (uncounted p)))
    ]

-- The pumps keep the length of the block.
len-pump :
    (idle : Bool) (m : Option Streamed) (j p : Job)
    → (if idle then some j else (m >>= λ s. some (pumped j.st s))) ≡ some p
    → p.st.program_len ≡ j.st.program_len
len-pump true m j p h = sym (ap (λ (q : Job). q.st.program_len) (some-injective j p h))
len-pump false none j p h = absurd (cc h)
len-pump false (some s) j p h =
    sym (ap (λ (q : Job). q.st.program_len) (some-injective (pumped j.st s) p h))

pub len-agb_stream_pump :
    (filled : ℕ) (early : Array) (j p : Job)
    → agb_stream_pump filled early j ≡ some p
    → p.st.program_len ≡ j.st.program_len
unfolding agb_stream_pump
len-agb_stream_pump filled early j p = len-pump _ _ j p

pub len-dmg_stream_pump :
    (w : Bool) (filled : ℕ) (early : Array) (j p : Job)
    → dmg_stream_pump w filled early j ≡ some p
    → p.st.program_len ≡ j.st.program_len
unfolding dmg_stream_pump
len-dmg_stream_pump w filled early j p = len-pump _ _ j p
