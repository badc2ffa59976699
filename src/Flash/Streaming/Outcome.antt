-- ===== src/Flash/Streaming/Outcome.antt =====
-- src/main.c: what `do_flash_program` leaves after a pump.
use open_gbflash_firmware.Common.{
  ℕ, ◌/◌, ◌==◌, leb, not, ◌&&◌, ◌≡◌, refl, ◌∙◌, ap, fun_ext, if_true, if_false, Array, Option, some,
  none, Bool, true, false, ◌>>=◌, >>=-assoc,
}
use open_gbflash_firmware.Proto.State.{FwState}
use open_gbflash_firmware.Flash.Bus.{Cart}
use open_gbflash_firmware.Flash.Wait.{Verdict}
use open_gbflash_firmware.Flash.Loops.{Streamed, tail_loop}
use open_gbflash_firmware.Flash.Agb.{Job, pumped, is_agb, agb_program_chunk}
use open_gbflash_firmware.Flash.Dmg.{dmg_program_chunk}
use open_gbflash_firmware.Flash.Program.{
  Programmed, finish, agb_buffered, dmg_program_buffered, do_flash_program,
}
use open_gbflash_firmware.Flash.Resume.{resume}
use open_gbflash_firmware.Flash.Chunks.{marked, agb_program_chunk-marked, dmg_program_chunk-marked}

-- All that `do_flash_program` leaves but the count of streamed chunks, which the pumps alone keep.
abbrev pub uncounted : Programmed → Programmed
uncounted p = record p { job = record p.job { st = record p.job.st { program_streamed = 0 } } }

abbrev pub outcome : Bool → Array → Job → Option Programmed
outcome w block j = do_flash_program w block j >>= λ p. some (uncounted p)

abbrev pub settled : FwState → ℕ → Verdict → Option Programmed
settled st by v = some (uncounted (finish st by v))

-- What a pump leaves, by whether a chunk timed out.
abbrev pub left : ℕ → ℕ → Cart → Option ℕ → Streamed
left done streamed c o = record {
  done = done;
  streamed = streamed;
  verdict = record { timed_out = o; cart = c };
}

-- The loop over the rest from the state that the pump has marked.
loop-marked :
    (marked_program program : ℕ → ℕ → Cart → Option Verdict) (unit words n done : ℕ) (st : FwState)
    (streamed by : ℕ) (c : Cart)
    → ((at have : ℕ) (d : Cart) → marked_program at have d ≡ program at have d)
    → (tail_loop marked_program unit words n n done c
        >>= (λ v. some (finish (marked st done streamed) by v))
        >>= λ p. some (uncounted p))
      ≡ (tail_loop program unit words n n done c >>= settled st by)
loop-marked marked_program program unit words n done st streamed by c h =
    let go = λ (f : ℕ → ℕ → Cart → Option Verdict). tail_loop f unit words n n done c in
    >>=-assoc (go marked_program) (λ v. some (finish (marked st done streamed) by v))
      (λ p. some (uncounted p))
    ∙ ap (λ f. go f >>= settled st by) (fun_ext λ at. fun_ext λ have. fun_ext λ d. h at have d)

-- The end of a block after the pump.
pub agb_rest :
    (block : Array) (st : FwState) (done streamed : ℕ) (c : Cart) (o : Option ℕ)
    → (st.program_stream_err == 0) ≡ true
    → (agb_buffered block (pumped st (left done streamed c o)) >>= λ p. some (uncounted p)) ≡ (
        resume true
          (agb_program_chunk st block)
          (st.buffer_size / 2)
          st.program_len
          (left done streamed c o)
        >>= settled st (st.program_len / 2))
unfolding agb_buffered
agb_rest block st done streamed c none clear =
    ap (λ m. m >>= λ p. some (uncounted p))
      (if_false (not (st.program_stream_err == 0)) _ _ (ap not clear))
    ∙ loop-marked (agb_program_chunk (marked st done streamed) block) (agb_program_chunk st block) 2
        (st.buffer_size / 2) st.program_len done st streamed (st.program_len / 2) c
        (agb_program_chunk-marked st done streamed block)
agb_rest block st done streamed c (some x) clear = refl

pub dmg_rest :
    (w : Bool) (block : Array) (st : FwState) (done streamed : ℕ) (c : Cart) (o : Option ℕ)
    → (st.program_stream_err == 0) ≡ true
    → (dmg_program_buffered w block (pumped st (left done streamed c o)) >>= λ p.
        some (uncounted p))
      ≡ (resume false
            (dmg_program_chunk w st block)
            st.buffer_size
            st.program_len
            (left done streamed c o)
          >>= settled st st.program_len)
unfolding dmg_program_buffered
dmg_rest w block st done streamed c none clear =
    ap (λ m. m >>= λ p. some (uncounted p))
      (if_false (not (st.program_stream_err == 0)) _ _ (ap not clear))
    ∙ loop-marked (dmg_program_chunk w (marked st done streamed) block)
        (dmg_program_chunk w st block) 1 st.buffer_size st.program_len done st streamed
        st.program_len c (dmg_program_chunk-marked w st done streamed block)
dmg_rest w block st done streamed c (some x) clear = refl

-- Which routine `do_flash_program` calls.
pub agb_outcome :
    (w : Bool) (block : Array) (q : Job)
    → is_agb q.st.mode ≡ true
    → (q.st.flash_method == 2 && leb 2 q.st.buffer_size) ≡ true
    → outcome w block q ≡ (agb_buffered block q >>= λ p. some (uncounted p))
unfolding do_flash_program
agb_outcome w block q agb b =
    ap (λ m. m >>= λ p. some (uncounted p)) (if_true (is_agb q.st.mode) _ _ agb ∙ if_true _ _ _ b)

pub dmg_outcome :
    (w : Bool) (block : Array) (q : Job)
    → is_agb q.st.mode ≡ false
    → (q.st.flash_method == 2 && leb 1 q.st.buffer_size) ≡ true
    → outcome w block q ≡ (dmg_program_buffered w block q >>= λ p. some (uncounted p))
unfolding do_flash_program
dmg_outcome w block q dmg b =
    ap (λ m. m >>= λ p. some (uncounted p)) (if_false (is_agb q.st.mode) _ _ dmg ∙ if_true _ _ _ b)
