-- ===== src/Flash/Streaming.antt =====
-- src/main.c: programming a block while it arrives, against programming it once it is complete.
use open_gbflash_firmware.Common.{
  ℕ, ◌/◌, ◌^◌, ◌≤◌, ◌<◌, ◌==◌, ltb, leb, not, ◌&&◌, ◌||◌, if◌then◌else◌, arith, ◌≡◌, refl, sym, ◌∙◌,
  ap, fun_ext, Bool-cases, inl, inr, if_true, if_false, List, [], ◌∷◌, Array, Option, some, none,
  Bool, true, false, ◌>>=◌, >>=-eq-some, >>=-cong, >>=-assoc, subst,
}
use Prim.{Unit}
use mathlib.Core.Option.{some-injective}
use open_gbflash_firmware.Proto.State.{FwState}
use open_gbflash_firmware.Flash.Bus.{Cart}
use open_gbflash_firmware.Flash.Wait.{Verdict}
use open_gbflash_firmware.Flash.Loops.{Streamed, stream_loop, tail_loop}
use open_gbflash_firmware.Flash.Agb.{Job, pumped, is_agb, agb_program_chunk, agb_stream_pump}
use open_gbflash_firmware.Flash.Dmg.{dmg_program_chunk, dmg_stream_pump}
use open_gbflash_firmware.Flash.Program.{
  Programmed, finish, agb_buffered, dmg_program_buffered, do_flash_program, stream_pumps,
}
use open_gbflash_firmware.Flash.Resume.{resume, stream-resume}
use open_gbflash_firmware.Flash.Chunks.{
  marked, Agree, agb_program_chunk-marked, agb_program_chunk-Agree, dmg_program_chunk-marked,
  dmg_program_chunk-Agree,
}
mod Outcome
mod Pumps
pub use Outcome.*
pub use Pumps.*

-- A round of the receive loop: the bytes of the payload that are in, and the payload's buffer.
pub record Arrival : Type 0 where
  pub filled : ℕ
  pub payload : Array

-- The bytes that are in are the first ones of a block of `n` bytes.
pub record IsEarly (n : ℕ) (block : Array) (a : Arrival) : Type 0 where
  pub within : a.filled ≤ n
  pub same : Agree a.filled a.payload block

abbrev pub AllEarly : ℕ → Array → List Arrival → Type 0
AllEarly n block [] = Unit
AllEarly n block (a ∷ later) = IsEarly n block a × AllEarly n block later

-- The rounds of a receive loop, one after the other.
unfoldable pub rounds : Bool → List Arrival → Job → Option Job
unfolding stream_pumps
rounds w [] j = some j
rounds w (a ∷ later) j = stream_pumps w a.filled a.payload j >>= rounds w later

-- One round of the receive loop.
round-outcome :
    (w : Bool) (block : Array) (a : Arrival) (j : Job)
    → IsEarly j.st.program_len block a
    → j.st.program_len < 2 ^ 16
    → (stream_pumps w a.filled a.payload j >>= outcome w block) ≡ outcome w block j
unfolding stream_pumps
round-outcome w block a j early small =
    let agb = agb_stream_pump a.filled a.payload j in
    >>=-assoc agb (dmg_stream_pump w a.filled a.payload) (outcome w block)
    ∙ >>=-cong agb _ (outcome w block) (λ p e.
      let same : p.st.program_len ≡ j.st.program_len =
        len-agb_stream_pump a.filled a.payload j p e in
      dmg_pump w block a.payload a.filled p (omega (arith, early.within)) (omega arith) early.same)
    ∙ agb_pump w block a.payload a.filled j early.within small early.same

len-stream_pumps :
    (w : Bool) (a : Arrival) (j p : Job)
    → stream_pumps w a.filled a.payload j ≡ some p
    → p.st.program_len ≡ j.st.program_len
unfolding stream_pumps
len-stream_pumps w a j p h =
    let (q, e, f) = >>=-eq-some (agb_stream_pump a.filled a.payload j) _ h in
    len-dmg_stream_pump w a.filled a.payload q p f ∙ len-agb_stream_pump a.filled a.payload j q e

-- Whatever rounds the receive loop makes while a block of fewer than 2^16 bytes comes in, with any part
-- of the block filled in each, what `do_flash_program` makes of the complete block after them is what it
-- makes of it without them: the same driver calls in the same order, the same result and the same
-- state, but for the count of streamed chunks. Where a wait never ends, neither ends.
pub rounds-then-do_flash_program :
    (w : Bool) (block : Array) (arrivals : List Arrival) (j : Job)
    → j.st.program_len < 2 ^ 16
    → AllEarly j.st.program_len block arrivals
    → (rounds w arrivals j >>= outcome w block) ≡ outcome w block j
unfolding rounds
rounds-then-do_flash_program w block [] j small early = refl
rounds-then-do_flash_program w block (a ∷ later) j small (first, others) =
    let pumps = stream_pumps w a.filled a.payload j in
    >>=-assoc pumps (rounds w later) (outcome w block)
    ∙ >>=-cong pumps _ (outcome w block) (λ p e.
      let same : p.st.program_len ≡ j.st.program_len = len-stream_pumps w a j p e in
      rounds-then-do_flash_program w block later p (omega arith)
        (subst (λ n. AllEarly n block later) (sym same) others))
    ∙ round-outcome w block a j first small
