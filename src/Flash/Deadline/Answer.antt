-- ===== src/Flash/Deadline/Answer.antt =====
-- src/main.c: what the turns of a status wait decide.
use open_gbflash_firmware.Common.{ℕ, ◌&&◌, ◌≡◌, List, ◌∷◌, Option, some, none, Bool, true, false}
use open_gbflash_firmware.Glue.Link.{expired}
use open_gbflash_firmware.Flash.Bus.{Poll}
use open_gbflash_firmware.Flash.Wait.{Verdict}

-- What the turns of a wait decide: `value` of a reading goes to the register, `good` readings end the
-- wait, and `twice` tells whether the second reading of a turn counts. The first turn that decides does.
pub data IsAnswer (value : ℕ → ℕ) (good : ℕ → Bool) (twice : Bool) (deadline : ℕ)
    : List Poll → Option ℕ → Type 0 where
  first :
      {t : Poll} {ts : List Poll}
      → good (value t.first) ≡ true
      → IsAnswer value good twice deadline (t ∷ ts) none
  lapse :
      {t : Poll} {ts : List Poll}
      → good (value t.first) ≡ false
      → expired t.now deadline ≡ true
      → IsAnswer value good twice deadline (t ∷ ts) (some (value t.first))
  again :
      {t : Poll} {ts : List Poll}
      → good (value t.first) ≡ false
      → expired t.now deadline ≡ false
      → (twice && good (value t.again)) ≡ true
      → IsAnswer value good twice deadline (t ∷ ts) none
  later :
      {t : Poll} {ts : List Poll} {o : Option ℕ}
      → good (value t.first) ≡ false
      → expired t.now deadline ≡ false
      → (twice && good (value t.again)) ≡ false
      → IsAnswer value good twice deadline ts o
      → IsAnswer value good twice deadline (t ∷ ts) o

-- A wait that has returned by the turns `ts` with the answer that they decide.
abbrev pub Returns : (ℕ → ℕ) → (ℕ → Bool) → Bool → ℕ → List Poll → Option Verdict → Type 0
Returns value good twice deadline ts m =
    (v : Verdict) × (m ≡ some v) × IsAnswer value good twice deadline ts v.timed_out
