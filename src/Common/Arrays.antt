-- ===== src/Common/Arrays.antt =====
-- C arrays as functions of the index, lists measured by native numbers.
use Prim.Native.Nat.{ℕ, zero, suc, ◌+◌}
use mathlib.Core.List.{List, [], ◌∷◌}
use mathlib.Core.Bool.{Bool, false, ◌||◌}
use open_gbflash_firmware.Common.Tests.{◌==◌, if◌then◌else◌}

-- The cells of an array. Every access that the code makes is guarded by its own bound.
abbrev pub Array : Type 0
Array = ℕ → ℕ

-- `a[i] = v`
abbrev pub update : Array → ℕ → ℕ → ℕ → ℕ
update a i v j = if i == j then v else a j

-- `p + i`: the array from index `i` on.
abbrev pub from : Array → ℕ → Array
from a i = λ j. a (i + j)

-- An array that holds the bytes of a list.
abbrev pub of_list : List ℕ → ℕ → ℕ
of_list [] i = 0
of_list (x ∷ xs) zero = x
of_list (x ∷ xs) (suc i) = of_list xs i

-- `dst[at + i] = src[i]` for `i < n`, one byte at a time.
unfoldable pub copy_bytes : ℕ → Array → ℕ → Array → Array
copy_bytes zero dst at src = dst
copy_bytes (suc n) dst at src = copy_bytes n (update dst at (src 0)) (at + 1) (from src 1)

abbrev pub elem : ℕ → List ℕ → Bool
elem b [] = false
elem b (x ∷ xs) = b == x || elem b xs

module _ {ℓ} {A : Type ℓ} where
  abbrev pub length : List A → ℕ
  length [] = 0
  length (x ∷ xs) = suc (length xs)

  abbrev pub take : ℕ → List A → List A
  take zero xs = []
  take (suc n) [] = []
  take (suc n) (x ∷ xs) = x ∷ take n xs

  abbrev pub drop : ℕ → List A → List A
  drop zero xs = xs
  drop (suc n) [] = []
  drop (suc n) (x ∷ xs) = drop n xs
