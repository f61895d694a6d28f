-- ===== src/SortSearch.antt =====
-- `qsort` and `bsearch` of <stdlib.h>: the calls, what a comparison function has to be, and what the
-- C standard promises. The program is proved against this interface, so any conforming library does.
pub mod Reference
use ghetto_subscriber_valida.Prelude.{ℕ, ◌+◌, ◌≤◌, ◌≡◌, ◌≢◌, List, [], ◌∷◌, Option, none, some}
use ghetto_subscriber_valida.Prelude.Int.{ℤ, pos, negsuc}
use mathlib.Core.List.{Mem, Perm}

-- All that the callers of a comparison function look at: below, equal or above.
abbrev pub rank : ℤ → ℕ
rank (negsuc n) = 0
rank (pos ℕ.zero) = 1
rank (pos (ℕ.suc n)) = 2

module _ {A : Type 0} (compare : A → A → ℤ) where
  -- The comparison function orders the elements of an array.
  pub record IsOrder (xs : List A) : Type 0 where
    pub mirrored : (x y : A) → Mem x xs → Mem y xs → rank (compare x y) + rank (compare y x) ≡ 2
    pub transitive :
        (x y z : A)
        → Mem x xs
        → Mem y xs
        → Mem z xs
        → rank (compare x y) ≤ 1
        → rank (compare y z) ≤ 1
        → rank (compare x z) ≤ 1

  -- The elements do not descend.
  abbrev pub IsSorted : List A → Type 0
  IsSorted [] = Unit
  IsSorted (x ∷ xs) = ((y : A) → Mem y xs → rank (compare x y) ≤ 1) × IsSorted xs

  -- First the elements that the key is above, then those equal to it, then those that it is below.
  abbrev pub IsPartitioned : A → List A → Type 0
  IsPartitioned key [] = Unit
  IsPartitioned key (x ∷ xs) =
      ((y : A) → Mem y xs → rank (compare key y) ≤ rank (compare key x)) × IsPartitioned key xs

  -- What a search has to return: an element equal to the key, or nothing if there is none.
  abbrev pub Finds : A → List A → Option A → Type 0
  Finds key xs (some x) = Mem x xs × (rank (compare key x) ≡ 1)
  Finds key xs none = (x : A) → Mem x xs → rank (compare key x) ≢ 1

pub record SortSearch (A : Type 0) : Type 0 where
  pub qsort : (A → A → ℤ) → List A → List A
  pub bsearch : (A → A → ℤ) → A → List A → Option A
  pub qsort-perm :
      (compare : A → A → ℤ) (xs : List A) → IsOrder compare xs → Perm (qsort compare xs) xs
  pub qsort-IsSorted :
      (compare : A → A → ℤ) (xs : List A) → IsOrder compare xs → IsSorted compare (qsort compare xs)
  pub bsearch-Finds :
      (compare : A → A → ℤ) (key : A) (xs : List A)
      → IsPartitioned compare key xs
      → Finds compare key xs (bsearch compare key xs)
