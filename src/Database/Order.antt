-- ===== src/Database/Order.antt =====
-- When `compare_sub_num` orders subscribers by their numbers, and when it does not.
use native.Mathlib.Bridge.{le_prop}
use ghetto_subscriber_valida.Prelude.{
  ℕ, ◌+◌, ◌^◌, ◌≤◌, ◌<◌, ◌≡◌, ◌↔◌, List, All, All-mem, ltb, ◌==◌, if◌then◌else◌, arith,
}
use ghetto_subscriber_valida.SortSearch.{rank, IsOrder}
use ghetto_subscriber_valida.Database.{ClientInfo, compare_sub_num}
use mathlib.Core.List.{Mem}

-- A number lies in a stretch of 2 ^ 31 numbers.
abbrev pub Within : ℕ → ℕ → Type 0
Within base n = (base ≤ n) × (n < base + 2 ^ 31) × (n < 2 ^ 32)

-- All subscriber numbers lie in one such stretch.
abbrev pub InWindow : ℕ → List ClientInfo → Type 0
InWindow base xs = (e : ClientInfo) → Mem e xs → Within base e.number

-- The order by number, as a rank.
abbrev pub by_number : ℕ → ℕ → ℕ
by_number a b = if ltb a b then 0 else if a == b then 1 else 2

pub All-InWindow :
    (base : ℕ) (xs : List ClientInfo) → All (λ e. Within base e.number) xs → InWindow base xs
All-InWindow base xs h = All-mem (λ e. Within base e.number) xs (λ e. hlevel (le_prop)) h

pub rank-compare_sub_num :
    (base : ℕ) (a b : ClientInfo)
    → Within base a.number
    → Within base b.number
    → rank (compare_sub_num a b) ≡ by_number a.number b.number
unfolding compare_sub_num
rank-compare_sub_num base a b ha hb = ground arith

compare_sub_num-eq :
    (a b : ClientInfo)
    → a.number < 2 ^ 32
    → b.number < 2 ^ 32
    → (rank (compare_sub_num a b) ≡ 1) ↔ (a.number ≡ b.number)
unfolding compare_sub_num
compare_sub_num-eq a b ha hb = ground arith

-- Among subscribers whose numbers lie in one stretch of 2 ^ 31 numbers `compare_sub_num` is an order,
-- and it gives 0 exactly for equal numbers.
pub compare_sub_num-IsOrder :
    (base : ℕ) (xs : List ClientInfo)
    → InWindow base xs
    → IsOrder compare_sub_num xs
      × ((a b : ClientInfo)
          → Mem a xs
          → Mem b xs
          → (rank (compare_sub_num a b) ≡ 1) ↔ (a.number ≡ b.number))
compare_sub_num-IsOrder base xs w = (
  record {
    mirrored = λ x y mx my. ground (
      arith,
      rank-compare_sub_num base x y (w x mx) (w y my),
      rank-compare_sub_num base y x (w y my) (w x mx),
    );
    transitive = λ x y z mx my mz p q. ground (
      arith,
      rank-compare_sub_num base x y (w x mx) (w y my),
      rank-compare_sub_num base y z (w y my) (w z mz),
      rank-compare_sub_num base x z (w x mx) (w z mz),
    );
  },
  λ a b ma mb. compare_sub_num-eq a b (omega (arith, (w a ma).2)) (omega (arith, (w b mb).2)),
)

-- Without that it is none: any three numbers that are each less than 2 ^ 31 above the one before, and
-- more than 2 ^ 31 together, are each below the next, and the last is below the first.
pub compare_sub_num-cycle :
    (a b c : ClientInfo)
    → a.number < b.number
    → b.number < c.number
    → c.number < 2 ^ 32
    → b.number < a.number + 2 ^ 31
    → c.number < b.number + 2 ^ 31
    → a.number + 2 ^ 31 < c.number
    → (rank (compare_sub_num a b) ≡ 0)
      × (rank (compare_sub_num b c) ≡ 0)
      × (rank (compare_sub_num c a) ≡ 0)
unfolding compare_sub_num
compare_sub_num-cycle a b c h₁ h₂ h₃ h₄ h₅ h₆ = ground arith
