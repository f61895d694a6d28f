-- ===== src/Database/Lookup.antt =====
-- `lookup` on a database that has been sorted.
use ghetto_subscriber_valida.Prelude.{ℕ, ◌≡◌, ◌≢◌, List, [], ◌∷◌, Option, none, some, take, arith}
use ghetto_subscriber_valida.SortSearch.{IsPartitioned, IsSorted, Finds, SortSearch}
use ghetto_subscriber_valida.Database.{ClientInfo, Database, compare_sub_num, lookup}
use ghetto_subscriber_valida.Database.Order.{Within, InWindow, rank-compare_sub_num}
use mathlib.Core.List.{Mem, mem-cons_self, mem-cons_of_mem}

abbrev pub filled_entries : Database → List ClientInfo
filled_entries db = take db.n_filled db.entries

-- A database whose entries ascend, with numbers in one stretch of 2 ^ 31.
pub record IsSearchable (base : ℕ) (db : Database) : Type 0 where
  pub window : InWindow base (filled_entries db)
  pub sorted : IsSorted compare_sub_num (filled_entries db)

-- The answer to the question for a number: an entry of the list that has it, or none has it.
abbrev pub Answers : ℕ → List ClientInfo → Option ClientInfo → Type 0
Answers num xs (some e) = Mem e xs × (e.number ≡ num)
Answers num xs none = (e : ClientInfo) → Mem e xs → e.number ≢ num

sorted-IsPartitioned :
    (base : ℕ) (key : ClientInfo) (xs : List ClientInfo)
    → Within base key.number
    → InWindow base xs
    → IsSorted compare_sub_num xs
    → IsPartitioned compare_sub_num key xs
sorted-IsPartitioned base key [] k w s = tt
sorted-IsPartitioned base key (x ∷ xs) k w s = (
  λ y m. ground (
    arith,
    s.0 y m,
    rank-compare_sub_num base key x k (w x mem-cons_self),
    rank-compare_sub_num base key y k (w y (mem-cons_of_mem x m)),
    rank-compare_sub_num base x y (w x mem-cons_self) (w y (mem-cons_of_mem x m)),
  ),
  sorted-IsPartitioned base key xs k (λ e m. w e (mem-cons_of_mem x m)) s.1,
)

Answers_of_Finds :
    (base : ℕ) (key : ClientInfo) (xs : List ClientInfo) (r : Option ClientInfo)
    → Within base key.number
    → InWindow base xs
    → Finds compare_sub_num key xs r
    → Answers key.number xs r
Answers_of_Finds base key xs none k w f =
    λ e m eq. f e m (ground (arith, rank-compare_sub_num base key e k (w e m)))
Answers_of_Finds base key xs (some e) k w f =
    (f.0, ground (arith, f.1, rank-compare_sub_num base key e k (w e f.0)))

-- On a searchable database `lookup` of a number in the same stretch is right both ways: an entry that
-- it returns is in the database and has the number, and if it returns none no entry has the number.
pub lookup-Answers :
    (std : SortSearch ClientInfo) (dummy : ClientInfo) (base : ℕ) (db : Database) (num : ℕ)
    → IsSearchable base db
    → Within base num
    → Answers num (filled_entries db) (lookup std dummy db num)
unfolding lookup
lookup-Answers std dummy base db num v k =
    let key : ClientInfo = record dummy { number = num } in
    Answers_of_Finds base key (filled_entries db) (lookup std dummy db num) k v.window (
      std.bsearch-Finds compare_sub_num key (filled_entries db)
        (sorted-IsPartitioned base key (filled_entries db) k v.window v.sorted))
