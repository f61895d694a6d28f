-- ===== src/SortSearch/Reference.antt =====
-- A conforming `qsort` and `bsearch`: insertion sort, and the first match of a search from the front.
use ghetto_subscriber_valida.Prelude.{
  ◌≤◌, ◌≢◌, inl, inr, sym, ap, ◌∙◌, subst, List, [], ◌∷◌, leb, ◌==◌, if◌then◌else◌, Option, none,
  some, Bool-cases, arith,
}
use ghetto_subscriber_valida.Prelude.Int.{ℤ}
use ghetto_subscriber_valida.SortSearch.{rank, IsOrder, IsSorted, Finds, SortSearch}
use mathlib.Core.List.{
  Mem, Perm, mem-cons_self, mem-cons_of_mem, Mem-prop, not-mem-nil, eq-or-mem_of_mem-cons,
}
use mathlib.Core.List.Perm
use mathlib.Core.Logic.Or
use mathlib.Core.HLevel.{⊥_prop}
use native.Mathlib.Bridge.{le_prop}

module _ {A : Type 0} (compare : A → A → ℤ) where
  insert : A → List A → List A
  insert x [] = x ∷ []
  insert x (y ∷ ys) =
      let rest = insert x ys in if leb (rank (compare x y)) 1 then x ∷ y ∷ ys else y ∷ rest

  unfoldable sort : List A → List A
  unfolding insert
  sort [] = []
  sort (x ∷ xs) = insert x (sort xs)

  unfoldable search : A → List A → Option A
  search key [] = none
  search key (x ∷ xs) =
      let rest = search key xs in if rank (compare key x) == 1 then some x else rest

  insert-perm : (x : A) (ys : List A) → Perm (insert x ys) (x ∷ ys)
  unfolding insert
  insert-perm x [] = Perm.refl (x ∷ [])
  insert-perm x (y ∷ ys) = elim (Bool-cases (leb (rank (compare x y)) 1)) [
    | inl e ↦ rw e (Perm.refl (x ∷ y ∷ ys))
    | inr e ↦ rw e (Perm.trans (Perm.cons y (insert-perm x ys)) (Perm.swap x y ys))
  ]

  sort-perm : (xs : List A) → Perm (sort xs) xs
  unfolding sort
  sort-perm [] = Perm.refl []
  sort-perm (x ∷ xs) = Perm.trans (insert-perm x (sort xs)) (Perm.cons x (sort-perm xs))

  sub_IsOrder :
      (xs ys : List A) → ((z : A) → Mem z xs → Mem z ys) → IsOrder compare ys → IsOrder compare xs
  sub_IsOrder xs ys s o = record {
    mirrored = λ x y mx my. o.mirrored x y (s x mx) (s y my);
    transitive = λ x y z mx my mz. o.transitive x y z (s x mx) (s y my) (s z mz);
  }

  cons_bound :
      (a b : A) (ys : List A)
      → rank (compare a b) ≤ 1
      → ((z : A) → Mem z ys → rank (compare a z) ≤ 1)
      → (z : A) → Mem z (b ∷ ys)
      → rank (compare a z) ≤ 1
  cons_bound a b ys h k z m =
      Or.elim le_prop (eq-or-mem_of_mem-cons m) (λ e. subst (λ w. rank (compare a w) ≤ 1) (sym e) h)
        (k z)

  insert-IsSorted :
      (x : A) (ys : List A)
      → IsOrder compare (x ∷ ys)
      → IsSorted compare ys
      → IsSorted compare (insert x ys)
  unfolding insert
  insert-IsSorted x [] o s = (λ z m. absurd (not-mem-nil m), tt)
  insert-IsSorted x (y ∷ ys) o s =
      let mx : Mem x (x ∷ y ∷ ys) = mem-cons_self in
      let my : Mem y (x ∷ y ∷ ys) = mem-cons_of_mem x mem-cons_self in
      let deep : (z : A) → Mem z ys → Mem z (x ∷ y ∷ ys) =
        λ z m. mem-cons_of_mem x (mem-cons_of_mem y m) in
      elim (Bool-cases (leb (rank (compare x y)) 1)) [
        | inl e ↦
            let le : rank (compare x y) ≤ 1 = ground (arith, e) in
            rw e (cons_bound x y ys le (λ z m. o.transitive x y z mx my (deep z m) le (s.0 z m)), s)
        | inr e ↦
            let le : rank (compare y x) ≤ 1 = ground (arith, e, o.mirrored x y mx my) in
            rw e (
              λ z m. cons_bound y x ys le s.0 z ((Perm.mem_iff (insert-perm x ys)).0 m),
              insert-IsSorted x ys
                  (sub_IsOrder (x ∷ ys) (x ∷ y ∷ ys)
                    (λ z m.
                      Or.elim Mem-prop (eq-or-mem_of_mem-cons m)
                        (λ q. subst (λ w. Mem w (x ∷ y ∷ ys)) (sym q) mx) (deep z))
                    o)
                  s.1,
            )
      ]

  sort-IsSorted : (xs : List A) → IsOrder compare xs → IsSorted compare (sort xs)
  unfolding sort
  sort-IsSorted [] o = tt
  sort-IsSorted (x ∷ xs) o =
      insert-IsSorted x (sort xs)
        (sub_IsOrder (x ∷ sort xs) (x ∷ xs) (λ z. (Perm.mem_iff (Perm.cons x (sort-perm xs))).0) o)
        (sort-IsSorted xs (sub_IsOrder xs (x ∷ xs) (λ z. mem-cons_of_mem x) o))

  search-Finds : (key : A) (xs : List A) → Finds compare key xs (search key xs)
  unfolding search
  search-Finds key [] = λ z m. absurd (not-mem-nil m)
  search-Finds key (x ∷ xs) = elim (Bool-cases (rank (compare key x) == 1)) [
    | inl e ↦ rw e (mem-cons_self, ground (arith, e))
    | inr e ↦ rw e (later (search key xs) (ground (arith, e)) (search-Finds key xs))
  ]
    where
      later :
          (r : Option A)
          → rank (compare key x) ≢ 1
          → Finds compare key xs r
          → Finds compare key (x ∷ xs) r
      later none n f = λ z m e.
          Or.elim ⊥_prop (eq-or-mem_of_mem-cons m)
            (λ q. n (ap (λ w. rank (compare key w)) (sym q) ∙ e)) (λ k. f z k e)
      later (some r) n f = (mem-cons_of_mem x f.0, f.1)

-- The instance that the examples run on.
pub reference : {A : Type 0} → SortSearch A
reference = record {
  qsort = sort;
  bsearch = search;
  qsort-perm = λ compare xs o. sort-perm compare xs;
  qsort-IsSorted = sort-IsSorted;
  bsearch-Finds = λ compare key xs p. search-Finds compare key xs;
}
