-- ===== src/Macros/ForEach.antt =====
-- What FOR_EACH comes to.
use ghetto_subscriber_valida.Prelude.{
  suc, ◌<◌, ◌≤◌, ◌≡◌, ◌∙◌, refl, ap, List, [], ◌∷◌, ◌++◌, map, some, length, lt→ltb, arith,
}
use ghetto_subscriber_valida.Macros.{
  Arg, number, empty, Piece, used, semicolon, va_args, for_each_narg, for_each_n, call_for_each,
  for_each_body, for_each,
}

module _ {B : Type 0} where
  -- The uses of the macro, without the semicolons.
  abbrev pub uses : List (Piece B) → List B
  uses [] = []
  uses (used b ∷ ps) = b ∷ uses ps
  uses (semicolon ∷ ps) = uses ps

  uses-append : (ps : List (Piece B)) → uses (ps ++ (semicolon ∷ [])) ≡ uses ps
  uses-append [] = refl
  uses-append (used b ∷ ps) = ap (◌∷◌ b) (uses-append ps)
  uses-append (semicolon ∷ ps) = uses-append ps

module _ {A : Type 0} where
  -- Up to eight arguments are counted.
  for_each_narg-length :
      (args : List (Arg A)) → length args ≤ 8 → for_each_narg args ≡ some (number (length args))
  unfolding for_each_narg
  for_each_narg-length [] h = refl
  for_each_narg-length (_ ∷ []) h = refl
  for_each_narg-length (_ ∷ _ ∷ []) h = refl
  for_each_narg-length (_ ∷ _ ∷ _ ∷ []) h = refl
  for_each_narg-length (_ ∷ _ ∷ _ ∷ _ ∷ []) h = refl
  for_each_narg-length (_ ∷ _ ∷ _ ∷ _ ∷ _ ∷ []) h = refl
  for_each_narg-length (_ ∷ _ ∷ _ ∷ _ ∷ _ ∷ _ ∷ []) h = refl
  for_each_narg-length (_ ∷ _ ∷ _ ∷ _ ∷ _ ∷ _ ∷ _ ∷ []) h = refl
  for_each_narg-length (_ ∷ _ ∷ _ ∷ _ ∷ _ ∷ _ ∷ _ ∷ _ ∷ []) h = refl
  for_each_narg-length (_ ∷ _ ∷ _ ∷ _ ∷ _ ∷ _ ∷ _ ∷ _ ∷ _ ∷ args) h = absurd (omega arith)

module _ {A B : Type 0} where
  for_each_body-map :
      (what : Arg A → B) (x : Arg A) (args : List (Arg A))
      → (ps : List (Piece B)) × (for_each_body what (suc (length args)) (x ∷ args) ≡ some ps)
        × (uses ps ≡ map what (x ∷ args))
  for_each_body-map what x [] = (used (what x) ∷ [], refl, refl)
  for_each_body-map what x (y ∷ args) =
      let (ps, run, e) = for_each_body-map what y args in
      (
        used (what x) ∷ semicolon ∷ (ps ++ (semicolon ∷ [])),
        rw run refl,
        ap (◌∷◌ (what x)) (uses-append ps ∙ e),
      )

  for_each_n-map :
      (what : Arg A → B) (x : Arg A) (args : List (Arg A))
      → length args < 8
      → (ps : List (Piece B)) × (for_each_n what (suc (length args)) (x ∷ args) ≡ some ps)
        × (uses ps ≡ map what (x ∷ args))
  unfolding for_each_n
  for_each_n-map what x args h =
      rw (lt→ltb (suc (length args)) 9 (omega arith)) (for_each_body-map what x args)

  -- FOR_EACH uses its macro once on each of two to eight arguments, in their order; on a single argument
  -- it uses it once more, on nothing.
  pub for_each-map :
      (what : Arg A → B) (x : Arg A) (args : List (Arg A))
      → length args < 8
      → (ps : List (Piece B)) × (for_each what x args ≡ some ps)
        × (uses ps ≡ map what (x ∷ va_args args))
  unfolding for_each call_for_each
  for_each-map what x [] h =
      rw (for_each_narg-length (x ∷ empty ∷ []) (omega arith))
        (for_each_n-map what x (empty ∷ []) (omega arith))
  for_each-map what x (y ∷ args) h =
      rw (for_each_narg-length (x ∷ y ∷ args) (omega arith)) (for_each_n-map what x (y ∷ args) h)
