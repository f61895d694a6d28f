-- ===== src/SyntaxTree/Build/Text.antt =====
-- The text that a syntax tree holds.
use ghetto_subscriber_valida.Prelude.{
  ℕ, ◌≡◌, ◌≢◌, ◌∙◌, refl, sym, ap, List, [], ◌∷◌, ◌++◌, Option, none, some, All, ok,
}
use ghetto_subscriber_valida.CString.{codes}
use mathlib.Core.List.{append_assoc, append-nil}
use ghetto_subscriber_valida.SyntaxTree.{Ast, node, Children, nil, cons, children_of}
use ghetto_subscriber_valida.SyntaxTree.Build.{
  append_child, mpc_ast_new, mpc_ast_add_child, add_children, mpc_ast_add_root_tag, fold_one,
  fold_all, first_state, fold_new, mpcf_fold_ast,
}

-- The contents of the leaves, from left to right, in front of some others.
abbrev mutual
  pub text : Ast → List ℕ
  text (node tag contents state nil) = contents
  text (node tag contents state (cons a as')) = text a ++ text_all as'

  pub text_all : Children → List ℕ
  text_all nil = []
  text_all (cons a as') = text a ++ text_all as'

abbrev pub text_opt : Option Ast → List ℕ
text_opt none = []
text_opt (some a) = text a

abbrev pub texts : List (Option Ast) → List ℕ
texts [] = []
texts (x ∷ xs) = text_opt x ++ texts xs

-- A tree with one child has a tag.
abbrev pub HasTag : Option Ast → Type 0
HasTag none = Unit
HasTag (some (node tag contents state nil)) = Unit
HasTag (some (node tag contents state (cons a nil))) = tag ≢ []
HasTag (some (node tag contents state (cons a (cons b bs)))) = Unit

abbrev contents_of : Ast → List ℕ
contents_of (node tag contents state children) = contents

-- The text below a tree.
abbrev below : Ast → List ℕ
below r = text_all (children_of r)

text-below : (r : Ast) → contents_of r ≡ [] → text (first_state r) ≡ below r
text-below (node tag contents state nil) e = e
text-below (node tag contents state (cons a as')) e = refl

text_all-append_child :
    (as' : Children) (a : Ast) → text_all (append_child as' a) ≡ text_all as' ++ text a
text_all-append_child nil a = append-nil (text a)
text_all-append_child (cons b bs) a =
    ap (λ l. text b ++ l) (text_all-append_child bs a)
    ∙ sym (append_assoc (text b) (text_all bs) (text a))

-- A tree that has got more children, with this text in them.
abbrev Gains : Ast → Ast → List ℕ → Type 0
Gains r r' t = (below r' ≡ below r ++ t) × (contents_of r' ≡ contents_of r)

Gains-add_child : (r a : Ast) → Gains r (mpc_ast_add_child r a) (text a)
Gains-add_child (node tag contents state children) a = (text_all-append_child children a, refl)

Gains-append :
    (r₁ r₂ r₃ : Ast) (t u : List ℕ) → Gains r₁ r₂ t → Gains r₂ r₃ u → Gains r₁ r₃ (t ++ u)
Gains-append r₁ r₂ r₃ t u g h =
    (h.0 ∙ ap (λ l. l ++ u) g.0 ∙ append_assoc (below r₁) t u, h.1 ∙ g.1)

Gains-add_children : (r : Ast) (as' : Children) → Gains r (add_children r as') (text_all as')
Gains-add_children r nil = (sym (append-nil (below r)), refl)
Gains-add_children r (cons a as') =
    Gains-append r (mpc_ast_add_child r a) (add_children r (cons a as')) (text a) (text_all as')
      (Gains-add_child r a) (Gains-add_children (mpc_ast_add_child r a) as')

add_root_tag-text :
    (a : Ast) (t : List ℕ)
    → t ≢ []
    → (a' : Ast) × (mpc_ast_add_root_tag a t ≡ ok a') × (text a' ≡ text a)
unfolding mpc_ast_add_root_tag
add_root_tag-text a [] h = absurd (h refl)
add_root_tag-text (node tag contents state nil) (c ∷ t) h = (_, refl, refl)
add_root_tag-text (node tag contents state (cons b bs)) (c ∷ t) h = (_, refl, refl)

fold_one-Gains :
    (r a : Ast) → HasTag (some a) → (r' : Ast) × (fold_one r a ≡ ok r') × Gains r r' (text a)
unfolding fold_one
fold_one-Gains r (node tag contents state nil) h =
    (_, refl, Gains-add_child r (node tag contents state nil))
fold_one-Gains r (node tag contents state (cons a nil)) h =
    let (a', run, same) = add_root_tag-text a tag h in
    (
      mpc_ast_add_child r a',
      rw run refl,
      (
        (Gains-add_child r a').0 ∙ ap (λ l. below r ++ l) (same ∙ sym (append-nil (text a))),
        (Gains-add_child r a').1,
      ),
    )
fold_one-Gains r (node tag contents state (cons a (cons b bs))) h =
    (_, refl, Gains-add_children r (cons a (cons b bs)))

fold_all-Gains :
    (r : Ast) (xs : List (Option Ast))
    → All HasTag xs
    → (r' : Ast) × (fold_all r xs ≡ ok r') × Gains r r' (texts xs)
unfolding fold_all
fold_all-Gains r [] h = (r, refl, (sym (append-nil (below r)), refl))
fold_all-Gains r (none ∷ xs) h = fold_all-Gains r xs h.1
fold_all-Gains r (some a ∷ xs) h =
    let (r₁, run₁, g₁) = fold_one-Gains r a h.0 in
    let (r₂, run₂, g₂) = fold_all-Gains r₁ xs h.1 in
    (r₂, rw (run₁, run₂) refl, Gains-append r r₁ r₂ (text a) (texts xs) g₁ g₂)

fold_new-texts :
    (xs : List (Option Ast))
    → All HasTag xs
    → (r : Option Ast) × (fold_new xs ≡ ok r) × (text_opt r ≡ texts xs)
fold_new-texts xs h =
    let (r, run, g) = fold_all-Gains (mpc_ast_new (codes ">") []) xs h in
    (some (first_state r), rw run refl, text-below r g.1 ∙ g.0)

-- If each of the trees that has a single child has a tag, `mpcf_fold_ast` always returns, and what it
-- makes of the trees holds the same text as they do, from left to right: no leaf is lost, doubled or
-- moved, whichever of its shortcuts it takes.
pub mpcf_fold_ast-texts :
    (xs : List (Option Ast))
    → All HasTag xs
    → (r : Option Ast) × (mpcf_fold_ast xs ≡ ok r) × (text_opt r ≡ texts xs)
unfolding mpcf_fold_ast
mpcf_fold_ast-texts [] h = (none, refl, refl)
mpcf_fold_ast-texts (x ∷ []) h = (x, refl, sym (append-nil (text_opt x)))
mpcf_fold_ast-texts (x ∷ none ∷ []) h = (x, refl, sym (append-nil (text_opt x)))
mpcf_fold_ast-texts (none ∷ some b ∷ []) h = (some b, refl, sym (append-nil (text b)))
mpcf_fold_ast-texts (some a ∷ some b ∷ []) h = fold_new-texts (some a ∷ some b ∷ []) h
mpcf_fold_ast-texts (x ∷ y ∷ z ∷ xs) h = fold_new-texts (x ∷ y ∷ z ∷ xs) h
