-- ===== src/SyntaxTree/Build.antt =====
-- mpc.c: the functions that build syntax trees. A pointer to a tree that may be NULL is
-- an option. The memory of the strings and arrays is as large as what they hold.
pub mod Text
use ghetto_subscriber_valida.Prelude.{
  ℕ, zero, suc, ◌-◌, ◌+◌, ◌==◌, List, [], ◌∷◌, ◌++◌, Bool, true, false, ◌&&◌, Option, none, some,
  Outcome, ok, fault, ◌>>=◌, length, take, if◌then◌else◌,
}
use ghetto_subscriber_valida.Prelude.Int.{pos}
use ghetto_subscriber_valida.CString.{codes, str_eq}
use ghetto_subscriber_valida.SyntaxTree.{ParseState, Ast, node, Children, nil, cons, children_of}

-- `mpc_state_new`.
abbrev pub mpc_state_new : ParseState
mpc_state_new = record { pos = pos 0; row = pos 0; col = pos 0 }

abbrev pub tag_of : Ast → List ℕ
tag_of (node tag contents state children) = tag

abbrev pub state_of : Ast → ParseState
state_of (node tag contents state children) = state

-- `mpc_ast_new`.
abbrev pub mpc_ast_new : List ℕ → List ℕ → Ast
mpc_ast_new tag contents = node tag contents mpc_state_new nil

-- An array with one more child at its end.
abbrev pub append_child : Children → Ast → Children
append_child nil a = cons a nil
append_child (cons b bs) a = cons b (append_child bs a)

-- `mpc_ast_add_child`.
abbrev pub mpc_ast_add_child : Ast → Ast → Ast
mpc_ast_add_child (node tag contents state children) a =
    node tag contents state (append_child children a)

-- `mpc_ast_build`.
abbrev pub add_each : Ast → List Ast → Ast
add_each r [] = r
add_each r (a ∷ as') = add_each (mpc_ast_add_child r a) as'

abbrev pub mpc_ast_build : List ℕ → List Ast → Ast
mpc_ast_build tag as' = add_each (mpc_ast_new tag []) as'

-- `mpc_ast_add_root`.
unfoldable pub mpc_ast_add_root : Option Ast → Option Ast
mpc_ast_add_root none = none
mpc_ast_add_root (some (node tag contents state nil)) = some (node tag contents state nil)
mpc_ast_add_root (some (node tag contents state (cons a nil))) =
    some (node tag contents state (cons a nil))
mpc_ast_add_root (some (node tag contents state (cons a (cons b bs)))) =
    some (
      mpc_ast_add_child (mpc_ast_new (codes ">") []) (node tag contents state (cons a (cons b bs))))

-- `mpc_ast_add_tag`.
unfoldable pub mpc_ast_add_tag : Option Ast → List ℕ → Option Ast
mpc_ast_add_tag none t = none
mpc_ast_add_tag (some (node tag contents state children)) t =
    some (node (t ++ (b'|' ∷ tag)) contents state children)

-- `mpc_ast_add_root_tag` on a tree: all of `t` but its last character goes in front. For an empty `t` the
-- length wraps around.
unfoldable pub mpc_ast_add_root_tag : Ast → List ℕ → Outcome Ast
mpc_ast_add_root_tag (node tag contents state children) [] = fault
mpc_ast_add_root_tag (node tag contents state children) (c ∷ t) =
    ok (node (take (length t) (c ∷ t) ++ tag) contents state children)

-- `mpc_ast_tag` and `mpc_ast_state`.
abbrev pub mpc_ast_tag : Ast → List ℕ → Ast
mpc_ast_tag (node tag contents state children) t = node t contents state children

abbrev pub mpc_ast_state : Ast → ParseState → Ast
mpc_ast_state (node tag contents state children) s = node tag contents s children

-- The loop of `mpcf_fold_ast` over the children of a tree.
abbrev pub add_children : Ast → Children → Ast
add_children r nil = r
add_children r (cons c cs) = add_children (mpc_ast_add_child r c) cs

-- A tree that `mpcf_fold_ast` takes into its result.
unfoldable pub fold_one : Ast → Ast → Outcome Ast
unfolding mpc_ast_add_root_tag
fold_one r (node tag contents state nil) = ok (mpc_ast_add_child r (node tag contents state nil))
fold_one r (node tag contents state (cons a nil)) =
    mpc_ast_add_root_tag a tag >>= λ a'. ok (mpc_ast_add_child r a')
fold_one r (node tag contents state (cons a (cons b bs))) = ok (add_children r (cons a (cons b bs)))

-- The loop of `mpcf_fold_ast`.
unfoldable pub fold_all : Ast → List (Option Ast) → Outcome Ast
unfolding fold_one
fold_all r [] = ok r
fold_all r (none ∷ xs) = fold_all r xs
fold_all r (some a ∷ xs) = fold_one r a >>= λ r'. fold_all r' xs

-- The state of the result is that of its first child, if it has one.
abbrev pub first_state : Ast → Ast
first_state (node tag contents state nil) = node tag contents state nil
first_state (node tag contents state (cons a as')) = node tag contents (state_of a) (cons a as')

-- What `mpcf_fold_ast` does when it does not return one of its arguments.
abbrev pub fold_new : List (Option Ast) → Outcome (Option Ast)
fold_new xs = fold_all (mpc_ast_new (codes ">") []) xs >>= λ r. ok (some (first_state r))

-- `mpcf_fold_ast`.
unfoldable pub mpcf_fold_ast : List (Option Ast) → Outcome (Option Ast)
unfolding fold_all
mpcf_fold_ast [] = ok none
mpcf_fold_ast (x ∷ []) = ok x
mpcf_fold_ast (x ∷ none ∷ []) = ok x
mpcf_fold_ast (none ∷ some b ∷ []) = ok (some b)
mpcf_fold_ast (some a ∷ some b ∷ []) = fold_new (some a ∷ some b ∷ [])
mpcf_fold_ast (x ∷ y ∷ z ∷ xs) = fold_new (x ∷ y ∷ z ∷ xs)

-- `mpcf_str_ast` and `mpcf_state_ast`.
abbrev pub mpcf_str_ast : List ℕ → Ast
mpcf_str_ast c = mpc_ast_new [] c

abbrev pub mpcf_state_ast : ParseState → Option Ast → Option Ast
mpcf_state_ast s none = none
mpcf_state_ast s (some a) = some (mpc_ast_state a s)
