-- ===== src/SyntaxTree/Query.antt =====
-- mpc.c: the functions that compare, search, print and free syntax trees.
pub mod Laws
use ghetto_subscriber_valida.Prelude.{
  ℕ, zero, suc, ◌+◌, ◌-◌, ◌%◌, ◌^◌, ◌==◌, List, [], ◌∷◌, ◌++◌, Bool, true, false, not, Option, none,
  some, length, if◌then◌else◌,
}
use ghetto_subscriber_valida.Prelude.Int.{ℤ, pos, negsuc}
use ghetto_subscriber_valida.CString.{str_eq}
use ghetto_subscriber_valida.SyntaxTree.{
  ParseState, Ast, node, Children, nil, cons, children_of, Trav,
}
use ghetto_subscriber_valida.SyntaxTree.Build.{tag_of}
use ghetto_subscriber_valida.SyntaxTree.Traversal.{drop_children}

abbrev pub children_num : Children → ℕ
children_num nil = 0
children_num (cons a as') = suc (children_num as')

-- `mpc_ast_eq`, and its loop over two arrays of the same length.
unfoldable mutual
  pub mpc_ast_eq : Ast → Ast → Bool
  mpc_ast_eq (node tag contents state as') (node tag' contents' state' bs) =
      let same = eq_each as' bs in
      if not (str_eq tag tag')
      then false
      else if not (str_eq contents contents')
      then false
      else if not (children_num as' == children_num bs)
      then false
      else same

  pub eq_each : Children → Children → Bool
  eq_each nil bs = true
  eq_each (cons a as') nil = false
  eq_each (cons a as') (cons b bs) =
      let rest = eq_each as' bs in if not (mpc_ast_eq a b) then false else rest

-- The loops of `mpc_ast_get_index_lb` and `mpc_ast_get_child_lb` over the children from one on. The index
-- -1 is `none`.
unfoldable pub index_from : Children → List ℕ → ℕ → Option ℕ
index_from nil tag i = none
index_from (cons a as') tag i =
    let rest = index_from as' tag (suc i) in if str_eq (tag_of a) tag then some i else rest

unfoldable pub child_from : Children → List ℕ → Option Ast
child_from nil tag = none
child_from (cons a as') tag =
    let rest = child_from as' tag in if str_eq (tag_of a) tag then some a else rest

abbrev pub mpc_ast_get_index_lb : Ast → List ℕ → ℕ → Option ℕ
mpc_ast_get_index_lb ast tag lb = index_from (drop_children lb (children_of ast)) tag lb

abbrev mpc_ast_get_index : Ast → List ℕ → Option ℕ
mpc_ast_get_index ast tag = mpc_ast_get_index_lb ast tag 0

abbrev pub mpc_ast_get_child_lb : Ast → List ℕ → ℕ → Option Ast
mpc_ast_get_child_lb ast tag lb = child_from (drop_children lb (children_of ast)) tag

abbrev mpc_ast_get_child : Ast → List ℕ → Option Ast
mpc_ast_get_child ast tag = mpc_ast_get_child_lb ast tag 0

-- A line that `mpc_ast_print_depth` prints: its depth, and what `fprintf` is given.
pub data Printed : Type 0 where
  null : Printed
  placed : ℕ → List ℕ → ℕ → ℕ → List ℕ → Printed
  bare : ℕ → List ℕ → Printed

-- The number behind this one, as an `unsigned long` of 64 bits.
abbrev ulong_after : ℤ → ℕ
ulong_after (pos n) = (n + 1) % 2 ^ 64
ulong_after (negsuc n) = (2 ^ 64 - n) % 2 ^ 64

abbrev pub print_line : ℕ → List ℕ → List ℕ → ParseState → Printed
print_line d tag contents state =
    if not (length contents == 0)
    then placed d tag (ulong_after state.row) (ulong_after state.col) contents
    else bare d tag

abbrev mutual
  pub print_node : ℕ → Ast → List Printed
  print_node d (node tag contents state children) =
      print_line d tag contents state ∷ print_each (d + 1) children

  pub print_each : ℕ → Children → List Printed
  print_each d nil = []
  print_each d (cons a as') = print_node d a ++ print_each d as'

-- `mpc_ast_print_depth` and `mpc_ast_print`.
abbrev pub mpc_ast_print_depth : Option Ast → ℕ → List Printed
mpc_ast_print_depth none d = null ∷ []
mpc_ast_print_depth (some a) d = print_node d a

abbrev pub mpc_ast_print : Option Ast → List Printed
mpc_ast_print a = mpc_ast_print_depth a 0

-- A piece of memory that is handed to `free`.
pub data Block : Type 0 where
  children_array tag_text contents_text whole : Ast → Block

-- `mpc_ast_delete_no_children`.
abbrev pub mpc_ast_delete_no_children : Ast → List Block
mpc_ast_delete_no_children a = children_array a ∷ tag_text a ∷ contents_text a ∷ whole a ∷ []

-- `mpc_ast_delete`: what it frees, in its order.
abbrev mutual
  pub delete_node : Ast → List Block
  delete_node (node tag contents state children) =
      delete_each children ++ mpc_ast_delete_no_children (node tag contents state children)

  pub delete_each : Children → List Block
  delete_each nil = []
  delete_each (cons a as') = delete_node a ++ delete_each as'

abbrev pub mpc_ast_delete : Option Ast → List Block
mpc_ast_delete none = []
mpc_ast_delete (some a) = delete_node a

-- `mpc_ast_traverse_free`: what it frees, and `*trav` after it.
unfoldable mpc_ast_traverse_free : List Trav → List Trav × List Trav
mpc_ast_traverse_free [] = ([], [])
mpc_ast_traverse_free (t ∷ trav) =
    let (freed, after) = mpc_ast_traverse_free trav in (t ∷ freed, after)
