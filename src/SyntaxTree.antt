-- ===== src/SyntaxTree.antt =====
-- mpc.c and mpc.h: the syntax tree that parse_database_file reads, and the iterator that it reads it with.
pub mod Build
pub mod Traversal
pub mod Query
use ghetto_subscriber_valida.Prelude.{ℕ, zero, suc, ◌+◌, List, [], ◌∷◌, Option, none, some}
use ghetto_subscriber_valida.Prelude.Int.{ℤ}

-- `mpc_state_t`: the position in the text.
pub record ParseState : Type 0 where
  pub pos : ℤ
  pub row : ℤ
  pub col : ℤ

-- `mpc_ast_t`, and its array of children.
mutual
  pub data Ast : Type 0 where
    node : (tag contents : List ℕ) → ParseState → Children → Ast

  pub data Children : Type 0 where
    nil : Children
    cons : Ast → Children → Children

abbrev pub children_of : Ast → Children
children_of (node tag contents state children) = children

-- `children[i]`, which is there if and only if `i < children_num`.
unfoldable pub child_at : Children → ℕ → Option Ast
child_at nil i = none
child_at (cons a as') zero = some a
child_at (cons a as') (suc i) = child_at as' i

-- `mpc_ast_trav_order_t`.
pub data TravOrder : Type 0 where
  pre post : TravOrder

-- A `mpc_ast_trav_t` without its pointer to the parent; a traversal is the list of such structures from the
-- one at hand to the root, and NULL is the empty list.
pub record Trav : Type 0 where
  pub curr_node : Ast
  pub curr_child : ℕ
  pub order : TravOrder

-- A structure for a node of which no child has been visited.
abbrev pub fresh_trav : TravOrder → Ast → Trav
fresh_trav order a = record { curr_node = a; curr_child = 0; order = order }

-- The loops that go down to the leftmost node below a node that has been put in front.
unfoldable mutual
  pub go_leftmost : TravOrder → Ast → List Trav → List Trav
  go_leftmost order (node tag contents state children) trav = go_first order children trav

  pub go_first : TravOrder → Children → List Trav → List Trav
  go_first order nil trav = trav
  go_first order (cons a as') trav = go_leftmost order a (fresh_trav order a ∷ trav)

-- `mpc_ast_traverse_start`.
unfoldable pub mpc_ast_traverse_start : Ast → TravOrder → List Trav
mpc_ast_traverse_start ast pre = fresh_trav pre ast ∷ []
mpc_ast_traverse_start ast post = go_leftmost post ast (fresh_trav post ast ∷ [])

abbrev pub count_child : Trav → Trav
count_child t = record t { curr_child = suc t.curr_child }

-- The loop that goes up, and what follows it, in pre order.
unfoldable pub go_up : List Trav → List Trav
go_up [] = []
go_up (t ∷ trav) =
    let rest = go_up trav in
    elim (child_at (children_of t.curr_node) t.curr_child) [
      | none ↦ rest
      | some a ↦ fresh_trav t.order a ∷ count_child t ∷ trav
    ]

-- What follows the step to the parent in post order.
unfoldable pub go_on : List Trav → List Trav
go_on [] = []
go_on (t ∷ trav) = elim (child_at (children_of t.curr_node) (suc t.curr_child)) [
  | none ↦ count_child t ∷ trav
  | some a ↦ go_leftmost t.order a (fresh_trav t.order a ∷ count_child t ∷ trav)
]

abbrev pub step_by : TravOrder → Trav → List Trav → List Trav
step_by pre t trav = go_up (t ∷ trav)
step_by post t trav = go_on trav

-- `mpc_ast_traverse_next`: its result, and `*trav` after it.
unfoldable pub mpc_ast_traverse_next : List Trav → Option Ast × List Trav
mpc_ast_traverse_next [] = (none, [])
mpc_ast_traverse_next (t ∷ trav) = (some t.curr_node, step_by t.order t trav)
