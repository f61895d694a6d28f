-- ===== src/SyntaxTree/Query/Laws.antt =====
-- What comparing, searching, printing and freeing a tree have to do with its nodes.
use ghetto_subscriber_valida.Prelude.{
  ℕ, zero, suc, ◌+◌, ◌≡◌, ◌↔◌, not, ◌==◌, ==_iff, if◌then◌else◌, ◌∙◌, refl, sym, ap, List, [], ◌∷◌,
  ◌++◌, map, Bool, true, false, Option, none, some, Bool-cases, inl, inr, arith,
}
use mathlib.Core.List.{append_assoc, append-nil, map-append}
use ghetto_subscriber_valida.CString.{str_eq}
use ghetto_subscriber_valida.CString.Laws.{str_eq_iff}
use ghetto_subscriber_valida.SyntaxTree.{
  ParseState, Ast, node, Children, nil, cons, children_of, child_at, pre, post,
}
use ghetto_subscriber_valida.SyntaxTree.Build.{tag_of, mpc_state_new}
use ghetto_subscriber_valida.SyntaxTree.Traversal.{
  drop_children, postorder, postorder_all, preorder, preorder_all, nodes_in,
}
use ghetto_subscriber_valida.SyntaxTree.Query.{
  children_num, mpc_ast_eq, eq_each, index_from, child_from, mpc_ast_get_index_lb,
  mpc_ast_get_child_lb, Printed, null, placed, bare, print_line, print_node, print_each,
  mpc_ast_print, Block, mpc_ast_delete_no_children, delete_node, delete_each, mpc_ast_delete,
}

-- A tree without its positions.
abbrev mutual
  pub unplaced : Ast → Ast
  unplaced (node tag contents state children) =
      node tag contents mpc_state_new (unplaced_each children)

  pub unplaced_each : Children → Children
  unplaced_each nil = nil
  unplaced_each (cons a as') = cons (unplaced a) (unplaced_each as')

-- The blocks of some nodes.
abbrev pub blocks : List Ast → List Block
blocks [] = []
blocks (a ∷ as') = mpc_ast_delete_no_children a ++ blocks as'

mutual
  blocks-postorder :
      (a : Ast) (rest : List Ast) → delete_node a ++ blocks rest ≡ blocks (postorder a rest)
  blocks-postorder (node tag contents state children) rest =
      append_assoc (delete_each children)
        (mpc_ast_delete_no_children (node tag contents state children)) (blocks rest)
      ∙ blocks-postorder_all children (node tag contents state children ∷ rest)

  blocks-postorder_all :
      (as' : Children) (rest : List Ast)
      → delete_each as' ++ blocks rest ≡ blocks (postorder_all as' rest)
  blocks-postorder_all nil rest = refl
  blocks-postorder_all (cons a as') rest =
      append_assoc (delete_node a) (delete_each as') (blocks rest)
      ∙ ap (λ l. delete_node a ++ l) (blocks-postorder_all as' rest)
      ∙ blocks-postorder a (postorder_all as' rest)

-- `mpc_ast_delete` frees the blocks of each node of the tree, once each, in the order in which the iterator
-- goes through the nodes in post order.
pub mpc_ast_delete-nodes_in : (a : Ast) → mpc_ast_delete (some a) ≡ blocks (nodes_in post a)
mpc_ast_delete-nodes_in a = sym (append-nil (delete_node a)) ∙ blocks-postorder a []

-- The tag that a line shows.
abbrev pub shown : Printed → List ℕ
shown null = []
shown (placed d tag row col contents) = tag
shown (bare d tag) = tag

shown-print_line :
    (d : ℕ) (tag contents : List ℕ) (state : ParseState)
    → shown (print_line d tag contents state) ≡ tag
shown-print_line d tag contents state = ground arith

mutual
  shown-preorder :
      (d : ℕ) (a : Ast) (rest : List Ast)
      → map shown (print_node d a) ++ map tag_of rest ≡ map tag_of (preorder a rest)
  shown-preorder d (node tag contents state children) rest =
      rw (shown-print_line d tag contents state)
        (ap (◌∷◌ tag) (shown-preorder_all (d + 1) children rest))

  shown-preorder_all :
      (d : ℕ) (as' : Children) (rest : List Ast)
      → map shown (print_each d as') ++ map tag_of rest ≡ map tag_of (preorder_all as' rest)
  shown-preorder_all d nil rest = refl
  shown-preorder_all d (cons a as') rest =
      ap (λ l. l ++ map tag_of rest) (map-append shown (print_node d a) (print_each d as'))
      ∙ append_assoc (map shown (print_node d a)) (map shown (print_each d as')) (map tag_of rest)
      ∙ ap (λ l. map shown (print_node d a) ++ l) (shown-preorder_all d as' rest)
      ∙ shown-preorder d a (preorder_all as' rest)

-- `mpc_ast_print` prints one line for each node, in pre order, with the node's tag.
pub mpc_ast_print-nodes_in :
    (a : Ast) → map shown (mpc_ast_print (some a)) ≡ map tag_of (nodes_in pre a)
mpc_ast_print-nodes_in a = sym (append-nil (map shown (print_node 0 a))) ∙ shown-preorder 0 a []

abbrev head_of : Children → Option Ast
head_of nil = none
head_of (cons a as') = some a

abbrev tail_of : Children → Children
tail_of nil = nil
tail_of (cons a as') = as'

child_at-head_of : (as' : Children) (i : ℕ) → child_at as' i ≡ head_of (drop_children i as')
unfolding child_at
child_at-head_of nil zero = refl
child_at-head_of nil (suc i) = refl
child_at-head_of (cons a as') zero = refl
child_at-head_of (cons a as') (suc i) = child_at-head_of as' i

tail_of-drop_children :
    (as' : Children) (i : ℕ) → tail_of (drop_children i as') ≡ drop_children (suc i) as'
tail_of-drop_children nil zero = refl
tail_of-drop_children nil (suc i) = refl
tail_of-drop_children (cons a as') zero = refl
tail_of-drop_children (cons a as') (suc i) = tail_of-drop_children as' i

-- The child with an index that was found.
abbrev pub child_of : Children → Option ℕ → Option Ast
child_of as' none = none
child_of as' (some i) = child_at as' i

child_from-index_from :
    (all left : Children) (tag : List ℕ) (i : ℕ)
    → drop_children i all ≡ left
    → child_from left tag ≡ child_of all (index_from left tag i)
unfolding index_from child_from
child_from-index_from all nil tag i e = refl
child_from-index_from all (cons a as') tag i e = elim (Bool-cases (str_eq (tag_of a) tag)) [
  | inl same ↦ rw same (sym (child_at-head_of all i ∙ ap head_of e))
  | inr other ↦
      rw other (
        child_from-index_from all as' tag (suc i)
          (sym (tail_of-drop_children all i) ∙ ap tail_of e))
]

-- `mpc_ast_get_child_lb` gives the child at the index that `mpc_ast_get_index_lb` gives, or NULL if that
-- is -1.
pub mpc_ast_get_child_lb-mpc_ast_get_index_lb :
    (ast : Ast) (tag : List ℕ) (lb : ℕ)
    → mpc_ast_get_child_lb ast tag lb ≡ child_of (children_of ast) (mpc_ast_get_index_lb ast tag lb)
mpc_ast_get_child_lb-mpc_ast_get_index_lb ast tag lb =
    child_from-index_from (children_of ast) (drop_children lb (children_of ast)) tag lb refl

-- The guards of `mpc_ast_eq`.
guards_iff :
    (p q r s : Bool)
    → ((if not p then false else if not q then false else if not r then false else s) ≡ true)
      ↔ ((p ≡ true) × (q ≡ true) × (r ≡ true) × (s ≡ true))
guards_iff p q r s = ground arith

guard_iff : (p s : Bool) → ((if not p then false else s) ≡ true) ↔ ((p ≡ true) × (s ≡ true))
guard_iff p s = ground arith

children_num-unplaced_each : (as' : Children) → children_num (unplaced_each as') ≡ children_num as'
children_num-unplaced_each nil = refl
children_num-unplaced_each (cons a as') = ap suc (children_num-unplaced_each as')

abbrev contents_of : Ast → List ℕ
contents_of (node tag contents state children) = contents

abbrev head_or : Ast → Children → Ast
head_or d nil = d
head_or d (cons a as') = a

mutual
  unfolding mpc_ast_eq

  -- Two trees are equal for `mpc_ast_eq` exactly if they are equal but for their positions.
  pub mpc_ast_eq_iff : (a b : Ast) → (mpc_ast_eq a b ≡ true) ↔ (unplaced a ≡ unplaced b)
  mpc_ast_eq_iff (node tag contents state as') (node tag' contents' state' bs) =
      let guards =
        guards_iff (str_eq tag tag') (str_eq contents contents')
          (children_num as' == children_num bs) (eq_each as' bs) in
      (
        λ e.
            let (t, c, n, each) = guards.0 e in
            cc (
              (str_eq_iff tag tag').0 t,
              (str_eq_iff contents contents').0 c,
              (eq_each_iff as' bs ((==_iff (children_num as') (children_num bs)).0 n)).0 each,
            ),
        λ e.
            let same : unplaced_each as' ≡ unplaced_each bs = ap children_of e in
            let n : children_num as' ≡ children_num bs =
              sym (children_num-unplaced_each as')
              ∙ ap children_num same
              ∙ children_num-unplaced_each bs in
            guards.1 (
              (str_eq_iff tag tag').1 (ap tag_of e),
              (str_eq_iff contents contents').1 (ap contents_of e),
              (==_iff (children_num as') (children_num bs)).1 n,
              (eq_each_iff as' bs n).1 same,
            ),
      )

  eq_each_iff :
      (as' bs : Children)
      → children_num as' ≡ children_num bs
      → (eq_each as' bs ≡ true) ↔ (unplaced_each as' ≡ unplaced_each bs)
  eq_each_iff nil nil n = (λ e. refl, λ e. refl)
  eq_each_iff nil (cons b bs) n = absurd (omega arith)
  eq_each_iff (cons a as') nil n = absurd (omega arith)
  eq_each_iff (cons a as') (cons b bs) n =
      let guard = guard_iff (mpc_ast_eq a b) (eq_each as' bs) in
      let rest = eq_each_iff as' bs (omega arith) in
      (
        λ e. cc ((mpc_ast_eq_iff a b).0 (guard.0 e).0, rest.0 (guard.0 e).1),
        λ e. guard.1 ((mpc_ast_eq_iff a b).1 (ap (head_or (unplaced a)) e), rest.1 (ap tail_of e)),
      )
