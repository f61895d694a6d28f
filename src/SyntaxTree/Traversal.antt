-- ===== src/SyntaxTree/Traversal.antt =====
-- The nodes that the iterator visits.
use ghetto_subscriber_valida.Prelude.{
  ℕ, zero, suc, ◌≡◌, ◌∙◌, refl, sym, ap, List, [], ◌∷◌, Option, none, some, take, All,
}
use ghetto_subscriber_valida.SyntaxTree.{
  Ast, node, Children, nil, cons, children_of, child_at, TravOrder, pre, post, Trav, fresh_trav,
  go_leftmost, mpc_ast_traverse_start, count_child, go_up, go_on, step_by, mpc_ast_traverse_next,
}

-- The nodes of a tree in front of some others: each behind those below it, or in front of them.
abbrev mutual
  pub postorder : Ast → List Ast → List Ast
  postorder (node tag contents state children) rest =
      postorder_all children (node tag contents state children ∷ rest)

  pub postorder_all : Children → List Ast → List Ast
  postorder_all nil rest = rest
  postorder_all (cons a as') rest = postorder a (postorder_all as' rest)

abbrev mutual
  pub preorder : Ast → List Ast → List Ast
  preorder (node tag contents state children) rest =
      node tag contents state children ∷ preorder_all children rest

  pub preorder_all : Children → List Ast → List Ast
  preorder_all nil rest = rest
  preorder_all (cons a as') rest = preorder a (preorder_all as' rest)

abbrev pub nodes_in : TravOrder → Ast → List Ast
nodes_in pre a = preorder a []
nodes_in post a = postorder a []

-- The nodes that a loop like the one of parse_database_file sees in its first rounds, up to NULL.
abbrev pub visits : ℕ → List Trav → List Ast
visits zero trav = []
visits (suc n) [] = []
visits (suc n) (t ∷ trav) = t.curr_node ∷ visits n (mpc_ast_traverse_next (t ∷ trav)).1

abbrev pub drop_children : ℕ → Children → Children
drop_children zero as' = as'
drop_children (suc n) nil = nil
drop_children (suc n) (cons a as') = drop_children n as'

-- What a result of `child_at` says of the children that are left.
abbrev Splits : Children → ℕ → Option Ast → Type 0
Splits as' i none = drop_children i as' ≡ nil
Splits as' i (some a) = drop_children i as' ≡ cons a (drop_children (suc i) as')

child_at-Splits : (as' : Children) (i : ℕ) → Splits as' i (child_at as' i)
unfolding child_at
child_at-Splits nil zero = refl
child_at-Splits nil (suc i) = refl
child_at-Splits (cons a as') zero = refl
child_at-Splits (cons a as') (suc i) = child_at-Splits as' i

-- What is left to visit in post order: behind a structure, and from it on.
abbrev behind : List Trav → List Ast
behind [] = []
behind (t ∷ trav) =
    postorder_all (drop_children (suc t.curr_child) (children_of t.curr_node))
      (t.curr_node ∷ behind trav)

abbrev from_post : List Trav → List Ast
from_post [] = []
from_post (t ∷ trav) = t.curr_node ∷ behind trav

go_leftmost-postorder :
    (order : TravOrder) (a : Ast) (trav : List Trav)
    → from_post (go_leftmost order a (fresh_trav order a ∷ trav)) ≡ postorder a (behind trav)
unfolding go_leftmost
go_leftmost-postorder order (node tag contents state nil) trav = refl
go_leftmost-postorder order (node tag contents state (cons b bs)) trav =
    go_leftmost-postorder order b (fresh_trav order (node tag contents state (cons b bs)) ∷ trav)

-- What is left to visit in pre order.
abbrev ahead : List Trav → List Ast
ahead [] = []
ahead (t ∷ trav) = preorder_all (drop_children t.curr_child (children_of t.curr_node)) (ahead trav)

abbrev from_pre : List Trav → List Ast
from_pre [] = []
from_pre (t ∷ trav) = t.curr_node ∷ ahead (t ∷ trav)

abbrev HaveOrder : TravOrder → List Trav → Type 0
HaveOrder order trav = All (λ t. t.order ≡ order) trav

go_on-behind : (trav : List Trav) → from_post (go_on trav) ≡ behind trav
unfolding go_on
go_on-behind [] = refl
go_on-behind (t ∷ trav) =
    on_child (child_at (children_of t.curr_node) (suc t.curr_child))
      (child_at-Splits (children_of t.curr_node) (suc t.curr_child))
  where
    on_child :
        (r : Option Ast)
        → Splits (children_of t.curr_node) (suc t.curr_child) r
        → from_post (elim r [
          | none ↦ count_child t ∷ trav
          | some a ↦ go_leftmost t.order a (fresh_trav t.order a ∷ count_child t ∷ trav)
        ])
          ≡ behind (t ∷ trav)
    on_child none e = rw e refl
    on_child (some a) e = rw e (go_leftmost-postorder t.order a (count_child t ∷ trav))

preorder-children :
    (a : Ast) (rest : List Ast) → preorder a rest ≡ a ∷ preorder_all (children_of a) rest
preorder-children (node tag contents state children) rest = refl

go_up-ahead : (trav : List Trav) → from_pre (go_up trav) ≡ ahead trav
unfolding go_up
go_up-ahead [] = refl
go_up-ahead (t ∷ trav) =
    on_child (go_up-ahead trav) (child_at (children_of t.curr_node) t.curr_child)
      (child_at-Splits (children_of t.curr_node) t.curr_child)
  where
    on_child :
        from_pre (go_up trav) ≡ ahead trav
        → (r : Option Ast) → Splits (children_of t.curr_node) t.curr_child r
        → from_pre
            (elim r [ none ↦ go_up trav | some a ↦ fresh_trav t.order a ∷ count_child t ∷ trav ])
          ≡ ahead (t ∷ trav)
    on_child up none e = rw e up
    on_child up (some a) e = rw e (sym (preorder-children a (ahead (count_child t ∷ trav))))

module _ (order : TravOrder) where
  go_leftmost-HaveOrder :
      (o : TravOrder) (a : Ast) (trav : List Trav)
      → o ≡ order
      → HaveOrder order trav
      → HaveOrder order (go_leftmost o a trav)
  unfolding go_leftmost
  go_leftmost-HaveOrder o (node tag contents state nil) trav e h = h
  go_leftmost-HaveOrder o (node tag contents state (cons b bs)) trav e h =
      go_leftmost-HaveOrder o b (fresh_trav o b ∷ trav) e (e, h)

  go_on-HaveOrder : (trav : List Trav) → HaveOrder order trav → HaveOrder order (go_on trav)
  unfolding go_on
  go_on-HaveOrder [] h = h
  go_on-HaveOrder (t ∷ trav) h = on_child (child_at (children_of t.curr_node) (suc t.curr_child))
    where
      on_child :
          (r : Option Ast)
          → HaveOrder order (elim r [
            | none ↦ count_child t ∷ trav
            | some a ↦ go_leftmost t.order a (fresh_trav t.order a ∷ count_child t ∷ trav)
          ])
      on_child none = h
      on_child (some a) =
          go_leftmost-HaveOrder t.order a (fresh_trav t.order a ∷ count_child t ∷ trav) h.0 (h.0, h)

  go_up-HaveOrder : (trav : List Trav) → HaveOrder order trav → HaveOrder order (go_up trav)
  unfolding go_up
  go_up-HaveOrder [] h = h
  go_up-HaveOrder (t ∷ trav) h =
      on_child (go_up-HaveOrder trav h.1) (child_at (children_of t.curr_node) t.curr_child)
    where
      on_child :
          HaveOrder order (go_up trav)
          → (r : Option Ast)
          → HaveOrder order
              (elim r [ none ↦ go_up trav | some a ↦ fresh_trav t.order a ∷ count_child t ∷ trav ])
      on_child up none = up
      on_child up (some a) = (h.0, h)

visits-from_post :
    (n : ℕ) (trav : List Trav) → HaveOrder post trav → visits n trav ≡ take n (from_post trav)
unfolding mpc_ast_traverse_next
visits-from_post zero trav h = refl
visits-from_post (suc n) [] h = refl
visits-from_post (suc n) (t ∷ trav) h =
    ap (λ o. t.curr_node ∷ visits n (step_by o t trav)) h.0
    ∙ ap (◌∷◌ t.curr_node) (
        visits-from_post n (go_on trav) (go_on-HaveOrder post trav h.1)
        ∙ ap (take n) (go_on-behind trav))

visits-from_pre :
    (n : ℕ) (trav : List Trav) → HaveOrder pre trav → visits n trav ≡ take n (from_pre trav)
unfolding mpc_ast_traverse_next
visits-from_pre zero trav h = refl
visits-from_pre (suc n) [] h = refl
visits-from_pre (suc n) (t ∷ trav) h =
    ap (λ o. t.curr_node ∷ visits n (step_by o t trav)) h.0
    ∙ ap (◌∷◌ t.curr_node) (
        visits-from_pre n (go_up (t ∷ trav)) (go_up-HaveOrder pre (t ∷ trav) h)
        ∙ ap (take n) (go_up-ahead (t ∷ trav)))

-- From `mpc_ast_traverse_start` on, `mpc_ast_traverse_next` goes through all the nodes of the tree
-- once, in pre order or in post order as asked for, and then reaches NULL: for any number of rounds, a
-- loop over it sees that many of the first of these nodes, and no more than there are.
pub visits-nodes_in :
    (order : TravOrder) (a : Ast) (n : ℕ)
    → visits n (mpc_ast_traverse_start a order) ≡ take n (nodes_in order a)
unfolding mpc_ast_traverse_start
visits-nodes_in pre (node tag contents state children) n =
    visits-from_pre n (fresh_trav pre (node tag contents state children) ∷ []) (refl, tt)
visits-nodes_in post a n =
    visits-from_post n (go_leftmost post a (fresh_trav post a ∷ []))
      (go_leftmost-HaveOrder post post a (fresh_trav post a ∷ []) refl (refl, tt))
    ∙ ap (take n) (go_leftmost-postorder post a [])
