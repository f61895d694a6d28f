-- ===== src/Database/Trees/Tests.antt =====
-- The syntax tree of a file of two lines.
use ghetto_subscriber_valida.Prelude.{
  ℕ, ◌^◌, ◌<◌, ◌≡◌, refl, sym, ap, subst, List, [], ◌∷◌, map, length, true, some, ok, inr, arith,
  length-replicate,
}
use ghetto_subscriber_valida.CString.{codes, contains, is_prefix}
use ghetto_subscriber_valida.SyntaxTree.{Ast, node, Children, nil, cons, post}
use ghetto_subscriber_valida.SyntaxTree.Traversal.{visits-nodes_in}
use ghetto_subscriber_valida.SyntaxTree.Build.{mpc_ast_new, mpc_state_new}
use ghetto_subscriber_valida.SortSearch.Reference.{reference}
use ghetto_subscriber_valida.Database.{
  Database, Mpc, node_kind, str_to_entry, max_entries, parse_database_file,
}
use ghetto_subscriber_valida.Database.Order.{InWindow}
use ghetto_subscriber_valida.Database.Lines.{lines}
use ghetto_subscriber_valida.Database.Init.{Loads}
use ghetto_subscriber_valida.Database.Tests.{
  first_info, two_nodes, lines-two_nodes, two_infos-InWindow, blank_str, old_db,
}
use ghetto_subscriber_valida.Database.Trees.{
  node_of, seen, tokens_all, AreParts, IsLine, IsFile, parse_database_file-IsFile,
}

abbrev digit_trees : List ℕ → Children → Children
digit_trees [] rest = rest
digit_trees (c ∷ cs) rest = cons (mpc_ast_new (codes "digit|regex") (c ∷ [])) (digit_trees cs rest)

abbrev line_children : List ℕ → ℕ → Children
line_children cs flag = digit_trees cs (cons (mpc_ast_new (codes "paid|char") (flag ∷ [])) nil)

abbrev line_tree : List ℕ → ℕ → Ast
line_tree cs flag = node (codes "entry|>") [] mpc_state_new (line_children cs flag)

abbrev two_tree : Ast
two_tree = node (codes "database|>") [] mpc_state_new (
    cons (line_tree (codes "408554680604") b'1') (cons (line_tree (codes "408554680504") b'0') nil))

seen-two_tree : seen 40 two_tree ≡ two_nodes
seen-two_tree = ap (λ l. map node_of l) (visits-nodes_in post two_tree 40)

digit_trees-AreParts :
    (cs : List ℕ) (rest : Children) → AreParts rest → AreParts (digit_trees cs rest)
unfolding node_kind contains is_prefix
digit_trees-AreParts [] rest p = p
digit_trees-AreParts (c ∷ cs) rest p = (((λ e. cc e), tt), digit_trees-AreParts cs rest p)

line_tree-IsLine :
    (cs : List ℕ) (flag : ℕ) → tokens_all (line_children cs flag) ≡ 13 → IsLine (line_tree cs flag)
unfolding node_kind contains is_prefix
line_tree-IsLine cs flag h = (refl, digit_trees-AreParts cs _ (((λ e. cc e), tt), tt), h)

two_tree-IsFile : IsFile two_tree
unfolding node_kind contains is_prefix
two_tree-IsFile = inr (
  refl,
  (
    line_tree-IsLine (codes "408554680604") b'1' refl,
    (line_tree-IsLine (codes "408554680504") b'0' refl, tt),
  ),
)

abbrev two_file : Mpc
two_file = record { grammar_ok = true; parse_contents = λ filename. some (seen 40 two_tree) }

parse_database_file-IsFile_example :
    (db' : Database) × (parse_database_file two_file reference blank_str (codes "db") old_db
      ≡ ok (true, db'))
    × Loads (2 ^ 31) (seen 40 two_tree) db'
parse_database_file-IsFile_example =
    parse_database_file-IsFile two_file reference (2 ^ 31) blank_str (codes "db") old_db two_tree 40
      refl refl (omega arith) two_tree-IsFile
      (subst (λ l. length (lines [] l) < max_entries) (sym seen-two_tree)
        (omega (arith, ap (λ (l : List (List ℕ)). length l) lines-two_nodes)))
      (subst (λ l. InWindow (2 ^ 31) (map str_to_entry (lines [] l))) (sym seen-two_tree)
        two_infos-InWindow)
      (length-replicate {A = ℕ} 8192 0) (length-replicate 4096 first_info)
