-- ===== src/Database/Trees.antt =====
-- parse_database_file on the syntax tree of a file, as the iterator of mpc walks through it.
mod Tests
use ghetto_subscriber_valida.Prelude.{
  ℕ, zero, suc, ◌+◌, ◌<◌, ◌≤◌, ◌≡◌, ◌≢◌, ◌∙◌, refl, sym, ap, subst, List, [], ◌∷◌, map, true, some,
  ok, length, arith, inl, inr, ◌⊎◌, take_all,
}
use ghetto_subscriber_valida.SyntaxTree.{
  Ast, node, Children, nil, cons, TravOrder, post, mpc_ast_traverse_start,
}
use ghetto_subscriber_valida.SyntaxTree.Traversal.{
  postorder, postorder_all, nodes_in, visits, visits-nodes_in,
}
use ghetto_subscriber_valida.SortSearch.{SortSearch}
use ghetto_subscriber_valida.Database.{
  AstNode, NodeKind, entry, token, other, node_kind, ClientInfo, Database, Mpc, str_to_entry,
  max_entries, buf_size, parse_database_file,
}
use ghetto_subscriber_valida.Database.Order.{InWindow}
use ghetto_subscriber_valida.Database.Lines.{lines, IsShaped}
use ghetto_subscriber_valida.Database.Init.{Loads, parse_database_file-Loads}

-- What the loop reads of a tree.
abbrev pub node_of : Ast → AstNode
node_of (node tag contents state children) = record { tag = tag; contents = contents }

-- The tokens that a node is.
abbrev pub own : NodeKind → ℕ
own entry = 0
own token = 1
own other = 0

-- The tokens in a tree.
abbrev mutual
  pub tokens : Ast → ℕ
  tokens (node tag contents state children) =
      tokens_all children + own (node_kind (record { tag = tag; contents = contents }))

  pub tokens_all : Children → ℕ
  tokens_all nil = 0
  tokens_all (cons a as') = tokens a + tokens_all as'

-- A tree without entries: a number, a technology, blanks, or a flag.
abbrev mutual
  pub IsPart : Ast → Type 0
  IsPart (node tag contents state children) =
      (node_kind (record { tag = tag; contents = contents }) ≢ entry) × AreParts children

  pub AreParts : Children → Type 0
  AreParts nil = Unit
  AreParts (cons a as') = IsPart a × AreParts as'

-- The tree of a line: an entry over parts with 12 digits and the paid flag.
abbrev pub IsLine : Ast → Type 0
IsLine (node tag contents state children) =
    (node_kind (record { tag = tag; contents = contents }) ≡ entry)
    × AreParts children
    × (tokens_all children ≡ 13)

abbrev pub AreLines : Children → Type 0
AreLines nil = Unit
AreLines (cons a as') = IsLine a × AreLines as'

-- The tree of a file: one line, or a root over lines.
abbrev pub IsFile : Ast → Type 0
IsFile (node tag contents state children) =
    IsLine (node tag contents state children)
    ⊎ ((node_kind (record { tag = tag; contents = contents }) ≡ other) × AreLines children)

IsShaped-cons :
    (n : AstNode) (kind : NodeKind) (k : ℕ) (rest : List AstNode)
    → node_kind n ≡ kind
    → kind ≢ entry
    → k + own kind ≤ 13
    → IsShaped (k + own kind) rest
    → IsShaped k (n ∷ rest)
unfolding IsShaped
IsShaped-cons n entry k rest e ne h s = absurd (ne refl)
IsShaped-cons n token k rest e ne h s = rw (e, IsShaped) (omega arith, s)
IsShaped-cons n other k rest e ne h s =
    rw (e, IsShaped) (subst (λ j. IsShaped j rest) (omega arith) s)

mutual
  IsShaped-part :
      (a : Ast) (k : ℕ) (rest : List Ast)
      → IsPart a
      → k + tokens a ≤ 13
      → IsShaped (k + tokens a) (map node_of rest)
      → IsShaped k (map node_of (postorder a rest))
  IsShaped-part (node tag contents state children) k rest p h s =
      let n : AstNode = record { tag = tag; contents = contents } in
      IsShaped-parts children k (node tag contents state children ∷ rest) p.1 (omega arith) (
        IsShaped-cons n (node_kind n) (k + tokens_all children) (map node_of rest) refl p.0
          (omega arith) (subst (λ j. IsShaped j (map node_of rest)) (omega arith) s))

  IsShaped-parts :
      (as' : Children) (k : ℕ) (rest : List Ast)
      → AreParts as'
      → k + tokens_all as' ≤ 13
      → IsShaped (k + tokens_all as') (map node_of rest)
      → IsShaped k (map node_of (postorder_all as' rest))
  IsShaped-parts nil k rest p h s = subst (λ j. IsShaped j (map node_of rest)) (omega arith) s
  IsShaped-parts (cons a as') k rest p h s =
      IsShaped-part a k (postorder_all as' rest) p.0 (omega arith) (
        IsShaped-parts as' (k + tokens a) rest p.1 (omega arith)
          (subst (λ j. IsShaped j (map node_of rest)) (omega arith) s))

IsShaped-line :
    (a : Ast) (rest : List Ast)
    → IsLine a
    → IsShaped 0 (map node_of rest)
    → IsShaped 0 (map node_of (postorder a rest))
unfolding IsShaped
IsShaped-line (node tag contents state children) rest (e, p, h) s =
    IsShaped-parts children 0 (node tag contents state children ∷ rest) p (omega arith)
      (rw (e, IsShaped) (omega (arith, h), s))

IsShaped-lines :
    (as' : Children) (rest : List Ast)
    → AreLines as'
    → IsShaped 0 (map node_of rest)
    → IsShaped 0 (map node_of (postorder_all as' rest))
IsShaped-lines nil rest l s = s
IsShaped-lines (cons a as') rest l s =
    IsShaped-line a (postorder_all as' rest) l.0 (IsShaped-lines as' rest l.1 s)

-- The nodes of a file's tree have the shape that the loop counts on.
IsShaped-file : (root : Ast) → IsFile root → IsShaped 0 (map node_of (nodes_in post root))
unfolding IsShaped
IsShaped-file (node tag contents state children) (inl line) =
    IsShaped-line (node tag contents state children) [] line tt
IsShaped-file (node tag contents state children) (inr (e, ls)) =
    IsShaped-lines children (node tag contents state children ∷ []) ls (rw (e, IsShaped) tt)

-- The nodes that the iterator shows in the first rounds of the loop.
abbrev pub seen : ℕ → Ast → List AstNode
seen n root = map node_of (visits n (mpc_ast_traverse_start root post))

-- A file is loaded whose syntax tree is that of the grammar, one entry or a root over entries, each over 12
-- digits and the flag, in whatever parts, with fewer entries than the array has room for and
-- with all numbers in one stretch of 2 ^ 31: from the nodes that the iterator of mpc shows, in its order,
-- `parse_database_file` gets the entries of the file's lines, sorted for `lookup`, and returns true.
pub parse_database_file-IsFile :
    (mpc : Mpc) (std : SortSearch ClientInfo) (base : ℕ) (curr_str filename : List ℕ)
    (db : Database) (root : Ast) (n : ℕ)
    → mpc.grammar_ok ≡ true
    → mpc.parse_contents filename ≡ some (seen n root)
    → length (nodes_in post root) ≤ n
    → IsFile root
    → length (lines [] (seen n root)) < max_entries
    → InWindow base (map str_to_entry (lines [] (seen n root)))
    → length curr_str ≡ buf_size
    → length db.entries ≡ max_entries
    → (db' : Database) × (parse_database_file mpc std curr_str filename db ≡ ok (true, db'))
      × Loads base (seen n root) db'
parse_database_file-IsFile mpc std base curr_str filename db root n g p all file few w c k =
    let order : visits n (mpc_ast_traverse_start root post) ≡ nodes_in post root =
      visits-nodes_in post root n ∙ take_all n (nodes_in post root) all in
    parse_database_file-Loads mpc std base curr_str filename db (seen n root) g p
      (subst (λ l. IsShaped 0 (map node_of l)) (sym order) (IsShaped-file root file)) few w c k
