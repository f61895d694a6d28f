-- ===== src/Database/Capacity.antt =====
-- A file with as many entries as the array holds is refused.
use ghetto_subscriber_valida.Prelude.{
  ℕ, suc, ◌+◌, ◌≤◌, ◌<◌, ◌≡◌, ◌∙◌, refl, List, [], ◌∷◌, ◌++◌, true, false, length, arith,
  length-append, ok, some,
}
use native.Mathlib.Decide.{dec_le}
use ghetto_subscriber_valida.SortSearch.{SortSearch}
use ghetto_subscriber_valida.Database.{
  AstNode, entry, token, other, node_kind, Extraction, ClientInfo, Database, Mpc, visit, extract,
  max_entries, buf_size, parse_database_file, finish_entry,
}
use ghetto_subscriber_valida.Database.Parse.{
  extract-cons, visit_of_entry, visit_of_token, visit_of_other,
}
use ghetto_subscriber_valida.Database.Lines.{
  lines, IsShaped, Holds, first_byte, visit-entry, put_token-Holds, terminated,
}

-- The loop stops with the message that the database is too large.
abbrev Refuses : List AstNode → Extraction → Type 0
Refuses nodes st = (st' : Extraction) × (extract nodes st ≡ ok (false, st'))

Refuses-full :
    (node : AstNode) (nodes : List AstNode) (st : Extraction)
    → max_entries ≤ st.db_index
    → Refuses (node ∷ nodes) st
unfolding extract
Refuses-full node nodes st h = (st, ground arith)

Refuses-cons :
    (node : AstNode) (nodes : List AstNode) (st st₁ : Extraction)
    → visit node st ≡ ok st₁
    → st.db_index < max_entries
    → Refuses nodes st₁
    → Refuses (node ∷ nodes) st
Refuses-cons node nodes st st₁ v f (st', run) = (st', extract-cons node nodes st st₁ f v ∙ run)

-- Once the array is full, the loop refuses at the next node, whatever it is; here the last one.
extract-full :
    (nodes : List AstNode) (root : AstNode) (pending : List ℕ) (st : Extraction)
    → Holds pending st
    → IsShaped (length pending) nodes
    → length pending ≤ 13
    → max_entries ≤ st.db_index + length (lines pending nodes)
    → Refuses (nodes ++ (root ∷ [])) st
unfolding lines IsShaped finish_entry
extract-full [] root pending st h s l f = Refuses-full root [] st (omega arith)
extract-full (node ∷ nodes) root pending st h s l f = elim (dec_le max_entries st.db_index) [
  | yes full ↦ Refuses-full node (nodes ++ (root ∷ [])) st full
  | no more ↦
      (elim (node_kind node)
          as (λ k. node_kind node ≡ k → Refuses (node ∷ (nodes ++ (root ∷ []))) st) [
            | entry ↦ λ e.
                let shape : (length pending ≡ 13) × IsShaped 0 nodes = rw (e, IsShaped) at s in
                let room : max_entries ≤ st.db_index + suc (length (lines [] nodes)) =
                  rw (e, lines) at f in
                let step = visit-entry pending st h shape.0 (omega arith) in
                Refuses-cons node _ st (finish_entry (terminated st))
                  (visit_of_entry node nodes st (terminated st) e step.0) (omega arith)
                  (extract-full nodes root [] (finish_entry (terminated st)) step.1 shape.1
                    (omega arith) (omega arith))
            | token ↦ λ e.
                let shape : (length pending < 13) × IsShaped (length pending + 1) nodes =
                  rw (e, IsShaped) at s in
                let grown : List ℕ = pending ++ (first_byte node ∷ []) in
                let room : max_entries ≤ st.db_index + length (lines grown nodes) =
                  rw (e, lines) at f in
                let longer : length pending + 1 ≡ length grown =
                  omega (arith, length-append pending (first_byte node ∷ [])) in
                let step = put_token-Holds pending (first_byte node) st h (omega arith) in
                Refuses-cons node _ st _ (visit_of_token node nodes st st e ∙ step.0) (omega arith)
                  (extract-full nodes root grown _ step.1 (rw longer at (shape.1)) (omega arith)
                    room)
            | other ↦ λ e.
                let shape : IsShaped (length pending) nodes = rw (e, IsShaped) at s in
                let room : max_entries ≤ st.db_index + length (lines pending nodes) =
                  rw (e, lines) at f in
                Refuses-cons node _ st st (visit_of_other node nodes st st e) (omega arith)
                  (extract-full nodes root pending st h shape l room)
          ])
        refl
]

-- A file whose syntax tree has at least MAX_ENTRIES entries below its root is refused, exactly MAX_ENTRIES
-- included: `parse_database_file` returns false and leaves `n_filled` as it was.
pub parse_database_file-full :
    (mpc : Mpc) (std : SortSearch ClientInfo) (curr_str filename : List ℕ) (db : Database)
    (nodes : List AstNode) (root : AstNode)
    → mpc.grammar_ok ≡ true
    → mpc.parse_contents filename ≡ some (nodes ++ (root ∷ []))
    → IsShaped 0 nodes
    → max_entries ≤ length (lines [] nodes)
    → length curr_str ≡ buf_size
    → length db.entries ≡ max_entries
    → (db' : Database) × (parse_database_file mpc std curr_str filename db ≡ ok (false, db'))
      × (db'.n_filled ≡ db.n_filled)
unfolding parse_database_file
parse_database_file-full mpc std curr_str filename db nodes root g p s f c k =
    let start : Extraction = record {
      db_index = 0;
      entries = db.entries;
      curr_str = curr_str;
      curr_token = 0;
    } in
    let (st, run) =
      extract-full nodes root [] start
        (record { count = refl; text = refl; room = c; capacity = k }) s (omega arith)
        (omega arith) in
    (record db { entries = st.entries }, rw (g, p, run), refl)
