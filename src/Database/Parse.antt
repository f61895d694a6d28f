-- ===== src/Database/Parse.antt =====
-- The extraction of entries from a syntax tree, against the lines that its nodes spell.
use ghetto_subscriber_valida.Prelude.{
  ℕ, suc, ◌+◌, ◌≤◌, ◌<◌, ◌≡◌, ◌∙◌, refl, sym, List, [], ◌∷◌, ◌++◌, map, true, length, arith, ok,
  length-append,
}
use ghetto_subscriber_valida.Database.{
  AstNode, entry, token, other, node_kind, Extraction, str_to_entry, visit, extract, max_entries,
  put_token, finish_entry,
}
use mathlib.Core.List.{append-nil}
use ghetto_subscriber_valida.Database.Lines.{
  Adds, Adds-append, Adds-token, Holds, IsShaped, first_byte, lines, put_token-Holds, terminated,
  visit-entry,
}

-- What the loop comes to: the entries fit, and those of the lines have been added.
abbrev pub Extracts : List AstNode → List (List ℕ) → Extraction → Type 0
Extracts nodes ls st =
    (st' : Extraction) × (extract nodes st ≡ ok (true, st')) × Adds (map str_to_entry ls) st st'

module _ (node : AstNode) (nodes : List AstNode) (st st₁ : Extraction) where
  pub visit_of_entry :
      node_kind node ≡ entry → put_token 0 st ≡ ok st₁ → visit node st ≡ ok (finish_entry st₁)
  unfolding visit
  visit_of_entry e p = rw (e, visit, p)

  pub visit_of_token : node_kind node ≡ token → visit node st ≡ put_token (first_byte node) st
  unfolding visit
  visit_of_token e = rw (e, visit)

  pub visit_of_other : node_kind node ≡ other → visit node st ≡ ok st
  unfolding visit
  visit_of_other e = rw (e, visit)

  pub extract-cons :
      st.db_index < max_entries
      → visit node st ≡ ok st₁
      → extract (node ∷ nodes) st ≡ extract nodes st₁
  unfolding extract
  extract-cons f v = ground arith

-- One node, by its kind, in front of the rest of the loop.
module _ (node : AstNode) (nodes : List AstNode) (pending : List ℕ) (st : Extraction)
    (room : st.db_index < max_entries) where
  Extracts-entry :
      node_kind node ≡ entry
      → put_token 0 st ≡ ok (terminated st)
      → Adds (str_to_entry pending ∷ []) st (finish_entry (terminated st))
      → Extracts nodes (lines [] nodes) (finish_entry (terminated st))
      → Extracts (node ∷ nodes) (pending ∷ lines [] nodes) st
  Extracts-entry e put adds (st', run, more) = (
    st',
    extract-cons node nodes st _ room (visit_of_entry node nodes st (terminated st) e put) ∙ run,
    Adds-append (str_to_entry pending ∷ []) _ st _ st' adds more,
  )

  Extracts-token :
      (st₁ : Extraction)
      → node_kind node ≡ token
      → put_token (first_byte node) st ≡ ok st₁
      → Adds [] st st₁
      → (ls : List (List ℕ)) → Extracts nodes ls st₁
      → Extracts (node ∷ nodes) ls st
  Extracts-token st₁ e put adds ls (st', run, more) = (
    st',
    extract-cons node nodes st st₁ room (visit_of_token node nodes st st₁ e ∙ put) ∙ run,
    Adds-append [] _ st st₁ st' adds more,
  )

  Extracts-other :
      node_kind node ≡ other
      → (ls : List (List ℕ)) → Extracts nodes ls st
      → Extracts (node ∷ nodes) ls st
  Extracts-other e ls (st', run, more) =
      (st', extract-cons node nodes st st room (visit_of_other node nodes st st e) ∙ run, more)

-- The loop over nodes of the grammar's shape, with fewer entries than the array holds, ends with the
-- entries of the lines in the array, in their order. No write leaves `curr_str`.
pub extract-lines :
    (nodes : List AstNode) (pending : List ℕ) (st : Extraction)
    → Holds pending st
    → IsShaped (length pending) nodes
    → length pending ≤ 13
    → st.db_index + length (lines pending nodes) < max_entries
    → Extracts nodes (lines pending nodes) st
unfolding extract lines IsShaped finish_entry
extract-lines [] pending st h s l f =
    (st, refl, record { index = omega arith; filled = sym (append-nil _); size = h.capacity })
extract-lines (node ∷ nodes) pending st h s l f =
    (elim (node_kind node)
        as (λ k. node_kind node ≡ k → Extracts (node ∷ nodes) (lines pending (node ∷ nodes)) st) [
          | entry ↦ λ e.
              let shape : (length pending ≡ 13) × IsShaped 0 nodes = rw (e, IsShaped) at s in
              let room : st.db_index + suc (length (lines [] nodes)) < max_entries =
                rw (e, lines) at f in
              let step = visit-entry pending st h shape.0 (omega arith) in
              let rest =
                extract-lines nodes [] (finish_entry (terminated st)) step.1 shape.1 (omega arith)
                  (omega arith) in
              rw (e, lines)
                (Extracts-entry node nodes pending st (omega arith) e step.0 step.2 rest)
          | token ↦ λ e.
              let shape : (length pending < 13) × IsShaped (length pending + 1) nodes =
                rw (e, IsShaped) at s in
              let grown : List ℕ = pending ++ (first_byte node ∷ []) in
              let room : st.db_index + length (lines grown nodes) < max_entries =
                rw (e, lines) at f in
              let longer : length pending + 1 ≡ length grown =
                omega (arith, length-append pending (first_byte node ∷ [])) in
              let step = put_token-Holds pending (first_byte node) st h (omega arith) in
              let rest =
                extract-lines nodes grown _ step.1 (rw longer at (shape.1)) (omega arith) room in
              rw (e, lines)
                (Extracts-token node nodes pending st (omega arith) _ e step.0
                  (Adds-token st (first_byte node) h.capacity) (lines grown nodes) rest)
          | other ↦ λ e.
              let shape : IsShaped (length pending) nodes = rw (e, IsShaped) at s in
              let room : st.db_index + length (lines pending nodes) < max_entries =
                rw (e, lines) at f in
              let rest = extract-lines nodes pending st h shape l room in
              rw (e, lines)
                (Extracts-other node nodes pending st (omega arith) e (lines pending nodes) rest)
        ])
      refl
