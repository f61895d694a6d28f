-- ===== src/Database/Init.antt =====
-- `parse_database_file` from the syntax tree to the sorted array.
use ghetto_subscriber_valida.Prelude.{
  ℕ, suc, ◌<◌, ◌≡◌, ◌∙◌, ap, refl, sym, List, [], map, true, take, drop, length, arith, some, ok,
  take-length-append, length-map, subst,
}
use ghetto_subscriber_valida.SortSearch.{SortSearch, IsSorted}
use ghetto_subscriber_valida.Database.{
  AstNode, Extraction, ClientInfo, Database, Mpc, str_to_entry, max_entries, buf_size,
  compare_sub_num, parse_database_file, sort_entries,
}
use ghetto_subscriber_valida.Database.Order.{InWindow, compare_sub_num-IsOrder}
use ghetto_subscriber_valida.Database.Lookup.{IsSearchable, filled_entries}
use ghetto_subscriber_valida.Database.Parse.{extract-lines}
use ghetto_subscriber_valida.Database.Lines.{lines, IsShaped}
use mathlib.Core.List.{Perm, Permᴰ}
use mathlib.Core.List.Perm
use mathlib.Core.Logic.{∥∥₁_elim}
use native.Mathlib.Nat.{ℕ_set}

Permᴰ-length : {A : Type 0} {xs ys : List A} → Permᴰ xs ys → length xs ≡ length ys
Permᴰ-length Permᴰ.nil = refl
Permᴰ-length (Permᴰ.cons e p) = ap suc (Permᴰ-length p)
Permᴰ-length (Permᴰ.swap e f) = refl
Permᴰ-length (Permᴰ.trans p q) = Permᴰ-length p ∙ Permᴰ-length q

perm-length : {A : Type 0} {xs ys : List A} → Perm xs ys → length xs ≡ length ys
perm-length {xs = xs} {ys = ys} p = ∥∥₁_elim p (ℕ_set (length xs) (length ys)) Permᴰ-length

-- The database that a file of the grammar's shape ends up as.
pub record Loads (base : ℕ) (nodes : List AstNode) (db : Database) : Type 0 where
  pub count : db.n_filled ≡ length (lines [] nodes)
  pub entries_kept : Perm (filled_entries db) (map str_to_entry (lines [] nodes))
  pub searchable : IsSearchable base db

-- Sorting the filled part of the array leaves the sorted entries there.
module _ (std : SortSearch ClientInfo) (base : ℕ) (entries new : List ClientInfo) (n : ℕ) where
  module _ (w : InWindow base new) (h : n ≡ length new) (e : take n entries ≡ new) where
    take-sort_entries : take n (sort_entries std entries n) ≡ std.qsort compare_sub_num new
    unfolding sort_entries
    take-sort_entries =
        take-length-append n (std.qsort compare_sub_num (take n entries)) (drop n entries) (
          h
          ∙ sym (
              perm-length
                (std.qsort-perm compare_sub_num new (compare_sub_num-IsOrder base new w).0))
          ∙ ap (λ l. length (std.qsort compare_sub_num l)) (sym e))
        ∙ ap (std.qsort compare_sub_num) e

    sorted-InWindow : InWindow base (std.qsort compare_sub_num new)
    sorted-InWindow x m = w x (
        (Perm.mem_iff (std.qsort-perm compare_sub_num new (compare_sub_num-IsOrder base new w).0)).0
          m)

    sorted-IsSearchable :
        (db : Database) → std.qsort compare_sub_num new ≡ filled_entries db → IsSearchable base db
    sorted-IsSearchable db f = record {
      window = subst (InWindow base) f sorted-InWindow;
      sorted =
          subst (IsSorted compare_sub_num) f
            (std.qsort-IsSorted compare_sub_num new (compare_sub_num-IsOrder base new w).0);
    }

-- A file whose syntax tree has the grammar's shape, with fewer entries than the array has room for and
-- with all numbers in one stretch of 2 ^ 31, is loaded: `parse_database_file` returns true, no write
-- leaves a buffer, the entries in use are those of the file's lines in some order, as many as there are
-- lines, and they ascend, so that `lookup` can search them.
pub parse_database_file-Loads :
    (mpc : Mpc) (std : SortSearch ClientInfo) (base : ℕ) (curr_str filename : List ℕ)
    (db : Database) (nodes : List AstNode)
    → mpc.grammar_ok ≡ true
    → mpc.parse_contents filename ≡ some nodes
    → IsShaped 0 nodes
    → length (lines [] nodes) < max_entries
    → InWindow base (map str_to_entry (lines [] nodes))
    → length curr_str ≡ buf_size
    → length db.entries ≡ max_entries
    → (db' : Database) × (parse_database_file mpc std curr_str filename db ≡ ok (true, db'))
      × Loads base nodes db'
unfolding parse_database_file
parse_database_file-Loads mpc std base curr_str filename db nodes g p s f w c k =
    let start : Extraction = record {
      db_index = 0;
      entries = db.entries;
      curr_str = curr_str;
      curr_token = 0;
    } in
    let new : List ClientInfo = map str_to_entry (lines [] nodes) in
    let (st, run, adds) =
      extract-lines nodes [] start (record { count = refl; text = refl; room = c; capacity = k }) s
        (omega arith) (omega arith) in
    let db' : Database = record {
      entries = sort_entries std st.entries st.db_index;
      n_filled = st.db_index;
    } in
    let index : st.db_index ≡ length new = omega (arith, adds.index) in
    let sorted = take-sort_entries std base st.entries new st.db_index w index adds.filled in
    (
      db',
      rw (g, p, run),
      record {
        count = omega (arith, adds.index, length-map (lines [] nodes) str_to_entry);
        entries_kept =
            subst (λ l. Perm l new) (sym sorted)
              (std.qsort-perm compare_sub_num new (compare_sub_num-IsOrder base new w).0);
        searchable =
            sorted-IsSearchable std base st.entries new st.db_index w index adds.filled db'
              (sym sorted);
      },
    )
