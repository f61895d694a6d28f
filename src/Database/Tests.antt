-- ===== src/Database/Tests.antt =====
-- database.c on concrete files.
use ghetto_subscriber_valida.Prelude.{
  ℕ, zero, suc, ◌+◌, ◌^◌, ◌%◌, ◌<◌, ◌≤◌, ◌≡◌, ◌↔◌, ap, ◌∙◌, sym, subst, refl, List, [], ◌∷◌, ◌++◌,
  map, length, replicate, true, false, some, ok, arith, All-mem, length-replicate,
}
use ghetto_subscriber_valida.CString.{
  codes, contains, is_prefix, strtol, until_nul, scan_number, scan_sign, scan_digits,
  starts_with_digit, skip_spaces, is_digit, is_space,
}
use ghetto_subscriber_valida.SortSearch.{rank, IsOrder}
use ghetto_subscriber_valida.SortSearch.Reference.{reference}
use ghetto_subscriber_valida.Database.{
  ClientInfo, Database, AstNode, Mpc, Extraction, entry, token, other, node_kind, str_to_entry,
  compare_sub_num, parse_database_file, lookup,
}
use ghetto_subscriber_valida.Database.Order.{
  Within, InWindow, All-InWindow, compare_sub_num-IsOrder, compare_sub_num-cycle,
}
use ghetto_subscriber_valida.Database.Lookup.{IsSearchable, Answers, filled_entries, lookup-Answers}
use ghetto_subscriber_valida.Database.Parse.{Extracts, extract-lines}
use ghetto_subscriber_valida.Database.Lines.{first_byte, lines, IsShaped}
use mathlib.Core.List.{Mem, append_assoc, append-nil, not-mem-nil}
use native.Mathlib.Bridge.{le_prop}
use ghetto_subscriber_valida.Database.Capacity.{parse_database_file-full}
use ghetto_subscriber_valida.Database.Fields.{str_to_entry-fields, str_to_entry-alias}

-- The nodes of a token and of an entry, as mpc tags them.
abbrev pub digit_node : ℕ → AstNode
digit_node c = record { tag = codes "digit|regex"; contents = c ∷ [] }

abbrev pub paid_node : ℕ → AstNode
paid_node c = record { tag = codes "paid|char"; contents = c ∷ [] }

abbrev pub entry_node : AstNode
entry_node = record { tag = codes "entry|>"; contents = [] }

abbrev pub root_node : AstNode
root_node = record { tag = codes "database|>"; contents = [] }

abbrev pub digits : List ℕ → List AstNode → List AstNode
digits [] nodes = nodes
digits (c ∷ cs) nodes = digit_node c ∷ digits cs nodes

-- The nodes of a line with these digits and this flag, and of `n` such lines.
abbrev pub row : List ℕ → ℕ → List AstNode → List AstNode
row cs flag nodes = digits cs (paid_node flag ∷ entry_node ∷ nodes)

abbrev rows : ℕ → List AstNode
rows zero = []
rows (suc n) = row (codes "408554680504") b'1' (rows n)

digit_node-kind : (c : ℕ) → node_kind (digit_node c) ≡ token
unfolding node_kind contains is_prefix
digit_node-kind c = refl

paid_node-kind : (c : ℕ) → node_kind (paid_node c) ≡ token
unfolding node_kind contains is_prefix
paid_node-kind c = refl

entry_node-kind : node_kind entry_node ≡ entry
unfolding node_kind contains is_prefix
entry_node-kind = refl

root_node-kind : node_kind root_node ≡ other
unfolding node_kind contains is_prefix
root_node-kind = refl

lines-token :
    (node : AstNode) (pending : List ℕ) (nodes : List AstNode)
    → node_kind node ≡ token
    → lines pending (node ∷ nodes) ≡ lines (pending ++ (first_byte node ∷ [])) nodes
unfolding lines
lines-token node pending nodes e = rw (e, lines) refl

lines-digits :
    (cs pending : List ℕ) (nodes : List AstNode)
    → lines pending (digits cs nodes) ≡ lines (pending ++ cs) nodes
lines-digits [] pending nodes = ap (λ p. lines p nodes) (sym (append-nil pending))
lines-digits (c ∷ cs) pending nodes =
    lines-token (digit_node c) pending (digits cs nodes) (digit_node-kind c)
    ∙ lines-digits cs (pending ++ (c ∷ [])) nodes
    ∙ ap (λ p. lines p nodes) (append_assoc pending (c ∷ []) cs)

lines-row :
    (cs : List ℕ) (flag : ℕ) (nodes : List AstNode)
    → lines [] (row cs flag nodes) ≡ (cs ++ (flag ∷ [])) ∷ lines [] nodes
unfolding lines
lines-row cs flag nodes =
    lines-digits cs [] (paid_node flag ∷ entry_node ∷ nodes)
    ∙ lines-token (paid_node flag) cs (entry_node ∷ nodes) (paid_node-kind flag)
    ∙ rw (entry_node-kind, lines) refl

IsShaped-digits :
    (k : ℕ) (cs : List ℕ) (nodes : List AstNode)
    → k + length cs < 13
    → IsShaped (k + length cs) nodes
    → IsShaped k (digits cs nodes)
unfolding IsShaped
IsShaped-digits k [] nodes h s = subst (λ n. IsShaped n nodes) (omega arith) s
IsShaped-digits k (c ∷ cs) nodes h s =
    let rest : IsShaped (k + 1 + length cs) nodes = subst (λ n. IsShaped n nodes) (omega arith) s in
    rw (digit_node-kind c, IsShaped)
      (omega arith, IsShaped-digits (k + 1) cs nodes (omega arith) rest)

IsShaped-row :
    (cs : List ℕ) (flag : ℕ) (nodes : List AstNode)
    → length cs ≡ 12
    → IsShaped 0 nodes
    → IsShaped 0 (row cs flag nodes)
unfolding IsShaped
IsShaped-row cs flag nodes e s =
    IsShaped-digits 0 cs (paid_node flag ∷ entry_node ∷ nodes) (omega arith) (
      rw (paid_node-kind flag, IsShaped)
        (omega arith, rw (entry_node-kind, IsShaped) (omega arith, s)))

rows-IsShaped : (n : ℕ) → IsShaped 0 (rows n)
unfolding IsShaped
rows-IsShaped zero = tt
rows-IsShaped (suc n) = IsShaped-row (codes "408554680504") b'1' (rows n) refl (rows-IsShaped n)

length-rows : (n : ℕ) → length (lines [] (rows n)) ≡ n
unfolding lines
length-rows zero = refl
length-rows (suc n) =
    ap (λ (l : List (List ℕ)). length l) (lines-row (codes "408554680504") b'1' (rows n))
    ∙ ap suc (length-rows n)

-- A file of two lines, not in order.
abbrev pub two_nodes : List AstNode
two_nodes = row (codes "408554680604") b'1' (row (codes "408554680504") b'0' (root_node ∷ []))

abbrev pub two_lines : Mpc
two_lines = record { grammar_ok = true; parse_contents = λ filename. some two_nodes }

pub two_nodes-IsShaped : IsShaped 0 two_nodes
unfolding IsShaped
two_nodes-IsShaped =
    IsShaped-row (codes "408554680604") b'1' (row (codes "408554680504") b'0' (root_node ∷ [])) refl
      (IsShaped-row (codes "408554680504") b'0' (root_node ∷ []) refl
        (rw (root_node-kind, IsShaped) tt))

pub lines-two_nodes : lines [] two_nodes ≡ codes "4085546806041" ∷ codes "4085546805040" ∷ []
unfolding lines
lines-two_nodes =
    lines-row (codes "408554680604") b'1' (row (codes "408554680504") b'0' (root_node ∷ []))
    ∙ ap (λ l. codes "4085546806041" ∷ l)
        (lines-row (codes "408554680504") b'0' (root_node ∷ []) ∙ rw (root_node-kind, lines) refl)

abbrev pub first_info : ClientInfo
first_info = record { number = 4085546805; ttype = 4; paid = false }

abbrev second_info : ClientInfo
second_info = record { number = 4085546806; ttype = 4; paid = true }

two_entries : map str_to_entry (lines [] two_nodes) ≡ second_info ∷ first_info ∷ []
unfolding str_to_entry strtol until_nul scan_number scan_sign scan_digits starts_with_digit
    skip_spaces is_digit is_space
two_entries = ap (map str_to_entry) lines-two_nodes

pub two_infos-InWindow : InWindow (2 ^ 31) (map str_to_entry (lines [] two_nodes))
two_infos-InWindow =
    subst (InWindow (2 ^ 31)) (sym two_entries)
      (All-InWindow (2 ^ 31) (second_info ∷ first_info ∷ []) (ground arith))

abbrev pub full_array : List ClientInfo
full_array = replicate 4096 first_info

abbrev pub old_db : Database
old_db = record { entries = full_array; n_filled = 0 }

abbrev pub blank_str : List ℕ
blank_str = replicate 8192 0

-- A sorted database with two entries in use.
abbrev two_db : Database
two_db = record { entries = first_info ∷ second_info ∷ full_array; n_filled = 2 }

two_db-IsSearchable : IsSearchable (2 ^ 31) two_db
unfolding compare_sub_num
two_db-IsSearchable = record {
  window = All-InWindow (2 ^ 31) (first_info ∷ second_info ∷ []) (ground arith);
  sorted = (
    All-mem (λ y. rank (compare_sub_num first_info y) ≤ 1) (second_info ∷ []) (λ y. le_prop)
        (ground arith),
    (λ y m. absurd (not-mem-nil m), tt),
  );
}

two_db-Within : Within (2 ^ 31) 4085546806
two_db-Within = ground arith

lookup-Answers_example :
    Answers 4085546806 (filled_entries two_db) (lookup reference first_info two_db 4085546806)
lookup-Answers_example =
    lookup-Answers reference first_info (2 ^ 31) two_db 4085546806 two_db-IsSearchable two_db-Within

abbrev full_file : Mpc
full_file = record {
  grammar_ok = true;
  parse_contents = λ filename. some (rows 4096 ++ (root_node ∷ []));
}

parse_database_file-full_example :
    (db' : Database) × (parse_database_file full_file reference blank_str (codes "db") old_db
      ≡ ok (false, db'))
    × (db'.n_filled ≡ 0)
parse_database_file-full_example =
    parse_database_file-full full_file reference blank_str (codes "db") old_db (rows 4096) root_node
      refl refl (rows-IsShaped 4096) (omega (arith, length-rows 4096))
      (length-replicate {A = ℕ} 8192 0) (length-replicate 4096 first_info)

compare_sub_num-IsOrder_example :
    let xs : List ClientInfo = second_info ∷ first_info ∷ [] in
    IsOrder compare_sub_num xs
    × ((a b : ClientInfo)
        → Mem a xs
        → Mem b xs
        → (rank (compare_sub_num a b) ≡ 1) ↔ (a.number ≡ b.number))
compare_sub_num-IsOrder_example =
    compare_sub_num-IsOrder (2 ^ 31) (second_info ∷ first_info ∷ [])
      (All-InWindow (2 ^ 31) (second_info ∷ first_info ∷ []) (ground arith))

-- Subscribers 000-000-0001, 200-000-0000 and 400-000-0000.
abbrev numbered : ℕ → ClientInfo
numbered n = record first_info { number = n }

compare_sub_num-cycle_example :
    (rank (compare_sub_num (numbered 1) (numbered 2000000000)) ≡ 0)
    × (rank (compare_sub_num (numbered 2000000000) (numbered 4000000000)) ≡ 0)
    × (rank (compare_sub_num (numbered 4000000000) (numbered 1)) ≡ 0)
compare_sub_num-cycle_example =
    compare_sub_num-cycle (numbered 1) (numbered 2000000000) (numbered 4000000000) (omega arith)
      (omega arith) (omega arith) (omega arith) (omega arith) (omega arith)

abbrev paid_flag : ℕ
paid_flag = b'1'

str_to_entry-fields_example :
    ((str_to_entry (codes "4085546805041")).number ≡ 4085546805 % 2 ^ 32)
    × ((str_to_entry (codes "4085546805041")).ttype ≡ 4)
    × (((str_to_entry (codes "4085546805041")).paid ≡ true) ↔ (paid_flag ≡ b'1'))
str_to_entry-fields_example =
    str_to_entry-fields (codes "4085546805") (codes "04") b'1' (ground arith) (ground arith) refl
      refl

-- The subscribers 408-554-6805 and 838-051-4101 differ by 2 ^ 32.
str_to_entry-alias_example :
    (str_to_entry (codes "4085546805041")).number ≡ (str_to_entry (codes "8380514101071")).number
str_to_entry-alias_example =
    str_to_entry-alias (codes "4085546805") (codes "8380514101") (codes "04") (codes "07") b'1' b'1'
      1 (ground arith) (ground arith) (ground arith) (ground arith) refl refl refl refl refl

abbrev start : Extraction
start = record { db_index = 0; entries = full_array; curr_str = blank_str; curr_token = 0 }

extract-lines_example : Extracts two_nodes (lines [] two_nodes) start
extract-lines_example =
    extract-lines two_nodes [] start
      (record {
        count = refl;
        text = refl;
        room = length-replicate {A = ℕ} 8192 0;
        capacity = length-replicate 4096 first_info;
      })
      two_nodes-IsShaped (omega arith)
      (omega (arith, ap (λ (l : List (List ℕ)). length l) lines-two_nodes))
