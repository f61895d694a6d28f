-- ===== src/Database.antt =====
-- database.c and database.h: the subscriber database, its parser and its lookup.
pub mod Trees
pub mod Lines
pub mod Tests
pub mod Lookup
pub mod Capacity
pub mod Dump
pub mod Fields
pub mod Init
pub mod Order
pub mod Parse
use ghetto_subscriber_valida.Prelude.{
  ℕ, suc, ◌+◌, ◌-◌, ◌%◌, ◌^◌, ◌<◌, ◌≤◌, ◌≡◌, List, [], ◌∷◌, ◌++◌, Bool, true, false, ◌||◌, ltb, leb,
  ◌==◌, if◌then◌else◌, Option, none, some, Outcome, ok, aborted, fault, ◌>>=◌, length, take, drop,
  get_or, set,
}
use ghetto_subscriber_valida.Prelude.Int.{ℤ, pos, negsuc}
use ghetto_subscriber_valida.CString.{codes, until_nul, strtol, contains}
use ghetto_subscriber_valida.SortSearch.{SortSearch}

abbrev pub max_entries : ℕ
max_entries = 4096

abbrev pub subnum_strlen : ℕ
subnum_strlen = 10

abbrev pub tech_strlen : ℕ
tech_strlen = 2

-- BUFSIZ of <stdio.h>, in glibc.
abbrev pub buf_size : ℕ
buf_size = 8192

-- A `subscriber_num` is below 2 ^ 32 and a `tech_type` below 2 ^ 8.
pub record ClientInfo : Type 0 where
  pub number : ℕ
  pub ttype : ℕ
  pub paid : Bool

-- `entries` is the whole array, of which the first `n_filled` entries are in use.
pub record Database : Type 0 where
  pub entries : List ClientInfo
  pub n_filled : ℕ

-- `str_to_entry`: the first 10 bytes are the number, 2 the technology, 1 the paid flag. `strtol`
-- gives a `long`, which is cut to the width of the field.
unfoldable pub str_to_entry : List ℕ → ClientInfo
str_to_entry raw_str = record {
  number = strtol (until_nul (take subnum_strlen raw_str)) % 2 ^ 32;
  ttype = strtol (until_nul (take tech_strlen (drop subnum_strlen raw_str))) % 2 ^ 8;
  paid = get_or raw_str (subnum_strlen + tech_strlen) 0 == b'1';
}

-- A 32-bit pattern as an `int`.
abbrev pub signed32 : ℕ → ℤ
signed32 w = if ltb w (2 ^ 31) then pos w else negsuc (2 ^ 32 - w - 1)

-- The difference is unsigned and wraps; the `int` returned is its pattern.
unfoldable pub compare_sub_num : ClientInfo → ClientInfo → ℤ
compare_sub_num a b = signed32 ((a.number + 2 ^ 32 - b.number) % 2 ^ 32)

-- A node of the syntax tree, as the traversal of mpc shows it.
pub record AstNode : Type 0 where
  pub tag : List ℕ
  pub contents : List ℕ

-- The parser library mpc: whether it takes the grammar, and the nodes of a file's syntax tree in
-- the order of `mpc_ast_traverse_next`, children first; `none` is a file that does not parse.
pub record Mpc : Type 0 where
  pub grammar_ok : Bool
  pub parse_contents : List ℕ → Option (List AstNode)

-- What the loop looks for in a node's tag.
pub data NodeKind : Type 0 where
  entry token other : NodeKind

unfoldable pub node_kind : AstNode → NodeKind
node_kind node =
    if contains (codes "entry") node.tag
    then entry
    else if contains (codes "digit") node.tag || contains (codes "paid|char") node.tag
    then token
    else other

-- The variables of the loop: `curr_token` is an index into `curr_str`.
pub record Extraction : Type 0 where
  pub db_index : ℕ
  pub entries : List ClientInfo
  pub curr_str : List ℕ
  pub curr_token : ℕ

-- `*curr_token++ = c`, which no check guards.
unfoldable pub put_token : ℕ → Extraction → Outcome Extraction
put_token c st =
    if ltb st.curr_token (length st.curr_str)
    then ok
        (record st { curr_str = set st.curr_str st.curr_token c; curr_token = st.curr_token + 1 })
    else fault

-- The rest of the branch on an entry, behind `*curr_token++ = '\0'`.
unfoldable pub finish_entry : Extraction → Extraction
finish_entry st = record st {
  db_index = st.db_index + 1;
  entries = set st.entries st.db_index (str_to_entry st.curr_str);
  curr_token = 0;
}

-- The body of the loop, behind the check for storage overflow.
unfoldable pub visit : AstNode → Extraction → Outcome Extraction
unfolding put_token finish_entry
visit node st = elim (node_kind node) [
  | entry ↦ do st' ← put_token 0 st; ok (finish_entry st')
  | token ↦ put_token (get_or node.contents 0 0) st
  | other ↦ ok st
]

-- The loop: whether the entries fit, and the variables at its end.
unfoldable pub extract : List AstNode → Extraction → Outcome (Bool × Extraction)
extract [] st = ok (true, st)
extract (node ∷ nodes) st =
    if leb max_entries st.db_index
    then ok (false, st)
    else (visit node st >>= λ st'. extract nodes st')

module _ (std : SortSearch ClientInfo) where
  -- What is done with the extracted entries: the array is cut off, sorted and put back.
  unfoldable pub sort_entries : List ClientInfo → ℕ → List ClientInfo
  sort_entries entries n = std.qsort compare_sub_num (take n entries) ++ drop n entries

  unfoldable pub finish_parse : Database → Bool × Extraction → Bool × Database
  unfolding sort_entries
  finish_parse db (fits, st) =
      if fits
      then (true, record { entries = sort_entries st.entries st.db_index; n_filled = st.db_index })
      else (false, record db { entries = st.entries })

module _ (mpc : Mpc) (std : SortSearch ClientInfo) where
  -- `parse_database_file`: its result and `*db` after it. `curr_str` is not initialised: its bytes
  -- are an argument.
  unfoldable pub parse_database_file : List ℕ → List ℕ → Database → Outcome (Bool × Database)
  unfolding finish_parse
  parse_database_file curr_str filename db =
      if mpc.grammar_ok
      then (elim (mpc.parse_contents filename) [
        | none ↦ ok (false, db)
        | some nodes ↦ do
          let start : Extraction = record {
            db_index = 0;
            entries = db.entries;
            curr_str = curr_str;
            curr_token = 0;
          }
          result ← extract nodes start
          ok (finish_parse std db result)
      ])
      else aborted

-- `lookup`. Only the number of the dummy key is set, and only it is compared.
unfoldable pub lookup : SortSearch ClientInfo → ClientInfo → Database → ℕ → Option ClientInfo
lookup std dummy db num =
    std.bsearch compare_sub_num (record dummy { number = num }) (take db.n_filled db.entries)
