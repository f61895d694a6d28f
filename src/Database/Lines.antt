-- ===== src/Database/Lines.antt =====
-- The lines that the nodes of a syntax tree spell, and what a token and an entry do.
use ghetto_subscriber_valida.Prelude.{
  ℕ, ◌+◌, ◌≤◌, ◌<◌, ◌≡◌, ◌∙◌, ap, refl, sym, List, [], ◌∷◌, ◌++◌, take, set, get_or, length, arith,
  ok, take-set_self, take-set_next, length-set, length-append,
}
use ghetto_subscriber_valida.Database.{
  AstNode, entry, token, other, node_kind, Extraction, ClientInfo, str_to_entry, max_entries,
  buf_size, put_token, finish_entry,
}
use mathlib.Core.List.{append_assoc, append-nil}

abbrev pub first_byte : AstNode → ℕ
first_byte node = get_or node.contents 0 0

-- The raw string of each entry: the first bytes of the tokens that came since the entry before it.
unfoldable pub lines : List ℕ → List AstNode → List (List ℕ)
lines pending [] = []
lines pending (node ∷ nodes) = elim (node_kind node) [
  | entry ↦ pending ∷ lines [] nodes
  | token ↦ lines (pending ++ (first_byte node ∷ [])) nodes
  | other ↦ lines pending nodes
]

-- What the grammar promises: an entry comes behind exactly 13 tokens, 12 digits and the paid flag.
-- The number is that of the tokens that are already there.
unfoldable pub IsShaped : ℕ → List AstNode → Type 0
IsShaped k [] = Unit
IsShaped k (node ∷ nodes) = elim (node_kind node) [
  | entry ↦ (k ≡ 13) × IsShaped 0 nodes
  | token ↦ (k < 13) × IsShaped (k + 1) nodes
  | other ↦ IsShaped k nodes
]

-- The variables of the loop when `pending` has been read of an entry.
pub record Holds (pending : List ℕ) (st : Extraction) : Type 0 where
  pub count : st.curr_token ≡ length pending
  pub text : take st.curr_token st.curr_str ≡ pending
  pub room : length st.curr_str ≡ buf_size
  pub capacity : length st.entries ≡ max_entries

-- What `new` entries have been added when the loop has gone from `st` to `st'`.
pub record Adds (new : List ClientInfo) (st st' : Extraction) : Type 0 where
  pub index : st'.db_index ≡ st.db_index + length new
  pub filled : take st'.db_index st'.entries ≡ take st.db_index st.entries ++ new
  pub size : length st'.entries ≡ max_entries

str_to_entry-take : (raw : List ℕ) → 13 ≤ length raw → str_to_entry raw ≡ str_to_entry (take 13 raw)
unfolding str_to_entry
str_to_entry-take (a ∷ b ∷ c ∷ d ∷ e ∷ f ∷ g ∷ h ∷ i ∷ j ∷ k ∷ l ∷ m ∷ raw) p = refl
str_to_entry-take _ p = absurd (omega arith)

-- A token is put behind the pending ones.
pub put_token-Holds :
    (pending : List ℕ) (c : ℕ) (st : Extraction)
    → Holds pending st
    → length pending < buf_size
    → let st' : Extraction = record st {
      curr_str = set st.curr_str st.curr_token c;
      curr_token = st.curr_token + 1;
    } in
      (put_token c st ≡ ok st') × Holds (pending ++ (c ∷ [])) st'
unfolding put_token
put_token-Holds pending c st h p = (
  ground (arith, h),
  record {
    count = omega (arith, h, length-append pending (c ∷ []));
    text =
        take-set_next st.curr_str st.curr_token c (omega (arith, h))
        ∙ ap (λ t. t ++ (c ∷ [])) h.text;
    room = length-set st.curr_str st.curr_token c ∙ h.room;
    capacity = h.capacity;
  },
)

abbrev pub terminated : Extraction → Extraction
terminated st = record st {
  curr_str = set st.curr_str st.curr_token 0;
  curr_token = st.curr_token + 1;
}

-- At an entry the pending tokens are read as one, and the buffer is empty again.
module _ (pending : List ℕ) (st : Extraction) (h : Holds pending st)
    (full : length pending ≡ 13) where
  str_to_entry-terminated : str_to_entry (set st.curr_str st.curr_token 0) ≡ str_to_entry pending
  str_to_entry-terminated =
      let raw : List ℕ = set st.curr_str st.curr_token 0 in
      let at : 13 ≡ st.curr_token = omega (arith, h) in
      str_to_entry-take raw (omega (arith, h, length-set st.curr_str st.curr_token 0))
      ∙ ap (λ k. str_to_entry (take k raw)) at
      ∙ ap str_to_entry (take-set_self st.curr_str st.curr_token 0 ∙ h.text)

  pub visit-entry :
      st.db_index < max_entries
      → (put_token 0 st ≡ ok (terminated st))
        × Holds [] (finish_entry (terminated st))
        × Adds (str_to_entry pending ∷ []) st (finish_entry (terminated st))
  unfolding finish_entry put_token
  visit-entry q = (
    ground (arith, h),
    record {
      count = refl;
      text = refl;
      room = length-set st.curr_str st.curr_token 0 ∙ h.room;
      capacity = length-set st.entries st.db_index _ ∙ h.capacity;
    },
    record {
      index = omega arith;
      filled =
          take-set_next st.entries st.db_index _ (omega (arith, h))
          ∙ ap (λ e. take st.db_index st.entries ++ (e ∷ [])) str_to_entry-terminated;
      size = length-set st.entries st.db_index _ ∙ h.capacity;
    },
  )

pub Adds-token :
    (st : Extraction) (c : ℕ)
    → length st.entries ≡ max_entries
    → Adds [] st
        (record st { curr_str = set st.curr_str st.curr_token c; curr_token = st.curr_token + 1 })
Adds-token st c h = record { index = omega arith; filled = sym (append-nil _); size = h }

pub Adds-append :
    (xs ys : List ClientInfo) (a b c : Extraction) → Adds xs a b → Adds ys b c → Adds (xs ++ ys) a c
Adds-append xs ys a b c p q = record {
  index = omega (arith, p, q, length-append xs ys);
  filled = q.filled ∙ ap (λ l. l ++ ys) p.filled ∙ append_assoc (take a.db_index a.entries) xs ys;
  size = q.size;
}
