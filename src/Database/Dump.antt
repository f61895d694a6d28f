-- ===== src/Database/Dump.antt =====
-- `dump_database` of database.c.
use ghetto_subscriber_valida.Prelude.{ℕ, zero, suc, List, [], ◌∷◌, Bool, Outcome, ok, fault, ◌>>=◌}
use ghetto_subscriber_valida.Database.{ClientInfo, Database, max_entries}

-- A line that is printed.
pub data DumpLine : Type 0 where
  capacity : ℕ → DumpLine
  count : ℕ → DumpLine
  entry : ℕ → ℕ → Bool → DumpLine

-- The loop over the entries in use. Past the end of the array there is nothing to print.
unfoldable pub dump_entries : List ClientInfo → ℕ → Outcome (List DumpLine)
dump_entries entries zero = ok []
dump_entries [] (suc n) = fault
dump_entries (e ∷ entries) (suc n) =
    dump_entries entries n >>= λ ls. ok (entry e.number e.ttype e.paid ∷ ls)

-- `dump_database`.
unfoldable pub dump_database : Database → Outcome (List DumpLine)
unfolding dump_entries
dump_database db =
    dump_entries db.entries db.n_filled >>= λ ls. ok (capacity max_entries ∷ count db.n_filled ∷ ls)
