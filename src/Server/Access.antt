-- ===== src/Server/Access.antt =====
-- The decision on a request, against the entries of the database.
use ghetto_subscriber_valida.Prelude.{
  ℕ, ◌≡◌, ◌≢◌, ◌⊎◌, inl, inr, refl, true, false, Option, none, some, arith,
}
use ghetto_subscriber_valida.SortSearch.{SortSearch}
use ghetto_subscriber_valida.Database.{ClientInfo, lookup}
use ghetto_subscriber_valida.Database.Order.{Within}
use ghetto_subscriber_valida.Database.Lookup.{IsSearchable, Answers, filled_entries, lookup-Answers}
use ghetto_subscriber_valida.Packet.{acc_ok, not_paid, not_exist}
use ghetto_subscriber_valida.Server.{Server, reply_type}
use ghetto_subscriber_valida.Server.Handle.{verdict, asked_tech, asked_number}
use mathlib.Core.List.{List, Mem, Perm}
use mathlib.Core.List.Perm

-- What a reply to a request for a number and a technology says of the entries.
pub data Decides (xs : List ClientInfo) (num ttype type : ℕ) : Type 0 where
  granted :
      (e : ClientInfo)
      → Mem e xs
      → e.number ≡ num
      → e.ttype ≡ ttype
      → e.paid ≡ true
      → type ≡ acc_ok
      → Decides xs num ttype type
  unpaid :
      (e : ClientInfo)
      → Mem e xs
      → e.number ≡ num
      → e.ttype ≡ ttype
      → e.paid ≡ false
      → type ≡ not_paid
      → Decides xs num ttype type
  other_tech :
      (e : ClientInfo)
      → Mem e xs
      → e.number ≡ num
      → e.ttype ≢ ttype
      → type ≡ not_exist
      → Decides xs num ttype type
  absent :
      ((e : ClientInfo) → Mem e xs → e.number ≢ num) → type ≡ not_exist → Decides xs num ttype type

-- The order of the entries does not matter.
pub Decides-Perm :
    (xs ys : List ClientInfo) (num ttype type : ℕ)
    → Perm xs ys
    → Decides xs num ttype type
    → Decides ys num ttype type
Decides-Perm xs ys num ttype type p (granted e m n t b r) = granted e ((Perm.mem_iff p).0 m) n t b r
Decides-Perm xs ys num ttype type p (unpaid e m n t b r) = unpaid e ((Perm.mem_iff p).0 m) n t b r
Decides-Perm xs ys num ttype type p (other_tech e m n t r) =
    other_tech e ((Perm.mem_iff p).0 m) n t r
Decides-Perm xs ys num ttype type p (absent lacks r) =
    absent (λ e m. lacks e ((Perm.mem_iff p).1 m)) r

reply_type-cases :
    (e : ClientInfo) (ttype : ℕ)
    → ((e.ttype ≡ ttype) × (e.paid ≡ true) × (reply_type (some e) ttype ≡ acc_ok))
      ⊎ (((e.ttype ≡ ttype) × (e.paid ≡ false) × (reply_type (some e) ttype ≡ not_paid))
          ⊎ ((e.ttype ≢ ttype) × (reply_type (some e) ttype ≡ not_exist)))
unfolding reply_type
reply_type-cases e ttype = ground arith

reply_type-Decides :
    (xs : List ClientInfo) (num ttype : ℕ) (r : Option ClientInfo)
    → Answers num xs r
    → Decides xs num ttype (reply_type r ttype)
unfolding reply_type
reply_type-Decides xs num ttype none a = absent a refl
reply_type-Decides xs num ttype (some e) a = elim (reply_type-cases e ttype) [
  | inl (t, p, r) ↦ granted e a.0 a.1 t p r
  | inr (inl (t, p, r)) ↦ unpaid e a.0 a.1 t p r
  | inr (inr (t, r)) ↦ other_tech e a.0 a.1 t r
]

-- Over a searchable database, for a number in its stretch: ACC_OK is sent only for an entry with the number
-- and the technology that has paid, NOT_PAID only for such an entry that has not, and NOT_EXIST only if the
-- entry found has another technology or no entry has the number. There is no other reply.
pub verdict-Decides :
    (std : SortSearch ClientInfo) (key : ClientInfo) (base : ℕ) (serv : Server)
    → IsSearchable base serv.db
    → Within base (asked_number serv)
    → Decides (filled_entries serv.db) (asked_number serv) (asked_tech serv) (verdict std key serv)
verdict-Decides std key base serv v w =
    reply_type-Decides (filled_entries serv.db) (asked_number serv) (asked_tech serv)
      (lookup std key serv.db (asked_number serv))
      (lookup-Answers std key base serv.db (asked_number serv) v w)
