-- ===== src/Exchange/Protocol.antt =====
-- The protocol between server.c and the clients of client.c over a network that may lose datagrams, without
-- buffers, frames and clocks: a table of the next sequence numbers, and what each user is told.
use ghetto_subscriber_valida.Prelude.{
  ℕ, ◌+◌, ◌≤◌, ◌<◌, ◌≡◌, ◌≢◌, refl, List, [], Bool, ◌∷◌, ◌==◌, ◌&&◌, if◌then◌else◌, arith,
}
use ghetto_subscriber_valida.Database.{ClientInfo}
use ghetto_subscriber_valida.Server.{update}
use ghetto_subscriber_valida.Server.Access.{Decides}
use ghetto_subscriber_valida.Server.Refusal.{refusal}

-- What becomes of a request and its answer: the request arrives, and so does the reply or the REJECT;
-- or the request arrives, but neither of these; or it is lost. An ACK before the reply may arrive or
-- not.
pub data Fate : Type 0 where
  heard : Bool → Fate
  unheard : Bool → Fate
  lost : Fate

-- A request: whose it is, its sequence number, and the number and the technology that it asks for.
pub record Request : Type 0 where
  pub who : ℕ
  pub seq : ℕ
  pub number : ℕ
  pub ttype : ℕ

-- What the user is told: a type of reply, a code of a REJECT, or nothing.
pub data View : Type 0 where
  told : ℕ → View
  refused : ℕ → View
  nothing : View

-- The table when the server has counted a request.
abbrev pub advance : (ℕ → ℕ) → ℕ → ℕ → ℕ
advance next who = update next who (next who + 1)

-- How many times a client's user is told what the entries say of a request with this sequence number.
abbrev pub decisions : ℕ → ℕ → List (Fate × Request) → List View → ℕ
decisions who seq ((_, q) ∷ qs) (told type ∷ views) =
    if q.who == who && q.seq == seq
    then decisions who seq qs views + 1
    else decisions who seq qs views
decisions who seq (_ ∷ qs) (_ ∷ views) = decisions who seq qs views
decisions who seq _ _ = 0

module _ (entries : List ClientInfo) where
  -- One request: with the next sequence number of its client it is counted, and decided by the entries;
  -- with any other it is refused, and changes nothing.
  pub data Step : (ℕ → ℕ) → Fate → Request → View → (ℕ → ℕ) → Type 0 where
    accept :
        {next : ℕ → ℕ} {acked : Bool} {q : Request} {type : ℕ}
        → q.seq ≡ next q.who
        → Decides entries q.number q.ttype type
        → Step next (heard acked) q (told type) (advance next q.who)
    accept_unheard :
        {next : ℕ → ℕ} {acked : Bool} {q : Request}
        → q.seq ≡ next q.who
        → Step next (unheard acked) q nothing (advance next q.who)
    refuse :
        {next : ℕ → ℕ} {acked : Bool} {q : Request}
        → q.seq ≢ next q.who
        → Step next (heard acked) q (refused (refusal (next q.who) q.seq)) next
    refuse_unheard :
        {next : ℕ → ℕ} {acked : Bool} {q : Request}
        → q.seq ≢ next q.who
        → Step next (unheard acked) q nothing next
    lose : {next : ℕ → ℕ} {q : Request} → Step next lost q nothing next

  -- Requests one after the other.
  pub data Protocol : (ℕ → ℕ) → List (Fate × Request) → List View → (ℕ → ℕ) → Type 0 where
    rest : {next : ℕ → ℕ} → Protocol next [] [] next
    step :
        {next : ℕ → ℕ} {fate : Fate} {q : Request} {view : View} {next₁ next' : ℕ → ℕ}
        {qs : List (Fate × Request)} {views : List View}
        → Step next fate q view next₁
        → Protocol next₁ qs views next'
        → Protocol next ((fate, q) ∷ qs) (view ∷ views) next'

  -- A step whose answer does not arrive.
  pub Step-unheard :
      (next : ℕ → ℕ) (acked : Bool) (q : Request) (view : View) (next' : ℕ → ℕ)
      → Step next (heard acked) q view next'
      → Step next (unheard acked) q nothing next'
  Step-unheard next acked q _ _ (accept e d) = accept_unheard e
  Step-unheard next acked q _ _ (refuse n) = refuse_unheard n

  -- A sequence number that has been counted is never decided again.
  pub Protocol-counted :
      (next : ℕ → ℕ) (qs : List (Fate × Request)) (views : List View) (next' : ℕ → ℕ) (who seq : ℕ)
      → Protocol next qs views next'
      → seq < next who
      → decisions who seq qs views ≡ 0
  Protocol-counted next _ _ _ who seq rest h = refl
  Protocol-counted next _ _ next' who seq (step {qs = qs} {views = views} (accept {q = q} e d) p)
        h =
      ground (arith, Protocol-counted (advance next q.who) qs views next' who seq p)
  Protocol-counted next _ _ next' who seq
        (step {qs = qs} {views = views} (accept_unheard {q = q} e) p) h =
      Protocol-counted (advance next q.who) qs views next' who seq p (ground arith)
  Protocol-counted next _ _ next' who seq (step {qs = qs} {views = views} (refuse n) p) h =
      Protocol-counted next qs views next' who seq p h
  Protocol-counted next _ _ next' who seq (step {qs = qs} {views = views} (refuse_unheard n) p) h =
      Protocol-counted next qs views next' who seq p h
  Protocol-counted next _ _ next' who seq (step {qs = qs} {views = views} lose p) h =
      Protocol-counted next qs views next' who seq p h

  -- The user of a client is told at most once what the entries say of a request with a sequence number.
  pub Protocol-once :
      (next : ℕ → ℕ) (qs : List (Fate × Request)) (views : List View) (next' : ℕ → ℕ) (who seq : ℕ)
      → Protocol next qs views next'
      → decisions who seq qs views ≤ 1
  Protocol-once next _ _ _ who seq rest = omega arith
  Protocol-once next _ _ next' who seq (step {qs = qs} {views = views} (accept {q = q} e d) p) =
      ground (
        arith,
        Protocol-counted (advance next q.who) qs views next' who seq p,
        Protocol-once (advance next q.who) qs views next' who seq p,
      )
  Protocol-once next _ _ next' who seq
        (step {qs = qs} {views = views} (accept_unheard {q = q} e) p) =
      Protocol-once (advance next q.who) qs views next' who seq p
  Protocol-once next _ _ next' who seq (step {qs = qs} {views = views} (refuse n) p) =
      Protocol-once next qs views next' who seq p
  Protocol-once next _ _ next' who seq (step {qs = qs} {views = views} (refuse_unheard n) p) =
      Protocol-once next qs views next' who seq p
  Protocol-once next _ _ next' who seq (step {qs = qs} {views = views} lose p) =
      Protocol-once next qs views next' who seq p
