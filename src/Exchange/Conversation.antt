-- ===== src/Exchange/Conversation.antt =====
-- A conversation: any number of clients send requests in any order, and the server answers each.
use ghetto_subscriber_valida.Prelude.{
  ℕ, ok, refl, map, ◌++◌, false, ◌+◌, ◌<◌, ◌≡◌, subst, List, [], ◌∷◌, ◌==◌, if◌then◌else◌, Option,
  Bool-cases, ==_iff, inl, inr, arith,
}
use ghetto_subscriber_valida.Host.{ByteOrder}
use ghetto_subscriber_valida.SortSearch.{SortSearch}
use ghetto_subscriber_valida.BusyWait.{Timeval}
use ghetto_subscriber_valida.Database.{ClientInfo}
use ghetto_subscriber_valida.Server.{Server, Effect, Event, datagram, server_run, update}
use ghetto_subscriber_valida.Client.{Client, Answer}
use ghetto_subscriber_valida.Client.Protocol.{Hears}
use ghetto_subscriber_valida.Client.Usable.{IsUsable}
use ghetto_subscriber_valida.Commands.{AddrInfo}
use ghetto_subscriber_valida.Exchange.Turns.{
  Turn, frame_of, InStep, Asks, Exchanges, Exchanges-InStep,
}

-- The clients by their IDs, with another in the place of one.
abbrev pub become : (ℕ → Client) → ℕ → Client → ℕ → Client
become cls i cl j = if i == j then cl else cls j

-- What holds of the clients when one is replaced.
pub become-all :
    (P : ℕ → Client → Type 0) (cls : ℕ → Client) (i : ℕ) (cl : Client) (j : ℕ)
    → (i ≡ j → P j cl)
    → ((i == j) ≡ false → P j (cls j))
    → P j (become cls i cl j)
become-all P cls i cl j same other = elim (Bool-cases (i == j)) [
  | inl e ↦ rw e (same ((==_iff i j).0 e))
  | inr e ↦ rw e (other e)
]

-- The request of a turn, as it comes to the server.
abbrev pub request_event : Turn → Event
request_event t = datagram t.ret (frame_of t) t.garbage

-- Turns in which each client's sequence numbers count up.
module _ (getaddrinfo : List ℕ → List ℕ → AddrInfo) (base : ℕ) where
  abbrev pub AskInOrder : (ℕ → ℕ) → List Turn → Type 0
  AskInOrder next [] = Unit
  AskInOrder next (t ∷ ts) =
      (t.who < 256)
      × Asks getaddrinfo base (next t.who) t
      × AskInOrder (update next t.who (next t.who + 1)) ts

-- The next sequence number of each client after some turns.
abbrev pub next_after : (ℕ → ℕ) → List Turn → ℕ → ℕ
next_after next [] = next
next_after next (t ∷ ts) = next_after (update next t.who (next t.who + 1)) ts

-- Every client is in step with the server.
abbrev pub AllInStep : List ClientInfo → ℕ → Timeval → (ℕ → ℕ) → (ℕ → Client) → Server → Type 0
AllInStep entries base timeout next cls serv =
    (id : ℕ) → InStep entries base id timeout (next id) (cls id) serv

module _ (chost : ℕ → ByteOrder) (shost : ByteOrder) (getaddrinfo : List ℕ → List ℕ → AddrInfo)
    (std : SortSearch ClientInfo) (network : List (Option (List ℕ)) → List Answer)
    (entries : List ClientInfo) where
  -- Turns one after the other, each of the client that it names.
  pub data Conversation
      : List Turn → (ℕ → Client) → Server → List Effect → (ℕ → Client) → Server → Type 0 where
    finished : {cls : ℕ → Client} {serv : Server} → Conversation [] cls serv [] cls serv
    turn :
        {t : Turn} {ts : List Turn} {cls cls' : ℕ → Client} {cl : Client}
        {serv serv₁ serv' : Server} {effects : List Effect}
        (x : Exchanges
          (chost t.who)
          shost
          getaddrinfo
          std
          network
          entries
          t
          (cls t.who)
          serv
          cl
          serv₁)
        → Conversation ts (become cls t.who cl) serv₁ effects cls' serv'
        → Conversation (t ∷ ts) cls serv (x.effects ++ effects) cls' serv'

  -- What the server does in a conversation is what `server_run` does with its requests.
  Conversation-server_run :
      (ts : List Turn) (cls cls' : ℕ → Client) (serv serv' : Server) (effects : List Effect)
      → Conversation ts cls serv effects cls' serv'
      → server_run shost std (map request_event ts) serv ≡ ok (false, serv', effects)
  unfolding server_run
  Conversation-server_run _ _ _ _ _ _ finished = refl
  Conversation-server_run _ _ cls' _ serv' _
        (turn {t = t} {ts = ts} {cls = cls} {cl = cl} {serv₁ = serv₁} {effects = effects} x rest) =
      rw (x.served, Conversation-server_run ts (become cls t.who cl) cls' serv₁ serv' effects rest)
        refl

  module _ (base : ℕ) (timeout : Timeval)
      (delivers : (os : List (Option (List ℕ))) → Hears timeout (network os) os) where
    -- A turn of one client keeps all in step.
    Exchanges-AllInStep :
        (next : ℕ → ℕ) (cls : ℕ → Client) (cl : Client) (serv serv' : Server) (who : ℕ)
        → AllInStep entries base timeout next cls serv
        → InStep entries base who timeout (next who + 1) cl serv'
        → ((i : ℕ) → serv'.expect_recv i ≡ update serv.expect_recv who (next who + 1) i)
        → AllInStep entries base timeout (update next who (next who + 1)) (become cls who cl) serv'
    Exchanges-AllInStep next cls cl serv serv' who all step counted id = record {
      usable =
          become-all (λ i c. IsUsable i timeout c) cls who cl id
            (λ e. subst (λ i. IsUsable i timeout cl) e step.usable) (λ e. (all id).usable);
      ready = step.ready;
      searchable = step.searchable;
      holds = step.holds;
      expected = ground (arith, counted id, (all id).expected);
    }

    -- Turns in which each client's sequence numbers go on from where all are in step are a
    -- conversation, and keep all in step.
    pub Conversation-AllInStep :
        (ts : List Turn) (next : ℕ → ℕ) (cls : ℕ → Client) (serv : Server)
        → AskInOrder getaddrinfo base next ts
        → AllInStep entries base timeout next cls serv
        → (effects : List Effect) × (cls' : ℕ → Client) × (serv' : Server) × Conversation ts cls
            serv effects cls' serv'
          × (server_run shost std (map request_event ts) serv ≡ ok (false, serv', effects))
          × AllInStep entries base timeout (next_after next ts) cls' serv'
    Conversation-AllInStep [] next cls serv asks all =
        ([], cls, serv, finished, Conversation-server_run [] cls cls serv serv [] finished, all)
    Conversation-AllInStep (t ∷ ts) next cls serv (known, ask, asks) all =
        let (cl, serv₁, first, step, counted) =
          Exchanges-InStep (chost t.who) shost getaddrinfo std network base timeout delivers entries
            t (next t.who) (cls t.who) serv known ask (all t.who) in
        let (effects, cls', serv', rest, _, last) =
          Conversation-AllInStep ts (update next t.who (next t.who + 1)) (become cls t.who cl) serv₁
            asks (Exchanges-AllInStep next cls cl serv serv₁ t.who all step counted) in
        (
          first.effects ++ effects,
          cls',
          serv',
          turn first rest,
          Conversation-server_run (t ∷ ts) cls cls' serv serv' (first.effects ++ effects)
              (turn first rest),
          last,
        )
