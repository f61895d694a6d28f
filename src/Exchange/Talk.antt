-- ===== src/Exchange/Talk.antt =====
-- Any number of turns of any number of clients, over a network that may lose datagrams, while others send
-- datagrams to the server too.
use ghetto_subscriber_valida.Prelude.{
  ℕ, ◌==◌, arith, length, All, ok, refl, false, ◌++◌, ◌≡◌, subst, List, [], ◌∷◌, Option,
}
use ghetto_subscriber_valida.Host.{ByteOrder}
use ghetto_subscriber_valida.SortSearch.{SortSearch}
use ghetto_subscriber_valida.BusyWait.{Timeval}
use ghetto_subscriber_valida.Database.{ClientInfo}
use ghetto_subscriber_valida.Server.{Server, Effect, Event, failed, datagram, server_run}
use ghetto_subscriber_valida.Client.{Client, Answer}
use ghetto_subscriber_valida.Client.Protocol.{Hears}
use ghetto_subscriber_valida.Client.Usable.{IsUsable}
use ghetto_subscriber_valida.Commands.{AddrInfo}
use ghetto_subscriber_valida.Exchange.Turns.{Turn}
use ghetto_subscriber_valida.Exchange.Conversation.{become, become-all, request_event}
use ghetto_subscriber_valida.Exchange.Protocol.{
  Fate, heard, unheard, lost, Request, View, Protocol, rest, step,
}
use ghetto_subscriber_valida.Exchange.Handled.{Serves}
use ghetto_subscriber_valida.Exchange.Asking.{Requests, request_of}
use ghetto_subscriber_valida.Exchange.Scraps.{IsScrap}
use ghetto_subscriber_valida.Exchange.Noise.{IsNoise, pass, pass-Serves}
use ghetto_subscriber_valida.Exchange.Losses.{Takes, Takes-Step}

-- A request, its fate, and the scraps that come to the client first; or something else that comes to the
-- server.
pub data Happening : Type 0 where
  asking : Fate → List (List ℕ) → Turn → Happening
  passing : Event → Happening

-- What comes to the server.
abbrev pub arrivals : List Happening → List Event
arrivals [] = []
arrivals (asking (heard acked) ds t ∷ ts) = request_event t ∷ arrivals ts
arrivals (asking (unheard acked) ds t ∷ ts) = request_event t ∷ arrivals ts
arrivals (asking lost ds t ∷ ts) = arrivals ts
arrivals (passing e ∷ ts) = e ∷ arrivals ts

-- The requests of the protocol.
abbrev pub requests : List Happening → List (Fate × Request)
requests [] = []
requests (asking fate ds t ∷ ts) = (fate, request_of t) ∷ requests ts
requests (passing e ∷ ts) = requests ts

-- Each request asks for digits, and what else comes to the server is no access request.
abbrev pub AllRequest : (List ℕ → List ℕ → AddrInfo) → ℕ → List Happening → Type 0
AllRequest getaddrinfo base [] = Unit
AllRequest getaddrinfo base (asking fate ds t ∷ ts) =
    All IsScrap ds × Requests getaddrinfo base t × AllRequest getaddrinfo base ts
AllRequest getaddrinfo base (passing e ∷ ts) = IsNoise e × AllRequest getaddrinfo base ts

module _ (chost : ℕ → ByteOrder) (shost : ByteOrder) (getaddrinfo : List ℕ → List ℕ → AddrInfo)
    (std : SortSearch ClientInfo) (network : List (Option (List ℕ)) → List Answer) where
  -- Turns one after the other, each of the client that it names, what their users are shown, and what the
  -- server does.
  pub data Talk
      : List Happening
        → (ℕ → Client)
        → Server
        → List View
        → List Effect
        → (ℕ → Client)
        → Server
        → Type 0 where
    over : {cls : ℕ → Client} {serv : Server} → Talk [] cls serv [] [] cls serv
    take_turn :
        {fate : Fate} {ds : List (List ℕ)} {t : Turn} {ts : List Happening} {cls : ℕ → Client}
        {serv : Server} {view : View} {views : List View} {effects more : List Effect} {cl : Client}
        {serv₁ : Server} {cls' : ℕ → Client} {serv' : Server}
        → Takes
            (chost t.who)
            shost
            getaddrinfo
            std
            network
            fate
            ds
            t
            (cls t.who)
            serv
            view
            effects
            cl
            serv₁
        → Talk ts (become cls t.who cl) serv₁ views more cls' serv'
        → Talk (asking fate ds t ∷ ts) cls serv (view ∷ views) (effects ++ more) cls' serv'
    let_pass :
        {e : Event} {ts : List Happening} {cls : ℕ → Client} {serv serv₁ : Server}
        {views : List View} {effects more : List Effect} {cls' : ℕ → Client} {serv' : Server}
        → IsNoise e
        → pass shost std e serv ≡ ok (serv₁, effects)
        → Talk ts cls serv₁ views more cls' serv'
        → Talk (passing e ∷ ts) cls serv views (effects ++ more) cls' serv'

  server_run-arrivals :
      (fate : Fate) (ds : List (List ℕ)) (t : Turn) (ts : List Happening) (cl cl₁ : Client)
      (serv : Server) (view : View) (effects : List Effect) (serv₁ : Server) (more : List Effect)
      (serv' : Server)
      → Takes (chost t.who) shost getaddrinfo std network fate ds t cl serv view effects cl₁ serv₁
      → server_run shost std (arrivals ts) serv₁ ≡ ok (false, serv', more)
      → server_run shost std (arrivals (asking fate ds t ∷ ts)) serv
        ≡ ok (false, serv', effects ++ more)
  unfolding server_run
  server_run-arrivals (heard acked) ds t ts cl cl₁ serv view effects serv₁ more serv' x e =
      rw (x.served, e) refl
  server_run-arrivals (unheard acked) ds t ts cl cl₁ serv view effects serv₁ more serv' x e =
      rw (x.served, e) refl
  server_run-arrivals lost ds t ts cl cl₁ serv view effects serv₁ more serv' x e = cc (x.served, e)

  server_run-passing :
      (e : Event) (es : List Event) (serv serv₁ serv' : Server) (effects more : List Effect)
      → IsNoise e
      → pass shost std e serv ≡ ok (serv₁, effects)
      → server_run shost std es serv₁ ≡ ok (false, serv', more)
      → server_run shost std (e ∷ es) serv ≡ ok (false, serv', effects ++ more)
  unfolding server_run
  server_run-passing failed es serv serv₁ serv' effects more n x r = cc (x, r)
  server_run-passing (datagram ret d g) es serv serv₁ serv' effects more (_, some_bytes, _) x r =
      let full : (length d == 0) ≡ false = ground (arith, some_bytes) in rw (full, x, r) refl

  -- What the server does in a talk is what `server_run` does with the requests that arrive.
  Talk-server_run :
      (ts : List Happening) (cls : ℕ → Client) (serv : Server) (views : List View)
      (effects : List Effect) (cls' : ℕ → Client) (serv' : Server)
      → Talk ts cls serv views effects cls' serv'
      → server_run shost std (arrivals ts) serv ≡ ok (false, serv', effects)
  unfolding server_run
  Talk-server_run _ cls serv _ _ _ _ over = refl
  Talk-server_run _ cls serv _ _ cls' serv'
        (take_turn {fate = fate} {ds = ds} {t = t} {ts = ts} {view = view} {views = views}
          {effects = effects} {more = more} {cl = cl} {serv₁ = serv₁} x talk) =
      server_run-arrivals fate ds t ts (cls t.who) cl serv view effects serv₁ more serv' x
        (Talk-server_run ts (become cls t.who cl) serv₁ views more cls' serv' talk)
  Talk-server_run _ cls serv _ _ cls' serv'
        (let_pass {e = e} {ts = ts} {serv₁ = serv₁} {views = views} {effects = effects}
          {more = more} n x talk) =
      server_run-passing e (arrivals ts) serv serv₁ serv' effects more n x
        (Talk-server_run ts cls serv₁ views more cls' serv' talk)

  module _ (entries : List ClientInfo) (base : ℕ) (timeout : Timeval)
      (delivers : (os : List (Option (List ℕ))) → Hears timeout (network os) os) where
    -- Turns, from where the server serves and each client is usable, follow the protocol.
    pub Talk-Protocol :
        (ts : List Happening) (next : ℕ → ℕ) (cls : ℕ → Client) (serv : Server)
        → AllRequest getaddrinfo base ts
        → ((id : ℕ) → IsUsable id timeout (cls id))
        → Serves entries base next serv
        → (views : List View) × (effects : List Effect) × (next' : ℕ → ℕ) × (cls' : ℕ → Client)
          × (serv' : Server) × Talk ts cls serv views effects cls' serv'
          × (server_run shost std (arrivals ts) serv ≡ ok (false, serv', effects))
          × Protocol entries next (requests ts) views next'
          × ((id : ℕ) → IsUsable id timeout (cls' id))
          × Serves entries base next' serv'
    Talk-Protocol [] next cls serv _ usable serves = (
      [],
      [],
      next,
      cls,
      serv,
      over,
      Talk-server_run [] cls serv [] [] cls serv over,
      rest,
      usable,
      serves,
    )
    Talk-Protocol (asking fate ds t ∷ ts) next cls serv (h, q, qs) usable serves =
        let (view, effects, cl, serv₁, next₁, x, s, u, v) =
          Takes-Step (chost t.who) shost getaddrinfo std network base timeout delivers entries next
            fate ds t (cls t.who) serv h q (usable t.who) serves in
        let (views, more, next', cls', serv', talk, run, p, us, last) =
          Talk-Protocol ts next₁ (become cls t.who cl) serv₁ qs
            (λ id.
              become-all (λ i c. IsUsable i timeout c) cls t.who cl id
                (λ e. subst (λ i. IsUsable i timeout cl) e u) (λ e. usable id))
            v in
        (
          view ∷ views,
          effects ++ more,
          next',
          cls',
          serv',
          take_turn x talk,
          Talk-server_run (asking fate ds t ∷ ts) cls serv (view ∷ views) (effects ++ more) cls'
              serv' (take_turn x talk),
          step s p,
          us,
          last,
        )
    Talk-Protocol (passing e ∷ ts) next cls serv (n, qs) usable serves =
        let (serv₁, effects, x, v) = pass-Serves shost std entries base next serv e n serves in
        let (views, more, next', cls', serv', talk, run, p, us, last) =
          Talk-Protocol ts next cls serv₁ qs usable v in
        (
          views,
          effects ++ more,
          next',
          cls',
          serv',
          let_pass n x talk,
          server_run-passing e (arrivals ts) serv serv₁ serv' effects more n x run,
          p,
          us,
          last,
        )
