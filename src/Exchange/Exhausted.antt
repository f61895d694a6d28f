-- ===== src/Exchange/Exhausted.antt =====
-- What a client can still do after 255 requests have been counted.
use ghetto_subscriber_valida.Prelude.{
  ℕ, ◌≤◌, ◌<◌, ◌≡◌, ◌∙◌, sym, false, ok, List, [], ◌∷◌, Option, arith,
}
use ghetto_subscriber_valida.Host.{ByteOrder}
use ghetto_subscriber_valida.SortSearch.{SortSearch}
use ghetto_subscriber_valida.BusyWait.{Timeval}
use ghetto_subscriber_valida.Database.{ClientInfo}
use ghetto_subscriber_valida.Server.{Server, Effect, server_run}
use ghetto_subscriber_valida.Client.{Client, Answer, max_seq_num}
use ghetto_subscriber_valida.Client.Protocol.{Hears}
use ghetto_subscriber_valida.Client.Usable.{IsUsable}
use ghetto_subscriber_valida.Commands.{AddrInfo}
use ghetto_subscriber_valida.Exchange.Protocol.{
  Fate, Request, View, Step, accept, accept_unheard, refuse, refuse_unheard, lose, Protocol, rest,
  step, decisions, Protocol-counted,
}
use ghetto_subscriber_valida.Exchange.Handled.{Serves}
use ghetto_subscriber_valida.Exchange.Talk.{
  Happening, asking, passing, Talk, AllRequest, arrivals, requests, Talk-Protocol,
}

-- Requests whose sequence numbers `tries` has room for.
abbrev pub HaveRoom : List (Fate × Request) → Type 0
HaveRoom [] = Unit
HaveRoom ((_, q) ∷ qs) = (q.seq < max_seq_num) × HaveRoom qs

module _ (entries : List ClientInfo) (id : ℕ) where
  Step-bounds :
      (next : ℕ → ℕ) (fate : Fate) (q : Request) (view : View) (next' : ℕ → ℕ)
      → Step entries next fate q view next'
      → q.seq < max_seq_num
      → next id ≤ max_seq_num
      → (next id ≤ next' id) × (next' id ≤ max_seq_num)
  Step-bounds next _ q _ _ (accept e d) h b = (ground arith, ground arith)
  Step-bounds next _ q _ _ (accept_unheard e) h b = (ground arith, ground arith)
  Step-bounds next _ _ _ _ (refuse n) h b = (omega arith, b)
  Step-bounds next _ _ _ _ (refuse_unheard n) h b = (omega arith, b)
  Step-bounds next _ _ _ _ lose h b = (omega arith, b)

  -- Sequence numbers that `tries` has room for never bring the table above 255, nor down.
  pub Protocol-bounds :
      (next : ℕ → ℕ) (qs : List (Fate × Request)) (views : List View) (next' : ℕ → ℕ)
      → Protocol entries next qs views next'
      → HaveRoom qs
      → next id ≤ max_seq_num
      → (next id ≤ next' id) × (next' id ≤ max_seq_num)
  Protocol-bounds next _ _ _ rest h b = (omega arith, b)
  Protocol-bounds next _ _ next'
        (step {fate = fate} {q = q} {view = view} {next₁ = next₁} {qs = qs} {views = views} s p)
        (h, hs) b =
      let (up, top) = Step-bounds next fate q view next₁ s h b in
      let (more, end) = Protocol-bounds next₁ qs views next' p hs top in
      (omega (arith, up, more), end)

pub AllRequest-HaveRoom :
    (getaddrinfo : List ℕ → List ℕ → AddrInfo) (base : ℕ) (ts : List Happening)
    → AllRequest getaddrinfo base ts
    → HaveRoom (requests ts)
AllRequest-HaveRoom getaddrinfo base [] h = tt
AllRequest-HaveRoom getaddrinfo base (asking fate ds t ∷ ts) (h, q, qs) =
    (q.room, AllRequest-HaveRoom getaddrinfo base ts qs)
AllRequest-HaveRoom getaddrinfo base (passing e ∷ ts) (n, qs) =
    AllRequest-HaveRoom getaddrinfo base ts qs

-- Take a server that is ready, with a searchable database, and that expects the sequence number 255 of a
-- client; usable clients, whose users ask, in any order, at addresses that resolve and that `sendto`
-- reaches, with any sequence numbers that are below 255 modulo 256, for ten and two digits whose number
-- lies in the database's stretch; and a network that may lose each request, each ACK and each answer, so
-- that the client's waits run out of time three times, and that may bring the server anything else that
-- is not empty and no access request, and the clients, before an answer, bytes that are no packet. Then
-- every `send_req` returns, that client's user is never told what the entries say of a request, and the
-- server goes on expecting 255 of it.
pub server_run_exhausted :
    (chost : ℕ → ByteOrder) (shost : ByteOrder) (getaddrinfo : List ℕ → List ℕ → AddrInfo)
    (std : SortSearch ClientInfo) (network : List (Option (List ℕ)) → List Answer)
    (entries : List ClientInfo) (base : ℕ) (timeout : Timeval) (ts : List Happening) (next : ℕ → ℕ)
    (cls : ℕ → Client) (serv : Server) (who : ℕ)
    → ((os : List (Option (List ℕ))) → Hears timeout (network os) os)
    → AllRequest getaddrinfo base ts
    → ((id : ℕ) → IsUsable id timeout (cls id))
    → Serves entries base next serv
    → serv.expect_recv who ≡ max_seq_num
    → (views : List View) × (effects : List Effect) × (cls' : ℕ → Client) × (serv' : Server) × Talk
        chost shost getaddrinfo std network ts cls serv views effects cls' serv'
      × (server_run shost std (arrivals ts) serv ≡ ok (false, serv', effects))
      × ((seq : ℕ) → seq < max_seq_num → decisions who seq (requests ts) views ≡ 0)
      × (serv'.expect_recv who ≡ max_seq_num)
server_run_exhausted chost shost getaddrinfo std network entries base timeout ts next cls serv who
      delivers asks usable serves full =
    let (views, effects, next', cls', serv', talk, run, follows, _, serves') =
      Talk-Protocol chost shost getaddrinfo std network entries base timeout delivers ts next cls
        serv asks usable serves in
    let top : next who ≡ max_seq_num = sym (serves.expected who) ∙ full in
    let (up, bound) =
      Protocol-bounds entries who next (requests ts) views next' follows
        (AllRequest-HaveRoom getaddrinfo base ts asks) (omega (arith, top)) in
    (
      views,
      effects,
      cls',
      serv',
      talk,
      run,
      λ seq h.
          Protocol-counted entries next (requests ts) views next' who seq follows
            (omega (arith, h, top)),
      omega (arith, serves'.expected who, top, up, bound),
    )
