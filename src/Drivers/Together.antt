-- ===== src/Drivers/Together.antt =====
-- The two programs together, from what they set up at their start.
pub mod Tests
use ghetto_subscriber_valida.Prelude.{
  ℕ, ◌+◌, ◌<◌, ◌≡◌, refl, subst, List, [], ◌∷◌, map, true, false, Option, none, some, ok, length,
  arith,
}
use ghetto_subscriber_valida.Prelude.Int.{ℤ, pos, ltb_ℤ}
use ghetto_subscriber_valida.Host.{ByteOrder}
use ghetto_subscriber_valida.SortSearch.{SortSearch}
use ghetto_subscriber_valida.Database.{ClientInfo, AstNode, Mpc, buf_size, str_to_entry}
use ghetto_subscriber_valida.Database.Lines.{lines}
use ghetto_subscriber_valida.Server.{Server, Effect, server_init}
use ghetto_subscriber_valida.Server.Init.{HasArrays, server_init-Loads}
use ghetto_subscriber_valida.Client.{Client, Answer, client_init}
use ghetto_subscriber_valida.Client.Protocol.{Hears}
use ghetto_subscriber_valida.Commands.{AddrInfo}
use ghetto_subscriber_valida.Exchange.Conversation.{
  Conversation, request_event, AllInStep, AskInOrder, next_after, Conversation-AllInStep,
}
use ghetto_subscriber_valida.Exchange.Turns.{Turn}
use ghetto_subscriber_valida.Drivers.{default_address, running, start_server, server_main}
use ghetto_subscriber_valida.Drivers.Serving.{CanServe}
use ghetto_subscriber_valida.Drivers.Asking.{one_second, client_init-IsUsable}

-- If the server program can start on a file and the clients' sockets are bound, the network lets each side
-- hear what the other sends, and the users ask in any order, at addresses that resolve and that `sendto`
-- reaches, each with the sequence numbers 0, 1, 2 and so on, below 255, for ten and two digits whose number
-- lies in the stretch of the file's: every `send_req` sends one request, the server handles it, and
-- `send_req` returns with one text, that of a type which says of the lines of the file what was asked.
-- What the server does is what its `main` does with these requests, after which it is still running; and
-- then the server and each client are ready for the client's next sequence number. The programs may run on
-- hosts of different byte order.
pub server_main-Conversation :
    (chost : ℕ → ByteOrder) (shost : ByteOrder) (getaddrinfo : List ℕ → List ℕ → AddrInfo)
    (mpc : Mpc) (std : SortSearch ClientInfo) (network : List (Option (List ℕ)) → List Answer)
    (socket bind : ℤ) (sockets binds : ℕ → ℤ) (base : ℕ) (program filename curr_str : List ℕ)
    (nodes : List AstNode) (serv : Server) (ts : List Turn)
    → CanServe mpc socket bind base filename nodes
    → length curr_str ≡ buf_size
    → HasArrays serv
    → ((id : ℕ) → ltb_ℤ (sockets id) (pos 0) ≡ false)
    → ((id : ℕ) → ltb_ℤ (binds id) (pos 0) ≡ false)
    → ((os : List (Option (List ℕ))) → Hears one_second (network os) os)
    → AskInOrder getaddrinfo base (λ id. 0) ts
    → let entries : List ClientInfo = map str_to_entry (lines [] nodes) in
      let cls : ℕ → Client = λ id. (client_init (sockets id) (binds id) none id).1 in
      (serv₁ : Server) × (effects : List Effect) × (cls' : ℕ → Client) × (serv' : Server)
      × (server_init mpc std socket bind serv
            (some (default_address shost mpc std socket bind))
            filename
            curr_str
          ≡ ok (true, serv₁))
      × Conversation chost shost getaddrinfo std network entries ts cls serv₁ effects cls' serv'
      × (server_main shost mpc std socket bind
            (program ∷ filename ∷ [])
            (map request_event ts)
            serv
            curr_str
          ≡ ok (running, effects))
      × AllInStep entries base one_second (next_after (λ id. 0) ts) cls' serv'
unfolding server_main start_server
server_main-Conversation chost shost getaddrinfo mpc std network socket bind sockets binds base
      program filename curr_str nodes serv ts can c h s b delivers asks =
    let entries : List ClientInfo = map str_to_entry (lines [] nodes) in
    let cls : ℕ → Client = λ id. (client_init (sockets id) (binds id) none id).1 in
    let (serv₁, init, _, ready, zeros, loads) =
      server_init-Loads mpc std socket bind serv (some (default_address shost mpc std socket bind))
        base filename curr_str nodes can.socket_ok can.bind_ok can.grammar can.parsed can.shaped
        can.few can.window c h in
    let (effects, cls', serv', talk, run, step) =
      Conversation-AllInStep chost shost getaddrinfo std network entries base one_second delivers ts
        (λ id. 0) cls serv₁ asks
        (λ id. record {
          usable = (client_init-IsUsable (sockets id) (binds id) id (s id) (b id)).1;
          ready = ready;
          searchable = loads.searchable;
          holds = loads.entries_kept;
          expected = zeros id;
        }) in
    (serv₁, effects, cls', serv', init, talk, rw (init, run) refl, step)
