-- ===== src/Drivers/Users.antt =====
-- The server program and any number of client programs, from their command lines on, over a network that
-- may lose datagrams.
mod Tests
use ghetto_subscriber_valida.Prelude.{
  ℕ, ◌%◌, ◌≡◌, refl, List, [], ◌∷◌, map, Bool, true, false, not, Option, none, some, ok, length,
  All, if◌then◌else◌,
}
use ghetto_subscriber_valida.Prelude.Int.{ℤ, pos, ltb_ℤ}
use ghetto_subscriber_valida.Host.{ByteOrder}
use ghetto_subscriber_valida.CString.{strtol}
use ghetto_subscriber_valida.SortSearch.{SortSearch}
use ghetto_subscriber_valida.Database.{ClientInfo, AstNode, Mpc, buf_size, str_to_entry}
use ghetto_subscriber_valida.Database.Lines.{lines}
use ghetto_subscriber_valida.Server.{Server, Effect}
use ghetto_subscriber_valida.Server.Init.{HasArrays}
use ghetto_subscriber_valida.Client.{Client, Answer, client_init}
use ghetto_subscriber_valida.Client.Protocol.{Hears}
use ghetto_subscriber_valida.Commands.{AddrInfo}
use ghetto_subscriber_valida.Exchange.Turns.{Turn}
use ghetto_subscriber_valida.Exchange.Protocol.{Fate, View, Protocol}
use ghetto_subscriber_valida.Exchange.Talk.{Happening, Talk, AllRequest, arrivals, requests}
use ghetto_subscriber_valida.Exchange.Users.{HasLine, lines_of, printed_in, loop-printed_in}
use ghetto_subscriber_valida.Drivers.{exit, running, start_shell, client_main, server_main}
use ghetto_subscriber_valida.Drivers.Serving.{CanServe}
use ghetto_subscriber_valida.Drivers.Asking.{one_second, client_init-IsUsable}
use ghetto_subscriber_valida.Drivers.Losses.{server_main-Protocol}

-- If the server program can start on a file and the clients' sockets are bound; if the users type lines,
-- in any order among them, that ask, at addresses that resolve and that `sendto` reaches, with any
-- sequence numbers that are below 255 modulo 256, for ten and two digits whose number lies in the stretch
-- of the file's; if what else comes to the server is no access request, but a failure of `recvfrom` or
-- any other bytes, at least one; if each request reaches the server or is lost; and of the server's
-- answer the reply or the REJECT reaches the client, or it is lost and the client's waits run out of time
-- three times, and an ACK before it may be lost as well, and bytes that are no packet may come to the
-- client first: then what the users are shown follows the abstract protocol with the lines of the file
-- and a table of zeros. The server program does what this says of the server with what arrives, and is
-- still running; and the client program of each user, started with any ID, comes to the end of that
-- user's lines, has printed for each what the protocol shows, and ends with exit code 0.
pub client_main-Protocol :
    (chost : ℕ → ByteOrder) (shost : ByteOrder) (getaddrinfo : List ℕ → List ℕ → AddrInfo)
    (mpc : Mpc) (std : SortSearch ClientInfo) (network : List (Option (List ℕ)) → List Answer)
    (socket bind : ℤ) (sockets binds : ℕ → ℤ) (base : ℕ)
    (program filename client_program curr_str : List ℕ) (nodes : List AstNode) (serv : Server)
    (ts : List Happening)
    → CanServe mpc socket bind base filename nodes
    → length curr_str ≡ buf_size
    → HasArrays serv
    → ((who : ℕ) → ltb_ℤ (sockets who) (pos 0) ≡ false)
    → ((who : ℕ) → ltb_ℤ (binds who) (pos 0) ≡ false)
    → ((os : List (Option (List ℕ))) → Hears one_second (network os) os)
    → AllRequest getaddrinfo base ts
    → All HasLine ts
    → let cls : ℕ → Client = λ who. (client_init (sockets who) (binds who) none who).1 in
      (serv₁ : Server) × (views : List View) × (effects : List Effect) × (cls' : ℕ → Client)
      × (serv' : Server) × (next : ℕ → ℕ) × (talk : Talk chost shost getaddrinfo std network ts cls
          serv₁ views effects cls' serv')
      × Protocol (map str_to_entry (lines [] nodes)) (λ who. 0) (requests ts) views next
      × (server_main shost mpc std socket bind (program ∷ filename ∷ []) (arrivals ts) serv curr_str
          ≡ ok (running, effects))
      × ((interactive : Bool) (id : List ℕ)
          → let who : ℕ = strtol id % 256 in
            client_main
              (chost who)
              getaddrinfo
              (sockets who)
              (binds who)
              interactive
              (client_program ∷ id ∷ [])
              (lines_of chost shost getaddrinfo std network who talk)
            ≡ ok (
              exit 0,
              printed_in chost shost getaddrinfo std network who interactive (not interactive) talk,
            ))
unfolding client_main start_shell
client_main-Protocol chost shost getaddrinfo mpc std network socket bind sockets binds base program
      filename client_program curr_str nodes serv ts can c h s b delivers asks typed =
    let cls : ℕ → Client = λ who. (client_init (sockets who) (binds who) none who).1 in
    let (serv₁, views, effects, cls', serv', next, _, talk, run, follows, _) =
      server_main-Protocol chost shost getaddrinfo mpc std network socket bind sockets binds base
        program filename curr_str nodes serv ts can c h s b delivers asks in
    (
      serv₁,
      views,
      effects,
      cls',
      serv',
      next,
      talk,
      follows,
      run,
      λ interactive id.
          let who : ℕ = strtol id % 256 in
          rw
            (
              (client_init-IsUsable (sockets who) (binds who) who (s who) (b who)).0,
              loop-printed_in chost shost getaddrinfo std network who interactive ts cls serv₁ views
                  effects cls' serv' talk typed,
            )
            refl,
    )
