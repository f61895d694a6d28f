-- ===== src/Drivers/User.antt =====
-- The two programs with one user, from their command lines on.
mod Tests
use ghetto_subscriber_valida.Prelude.{
  ℕ, ◌%◌, ◌≡◌, refl, List, [], ◌∷◌, map, Bool, true, false, not, Option, none, some, ok, length,
  All, if◌then◌else◌,
}
use ghetto_subscriber_valida.Prelude.Int.{ℤ, pos, ltb_ℤ}
use ghetto_subscriber_valida.Host.{ByteOrder}
use ghetto_subscriber_valida.CString.{strtol}
use ghetto_subscriber_valida.SortSearch.{SortSearch}
use ghetto_subscriber_valida.Database.{ClientInfo, AstNode, Mpc, buf_size, str_to_entry}
use ghetto_subscriber_valida.Database.Lines.{lines}
use ghetto_subscriber_valida.Server.{Server, Effect}
use ghetto_subscriber_valida.Server.Init.{HasArrays}
use ghetto_subscriber_valida.Client.{Client, Answer, client_init}
use ghetto_subscriber_valida.Client.Protocol.{Hears}
use ghetto_subscriber_valida.Commands.{AddrInfo}
use ghetto_subscriber_valida.Exchange.Turns.{Turn}
use ghetto_subscriber_valida.Exchange.Conversation.{Conversation, request_event, AskInOrder}
use ghetto_subscriber_valida.Exchange.User.{Types, lines_of, printed_in, loop-printed_in}
use ghetto_subscriber_valida.Drivers.{exit, running, start_shell, client_main, server_main}
use ghetto_subscriber_valida.Drivers.Serving.{CanServe}
use ghetto_subscriber_valida.Drivers.Asking.{one_second, client_init-IsUsable}
use ghetto_subscriber_valida.Drivers.Together.{server_main-Conversation}

-- If both programs can start, the network lets each side hear what the other sends, and a user types lines
-- that ask, at addresses that resolve and that `sendto` reaches, with the sequence numbers 0, 1, 2 and so
-- on, below 255, for ten and two digits whose number lies in the stretch of the file's, then there is a
-- conversation in which each request gets the answer that the lines of the file give; the server program
-- does what this says of the server and is still running, and the client program comes to the end of the
-- lines, has printed for each the text of its answer, and ends with exit code 0.
pub client_main-server_main :
    (chost shost : ByteOrder) (getaddrinfo : List ℕ → List ℕ → AddrInfo) (mpc : Mpc)
    (std : SortSearch ClientInfo) (network : List (Option (List ℕ)) → List Answer)
    (socket bind client_socket client_bind : ℤ) (interactive : Bool) (base : ℕ)
    (program filename client_program id curr_str : List ℕ) (nodes : List AstNode) (serv : Server)
    (ts : List Turn)
    → CanServe mpc socket bind base filename nodes
    → length curr_str ≡ buf_size
    → HasArrays serv
    → ltb_ℤ client_socket (pos 0) ≡ false
    → ltb_ℤ client_bind (pos 0) ≡ false
    → ((os : List (Option (List ℕ))) → Hears one_second (network os) os)
    → AskInOrder getaddrinfo base (λ who. 0) ts
    → All (Types (strtol id % 256)) ts
    → let chosts : ℕ → ByteOrder = λ who. chost in
      let entries : List ClientInfo = map str_to_entry (lines [] nodes) in
      let cls : ℕ → Client = λ who. (client_init client_socket client_bind none who).1 in
      (serv₁ : Server) × (effects : List Effect) × (cls' : ℕ → Client) × (serv' : Server)
      × (talk : Conversation chosts shost getaddrinfo std network entries ts cls serv₁ effects cls'
          serv')
      × (server_main shost mpc std socket bind
            (program ∷ filename ∷ [])
            (map request_event ts)
            serv
            curr_str
          ≡ ok (running, effects))
      × (client_main chost getaddrinfo client_socket client_bind interactive
            (client_program ∷ id ∷ [])
            (lines_of chosts shost getaddrinfo std network entries talk)
          ≡ ok (
            exit 0,
            printed_in chosts shost getaddrinfo std network entries interactive
                (not interactive)
                talk,
          ))
unfolding client_main start_shell
client_main-server_main chost shost getaddrinfo mpc std network socket bind client_socket
      client_bind interactive base program filename client_program id curr_str nodes serv ts can c h
      s b delivers asks types =
    let who : ℕ = strtol id % 256 in
    let entries : List ClientInfo = map str_to_entry (lines [] nodes) in
    let cls : ℕ → Client = λ who. (client_init client_socket client_bind none who).1 in
    let (serv₁, effects, cls', serv', _, talk, run, _) =
      server_main-Conversation (λ who. chost) shost getaddrinfo mpc std network socket bind
        (λ who. client_socket) (λ who. client_bind) base program filename curr_str nodes serv ts can
        c h (λ who. s) (λ who. b) delivers asks in
    let shell =
      loop-printed_in (λ who. chost) shost getaddrinfo std network entries interactive ts cls cls'
        serv₁ serv' effects talk who types in
    (
      serv₁,
      effects,
      cls',
      serv',
      talk,
      run,
      rw ((client_init-IsUsable client_socket client_bind who s b).0, shell) refl,
    )
