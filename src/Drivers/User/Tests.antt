-- ===== src/Drivers/User/Tests.antt =====
-- One user and the server on a concrete file.
use ghetto_subscriber_valida.Prelude.{
  ℕ, ◌%◌, ◌^◌, ◌≡◌, refl, List, [], ◌∷◌, map, true, not, none, ok, All, length-replicate, arith,
}
use ghetto_subscriber_valida.Prelude.Int.{pos}
use ghetto_subscriber_valida.Host.{ByteOrder}
use ghetto_subscriber_valida.CString.{codes, strtol, until_nul, strtok}
use ghetto_subscriber_valida.SortSearch.Reference.{reference}
use ghetto_subscriber_valida.Database.{ClientInfo, str_to_entry}
use ghetto_subscriber_valida.Database.Lines.{lines}
use ghetto_subscriber_valida.Database.Tests.{blank_str, two_nodes, two_lines}
use ghetto_subscriber_valida.Server.{Server, Effect}
use ghetto_subscriber_valida.Server.Tests.{fresh, fresh-HasArrays}
use ghetto_subscriber_valida.Client.{Client, client_init}
use ghetto_subscriber_valida.Commands.Tests.{resolve}
use ghetto_subscriber_valida.Shell.{tokenize}
use ghetto_subscriber_valida.Exchange.Turns.{Turn}
use ghetto_subscriber_valida.Exchange.Conversation.{AskInOrder, Conversation, request_event}
use ghetto_subscriber_valida.Exchange.User.{Types, lines_of, printed_in}
use ghetto_subscriber_valida.Drivers.{exit, running, client_main, server_main}
use ghetto_subscriber_valida.Drivers.Tests.{two_nodes-CanServe}
use ghetto_subscriber_valida.Drivers.Together.Tests.{network, network-Hears, turn_of, turn_of-Asks}
use ghetto_subscriber_valida.Drivers.User.{client_main-server_main}

abbrev turns : List Turn
turns = turn_of 3 0 ∷ turn_of 3 1 ∷ []

turns-AskInOrder : AskInOrder resolve (2 ^ 31) (λ who. 0) turns
turns-AskInOrder =
    (omega arith, turn_of-Asks 3 0 (omega arith), (omega arith, turn_of-Asks 3 1 (omega arith), tt))

turns-Types : All (Types (strtol (codes "3") % 256)) turns
unfolding strtol until_nul tokenize strtok
turns-Types =
    (record { speaks = refl; tokens = refl }, (record { speaks = refl; tokens = refl }, tt))

client_main-server_main_example :
    let hosts : ℕ → ByteOrder = λ who. ByteOrder.big in
    let entries : List ClientInfo = map str_to_entry (lines [] two_nodes) in
    let cls : ℕ → Client = λ who. (client_init (pos 3) (pos 0) none who).1 in
    (serv₁ : Server) × (effects : List Effect) × (cls' : ℕ → Client) × (serv' : Server)
    × (talk : Conversation hosts ByteOrder.little resolve reference network entries turns cls serv₁
        effects cls' serv')
    × (server_main ByteOrder.little two_lines reference
          (pos 3)
          (pos 0)
          (codes "server" ∷ codes "db.txt" ∷ [])
          (map request_event turns)
          fresh
          blank_str
        ≡ ok (running, effects))
    × (client_main ByteOrder.big resolve
          (pos 3)
          (pos 0)
          true
          (codes "client" ∷ codes "3" ∷ [])
          (lines_of hosts ByteOrder.little resolve reference network entries talk)
        ≡ ok (
          exit 0,
          printed_in hosts ByteOrder.little resolve reference network entries true (not true) talk,
        ))
client_main-server_main_example =
    client_main-server_main ByteOrder.big ByteOrder.little resolve two_lines reference network
      (pos 3) (pos 0) (pos 3) (pos 0) true (2 ^ 31) (codes "server") (codes "db.txt")
      (codes "client") (codes "3") blank_str two_nodes fresh turns two_nodes-CanServe
      (length-replicate {A = ℕ} 8192 0) fresh-HasArrays refl refl network-Hears turns-AskInOrder
      turns-Types
