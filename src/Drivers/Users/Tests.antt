-- ===== src/Drivers/Users/Tests.antt =====
-- Two users and the server on a concrete file, with losses.
use ghetto_subscriber_valida.Prelude.{
  ℕ, ◌%◌, ◌^◌, ◌≡◌, refl, List, [], ◌∷◌, map, Bool, not, ok, All, length-replicate,
}
use ghetto_subscriber_valida.Prelude.Int.{pos}
use ghetto_subscriber_valida.Host.{ByteOrder}
use ghetto_subscriber_valida.CString.{codes, strtol, until_nul, strtok}
use ghetto_subscriber_valida.SortSearch.Reference.{reference}
use ghetto_subscriber_valida.Database.{str_to_entry}
use ghetto_subscriber_valida.Database.Lines.{lines}
use ghetto_subscriber_valida.Database.Tests.{blank_str, two_nodes, two_lines}
use ghetto_subscriber_valida.Server.{Server, Effect}
use ghetto_subscriber_valida.Server.Tests.{fresh, fresh-HasArrays}
use ghetto_subscriber_valida.Client.{Client}
use ghetto_subscriber_valida.Commands.Tests.{resolve}
use ghetto_subscriber_valida.Shell.{tokenize}
use ghetto_subscriber_valida.Exchange.Protocol.{View, Protocol}
use ghetto_subscriber_valida.Exchange.Talk.{Talk, arrivals, requests}
use ghetto_subscriber_valida.Exchange.Users.{HasLine, lines_of, printed_in}
use ghetto_subscriber_valida.Drivers.{exit, running, client_main, server_main}
use ghetto_subscriber_valida.Drivers.Tests.{two_nodes-CanServe}
use ghetto_subscriber_valida.Drivers.Together.Tests.{network, network-Hears}
use ghetto_subscriber_valida.Drivers.Losses.Tests.{trials, trials-AllRequest, new_clients}
use ghetto_subscriber_valida.Drivers.Users.{client_main-Protocol}

trials-HasLine : All HasLine trials
unfolding until_nul tokenize strtok
trials-HasLine = (refl, (refl, (refl, (tt, (refl, (refl, tt))))))

client_main-Protocol_example :
    let hosts : ℕ → ByteOrder = λ who. ByteOrder.big in
    (serv₁ : Server) × (views : List View) × (effects : List Effect) × (cls' : ℕ → Client)
    × (serv' : Server) × (next : ℕ → ℕ) × (talk : Talk hosts ByteOrder.little resolve reference
        network trials new_clients serv₁ views effects cls' serv')
    × Protocol (map str_to_entry (lines [] two_nodes)) (λ who. 0) (requests trials) views next
    × (server_main ByteOrder.little two_lines reference
          (pos 3)
          (pos 0)
          (codes "server" ∷ codes "db.txt" ∷ [])
          (arrivals trials)
          fresh
          blank_str
        ≡ ok (running, effects))
    × ((interactive : Bool) (id : List ℕ)
        → let who : ℕ = strtol id % 256 in
          client_main
            (hosts who)
            resolve
            (pos 3)
            (pos 0)
            interactive
            (codes "client" ∷ id ∷ [])
            (lines_of hosts ByteOrder.little resolve reference network who talk)
          ≡ ok (
            exit 0,
            printed_in hosts ByteOrder.little resolve reference network who interactive
                (not interactive)
                talk,
          ))
client_main-Protocol_example =
    client_main-Protocol (λ who. ByteOrder.big) ByteOrder.little resolve two_lines reference network
      (pos 3) (pos 0) (λ who. pos 3) (λ who. pos 0) (2 ^ 31) (codes "server") (codes "db.txt")
      (codes "client") blank_str two_nodes fresh trials two_nodes-CanServe
      (length-replicate {A = ℕ} 8192 0) fresh-HasArrays (λ who. refl) (λ who. refl) network-Hears
      trials-AllRequest trials-HasLine
