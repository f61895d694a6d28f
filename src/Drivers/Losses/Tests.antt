-- ===== src/Drivers/Losses/Tests.antt =====
-- Clients and the server on a concrete file, with losses.
use ghetto_subscriber_valida.Prelude.{
  ℕ, ◌^◌, ◌<◌, ◌≤◌, ◌≡◌, refl, List, [], ◌∷◌, map, true, false, Option, none, some, ok, ◌==◌,
  if◌then◌else◌, length-replicate, arith,
}
use ghetto_subscriber_valida.Prelude.Int.{pos}
use mathlib.Core.List.{mem-cons_self}
use mathlib.Core.List.Perm
use ghetto_subscriber_valida.Host.{ByteOrder}
use ghetto_subscriber_valida.CString.{codes}
use ghetto_subscriber_valida.SortSearch.Reference.{reference}
use ghetto_subscriber_valida.Database.{str_to_entry}
use ghetto_subscriber_valida.Database.Lines.{lines}
use ghetto_subscriber_valida.Database.Lookup.{filled_entries}
use ghetto_subscriber_valida.Database.Tests.{blank_str, two_nodes, two_lines}
use ghetto_subscriber_valida.Packet.{acc_ok}
use ghetto_subscriber_valida.Server.{Server, Effect, datagram, server_init, server_run}
use ghetto_subscriber_valida.Server.Access.{granted}
use ghetto_subscriber_valida.Server.Tests.{
  somewhere, garbage, info, idle, idle-IsReady, one_db-IsSearchable, fresh, fresh-HasArrays,
}
use ghetto_subscriber_valida.Client.{Client, Action, returned, replied, client_init, max_seq_num}
use ghetto_subscriber_valida.Client.Replies.{reply_text}
use ghetto_subscriber_valida.Client.Usable.{IsUsable}
use ghetto_subscriber_valida.Commands.{sending_to, acted, send_req}
use ghetto_subscriber_valida.Commands.Tests.{resolve, number, tech}
use ghetto_subscriber_valida.Exchange.{heard_answer}
use ghetto_subscriber_valida.Exchange.Served.{question}
use ghetto_subscriber_valida.Exchange.Turns.{argv_of, env_of, frame_of}
use ghetto_subscriber_valida.Exchange.Protocol.{heard, unheard, lost, View, Protocol, decisions}
use ghetto_subscriber_valida.Exchange.Handled.{Serves}
use ghetto_subscriber_valida.Exchange.Asking.{Requests}
use ghetto_subscriber_valida.Exchange.Scraps.{IsScrap}
use ghetto_subscriber_valida.Exchange.Noise.{IsNoise}
use ghetto_subscriber_valida.Exchange.Talk.{
  Happening, asking, passing, Talk, AllRequest, arrivals, requests,
}
use ghetto_subscriber_valida.Exchange.Exhausted.{server_run_exhausted}
use ghetto_subscriber_valida.Exchange.Late.{send_req-heard_answer}
use ghetto_subscriber_valida.Drivers.{default_address, running, server_main}
use ghetto_subscriber_valida.Drivers.Asking.{one_second, client_init-IsUsable}
use ghetto_subscriber_valida.Drivers.Tests.{two_nodes-CanServe}
use ghetto_subscriber_valida.Drivers.Together.Tests.{network, network-Hears, turn_of, turn_of-Asks}
use ghetto_subscriber_valida.Drivers.Losses.{server_main-Protocol, server_main-decisions}

turn_of-Requests :
    (who digit : ℕ) → who < 256 → digit < 10 → Requests resolve (2 ^ 31) (turn_of who digit)
turn_of-Requests who digit known h =
    let a = turn_of-Asks who digit h in
    record {
      known = known;
      arguments = a.arguments;
      room = omega (arith, a.numbered, a.room);
      within = a.within;
      delivered = a.delivered;
      payload_size = a.payload_size;
    }

-- Three bytes that are no packet.
abbrev scrap : List ℕ
scrap = 1 ∷ 2 ∷ 3 ∷ []

scrap-IsNoise : IsNoise (datagram somewhere scrap garbage)
scrap-IsNoise = (ground arith, omega arith, λ (id, seq, payload, e, short). cc (e))

scrap-IsScrap : IsScrap scrap
scrap-IsScrap = (ground arith, λ host e. cc (e))

-- A request of client 3 is lost; it repeats it, and only the ACK comes back; it repeats it again, which
-- is a duplicate now; someone sends three bytes; client 7 asks out of sequence; and client 3 goes on,
-- and hears no ACK.
abbrev pub trials : List Happening
trials =
    asking lost [] (turn_of 3 0)
    ∷ asking (unheard true) [] (turn_of 3 0)
    ∷ asking (heard false) [] (turn_of 3 0)
    ∷ passing (datagram somewhere scrap garbage)
    ∷ asking (heard true) [] (turn_of 7 5)
    ∷ asking (heard false) (scrap ∷ []) (turn_of 3 1)
    ∷ []

pub trials-AllRequest : AllRequest resolve (2 ^ 31) trials
trials-AllRequest =
    let three = turn_of-Requests 3 0 (omega arith) (omega arith) in
    let seven = turn_of-Requests 7 5 (omega arith) (omega arith) in
    let next = turn_of-Requests 3 1 (omega arith) (omega arith) in
    (
      tt,
      three,
      (tt, three, (tt, three, (scrap-IsNoise, (tt, seven, ((scrap-IsScrap, tt), next, tt))))),
    )

abbrev pub new_clients : ℕ → Client
new_clients id = (client_init (pos 3) (pos 0) none id).1

server_main-Protocol_example :
    (serv₁ : Server) × (views : List View) × (effects : List Effect) × (cls' : ℕ → Client)
    × (serv' : Server) × (next : ℕ → ℕ) × (server_init two_lines reference
          (pos 3)
          (pos 0)
          fresh
          (some (default_address ByteOrder.little two_lines reference (pos 3) (pos 0)))
          (codes "db.txt")
          blank_str
        ≡ ok (true, serv₁))
    × Talk
        (λ id. ByteOrder.big)
        ByteOrder.little
        resolve
        reference
        network
        trials
        new_clients
        serv₁
        views
        effects
        cls'
        serv'
    × (server_main ByteOrder.little two_lines reference
          (pos 3)
          (pos 0)
          (codes "server" ∷ codes "db.txt" ∷ [])
          (arrivals trials)
          fresh
          blank_str
        ≡ ok (running, effects))
    × Protocol (map str_to_entry (lines [] two_nodes)) (λ id. 0) (requests trials) views next
    × ((id : ℕ) → serv'.expect_recv id ≡ next id)
server_main-Protocol_example =
    server_main-Protocol (λ id. ByteOrder.big) ByteOrder.little resolve two_lines reference network
      (pos 3) (pos 0) (λ id. pos 3) (λ id. pos 0) (2 ^ 31) (codes "server") (codes "db.txt")
      blank_str two_nodes fresh trials two_nodes-CanServe (length-replicate {A = ℕ} 8192 0)
      fresh-HasArrays (λ id. refl) (λ id. refl) network-Hears trials-AllRequest

server_main-decisions_example :
    (serv₁ : Server) × (views : List View) × (effects : List Effect) × (cls' : ℕ → Client)
    × (serv' : Server) × (server_init two_lines reference
          (pos 3)
          (pos 0)
          fresh
          (some (default_address ByteOrder.little two_lines reference (pos 3) (pos 0)))
          (codes "db.txt")
          blank_str
        ≡ ok (true, serv₁))
    × Talk
        (λ id. ByteOrder.big)
        ByteOrder.little
        resolve
        reference
        network
        trials
        new_clients
        serv₁
        views
        effects
        cls'
        serv'
    × ((id seq : ℕ) → decisions id seq (requests trials) views ≤ 1)
    × ((id : ℕ) → serv'.expect_recv id ≤ max_seq_num)
server_main-decisions_example =
    server_main-decisions (λ id. ByteOrder.big) ByteOrder.little resolve two_lines reference network
      (pos 3) (pos 0) (λ id. pos 3) (λ id. pos 0) (2 ^ 31) (codes "server") (codes "db.txt")
      blank_str two_nodes fresh trials two_nodes-CanServe (length-replicate {A = ℕ} 8192 0)
      fresh-HasArrays (λ id. refl) (λ id. refl) network-Hears trials-AllRequest

-- A server that expects 255 of client 3.
abbrev full_next : ℕ → ℕ
full_next id = if id == 3 then 255 else 9

abbrev full : Server
full = record idle { expect_recv = full_next }

full-Serves : Serves (filled_entries idle.db) (2 ^ 31) full_next full
full-Serves = record {
  ready = record {
    recv_size = idle-IsReady.recv_size;
    recv_bytes = idle-IsReady.recv_bytes;
    send_size = idle-IsReady.send_size;
    expected = λ id. ground arith;
  };
  searchable = one_db-IsSearchable;
  holds = Perm.refl (filled_entries idle.db);
  expected = λ id. refl;
}

new_clients-IsUsable : (id : ℕ) → IsUsable id one_second (new_clients id)
new_clients-IsUsable id = (client_init-IsUsable (pos 3) (pos 0) id refl refl).1

server_run_exhausted_example :
    (views : List View) × (effects : List Effect) × (cls' : ℕ → Client) × (serv' : Server) × Talk
      (λ id. ByteOrder.big)
      ByteOrder.little
      resolve
      reference
      network
      trials
      new_clients
      full
      views
      effects
      cls'
      serv'
    × (server_run ByteOrder.little reference (arrivals trials) full ≡ ok (false, serv', effects))
    × ((seq : ℕ) → seq < max_seq_num → decisions 3 seq (requests trials) views ≡ 0)
    × (serv'.expect_recv 3 ≡ max_seq_num)
server_run_exhausted_example =
    server_run_exhausted (λ id. ByteOrder.big) ByteOrder.little resolve reference network
      (filled_entries idle.db) (2 ^ 31) one_second trials full_next new_clients full 3 network-Hears
      trials-AllRequest new_clients-IsUsable full-Serves refl

-- Client 3 asks with number 1, and hears the answer to client 7's request with number 5.
send_req-heard_answer_example :
    let os : List (Option (List ℕ)) = heard_answer acc_ok 7 5 (question number tech) in
    (cl' : Client) × (send_req ByteOrder.little resolve
        (env_of network (turn_of 3 1) os)
        (argv_of (turn_of 3 1))
        (new_clients 3)
      ≡ ok (
        returned,
        cl',
        sending_to (turn_of 3 1).dest
            ∷ acted (Action.sent (turn_of 3 1).dest (frame_of (turn_of 3 1)))
            ∷ acted (replied (reply_text ByteOrder.little acc_ok))
            ∷ [],
      ))
    × IsUsable 3 one_second cl'
send_req-heard_answer_example =
    send_req-heard_answer ByteOrder.little resolve network (2 ^ 31) one_second (turn_of 3 1)
      (turn_of 7 5) (new_clients 3) (info ∷ []) acc_ok network-Hears
      (turn_of-Requests 3 1 (omega arith) (omega arith))
      (turn_of-Requests 7 5 (omega arith) (omega arith)) (new_clients-IsUsable 3)
      (granted info mem-cons_self refl refl refl refl)
