-- ===== src/Drivers/Together/Tests.antt =====
-- Two clients and the server on a concrete file.
use ghetto_subscriber_valida.Prelude.{
  ℕ, ◌++◌, ◌+◌, ◌<◌, ◌==◌, if◌then◌else◌, ◌^◌, ◌≡◌, refl, List, [], ◌∷◌, map, true, Option, none,
  some, ok, length-replicate, arith,
}
use ghetto_subscriber_valida.Prelude.Int.{pos}
use ghetto_subscriber_valida.Host.{ByteOrder}
use ghetto_subscriber_valida.CString.{codes}
use ghetto_subscriber_valida.SortSearch.Reference.{reference}
use ghetto_subscriber_valida.Database.{ClientInfo, str_to_entry}
use ghetto_subscriber_valida.Database.Lines.{lines}
use ghetto_subscriber_valida.Database.Tests.{blank_str, two_nodes, two_lines}
use ghetto_subscriber_valida.Server.{Server, Effect, server_init}
use ghetto_subscriber_valida.Drivers.{default_address, running, server_main}
use ghetto_subscriber_valida.Server.Tests.{fresh, fresh-HasArrays, garbage}
use ghetto_subscriber_valida.Client.{Client, Answer, client_init}
use ghetto_subscriber_valida.Client.Protocol.{Hears}
use ghetto_subscriber_valida.Client.Tests.{
  somewhere, packet, answer_of, silence, Meets-answer_of, Meets-silence,
}
use ghetto_subscriber_valida.Commands.Tests.{resolve, number, tech, nine-AreArguments}
use ghetto_subscriber_valida.Exchange.Turns.{Turn, Asks}
use ghetto_subscriber_valida.Exchange.Conversation.{
  AskInOrder, Conversation, request_event, AllInStep, next_after,
}
use ghetto_subscriber_valida.Drivers.Asking.{one_second}
use ghetto_subscriber_valida.Drivers.Tests.{two_nodes-CanServe}
use ghetto_subscriber_valida.Drivers.Together.{server_main-Conversation}

-- A network that brings each datagram in the second try, and nothing else.
abbrev pub network : List (Option (List ℕ)) → List Answer
network [] = []
network (some d ∷ os) = answer_of d ∷ network os
network (none ∷ os) = silence ∷ network os

pub network-Hears : (os : List (Option (List ℕ))) → Hears one_second (network os) os
network-Hears [] = tt
network-Hears (some d ∷ os) = (Meets-answer_of d, network-Hears os)
network-Hears (none ∷ os) = (Meets-silence, network-Hears os)

-- The client `who` asks with the sequence number `digit`.
abbrev pub turn_of : ℕ → ℕ → Turn
turn_of who digit = record {
  who = who;
  input = codes "send_req localhost 4321 " ++ ((48 + digit) ∷ codes " 4085546805 04\n");
  node = codes "localhost";
  service = codes "4321";
  seq = (48 + digit) ∷ [];
  num_str = number;
  tech_str = tech;
  dest = somewhere;
  sendto = pos 14;
  payload = 0 ∷ 0 ∷ 0 ∷ 0 ∷ 0 ∷ [];
  pi = packet 0;
  ret = somewhere;
  garbage = garbage;
}

pub turn_of-Asks : (who digit : ℕ) → digit < 10 → Asks resolve (2 ^ 31) digit (turn_of who digit)
turn_of-Asks who digit h = record {
  arguments = record {
    found = refl;
    seq_digits = ground arith;
    seq_some = omega arith;
    seq_short = omega arith;
    num_digits = nine-AreArguments.num_digits;
    num_ten = refl;
    tech_digits = nine-AreArguments.tech_digits;
    tech_two = refl;
  };
  numbered = omega arith;
  room = omega arith;
  within = ground arith;
  delivered = refl;
  payload_size = refl;
}

-- Client 3 asks twice, and client 7 in between.
abbrev turns : List Turn
turns = turn_of 3 0 ∷ turn_of 7 0 ∷ turn_of 3 1 ∷ []

turns-AskInOrder : AskInOrder resolve (2 ^ 31) (λ id. 0) turns
turns-AskInOrder = (
  omega arith,
  turn_of-Asks 3 0 (omega arith),
  (omega arith, turn_of-Asks 7 0 (omega arith), (omega arith, turn_of-Asks 3 1 (omega arith), tt)),
)

-- Client 7 runs on a host of the other byte order.
abbrev order_of : ℕ → ByteOrder
order_of id = if id == 7 then ByteOrder.big else ByteOrder.little

server_main-Conversation_example :
    let entries : List ClientInfo = map str_to_entry (lines [] two_nodes) in
    let cls : ℕ → Client = λ id. (client_init (pos 3) (pos 0) none id).1 in
    (serv₁ : Server) × (effects : List Effect) × (cls' : ℕ → Client) × (serv' : Server)
    × (server_init two_lines reference
          (pos 3)
          (pos 0)
          fresh
          (some (default_address ByteOrder.little two_lines reference (pos 3) (pos 0)))
          (codes "db.txt")
          blank_str
        ≡ ok (true, serv₁))
    × Conversation order_of ByteOrder.little resolve reference network entries turns cls serv₁
        effects cls' serv'
    × (server_main ByteOrder.little two_lines reference
          (pos 3)
          (pos 0)
          (codes "server" ∷ codes "db.txt" ∷ [])
          (map request_event turns)
          fresh
          blank_str
        ≡ ok (running, effects))
    × AllInStep entries (2 ^ 31) one_second (next_after (λ id. 0) turns) cls' serv'
server_main-Conversation_example =
    server_main-Conversation order_of ByteOrder.little resolve two_lines reference network (pos 3)
      (pos 0) (λ id. pos 3) (λ id. pos 0) (2 ^ 31) (codes "server") (codes "db.txt") blank_str
      two_nodes fresh turns two_nodes-CanServe (length-replicate {A = ℕ} 8192 0) fresh-HasArrays
      (λ id. refl) (λ id. refl) network-Hears turns-AskInOrder
