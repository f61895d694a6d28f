-- ===== src/Drivers/Tests.antt =====
-- The two programs on concrete input.
pub mod Faults
use ghetto_subscriber_valida.Prelude.{
  ℕ, ◌^◌, ◌≡◌, refl, ◌%◌, suc, true, false, Option, none, some, inr, ap, List, [], ◌∷◌, ◌++◌,
  length, ok, All, if◌then◌else◌, length-replicate, arith,
}
use ghetto_subscriber_valida.Prelude.Int.{pos}
use ghetto_subscriber_valida.Host.{ByteOrder}
use ghetto_subscriber_valida.CString.{codes}
use ghetto_subscriber_valida.SortSearch.Reference.{reference}
use ghetto_subscriber_valida.Packet.{acc_per}
use ghetto_subscriber_valida.Database.Tests.{
  blank_str, two_nodes, two_lines, two_nodes-IsShaped, lines-two_nodes, two_infos-InWindow,
}
use ghetto_subscriber_valida.Server.{Effect, Event, datagram}
use ghetto_subscriber_valida.Server.Frames.{ack_frame, data_frame}
use ghetto_subscriber_valida.Server.Acks.{acks_to, CountsUp}
use ghetto_subscriber_valida.Server.Run.{HoldsBytes, has_empty}
use ghetto_subscriber_valida.Server.Tests.{somewhere, fresh, fresh-HasArrays, garbage}
use ghetto_subscriber_valida.Drivers.{exit, running, server_main, client_main}
use ghetto_subscriber_valida.CString.{strtol, strtoul, until_nul, is_delim, strtok}
use ghetto_subscriber_valida.Shell.{
  max_n_tokens, tokenize, Line, Output, echoed, printing, run_command, run_line, rounds, loop,
}
use ghetto_subscriber_valida.Shell.Echo.{run_line-echo_line}
use ghetto_subscriber_valida.Shell.Prompts.{prompts}
use ghetto_subscriber_valida.Shell.Rounds.{Runs, tokens_of, HasEnded, loop-HasEnded}
use ghetto_subscriber_valida.Client.{Client, client_init}
use ghetto_subscriber_valida.Client.Usable.{IsUsable, Settles}
use ghetto_subscriber_valida.Client.Tests.{answer_of, silence, Meets-answer_of, Meets-silence}
use ghetto_subscriber_valida.Commands.{
  CommandEnv, Report, commands, n_commands, invoke, strict_strtoul,
}
use ghetto_subscriber_valida.Commands.Tests.{resolve, env_of}
use ghetto_subscriber_valida.Client.Protocol.{Hears}
use ghetto_subscriber_valida.Commands.Usable.{HasRoom, NamesInet}
use ghetto_subscriber_valida.Drivers.Asking.{
  one_second, IsServed, IsServed-Serves, client_init-IsUsable, client_main-Runs,
}
use ghetto_subscriber_valida.Drivers.Serving.{CanServe, server_main-CountsUp}

pub two_nodes-CanServe : CanServe two_lines (pos 3) (pos 0) (2 ^ 31) (codes "db.txt") two_nodes
two_nodes-CanServe = record {
  socket_ok = refl;
  bind_ok = refl;
  grammar = refl;
  parsed = refl;
  shaped = two_nodes-IsShaped;
  few = omega (arith, ap (λ (l : List (List ℕ)). length l) lines-two_nodes);
  window = two_infos-InWindow;
}

-- The same request twice, and then an empty datagram.
abbrev events : List Event
events =
    datagram somewhere (data_frame acc_per 3 0 (4 ∷ 243 ∷ 132 ∷ 127 ∷ 53 ∷ [])) garbage
    ∷ datagram somewhere (data_frame acc_per 3 0 (4 ∷ 243 ∷ 132 ∷ 127 ∷ 53 ∷ [])) garbage
    ∷ datagram somewhere [] garbage
    ∷ []

events-HoldsBytes : HoldsBytes events
events-HoldsBytes = ground arith

server_main-CountsUp_example :
    (effects : List Effect) × (server_main ByteOrder.little two_lines reference
        (pos 3)
        (pos 0)
        (codes "server" ∷ codes "db.txt" ∷ [])
        events
        fresh
        blank_str
      ≡ ok (if has_empty events then exit 0 else running, effects))
    × ((id : ℕ) → (next : ℕ) × CountsUp 0 (acks_to id effects) next)
server_main-CountsUp_example =
    server_main-CountsUp ByteOrder.little two_lines reference (pos 3) (pos 0) (2 ^ 31)
      (codes "server") (codes "db.txt") two_nodes events fresh blank_str two_nodes-CanServe
      (length-replicate {A = ℕ} 8192 0) fresh-HasArrays events-HoldsBytes

abbrev request_line : Line CommandEnv
request_line = record {
  input = codes "send_req localhost 4321 9 4085546805 04\n";
  env = env_of (answer_of (ack_frame 3 9) ∷ silence ∷ silence ∷ silence ∷ []);
}

abbrev other_line : List ℕ → Line CommandEnv
other_line input = record { input = input; env = env_of (silence ∷ silence ∷ silence ∷ []) }

-- A request that is only acknowledged, a line without a command, one that has no command of its name, and a
-- request with an argument too few.
abbrev input_lines : List (Line CommandEnv)
input_lines =
    request_line
    ∷ other_line (codes "\n")
    ∷ other_line (codes "help\n")
    ∷ other_line (codes "send_req localhost 4321 9 4085546805\n")
    ∷ []

abbrev waits_none : List (Option (List ℕ))
waits_none = none ∷ none ∷ none ∷ []

three_silences : Hears one_second (silence ∷ silence ∷ silence ∷ []) waits_none
three_silences = (Meets-silence, (Meets-silence, (Meets-silence, tt)))

pub three_silences-Settles : Settles ByteOrder.little one_second (silence ∷ silence ∷ silence ∷ [])
three_silences-Settles = record {
  brought = waits_none;
  bytes = tt;
  hears = three_silences;
  over = inr (omega arith);
}

request_line-IsServed : IsServed ByteOrder.little resolve request_line
unfolding until_nul is_delim strtoul strict_strtoul
request_line-IsServed = record {
  size = refl;
  settles = record {
    brought = some (ack_frame 3 9) ∷ waits_none;
    bytes = ground arith;
    hears = (Meets-answer_of (ack_frame 3 9), three_silences);
    over = inr (omega arith);
  };
  room = omega arith;
  inet = refl;
}

other_line-IsServed :
    (input : List ℕ)
    → HasRoom (tokens_of (invoke ByteOrder.little resolve) commands n_commands (other_line input))
    → NamesInet resolve
        (tokens_of (invoke ByteOrder.little resolve) commands n_commands (other_line input))
    → IsServed ByteOrder.little resolve (other_line input)
other_line-IsServed input room inet = record {
  size = refl;
  settles = three_silences-Settles;
  room = room;
  inet = inet;
}

input_lines-AllServed : All (IsServed ByteOrder.little resolve) input_lines
unfolding until_nul is_delim
input_lines-AllServed = (
  request_line-IsServed,
  (
    other_line-IsServed (codes "\n") tt tt,
    (
      other_line-IsServed (codes "help\n") tt tt,
      (other_line-IsServed (codes "send_req localhost 4321 9 4085546805\n") tt tt, tt),
    ),
  ),
)

-- The client that `client_init` sets up.
abbrev pub client : Client
client = (client_init (pos 3) (pos 0) none 3).1

run_line-echo_line_example :
    (text : List ℕ) × (run_line
        (invoke ByteOrder.little resolve)
        commands
        n_commands
        true
        request_line.env
        (tokenize (codes "dump_config  now\n") max_n_tokens)
        (rounds (invoke ByteOrder.little resolve) commands n_commands false true [])
        client
      ≡ printing
          (invoke ByteOrder.little resolve)
          commands
          n_commands
          (echoed (codes "Your command was:\n" ++ text) ∷ [])
          (run_command
            (invoke ByteOrder.little resolve)
            commands
            n_commands
            request_line.env
            (codes "dump_config" ∷ codes "now" ∷ [])
            (codes "dump_config")
            (rounds (invoke ByteOrder.little resolve) commands n_commands false true [])
            client))
    × (tokenize text max_n_tokens ≡ tokenize (codes "dump_config  now\n") max_n_tokens)
unfolding tokenize strtok
run_line-echo_line_example =
    run_line-echo_line (invoke ByteOrder.little resolve) commands n_commands request_line.env
      (codes "dump_config  now\n") (codes "dump_config") (codes "now" ∷ [])
      (rounds (invoke ByteOrder.little resolve) commands n_commands false true []) client refl

loop-HasEnded_example :
    HasEnded
      (invoke ByteOrder.little resolve)
      commands
      n_commands
      (IsUsable 3 one_second)
      input_lines
      client
      (if true then suc (length input_lines) else 0)
      (loop (invoke ByteOrder.little resolve) commands n_commands true false input_lines client)
loop-HasEnded_example =
    loop-HasEnded (invoke ByteOrder.little resolve) commands n_commands (IsUsable 3 one_second)
      (omega arith) true false input_lines client
      (IsServed-Serves ByteOrder.little resolve 3 input_lines input_lines-AllServed)
      (client_init-IsUsable (pos 3) (pos 0) 3 refl refl).1

client_main-Runs_example :
    (cl : Client) × (out : List (Output Report)) × (client_main ByteOrder.little resolve
        (pos 3)
        (pos 0)
        true
        (codes "client" ∷ codes "3" ∷ [])
        input_lines
      ≡ ok (exit 0, out))
    × Runs
        (invoke ByteOrder.little resolve)
        commands
        n_commands
        input_lines
        (client_init (pos 3) (pos 0) none (strtol (codes "3") % 256)).1
        cl
    × IsUsable (strtol (codes "3") % 256) one_second cl
    × (prompts out ≡ (if true then suc (length input_lines) else 0))
unfolding until_nul is_delim
client_main-Runs_example =
    client_main-Runs ByteOrder.little resolve (pos 3) (pos 0) true (codes "client") (codes "3")
      input_lines refl refl input_lines-AllServed
