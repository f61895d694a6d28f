-- ===== src/Commands.antt =====
-- client_commands.c: the parsing of arguments, and the commands of the client's shell.
pub mod Digits
pub mod Tests
pub mod Request
pub mod Agreement
pub mod Usable
pub mod Family
use ghetto_subscriber_valida.Prelude.{
  ℕ, ◌%◌, ◌^◌, List, [], ◌∷◌, Bool, true, false, not, ◌==◌, ◌||◌, if◌then◌else◌, Option, none, some,
  Outcome, ok, aborted, fault, ◌>>=◌, length, replicate,
}
use Prim.Native.String.{String}
use ghetto_subscriber_valida.Prelude.Int.{ℤ}
use ghetto_subscriber_valida.Host.{ByteOrder, store32, htonl}
use ghetto_subscriber_valida.CString.{codes, strtoul}
use ghetto_subscriber_valida.RawIterator.{rit_init, rit_write}
use ghetto_subscriber_valida.Database.{subnum_strlen, tech_strlen}
use ghetto_subscriber_valida.Packet.{PacketInfo, set_data_info, acc_per}
use ghetto_subscriber_valida.Server.{Address}
use ghetto_subscriber_valida.Client.{Client, Action, Answer, Progress, returned, client_send_packet}
use ghetto_subscriber_valida.Shell.{CommandPair}

-- What `getaddrinfo` gives for a node and a service: an error code that is not 0, or the length of the
-- first address and the address.
pub data AddrInfo : Type 0 where
  gai_error : ℤ → AddrInfo
  resolved : ℕ → Address → AddrInfo

abbrev pub sockaddr_in_size : ℕ
sockaddr_in_size = 16

-- The functions that stand in the command table.
pub data CommandFn : Type 0 where
  dump_config_fn send_req_fn : CommandFn

abbrev pub n_commands : ℕ
n_commands = 2

abbrev pub commands : List (CommandPair CommandFn)
commands =
    record { command_str = codes "dump_config"; fn = dump_config_fn }
    ∷ record { command_str = codes "send_req"; fn = send_req_fn }
    ∷ []

-- What a command prints or sends.
pub data Report : Type 0 where
  error : String → Report
  sending_to : Address → Report
  config : Address → ℕ → ℤ → Report
  acted : Action → Report

-- The value that `strtoul` finds, unless it reads nothing (`end == s`) or not all of `s` (`*end != '\0'`).
unfoldable pub strict_strtoul : List ℕ → Option ℕ
strict_strtoul s =
    let (n, end) = strtoul s in
    if length end == length s then none else if not (length end == 0) then none else some n

-- `parse_ip_args`, with the strings argv[1], argv[2] and argv[3]: the address and the sequence number.
module _ (getaddrinfo : List ℕ → List ℕ → AddrInfo) where
  unfoldable pub parse_ip_args :
      List ℕ → List ℕ → List ℕ → Outcome (Option (Address × ℕ) × List Report)
  parse_ip_args node service seq = elim (getaddrinfo node service) [
    | gai_error code ↦ ok (none, error "parse_ip_args: gai_strerror" ∷ [])
    | resolved addrlen addr ↦
        if addrlen == sockaddr_in_size
        then (elim (strict_strtoul seq) [
          | none ↦ ok (none, error "parse_ip_args: Invalid sequence number!" ∷ [])
          | some n ↦ ok (some (addr, n % 256), [])
        ])
        else aborted
  ]

-- The fields of a `client_info` that `parse_client_info` sets: the number and the technology.
unfoldable pub parse_client_info : List ℕ → List ℕ → Option (ℕ × ℕ) × List Report
parse_client_info num_str tech_str =
    if not (length num_str == subnum_strlen)
    then (none, error "parse_client_info: Bad subscriber number length!" ∷ [])
    else if not (length tech_str == tech_strlen)
    then (none, error "parse_client_info: Bad technology type length!" ∷ [])
    else elim (strict_strtoul num_str) [
      | none ↦ (none, error "parse_ip_args: Invalid subscriber number!" ∷ [])
      | some number ↦ elim (strict_strtoul tech_str) [
        | none ↦ (none, error "parse_ip_args: Invalid technology type!" ∷ [])
        | some ttype ↦ (some (number % 2 ^ 32, ttype % 2 ^ 8), [])
      ]
    ]

-- sizeof(subscriber_num) + sizeof(tech_type).
abbrev pub request_size : ℕ
request_size = 5

-- The environment of a command: the result of `sendto`, the answers that come, and the bytes of `payload`
-- and of `pi` before they are set.
pub record CommandEnv : Type 0 where
  pub sendto : ℤ
  pub answers : List Answer
  pub payload : List ℕ
  pub pi : PacketInfo

abbrev pub acted_all : List Action → List Report
acted_all [] = []
acted_all (a ∷ as') = acted a ∷ acted_all as'

abbrev pub CommandRun : Type 0
CommandRun = Outcome (Progress × Client × List Report)

-- The payload of a request: the technology, and the number in network order.
unfoldable pub build_payload : ByteOrder → List ℕ → ℕ → ℕ → Outcome (List ℕ)
build_payload host payload number ttype = do
  rit₁ ← rit_write 1 (ttype ∷ []) (rit_init payload request_size)
  rit₂ ← rit_write 4 (store32 host (htonl host number)) rit₁
  ok rit₂.bytes

module _ (host : ByteOrder) (getaddrinfo : List ℕ → List ℕ → AddrInfo) where
  -- The end of `send_req`, behind the parsing of its arguments.
  unfoldable pub send_parsed : CommandEnv → Address → ℕ → ℕ → ℕ → Client → CommandRun
  send_parsed env dest seq number ttype cl = do
    payload ← build_payload host env.payload number ttype
    let pi = set_data_info seq request_size payload (record env.pi { type = acc_per; id = cl.id })
    (progress, cl', actions) ← client_send_packet host pi dest env.sendto env.answers cl
    ok (progress, cl', sending_to dest ∷ acted_all actions)

  -- The parsing of argv[4] and argv[5], and what comes after it.
  unfoldable pub send_to : CommandEnv → Address → ℕ → List ℕ → List ℕ → Client → CommandRun
  unfolding send_parsed
  send_to env dest seq num_str tech_str cl =
      let (info, errors) = parse_client_info num_str tech_str in
      elim info [
        | none ↦ ok (returned, cl, errors)
        | some (number, ttype) ↦ send_parsed env dest seq number ttype cl
      ]

  -- `send_req`, over the tokens of its line.
  unfoldable pub send_req : CommandEnv → List (List ℕ) → Client → CommandRun
  unfolding send_to
  send_req env (name ∷ node ∷ service ∷ seq ∷ num_str ∷ tech_str ∷ []) cl =
      parse_ip_args getaddrinfo node service seq >>= λ (parsed, errors). elim parsed [
        | none ↦ ok (returned, cl, errors)
        | some (dest, n) ↦ send_to env dest n num_str tech_str cl
      ]
  send_req env argv cl =
      ok (
        returned,
        cl,
        error "Usage: send_req [dest_ip] [port] [seq_num] [sub_num] [tech_type]" ∷ [],
      )

  unfoldable pub dump_config : List (List ℕ) → Client → CommandRun
  dump_config argv cl = ok (returned, cl, config cl.addr cl.id cl.sock_fd ∷ [])

  -- The call of a function of the command table.
  unfoldable pub invoke : CommandFn → CommandEnv → List (List ℕ) → Client → CommandRun
  invoke dump_config_fn env argv cl = dump_config argv cl
  invoke send_req_fn env argv cl = send_req env argv cl
