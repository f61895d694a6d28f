-- ===== src/Commands/Usable.antt =====
-- The commands of the client's shell, whatever the user types.
use ghetto_subscriber_valida.Prelude.{
  ℕ, ◌%◌, ◌<◌, ◌≡◌, refl, List, [], ◌∷◌, Option, none, some, Outcome, ok, length, arith, ◌>>=◌, ◌⊎◌,
  inl, inr,
}
use ghetto_subscriber_valida.Host.{ByteOrder}
use ghetto_subscriber_valida.Packet.{layout}
use ghetto_subscriber_valida.BusyWait.{Timeval}
use ghetto_subscriber_valida.Server.{Address}
use ghetto_subscriber_valida.Client.{Client, returned, max_seq_num}
use ghetto_subscriber_valida.Client.Usable.{IsUsable, Settles, client_send_packet-IsUsable}
use ghetto_subscriber_valida.Commands.{
  AddrInfo, gai_error, resolved, CommandEnv, Report, CommandRun, CommandFn, dump_config_fn,
  send_req_fn, config, error, sending_to, acted_all, strict_strtoul, parse_ip_args,
  parse_client_info, send_parsed, send_to, send_req, dump_config, invoke, request_size,
  sockaddr_in_size,
}
use ghetto_subscriber_valida.Commands.Digits.{build_payload-lem}
use ghetto_subscriber_valida.Commands.Request.{request_pi}

-- What `getaddrinfo` gives is an error or an address of IPv4. Without hints, as `parse_ip_args` calls
-- it, it can also give one of IPv6.
abbrev pub IsInet : AddrInfo → Type 0
IsInet (gai_error code) = Unit
IsInet (resolved addrlen addr) = addrlen ≡ sockaddr_in_size

abbrev SeqFits : Option ℕ → Type 0
SeqFits none = Unit
SeqFits (some n) = n % 256 < max_seq_num

-- Tokens that do not ask `send_req` for a sequence number that `tries` has no room for.
abbrev pub HasRoom : List (List ℕ) → Type 0
HasRoom (name ∷ node ∷ service ∷ seq ∷ num_str ∷ tech_str ∷ []) = SeqFits (strict_strtoul seq)
HasRoom argv = Unit

-- Tokens whose address, if they are a request's, does not resolve to one of another family.
abbrev pub NamesInet : (List ℕ → List ℕ → AddrInfo) → List (List ℕ) → Type 0
NamesInet getaddrinfo (name ∷ node ∷ service ∷ seq ∷ num_str ∷ tech_str ∷ []) =
    IsInet (getaddrinfo node service)
NamesInet getaddrinfo argv = Unit

-- What is parsed: nothing, or a sequence number that `tries` has room for.
abbrev Parses : Outcome (Option (Address × ℕ) × List Report) → Type 0
Parses m =
    ((errors : List Report) × (m ≡ ok (none, errors)))
    ⊎ ((dest : Address) × (n : ℕ) × (m ≡ ok (some (dest, n), [])) × (n < max_seq_num))

parse_ip_args-cases :
    (getaddrinfo : List ℕ → List ℕ → AddrInfo) (node service seq : List ℕ) (found : AddrInfo)
    (n : Option ℕ)
    → getaddrinfo node service ≡ found
    → IsInet found
    → strict_strtoul seq ≡ n
    → SeqFits n
    → Parses (parse_ip_args getaddrinfo node service seq)
unfolding parse_ip_args
parse_ip_args-cases getaddrinfo node service seq (gai_error code) n g i e fits =
    inl (error "parse_ip_args: gai_strerror" ∷ [], rw (parse_ip_args, g) refl)
parse_ip_args-cases getaddrinfo node service seq (resolved addrlen addr) none g i e fits =
    inl (error "parse_ip_args: Invalid sequence number!" ∷ [], rw (parse_ip_args, g, i, e) refl)
parse_ip_args-cases getaddrinfo node service seq (resolved addrlen addr) (some n) g i e fits =
    inr (addr, n % 256, rw (parse_ip_args, g, i, e) refl, fits)

-- A command that has returned and left a usable client.
abbrev pub Returns : ℕ → Timeval → CommandRun → Type 0
Returns id timeout m =
    (cl' : Client) × (reports : List Report) × (m ≡ ok (returned, cl', reports))
    × IsUsable id timeout cl'

module _ (host : ByteOrder) (getaddrinfo : List ℕ → List ℕ → AddrInfo) (env : CommandEnv) (id : ℕ)
    (timeout : Timeval) (size : length env.payload ≡ request_size)
    (settles : Settles host timeout env.answers) where
  send_parsed-Returns :
      (dest : Address) (seq number ttype : ℕ) (cl : Client)
      → IsUsable id timeout cl
      → seq < max_seq_num
      → Returns id timeout (send_parsed host getaddrinfo env dest seq number ttype cl)
  unfolding send_parsed layout
  send_parsed-Returns dest seq number ttype cl usable room =
      let (cl', actions, run, again) =
        client_send_packet-IsUsable host (request_pi env.pi cl.id seq number ttype) id timeout cl
          usable dest env.sendto env.answers
          (record { known = λ k. cc; has_payload = λ k. omega arith }) (λ k. omega arith) room
          settles in
      (
        cl',
        sending_to dest ∷ acted_all actions,
        rw (build_payload-lem host env.payload number ttype size, run) refl,
        again,
      )

  info-Returns :
      (dest : Address) (seq : ℕ) (cl : Client) (info : Option (ℕ × ℕ)) (errors : List Report)
      → IsUsable id timeout cl
      → seq < max_seq_num
      → Returns id timeout (elim info [
        | none ↦ ok (returned, cl, errors)
        | some (number, ttype) ↦ send_parsed host getaddrinfo env dest seq number ttype cl
      ])
  info-Returns dest seq cl none errors usable room = (cl, errors, refl, usable)
  info-Returns dest seq cl (some (number, ttype)) errors usable room =
      send_parsed-Returns dest seq number ttype cl usable room

  send_to-Returns :
      (dest : Address) (seq : ℕ) (num_str tech_str : List ℕ) (cl : Client)
      → IsUsable id timeout cl
      → seq < max_seq_num
      → Returns id timeout (send_to host getaddrinfo env dest seq num_str tech_str cl)
  unfolding send_to
  send_to-Returns dest seq num_str tech_str cl usable room =
      info-Returns dest seq cl (parse_client_info num_str tech_str).0
        (parse_client_info num_str tech_str).1 usable room

  -- What is done behind the parsing of the address and the sequence number.
  abbrev parsed_run : List ℕ → List ℕ → Client → Option (Address × ℕ) × List Report → CommandRun
  parsed_run num_str tech_str cl (parsed, errors) = elim parsed [
    | none ↦ ok (returned, cl, errors)
    | some (dest, n) ↦ send_to host getaddrinfo env dest n num_str tech_str cl
  ]

  parsed-Returns :
      (node service seq num_str tech_str : List ℕ) (cl : Client)
      → IsInet (getaddrinfo node service)
      → SeqFits (strict_strtoul seq)
      → IsUsable id timeout cl
      → Returns id timeout
          (parse_ip_args getaddrinfo node service seq >>= parsed_run num_str tech_str cl)
  parsed-Returns node service seq num_str tech_str cl inet fits usable =
      elim (parse_ip_args-cases getaddrinfo node service seq (getaddrinfo node service)
        (strict_strtoul seq) refl inet refl fits) [
          | inl (errors, e) ↦ rw e (cl, errors, refl, usable)
          | inr (dest, n, e, room) ↦ rw e (send_to-Returns dest n num_str tech_str cl usable room)
        ]

  usage-Returns :
      (cl : Client) (reports : List Report)
      → IsUsable id timeout cl
      → Returns id timeout (ok (returned, cl, reports))
  usage-Returns cl reports usable = (cl, reports, refl, usable)

  -- On a usable client and in such an environment `send_req` returns and leaves a usable client, whatever
  -- the tokens of its line, unless they ask for a sequence number that `tries` has no room for, or name an
  -- address of another family than IPv4.
  pub send_req-Returns :
      (argv : List (List ℕ)) (cl : Client)
      → IsUsable id timeout cl
      → HasRoom argv
      → NamesInet getaddrinfo argv
      → Returns id timeout (send_req host getaddrinfo env argv cl)
  unfolding send_req
  send_req-Returns [] cl usable h inet = usage-Returns cl _ usable
  send_req-Returns (a ∷ []) cl usable h inet = usage-Returns cl _ usable
  send_req-Returns (a ∷ b ∷ []) cl usable h inet = usage-Returns cl _ usable
  send_req-Returns (a ∷ b ∷ c ∷ []) cl usable h inet = usage-Returns cl _ usable
  send_req-Returns (a ∷ b ∷ c ∷ d ∷ []) cl usable h inet = usage-Returns cl _ usable
  send_req-Returns (a ∷ b ∷ c ∷ d ∷ e ∷ []) cl usable h inet = usage-Returns cl _ usable
  send_req-Returns (name ∷ node ∷ service ∷ seq ∷ num_str ∷ tech_str ∷ []) cl usable h inet =
      parsed-Returns node service seq num_str tech_str cl inet h usable
  send_req-Returns (a ∷ b ∷ c ∷ d ∷ e ∷ f ∷ g ∷ argv) cl usable h inet = usage-Returns cl _ usable

  pub invoke-Returns :
      (fn : CommandFn) (argv : List (List ℕ)) (cl : Client)
      → IsUsable id timeout cl
      → HasRoom argv
      → NamesInet getaddrinfo argv
      → Returns id timeout (invoke host getaddrinfo fn env argv cl)
  unfolding invoke dump_config
  invoke-Returns dump_config_fn argv cl usable h inet =
      (cl, config cl.addr cl.id cl.sock_fd ∷ [], refl, usable)
  invoke-Returns send_req_fn argv cl usable h inet = send_req-Returns argv cl usable h inet
