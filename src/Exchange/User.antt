-- ===== src/Exchange/User.antt =====
-- A conversation of one user: what the shell of the client makes of the lines that the user types.
use ghetto_subscriber_valida.Prelude.{
  ℕ, ◌≡◌, refl, subst, List, [], ◌∷◌, ◌++◌, Bool, true, false, not, Option, some, ok, ==_iff, sym,
  All,
}
use ghetto_subscriber_valida.Host.{ByteOrder}
use ghetto_subscriber_valida.CString.{codes, until_nul, str_eq}
use ghetto_subscriber_valida.SortSearch.{SortSearch}
use ghetto_subscriber_valida.Database.{ClientInfo}
use ghetto_subscriber_valida.Server.{Server, Effect}
use ghetto_subscriber_valida.Client.{Client, Answer, returned}
use ghetto_subscriber_valida.Shell.{
  max_n_tokens, tokenize, find_command, Line, Output, prompt, echoed, echo_text, newline, did_all,
  when, after_command, run_command, run_line, rounds, loop,
}
use ghetto_subscriber_valida.Commands.{
  AddrInfo, CommandEnv, Report, send_req_fn, commands, n_commands, invoke,
}
use ghetto_subscriber_valida.Exchange.Turns.{
  Turn, datagrams, argv_of, env_of, reports_of, Exchanges,
}
use ghetto_subscriber_valida.Exchange.Conversation.{become, Conversation, finished, turn}

-- A line of this user whose tokens are those of the request.
pub record Types (who : ℕ) (t : Turn) : Type 0 where
  pub speaks : t.who ≡ who
  pub tokens : tokenize (until_nul t.input) max_n_tokens ≡ argv_of t

become-same : (cls : ℕ → Client) (i : ℕ) (cl : Client) → become cls i cl i ≡ cl
become-same cls i cl = rw ((==_iff i i).1 refl) refl

pub find-send_req : find_command commands n_commands (codes "send_req") ≡ ok (some send_req_fn)
unfolding find_command str_eq
find-send_req = refl

module _ (chost : ℕ → ByteOrder) (shost : ByteOrder) (getaddrinfo : List ℕ → List ℕ → AddrInfo)
    (std : SortSearch ClientInfo) (network : List (Option (List ℕ)) → List Answer)
    (entries : List ClientInfo) where
  abbrev Talk : List Turn → (ℕ → Client) → Server → List Effect → (ℕ → Client) → Server → Type 0
  Talk = Conversation chost shost getaddrinfo std network entries

  -- The lines of a conversation, each with what its command meets.
  abbrev pub lines_of :
      {ts : List Turn} {cls cls' : ℕ → Client} {serv serv' : Server} {effects : List Effect}
      → Talk ts cls serv effects cls' serv'
      → List (Line CommandEnv)
  lines_of finished = []
  lines_of (turn {t = t} x rest) =
      record { input = t.input; env = env_of network t (datagrams x.effects) } ∷ lines_of rest

  module _ (interactive echo : Bool) where
    -- What the shell prints.
    abbrev pub printed_in :
        {ts : List Turn} {cls cls' : ℕ → Client} {serv serv' : Server} {effects : List Effect}
        → Talk ts cls serv effects cls' serv'
        → List (Output Report)
    printed_in finished =
        when (invoke (chost 0) getaddrinfo) commands n_commands interactive prompt ++ newline ∷ []
    printed_in (turn {t = t} x rest) =
        when (invoke (chost 0) getaddrinfo) commands n_commands interactive prompt
        ++ (when (invoke (chost 0) getaddrinfo) commands n_commands echo
              (echoed (echo_text (argv_of t)))
            ++ (did_all (reports_of (chost t.who) t x.type) ++ printed_in rest))

    -- The shell has run the `send_req` of each line.
    abbrev Prints :
        {ts : List Turn} {cls cls' : ℕ → Client} {serv serv' : Server} {effects : List Effect}
        → Talk ts cls serv effects cls' serv'
        → ℕ
        → Client
        → Type 0
    Prints {cls' = cls'} c who cl =
        rounds (invoke (chost who) getaddrinfo) commands n_commands interactive echo (lines_of c) cl
        ≡ ok (returned, cls' who, printed_in c)

    Prints-turn :
        (t : Turn) (ts : List Turn) (cls cls' : ℕ → Client) (cl : Client)
        (serv serv₁ serv' : Server) (effects : List Effect)
        (x : Exchanges
          (chost t.who)
          shost
          getaddrinfo
          std
          network
          entries
          t
          (cls t.who)
          serv
          cl
          serv₁)
        (rest : Talk ts (become cls t.who cl) serv₁ effects cls' serv')
        → tokenize (until_nul t.input) max_n_tokens ≡ argv_of t
        → Prints rest t.who cl
        → Prints (turn x rest) t.who (cls t.who)
    unfolding rounds run_line run_command after_command invoke
    Prints-turn t ts cls cls' cl serv serv₁ serv' effects x rest e more =
        rw (e, find-send_req, x.answered, more) refl

    rounds-printed_in :
        (ts : List Turn) (cls cls' : ℕ → Client) (serv serv' : Server) (effects : List Effect)
        (c : Talk ts cls serv effects cls' serv') (who : ℕ)
        → All (Types who) ts
        → Prints c who (cls who)
    unfolding rounds
    rounds-printed_in _ _ _ _ _ _ finished who h = refl
    rounds-printed_in _ _ cls' _ serv' _
          (turn {t = t} {ts = ts} {cls = cls} {cl = cl} {serv = serv} {serv₁ = serv₁}
            {effects = effects} x rest)
          who (types, h) =
        subst (λ w. Prints (turn x rest) w (cls w)) types.speaks
          (Prints-turn t ts cls cls' cl serv serv₁ serv' effects x rest types.tokens (
            subst (Prints rest t.who) (become-same cls t.who cl) (
              subst (λ w. Prints rest w (become cls t.who cl w)) (sym types.speaks)
                (rounds-printed_in ts (become cls t.who cl) cls' serv₁ serv' effects rest who h))))

  -- `loop` on the lines of a user, whose global `echo` is false at the start.
  pub loop-printed_in :
      (interactive : Bool) (ts : List Turn) (cls cls' : ℕ → Client) (serv serv' : Server)
      (effects : List Effect) (c : Talk ts cls serv effects cls' serv') (who : ℕ)
      → All (Types who) ts
      → loop
          (invoke (chost who) getaddrinfo)
          commands
          n_commands
          interactive
          false
          (lines_of c)
          (cls who)
        ≡ ok (returned, cls' who, printed_in interactive (not interactive) c)
  unfolding loop
  loop-printed_in true = rounds-printed_in true false
  loop-printed_in false = rounds-printed_in false true
