-- ===== src/Exchange/Users.antt =====
-- What the shells of any number of clients make of the lines that their users type, over a network that may
-- lose datagrams.
use ghetto_subscriber_valida.Prelude.{
  ℕ, ◌≡◌, refl, ap, subst, List, [], ◌∷◌, ◌++◌, Bool, true, false, not, Option, ok, ==_iff, All,
  ◌==◌, if◌then◌else◌, Bool-cases, inl, inr,
}
use ghetto_subscriber_valida.Host.{ByteOrder}
use ghetto_subscriber_valida.CString.{until_nul}
use ghetto_subscriber_valida.SortSearch.{SortSearch}
use ghetto_subscriber_valida.Database.{ClientInfo}
use ghetto_subscriber_valida.Server.{Server, Effect}
use ghetto_subscriber_valida.Client.{Client, Action, Answer, returned}
use ghetto_subscriber_valida.Shell.{
  max_n_tokens, tokenize, Line, Output, prompt, echoed, echo_text, newline, did_all, when,
  after_command, run_command, run_line, rounds, loop,
}
use ghetto_subscriber_valida.Commands.{
  AddrInfo, CommandEnv, Report, sending_to, acted, acted_all, send_req, commands, n_commands,
  invoke,
}
use ghetto_subscriber_valida.Exchange.Turns.{Turn, argv_of, env_of, frame_of}
use ghetto_subscriber_valida.Exchange.Conversation.{become}
use ghetto_subscriber_valida.Exchange.User.{find-send_req}
use ghetto_subscriber_valida.Exchange.Protocol.{View}
use ghetto_subscriber_valida.Exchange.Shown.{shown}
use ghetto_subscriber_valida.Exchange.Losses.{brought}
use ghetto_subscriber_valida.Exchange.Talk.{
  Talk, Happening, asking, passing, over, take_turn, let_pass,
}

-- The user types a line whose tokens are those of the request.
abbrev pub HasLine : Happening → Type 0
HasLine (asking fate ds t) = tokenize (until_nul t.input) max_n_tokens ≡ argv_of t
HasLine (passing e) = Unit

module _ (chost : ℕ → ByteOrder) (shost : ByteOrder) (getaddrinfo : List ℕ → List ℕ → AddrInfo)
    (std : SortSearch ClientInfo) (network : List (Option (List ℕ)) → List Answer) (who : ℕ) where
  abbrev TalkOf :
      List Happening
      → (ℕ → Client)
      → Server
      → List View
      → List Effect
      → (ℕ → Client)
      → Server
      → Type 0
  TalkOf = Talk chost shost getaddrinfo std network

  -- What this user's client reports of a request.
  abbrev pub reports_shown : Turn → View → List Report
  reports_shown t view =
      sending_to t.dest
      ∷ acted (Action.sent t.dest (frame_of t))
      ∷ acted_all (shown (chost t.who) t.who view)

  -- The lines of this user, each with what its command meets.
  abbrev pub lines_of :
      {ts : List Happening} {cls cls' : ℕ → Client} {serv serv' : Server} {views : List View}
      {effects : List Effect}
      → TalkOf ts cls serv views effects cls' serv'
      → List (Line CommandEnv)
  lines_of over = []
  lines_of (take_turn {fate = fate} {ds = ds} {t = t} {effects = effects} x talk) =
      let more = lines_of talk in
      if t.who == who
      then record { input = t.input; env = env_of network t (brought fate ds effects) } ∷ more
      else more
  lines_of (let_pass n x talk) = lines_of talk

  module _ (interactive echo : Bool) where
    -- What the shell prints for this user.
    abbrev pub printed_in :
        {ts : List Happening} {cls cls' : ℕ → Client} {serv serv' : Server} {views : List View}
        {effects : List Effect}
        → TalkOf ts cls serv views effects cls' serv'
        → List (Output Report)
    printed_in over =
        when (invoke (chost who) getaddrinfo) commands n_commands interactive prompt ++ newline ∷ []
    printed_in (take_turn {t = t} {view = view} x talk) =
        let more = printed_in talk in
        if t.who == who
        then when (invoke (chost who) getaddrinfo) commands n_commands interactive prompt
          ++ (when (invoke (chost who) getaddrinfo) commands n_commands echo
                (echoed (echo_text (argv_of t)))
              ++ (did_all (reports_shown t view) ++ more))
        else more
    printed_in (let_pass n x talk) = printed_in talk

    -- The shell has run the `send_req` of each line.
    abbrev Prints :
        {ts : List Happening} {cls cls' : ℕ → Client} {serv serv' : Server} {views : List View}
        {effects : List Effect}
        → TalkOf ts cls serv views effects cls' serv'
        → Client
        → Type 0
    Prints {cls' = cls'} c cl =
        rounds (invoke (chost who) getaddrinfo) commands n_commands interactive echo (lines_of c) cl
        ≡ ok (returned, cls' who, printed_in c)

    rounds-printed_in :
        (ts : List Happening) (cls : ℕ → Client) (serv : Server) (views : List View)
        (effects : List Effect) (cls' : ℕ → Client) (serv' : Server)
        (c : TalkOf ts cls serv views effects cls' serv')
        → All HasLine ts
        → Prints c (cls who)
    unfolding rounds run_line run_command after_command invoke
    rounds-printed_in _ cls serv _ _ _ _ over h = refl
    rounds-printed_in _ cls serv _ _ cls' serv'
          (take_turn {fate = fate} {ds = ds} {t = t} {ts = ts} {view = view} {views = views}
            {effects = effects} {more = more} {cl = cl} {serv₁ = serv₁} x talk)
          (types, h) =
        let ih = rounds-printed_in ts (become cls t.who cl) serv₁ views more cls' serv' talk h in
        elim (Bool-cases (t.who == who)) [
          | inl e ↦
              let asked =
                subst
                  (λ w.
                    send_req (chost w) getaddrinfo (env_of network t (brought fate ds effects))
                      (argv_of t) (cls w)
                    ≡ ok (returned, cl, reports_shown t view))
                  ((==_iff t.who who).0 e) x.asked in
              let rest : Prints talk cl =
                subst (Prints talk) (ap (λ b. if b then cl else cls who) e) ih in
              rw (e, types, find-send_req, asked, rest) refl
          | inr e ↦ rw e (subst (Prints talk) (ap (λ b. if b then cl else cls who) e) ih)
        ]
    rounds-printed_in _ cls serv _ _ cls' serv'
          (let_pass {ts = ts} {serv₁ = serv₁} {views = views} {more = more} n x talk) (_, h) =
        rounds-printed_in ts cls serv₁ views more cls' serv' talk h

  -- `loop` on the lines of a user, whose global `echo` is false at the start.
  pub loop-printed_in :
      (interactive : Bool) (ts : List Happening) (cls : ℕ → Client) (serv : Server)
      (views : List View) (effects : List Effect) (cls' : ℕ → Client) (serv' : Server)
      (c : TalkOf ts cls serv views effects cls' serv')
      → All HasLine ts
      → loop
          (invoke (chost who) getaddrinfo)
          commands
          n_commands
          interactive
          false
          (lines_of c)
          (cls who)
        ≡ ok (returned, cls' who, printed_in interactive (not interactive) c)
  unfolding loop
  loop-printed_in true = rounds-printed_in true false
  loop-printed_in false = rounds-printed_in false true
