-- ===== src/Exchange/Losses.antt =====
-- A request of the client's user over a network that may lose it, or its answer: one turn of the two
-- programs.
use ghetto_subscriber_valida.Prelude.{
  ℕ, ◌≡◌, ◌∙◌, refl, List, [], ◌∷◌, Bool, All, Option, none, Outcome, ok, arith,
}
use ghetto_subscriber_valida.Host.{ByteOrder}
use ghetto_subscriber_valida.SortSearch.{SortSearch}
use ghetto_subscriber_valida.BusyWait.{Timeval}
use ghetto_subscriber_valida.Database.{ClientInfo}
use ghetto_subscriber_valida.Server.{Server, Effect, receive, server_process_packet}
use ghetto_subscriber_valida.Client.{Client, Action, Answer, returned}
use ghetto_subscriber_valida.Client.Protocol.{Hears}
use ghetto_subscriber_valida.Client.Usable.{IsUsable}
use ghetto_subscriber_valida.Commands.{AddrInfo, sending_to, acted, acted_all, send_req}
use ghetto_subscriber_valida.Exchange.Served.{question}
use ghetto_subscriber_valida.Exchange.Turns.{Turn, frame_of, argv_of, env_of, datagrams}
use ghetto_subscriber_valida.Exchange.Protocol.{
  Fate, heard, unheard, lost, View, nothing, Step, Step-unheard, lose,
}
use ghetto_subscriber_valida.Exchange.Handled.{frames, Serves, request-Handles}
use ghetto_subscriber_valida.Exchange.Shown.{
  shown, arriving, seen, left, listen-nothing, listen-arriving, HoldBytes-arriving,
}
use ghetto_subscriber_valida.Exchange.Scraps.{IsScrap, scraps, listen-scraps, HoldBytes-scraps}
use ghetto_subscriber_valida.Exchange.Asking.{
  Requests, seq_of, request_of, tries, tries_left, listen-Shows,
}

-- What the client's waits bring: some scraps, and then what arrives of what the server does.
abbrev pub brought : Fate → List (List ℕ) → List Effect → List (Option (List ℕ))
brought fate ds effects = scraps ds (arriving fate (datagrams effects))

module _ (chost shost : ByteOrder) (getaddrinfo : List ℕ → List ℕ → AddrInfo)
    (std : SortSearch ClientInfo) (network : List (Option (List ℕ)) → List Answer) where
  -- What the server does in a turn.
  abbrev pub serve : Fate → Turn → Server → Outcome (Server × List Effect)
  serve (heard acked) t serv =
      server_process_packet shost std (receive serv (frame_of t)) t.ret t.garbage
  serve (unheard acked) t serv =
      server_process_packet shost std (receive serv (frame_of t)) t.ret t.garbage
  serve lost t serv = ok (serv, [])

  -- The two programs in a turn: the server handles the frame that `send_req` sends, if it arrives; and
  -- `send_req` returns, has sent one frame, and has shown this.
  pub record Takes (fate : Fate) (ds : List (List ℕ)) (t : Turn) (cl : Client) (serv : Server)
      (view : View) (effects : List Effect) (cl' : Client) (serv' : Server) : Type 0 where
    pub served : serve fate t serv ≡ ok (serv', effects)
    pub asked :
        send_req chost getaddrinfo (env_of network t (brought fate ds effects)) (argv_of t) cl
        ≡ ok (
          returned,
          cl',
          sending_to t.dest
              ∷ acted (Action.sent t.dest (frame_of t))
              ∷ acted_all (shown chost t.who view),
        )

  module _ (base : ℕ) (timeout : Timeval)
      (delivers : (os : List (Option (List ℕ))) → Hears timeout (network os) os) where
    -- What a turn keeps, and that it is a step of the protocol.
    abbrev Steps :
        List ClientInfo → (ℕ → ℕ) → Fate → List (List ℕ) → Turn → Client → Server → Type 0
    Steps entries next fate ds t cl serv =
        (view : View) × (effects : List Effect) × (cl' : Client) × (serv' : Server) × (next' : ℕ
          → ℕ)
        × Takes fate ds t cl serv view effects cl' serv'
        × Step entries next fate (request_of t) view next'
        × IsUsable t.who timeout cl'
        × Serves entries base next' serv'

    -- A turn whose request arrives.
    arrived-Steps :
        (entries : List ClientInfo) (next : ℕ → ℕ) (fate : Fate) (ds : List (List ℕ)) (acked : Bool)
        (t : Turn) (cl : Client) (serv : Server)
        → All IsScrap ds
        → Requests getaddrinfo base t
        → IsUsable t.who timeout cl
        → Serves entries base next serv
        → serve fate t serv
          ≡ server_process_packet shost std (receive serv (frame_of t)) t.ret t.garbage
        → ((view : View) (next' : ℕ → ℕ)
            → Step entries next (heard acked) (request_of t) view next'
            → Step entries next fate (request_of t) (seen fate view) next')
        → Steps entries next fate ds t cl serv
    arrived-Steps entries next fate ds acked t cl serv h q usable serves same step =
        let ((serv', effects), view, next', run, serves', s, sent) =
          request-Handles shost std entries base next serv t.ret t.garbage t.who (seq_of t)
            t.num_str t.tech_str acked serves q.known q.arguments.tech_digits q.arguments.tech_two
            q.within q.room in
        let now : ℕ = tries chost getaddrinfo network base timeout delivers t q cl usable in
        let room = tries_left chost getaddrinfo network base timeout delivers t q cl usable in
        let answer : List (Option (List ℕ)) =
          arriving fate (frames view t.who (seq_of t) (question t.num_str t.tech_str)) in
        let bytes =
          (HoldBytes-arriving entries t.who (seq_of t) t.num_str t.tech_str next fate acked view
            next' q.known (omega (arith, q.room)) q.arguments.tech_digits q.arguments.tech_two s) in
        let final =
          (listen-arriving entries t.who (seq_of t) t.num_str t.tech_str next chost now fate acked
            view next' room s) in
        let (cl', ran, usable') =
          listen-Shows chost getaddrinfo network base timeout delivers t q cl usable
            (scraps ds answer) (seen fate view) (left fate now) (HoldBytes-scraps ds answer h bytes)
            (listen-scraps chost now ds answer room h ∙ final) in
        (
          seen fate view,
          effects,
          cl',
          serv',
          next',
          record { served = same ∙ run; asked = rw sent ran },
          step view next' s,
          usable',
          serves',
        )

    -- A turn keeps a server that serves and a client that is usable, and is a step of the protocol.
    pub Takes-Step :
        (entries : List ClientInfo) (next : ℕ → ℕ) (fate : Fate) (ds : List (List ℕ)) (t : Turn)
        (cl : Client) (serv : Server)
        → All IsScrap ds
        → Requests getaddrinfo base t
        → IsUsable t.who timeout cl
        → Serves entries base next serv
        → Steps entries next fate ds t cl serv
    Takes-Step entries next (heard acked) ds t cl serv h q usable serves =
        arrived-Steps entries next (heard acked) ds acked t cl serv h q usable serves refl
          (λ view next' s. s)
    Takes-Step entries next (unheard acked) ds t cl serv h q usable serves =
        arrived-Steps entries next (unheard acked) ds acked t cl serv h q usable serves refl
          (λ view next' s. Step-unheard entries next acked (request_of t) view next' s)
    Takes-Step entries next lost ds t cl serv h q usable serves =
        let now : ℕ = tries chost getaddrinfo network base timeout delivers t q cl usable in
        let (cl', ran, usable') =
          listen-Shows chost getaddrinfo network base timeout delivers t q cl usable
            (scraps ds (none ∷ none ∷ none ∷ [])) nothing 0
            (HoldBytes-scraps ds (none ∷ none ∷ none ∷ []) h tt)
            (listen-scraps chost now ds _
                (tries_left chost getaddrinfo network base timeout delivers t q cl usable) h
              ∙ listen-nothing chost now) in
        (nothing, [], cl', serv, next, record { served = refl; asked = ran }, lose, usable', serves)
