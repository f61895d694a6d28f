-- ===== src/Exchange/Asking.antt =====
-- The client's side of a turn: a request of its user, and what its waits bring.
use ghetto_subscriber_valida.Prelude.{
  ℕ, ◌%◌, ◌<◌, ◌≡◌, ◌∙◌, refl, subst, sym, List, ◌∷◌, false, Option, ok, length, get_or, All-get_or,
  arith,
}
use ghetto_subscriber_valida.Prelude.Int.{is_minus_one}
use ghetto_subscriber_valida.Host.{ByteOrder}
use ghetto_subscriber_valida.CString.Laws.{decimal}
use ghetto_subscriber_valida.BusyWait.{Timeval}
use ghetto_subscriber_valida.Database.Order.{Within}
use ghetto_subscriber_valida.Client.{Client, Action, Answer, returned, max_seq_num, max_tries}
use ghetto_subscriber_valida.Client.Protocol.{listen, Hears, HoldBytes}
use ghetto_subscriber_valida.Client.Usable.{IsUsable, Follows-IsUsable, listen-tries}
use ghetto_subscriber_valida.Commands.{
  AddrInfo, CommandEnv, sending_to, acted, acted_all, send_req, request_size,
}
use ghetto_subscriber_valida.Commands.Request.{
  request_frame, AreArguments, CanRequest, send_req-Follows,
}
use ghetto_subscriber_valida.Commands.Digits.{number_of}
use ghetto_subscriber_valida.Exchange.Turns.{Turn, frame_of, argv_of, env_of}
use ghetto_subscriber_valida.Exchange.Protocol.{Request, View}
use ghetto_subscriber_valida.Exchange.Handled.{asks}
use ghetto_subscriber_valida.Exchange.Shown.{shown}

-- The sequence number of a turn's request, and what the request asks.
abbrev pub seq_of : Turn → ℕ
seq_of t = decimal 0 t.seq % 256

abbrev pub request_of : Turn → Request
request_of t = asks t.who (seq_of t) t.num_str t.tech_str

-- A turn in which the user asks for digits, with a sequence number that `tries` has room for.
module _ (getaddrinfo : List ℕ → List ℕ → AddrInfo) where
  pub record Requests (base : ℕ) (t : Turn) : Type 0 where
    pub known : t.who < 256
    pub arguments : AreArguments getaddrinfo t.node t.service t.seq t.num_str t.tech_str t.dest
    pub room : seq_of t < max_seq_num
    pub within : Within base (number_of t.num_str)
    pub delivered : is_minus_one t.sendto ≡ false
    pub payload_size : length t.payload ≡ request_size

module _ (chost : ByteOrder) (getaddrinfo : List ℕ → List ℕ → AddrInfo)
    (network : List (Option (List ℕ)) → List Answer) (base : ℕ) (timeout : Timeval)
    (delivers : (os : List (Option (List ℕ))) → Hears timeout (network os) os) (t : Turn)
    (q : Requests getaddrinfo base t) (cl : Client) (usable : IsUsable t.who timeout cl) where
  abbrev pub tries : ℕ
  tries = get_or cl.tries (seq_of t) 0

  pub tries_left : tries < max_tries
  tries_left = All-get_or (λ k. k < max_tries) cl.tries (seq_of t) 0 usable.tries_left (omega arith)

  -- `send_req` returns and has shown this, if the waits bring these, and leaves the client usable.
  abbrev Shows : List (Option (List ℕ)) → View → Type 0
  Shows os view =
      (cl' : Client) × (send_req chost getaddrinfo (env_of network t os) (argv_of t) cl
        ≡ ok (
          returned,
          cl',
          sending_to t.dest
              ∷ acted (Action.sent t.dest (frame_of t))
              ∷ acted_all (shown chost t.who view),
        ))
      × IsUsable t.who timeout cl'

  pub listen-Shows :
      (os : List (Option (List ℕ))) (view : View) (tries' : ℕ)
      → HoldBytes os
      → listen chost tries os ≡ (returned, tries', shown chost t.who view)
      → Shows os view
  listen-Shows os view tries' b e =
      let env : CommandEnv = env_of network t os in
      let can : CanRequest env cl (seq_of t) = record {
        delivered = q.delivered;
        payload_size = q.payload_size;
        has_room = usable.send_size;
        has_tries = omega (arith, usable.tries_size, q.room);
      } in
      let (cl', ran, f) =
        send_req-Follows chost getaddrinfo env cl _ t.node t.service t.seq t.num_str t.tech_str
          t.dest os q.arguments can b
          (subst (λ limit. Hears limit (network os) os) (sym usable.same_timeout) (delivers os)) in
      (
        cl',
        ran ∙ rw (e, usable.same_id) refl,
        Follows-IsUsable t.who timeout cl cl' (seq_of t)
            (request_frame cl.id (seq_of t) t.num_str t.tech_str) (listen chost tries os) usable
            (omega arith) (listen-tries chost tries os) f,
      )
