-- ===== src/Exchange/Late.antt =====
-- What `send_req` makes of the answer to another request.
use ghetto_subscriber_valida.Prelude.{ℕ, ◌≡◌, List, [], ◌∷◌, Option, ok, arith}
use ghetto_subscriber_valida.Host.{ByteOrder}
use ghetto_subscriber_valida.CString.Laws.{decimal, decimal-lt}
use ghetto_subscriber_valida.BusyWait.{Timeval}
use ghetto_subscriber_valida.Database.{ClientInfo}
use ghetto_subscriber_valida.Server.Access.{Decides}
use ghetto_subscriber_valida.Client.{Client, Action, Answer, replied, returned}
use ghetto_subscriber_valida.Client.Protocol.{Hears}
use ghetto_subscriber_valida.Client.Replies.{reply_text}
use ghetto_subscriber_valida.Client.Usable.{IsUsable}
use ghetto_subscriber_valida.Commands.{AddrInfo, sending_to, acted, send_req}
use ghetto_subscriber_valida.Commands.Digits.{number_of}
use ghetto_subscriber_valida.Exchange.{heard_answer, listen-Decides}
use ghetto_subscriber_valida.Exchange.Served.{question}
use ghetto_subscriber_valida.Exchange.Turns.{Turn, frame_of, argv_of, env_of}
use ghetto_subscriber_valida.Exchange.Protocol.{told}
use ghetto_subscriber_valida.Exchange.Asking.{Requests, seq_of, tries, tries_left, listen-Shows}

-- The client does not look whose answer it hears, nor to what. If a client asks, and its waits bring
-- the server's answer to another request, be it an earlier one of its own or one of another client,
-- with any sequence number and for any subscriber: `send_req` returns with the text of that answer, and
-- the client is usable again.
pub send_req-heard_answer :
    (host : ByteOrder) (getaddrinfo : List ℕ → List ℕ → AddrInfo)
    (network : List (Option (List ℕ)) → List Answer) (base : ℕ) (timeout : Timeval) (t u : Turn)
    (cl : Client) (entries : List ClientInfo) (type : ℕ)
    → ((os : List (Option (List ℕ))) → Hears timeout (network os) os)
    → Requests getaddrinfo base t
    → Requests getaddrinfo base u
    → IsUsable t.who timeout cl
    → Decides entries (number_of u.num_str) (decimal 0 u.tech_str) type
    → let os : List (Option (List ℕ)) =
        heard_answer type u.who (seq_of u) (question u.num_str u.tech_str) in
      (cl' : Client) × (send_req host getaddrinfo (env_of network t os) (argv_of t) cl
        ≡ ok (
          returned,
          cl',
          sending_to t.dest
              ∷ acted (Action.sent t.dest (frame_of t))
              ∷ acted (replied (reply_text host type))
              ∷ [],
        ))
      × IsUsable t.who timeout cl'
send_req-heard_answer host getaddrinfo network base timeout t u cl entries type delivers q other
      usable d =
    let now : ℕ = tries host getaddrinfo network base timeout delivers t q cl usable in
    listen-Shows host getaddrinfo network base timeout delivers t q cl usable
      (heard_answer type u.who (seq_of u) (question u.num_str u.tech_str)) (told type) now
      (ground (
        arith,
        other.known,
        decimal-lt 0 u.tech_str 2 other.arguments.tech_digits other.arguments.tech_two,
      ))
      (listen-Decides host now u.who (seq_of u) _ _ _ _ _
        (tries_left host getaddrinfo network base timeout delivers t q cl usable) entries
        (number_of u.num_str) (decimal 0 u.tech_str) type d)
