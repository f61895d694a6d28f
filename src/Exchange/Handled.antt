-- ===== src/Exchange/Handled.antt =====
-- What the server does with a request of `send_req`, whatever its sequence number.
use ghetto_subscriber_valida.Prelude.{
  ℕ, ◌<◌, ◌≡◌, ◌≢◌, ◌∙◌, sym, ap, subst, List, [], Bool, ◌∷◌, Option, none, some, ok, length, All,
  arith,
}
use native.Mathlib.Decide.{ℕ_discrete}
use mathlib.Core.List.{Perm}
use ghetto_subscriber_valida.Host.{ByteOrder}
use ghetto_subscriber_valida.CString.Laws.{IsDigit, decimal}
use ghetto_subscriber_valida.SortSearch.{SortSearch}
use ghetto_subscriber_valida.Database.{ClientInfo}
use ghetto_subscriber_valida.Database.Order.{Within}
use ghetto_subscriber_valida.Database.Lookup.{IsSearchable, filled_entries}
use ghetto_subscriber_valida.Server.{
  Server, Address, Effect, Garbage, receive, server_process_packet,
}
use ghetto_subscriber_valida.Server.Frames.{IsReady, reject_frame}
use ghetto_subscriber_valida.Server.Handle.{verdict}
use ghetto_subscriber_valida.Server.Access.{Decides-Perm}
use ghetto_subscriber_valida.Server.Acks.{receive-IsReady}
use ghetto_subscriber_valida.Server.Refusal.{refusal, request-refused}
use ghetto_subscriber_valida.Client.{max_seq_num}
use ghetto_subscriber_valida.Commands.Request.{request_frame}
use ghetto_subscriber_valida.Commands.Digits.{number_of}
use ghetto_subscriber_valida.Exchange.{heard_answer}
use ghetto_subscriber_valida.Exchange.Served.{
  question, asked, request_frame-IsBytes, received-asked, request-answered,
}
use ghetto_subscriber_valida.Exchange.Turns.{datagrams}
use ghetto_subscriber_valida.Exchange.Protocol.{
  Request, View, told, refused, nothing, heard, Step, accept, refuse, advance,
}

-- The datagrams that tell the client this, or the waits in which nothing comes.
abbrev pub frames : View → ℕ → ℕ → List ℕ → List (Option (List ℕ))
frames (told type) id seq payload = heard_answer type id seq payload
frames (refused code) id seq payload = some (reject_frame id code seq) ∷ []
frames nothing id seq payload = none ∷ none ∷ none ∷ []

-- The server when its table of sequence numbers is this one and its database is these entries, in some
-- order.
pub record Serves (entries : List ClientInfo) (base : ℕ) (next : ℕ → ℕ) (serv : Server)
    : Type 0 where
  pub ready : IsReady serv
  pub searchable : IsSearchable base serv.db
  pub holds : Perm (filled_entries serv.db) entries
  pub expected : (id : ℕ) → serv.expect_recv id ≡ next id

-- What `send_req` asks of the server for some digits.
abbrev pub asks : ℕ → ℕ → List ℕ → List ℕ → Request
asks id seq num_str tech_str = record {
  who = id;
  seq = seq;
  number = number_of num_str;
  ttype = decimal 0 tech_str;
}

module _ (host : ByteOrder) (std : SortSearch ClientInfo) (entries : List ClientInfo) (base : ℕ)
    (next : ℕ → ℕ) (serv : Server) (ret : Address) (g : Garbage) (id seq : ℕ)
    (num_str tech_str : List ℕ) (acked : Bool) where
  -- The server's answer to a request is a step of the protocol.
  abbrev pub Handles : Type 0
  Handles =
      (out : Server × List Effect) × (view : View) × (next' : ℕ → ℕ) × (server_process_packet host
          std (asked num_str tech_str id seq serv) ret g
        ≡ ok out)
      × Serves entries base next' out.0
      × Step entries next (heard acked) (asks id seq num_str tech_str) view next'
      × (datagrams out.1 ≡ frames view id seq (question num_str tech_str))

  module _ (serves : Serves entries base next serv) (known : id < 256)
      (digits : All IsDigit tech_str) (two : length tech_str ≡ 2) where
    handles-expected : Within base (number_of num_str) → seq < max_seq_num → seq ≡ next id → Handles
    handles-expected within room e =
        let same : serv.expect_recv id ≡ seq = serves.expected id ∙ sym e in
        let type : ℕ = verdict std g.key (asked num_str tech_str id (serv.expect_recv id) serv) in
        let (out, run, ready, same_db, counted, answered, decided) =
          request-answered host std serv ret g id num_str tech_str base serves.ready
            serves.searchable within known digits two in
        (
          out,
          told type,
          advance next id,
          subst
              (λ s.
                server_process_packet host std (asked num_str tech_str id s serv) ret g ≡ ok out)
              same run,
          record {
            ready = ready;
            searchable = subst (IsSearchable base) (sym same_db) serves.searchable;
            holds = subst (λ db. Perm (filled_entries db) entries) (sym same_db) serves.holds;
            expected = λ i.
                ground
                  (arith, ap (λ h. h i) counted, serves.expected i, serves.expected id, room, e);
          },
          accept e (Decides-Perm (filled_entries serv.db) entries _ _ type serves.holds decided),
          ap datagrams answered ∙ ap (λ s. heard_answer type id s (question num_str tech_str)) same,
        )

    handles-other : seq < 256 → seq ≢ next id → Handles
    unfolding receive
    handles-other room ne =
        let at_server : Server = asked num_str tech_str id seq serv in
        let (out, _, run, ready, same_db, kept, answered) =
          request-refused host std at_server ret g id seq (question num_str tech_str)
            (receive-IsReady serv (request_frame id seq num_str tech_str) serves.ready
              (request_frame-IsBytes id seq num_str tech_str known room digits two))
            (received-asked num_str tech_str id seq serv, omega arith)
            (λ e. ne (e ∙ serves.expected id)) in
        (
          out,
          refused (refusal (next id) seq),
          next,
          run,
          record {
            ready = ready;
            searchable = subst (IsSearchable base) (sym same_db) serves.searchable;
            holds = subst (λ db. Perm (filled_entries db) entries) (sym same_db) serves.holds;
            expected = λ i. ap (λ h. h i) kept ∙ serves.expected i;
          },
          refuse ne,
          ap datagrams answered
              ∙ ap (λ n. some (reject_frame id (refusal n seq) seq) ∷ []) (serves.expected id),
        )

    -- A server that is ready answers each request, and stays ready.
    pub request-Handles : Within base (number_of num_str) → seq < max_seq_num → Handles
    request-Handles within room = elim (ℕ_discrete seq (next id)) [
      | yes e ↦ handles-expected within room e
      | no ne ↦ handles-other (omega arith) ne
    ]
