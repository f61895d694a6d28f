-- ===== src/Exchange/Served.antt =====
-- What the server does with the request of `send_req`.
use ghetto_subscriber_valida.Prelude.{
  ℕ, ◌+◌, ◌%◌, ◌<◌, ◌≡◌, ◌∙◌, refl, sym, ap, subst, inl, inr, List, [], ◌∷◌, ok, length, take, drop,
  All, take_all, take-length-append, arith,
}
use ghetto_subscriber_valida.Host.{ByteOrder, be32}
use ghetto_subscriber_valida.CString.Laws.{IsDigit, decimal, decimal-lt}
use ghetto_subscriber_valida.RawIterator.Laws.{◌!◌}
use ghetto_subscriber_valida.SortSearch.{SortSearch}
use ghetto_subscriber_valida.Database.{ClientInfo, buf_size}
use ghetto_subscriber_valida.Database.Order.{Within}
use ghetto_subscriber_valida.Database.Lookup.{IsSearchable, filled_entries}
use ghetto_subscriber_valida.Packet.{acc_per}
use ghetto_subscriber_valida.Packet.Decode.{IsBytes}
use ghetto_subscriber_valida.Server.{
  Server, Address, Effect, sent, Garbage, update, receive, server_process_packet,
}
use ghetto_subscriber_valida.Server.Frames.{IsReady, ack_frame, data_frame}
use ghetto_subscriber_valida.Server.Request.{received}
use ghetto_subscriber_valida.Server.Handle.{asked_number, asked_tech, verdict}
use ghetto_subscriber_valida.Server.Process.{Accepted, server_process_packet-answers}
use ghetto_subscriber_valida.Server.Acks.{receive-IsReady}
use ghetto_subscriber_valida.Server.Replay.{received-receive}
use ghetto_subscriber_valida.Server.Access.{Decides, verdict-Decides}
use ghetto_subscriber_valida.Commands.Request.{request_frame}
use ghetto_subscriber_valida.Commands.Digits.{number_of}

-- What a request of the user's digits carries.
abbrev pub question : List ℕ → List ℕ → List ℕ
question num_str tech_str = decimal 0 tech_str ∷ be32 (number_of num_str)

-- A payload is what stands between the header and the two flag bytes.
data_frame-payload :
    (i₁ i₂ s₁ s₂ : ℕ) (p₁ p₂ : List ℕ)
    → data_frame acc_per i₁ s₁ p₁ ≡ data_frame acc_per i₂ s₂ p₂
    → p₁ ≡ p₂
data_frame-payload i₁ i₂ s₁ s₂ p₁ p₂ e =
    let l : length p₁ ≡ length p₂ = ap (λ f. f ! 6) e in
    sym (take-length-append (length p₁) p₁ (255 ∷ 255 ∷ []) refl)
    ∙ ap (λ f. take (length p₁) (drop 7 f)) e
    ∙ take-length-append (length p₁) p₂ (255 ∷ 255 ∷ []) l

module _ (num_str tech_str : List ℕ) (id seq : ℕ) (serv : Server) where
  abbrev pub asked : Server
  asked = receive serv (request_frame id seq num_str tech_str)

  asked_number-receive : asked_number asked ≡ number_of num_str
  unfolding receive
  asked_number-receive = omega arith

  asked_tech-receive : asked_tech asked ≡ decimal 0 tech_str
  unfolding receive
  asked_tech-receive = refl

  pub received-asked : received asked ≡ request_frame id seq num_str tech_str
  received-asked =
      received-receive serv (request_frame id seq num_str tech_str)
      ∙ take_all buf_size (request_frame id seq num_str tech_str) (omega arith)

-- The request frame for two digits of technology holds bytes.
pub request_frame-IsBytes :
    (id seq : ℕ) (num_str tech_str : List ℕ)
    → id < 256
    → seq < 256
    → All IsDigit tech_str
    → length tech_str ≡ 2
    → IsBytes (request_frame id seq num_str tech_str)
request_frame-IsBytes id seq num_str tech_str hi hs dt lt =
    ground (arith, decimal-lt 0 tech_str 2 dt lt)

-- The two datagrams of an answer.
abbrev pub answer : Server → Address → ℕ → List ℕ → List ℕ → ℕ → List Effect
answer serv ret id num_str tech_str type =
    sent ret (ack_frame id (serv.expect_recv id))
    ∷ sent ret (data_frame type id (serv.expect_recv id) (question num_str tech_str))
    ∷ []

module _ (host : ByteOrder) (std : SortSearch ClientInfo) (serv : Server) (ret : Address)
    (g : Garbage) (id : ℕ) (num_str tech_str : List ℕ) where
  Accepted-answer :
      (out : Server × List Effect)
      → Accepted std g.key (asked num_str tech_str id (serv.expect_recv id) serv) ret out
      → out.1
        ≡ answer serv ret id num_str tech_str
            (verdict std g.key (asked num_str tech_str id (serv.expect_recv id) serv))
  unfolding receive
  Accepted-answer out a =
      let same = sym a.request.0 ∙ received-asked num_str tech_str id (serv.expect_recv id) serv in
      let who : a.id ≡ id = ap (λ f. f ! 2) same in
      let what : a.payload ≡ question num_str tech_str =
        data_frame-payload _ _ _ _ a.payload (question num_str tech_str) same in
      cc (a.answered, who, what)

  Accepted-counted :
      (out : Server × List Effect)
      → Accepted std g.key (asked num_str tech_str id (serv.expect_recv id) serv) ret out
      → out.0.expect_recv ≡ update serv.expect_recv id ((serv.expect_recv id + 1) % 256)
  unfolding receive
  Accepted-counted out a =
      let same = sym a.request.0 ∙ received-asked num_str tech_str id (serv.expect_recv id) serv in
      let who : a.id ≡ id = ap (λ f. f ! 2) same in
      a.counted ∙ ap (λ i. update serv.expect_recv i ((serv.expect_recv i + 1) % 256)) who

  -- A searchable server that is ready answers such a request by an ACK and then a reply, whose type says of
  -- the entries what is asked.
  pub request-answered :
      (base : ℕ)
      → IsReady serv
      → IsSearchable base serv.db
      → Within base (number_of num_str)
      → id < 256
      → All IsDigit tech_str
      → length tech_str ≡ 2
      → let type : ℕ = verdict std g.key (asked num_str tech_str id (serv.expect_recv id) serv) in
        (out : Server × List Effect) × (server_process_packet host std
            (asked num_str tech_str id (serv.expect_recv id) serv)
            ret
            g
          ≡ ok out)
        × IsReady out.0
        × (out.0.db ≡ serv.db)
        × (out.0.expect_recv ≡ update serv.expect_recv id ((serv.expect_recv id + 1) % 256))
        × (out.1 ≡ answer serv ret id num_str tech_str type)
        × Decides (filled_entries serv.db) (number_of num_str) (decimal 0 tech_str) type
  unfolding receive
  request-answered base ready v w hi dt lt =
      let seq : ℕ = serv.expect_recv id in
      let at_server : Server = asked num_str tech_str id seq serv in
      let b = request_frame-IsBytes id seq num_str tech_str hi (ready.expected id) dt lt in
      let (out, run, again, same_db, which) =
        server_process_packet-answers host std at_server ret g
          (receive-IsReady serv (request_frame id seq num_str tech_str) ready b) in
      let number = asked_number-receive num_str tech_str id seq serv in
      let tech = asked_tech-receive num_str tech_str id seq serv in
      let a : Accepted std g.key at_server ret out = elim which [
        | inl a ↦ a
        | inr r ↦ absurd (
            r.no_request id (question num_str tech_str)
              (received-asked num_str tech_str id seq serv, omega arith))
      ] in
      (
        out,
        run,
        again,
        same_db,
        Accepted-counted out a,
        Accepted-answer out a,
        subst
            (λ n.
              Decides (filled_entries serv.db) n (decimal 0 tech_str) (verdict std g.key at_server))
            number
            (subst
              (λ t.
                Decides (filled_entries serv.db) (asked_number at_server) t
                  (verdict std g.key at_server))
              tech
              (verdict-Decides std g.key base at_server v (subst (Within base) (sym number) w))),
      )
