-- ===== src/Exchange/Shown.antt =====
-- What the client makes of the server's datagrams, or of none in time, and shows its user.
use ghetto_subscriber_valida.Prelude.{
  ℕ, ◌+◌, ◌*◌, ◌/◌, ◌%◌, ◌<◌, ◌≡◌, ◌∙◌, refl, sym, Bool, true, false, List, [], ◌∷◌, Option, none,
  some, length, lt→ltb, arith, All,
}
use ghetto_subscriber_valida.Host.{ByteOrder}
use ghetto_subscriber_valida.CString.Laws.{IsDigit, decimal, decimal-lt}
use ghetto_subscriber_valida.Database.{ClientInfo}
use ghetto_subscriber_valida.Packet.{layout}
use ghetto_subscriber_valida.Packet.Alerts.{alert_reject}
use ghetto_subscriber_valida.Packet.RoundTrip.{reject_code-set_reject_info}
use ghetto_subscriber_valida.Server.Frames.{ack_frame, reject_frame}
use ghetto_subscriber_valida.Server.Refusal.{refusal}
use ghetto_subscriber_valida.Client.{
  Action, replied, rejected, returned, max_tries, zero_pi, client_handle_reply,
}
use ghetto_subscriber_valida.Client.Protocol.{listen, HoldBytes}
use ghetto_subscriber_valida.Client.Replies.{reply_text, react-ack_frame}
use ghetto_subscriber_valida.Commands.Digits.{number_of}
use ghetto_subscriber_valida.Exchange.{listen-Decides}
use ghetto_subscriber_valida.Exchange.Served.{question}
use ghetto_subscriber_valida.Exchange.Handled.{frames, asks}
use ghetto_subscriber_valida.Exchange.Protocol.{
  Fate, heard, unheard, lost, View, told, refused, nothing, Step, accept, refuse,
}

-- What is printed for the user of a client.
abbrev pub shown : ByteOrder → ℕ → View → List Action
shown host id (told type) = replied (reply_text host type) ∷ []
shown host id (refused code) = rejected (alert_reject (record zero_pi { id = id }) code) ∷ []
shown host id nothing = []

module _ (host : ByteOrder) (id seq tries : ℕ) where
  abbrev Refuses : ℕ → Type 0
  Refuses code =
      listen host tries (some (reject_frame id code seq) ∷ [])
      ≡ (returned, tries, shown host id (refused code))

  module _ (room : tries < max_tries) where
    -- A REJECT is final, and its code is shown.
    listen-reject_frame : (expected : ℕ) → Refuses (refusal expected seq)
    unfolding listen client_handle_reply layout alert_reject
    listen-reject_frame expected =
        let code : ℕ = refusal expected seq in
        let small : code < 65536 = ground arith in
        let whole : 256 * (code / 256 % 256) + code % 256 ≡ code = omega (arith, small) in
        rw
          (
            lt→ltb tries max_tries room,
            whole,
            reject_code-set_reject_info host code seq (record zero_pi { type = 0xFFF3; id = id })
                small,
          )
          refl

-- With no answer in time the client gives up, and its tries for the sequence number are 0.
pub listen-nothing :
    (host : ByteOrder) (tries : ℕ) → listen host tries (none ∷ none ∷ none ∷ []) ≡ (returned, 0, [])
unfolding listen
listen-nothing host tries = ground arith

-- What the client's waits bring of the server's datagrams, and nothing, three times, if no answer arrives.
abbrev pub arriving : Fate → List (Option (List ℕ)) → List (Option (List ℕ))
arriving (heard true) ds = ds
arriving (heard false) (ack ∷ reply ∷ ds) = reply ∷ ds
arriving (heard false) ds = ds
arriving (unheard true) (ack ∷ reply ∷ ds) = ack ∷ none ∷ none ∷ none ∷ []
arriving (unheard acked) ds = none ∷ none ∷ none ∷ []
arriving lost ds = none ∷ none ∷ none ∷ []

-- What the user is shown of an answer with this fate, and the client's tries for the number after it.
abbrev pub seen : Fate → View → View
seen (heard acked) view = view
seen (unheard acked) view = nothing
seen lost view = nothing

abbrev pub left : Fate → ℕ → ℕ
left (heard acked) tries = tries
left (unheard acked) tries = 0
left lost tries = 0

-- An ACK before other datagrams makes no difference.
listen-after_ack :
    (host : ByteOrder) (tries id seq : ℕ) (os : List (Option (List ℕ)))
    → tries < max_tries
    → listen host tries (some (ack_frame id seq) ∷ os) ≡ listen host tries os
unfolding listen
listen-after_ack host tries id seq os room =
    rw (lt→ltb tries max_tries room) (react-ack_frame host id seq tries (listen host tries os))

module _ (entries : List ClientInfo) (id seq : ℕ) (num_str tech_str : List ℕ) (next : ℕ → ℕ) where
  -- What the server answers in a step of the protocol.
  abbrev answers : View → List (Option (List ℕ))
  answers view = frames view id seq (question num_str tech_str)

  abbrev IsStep : Bool → View → (ℕ → ℕ) → Type 0
  IsStep acked view next' =
      Step entries next (heard acked) (asks id seq num_str tech_str) view next'

  -- What the client makes of what arrives.
  abbrev Arrives : ByteOrder → ℕ → Fate → View → Type 0
  Arrives host tries fate view =
      listen host tries (arriving fate (answers view))
      ≡ (returned, left fate tries, shown host id (seen fate view))

  pub listen-arriving :
      (host : ByteOrder) (tries : ℕ) (fate : Fate) (acked : Bool) (view : View) (next' : ℕ → ℕ)
      → tries < max_tries
      → IsStep acked view next'
      → Arrives host tries fate view
  listen-arriving host tries (heard true) _ _ _ room (accept {type = type} e d) =
      listen-Decides host tries id seq _ _ _ _ _ room entries (number_of num_str)
        (decimal 0 tech_str) type d
  listen-arriving host tries (heard false) _ _ _ room (accept {type = type} e d) =
      sym (listen-after_ack host tries id seq _ room)
      ∙ listen-Decides host tries id seq _ _ _ _ _ room entries (number_of num_str)
          (decimal 0 tech_str) type d
  listen-arriving host tries (heard true) _ _ _ room (refuse n) =
      listen-reject_frame host id seq tries room (next id)
  listen-arriving host tries (heard false) _ _ _ room (refuse n) =
      listen-reject_frame host id seq tries room (next id)
  listen-arriving host tries (unheard true) _ _ _ room (accept e d) =
      listen-after_ack host tries id seq _ room ∙ listen-nothing host tries
  listen-arriving host tries (unheard true) _ _ _ room (refuse n) = listen-nothing host tries
  listen-arriving host tries (unheard false) _ _ _ room s = listen-nothing host tries
  listen-arriving host tries lost _ _ _ room s = listen-nothing host tries

  -- It holds bytes.
  pub HoldBytes-arriving :
      (fate : Fate) (acked : Bool) (view : View) (next' : ℕ → ℕ)
      → id < 256
      → seq < 256
      → All IsDigit tech_str
      → length tech_str ≡ 2
      → IsStep acked view next'
      → HoldBytes (arriving fate (answers view))
  HoldBytes-arriving (heard true) _ _ _ hi hs dt lt (accept e d) =
      ground (arith, decimal-lt 0 tech_str 2 dt lt)
  HoldBytes-arriving (heard false) _ _ _ hi hs dt lt (accept e d) =
      ground (arith, decimal-lt 0 tech_str 2 dt lt)
  HoldBytes-arriving (heard true) _ _ _ hi hs dt lt (refuse n) = ground arith
  HoldBytes-arriving (heard false) _ _ _ hi hs dt lt (refuse n) = ground arith
  HoldBytes-arriving (unheard true) _ _ _ hi hs dt lt (accept e d) = ground arith
  HoldBytes-arriving (unheard true) _ _ _ hi hs dt lt (refuse n) = tt
  HoldBytes-arriving (unheard false) _ _ _ hi hs dt lt s = tt
  HoldBytes-arriving lost _ _ _ hi hs dt lt s = tt
