-- ===== src/Client/Usable.antt =====
-- A client between two packets: what `client_init` sets up, and what `client_send_packet` leaves of it.
use ghetto_subscriber_valida.Prelude.{
  ℕ, ◌+◌, ◌≤◌, ◌<◌, ◌≡◌, ◌∙◌, ◌⊎◌, inl, inr, refl, sym, ap, subst, List, [], ◌∷◌, true, false, ltb,
  Option, none, some, ok, length, All, All-set, length-set, Bool-cases, arith, take-length-append,
  drop,
}
use ghetto_subscriber_valida.Prelude.Int.{ℤ, is_minus_one}
use ghetto_subscriber_valida.Host.{ByteOrder, IsByte}
use ghetto_subscriber_valida.RawIterator.Laws.{filled, length-filled}
use ghetto_subscriber_valida.Database.{buf_size}
use ghetto_subscriber_valida.Packet.{PacketInfo, with_payload, layout, seq_num, data_len}
use ghetto_subscriber_valida.Packet.Wire.{wire, IsSendable, flatten-wire}
use ghetto_subscriber_valida.Packet.RoundTrip.{length-wire-le}
use ghetto_subscriber_valida.Packet.Decode.{decode}
use ghetto_subscriber_valida.BusyWait.{Timeval}
use ghetto_subscriber_valida.Server.{Address}
use ghetto_subscriber_valida.Client.Protocol.{heard, Dialogue, react, listen, Hears, HoldBytes}
use ghetto_subscriber_valida.Client.Rounds.{Follows}
use ghetto_subscriber_valida.Client.Send.{
  CanSend, tries_of, timeouts, Dialogue-if, Dialogue-react, listen-returned,
  client_send_packet-Follows,
}
use ghetto_subscriber_valida.Client.{
  Client, Action, sent, Answer, returned, max_seq_num, max_tries, zero_pi, client_handle_reply,
  client_send_packet,
}

-- A client that can send: its arrays have their sizes, every sequence number has tries left, and its ID and
-- its time limit are these.
pub record IsUsable (id : ℕ) (timeout : Timeval) (cl : Client) : Type 0 where
  pub tries_size : length cl.tries ≡ max_seq_num
  pub tries_left : All (λ n. n < max_tries) cl.tries
  pub send_size : length cl.send_buf ≡ buf_size
  pub same_id : cl.id ≡ id
  pub same_timeout : cl.timeout ≡ timeout

module _ (host : ByteOrder) where
  -- A datagram that ends the wait for an answer.
  abbrev pub Ends : List ℕ → Type 0
  Ends d =
      ((decode host (heard d) zero_pi).0 ≡ 0)
      × ((client_handle_reply host (decode host (heard d) zero_pi).1).0 ≡ false)

  abbrev pub HasFinal : List (Option (List ℕ)) → Type 0
  HasFinal [] = ⊥
  HasFinal (none ∷ os) = HasFinal os
  HasFinal (some d ∷ os) = Ends d ⊎ HasFinal os

  listen-HasFinal :
      (tries : ℕ) (os : List (Option (List ℕ))) → HasFinal os → (listen host tries os).0 ≡ returned
  unfolding listen
  listen-HasFinal tries [] h = absurd h
  listen-HasFinal tries (none ∷ os) h =
      Dialogue-if (λ r. r.0 ≡ returned) (ltb tries max_tries) _ _ (listen-HasFinal (tries + 1) os h)
        refl
  listen-HasFinal tries (some d ∷ os) (inl (good, final)) =
      rw (good, final) (Dialogue-if (λ r. r.0 ≡ returned) (ltb tries max_tries) _ _ refl refl)
  listen-HasFinal tries (some d ∷ os) (inr h) =
      let rest : Dialogue = listen host tries os in
      let ih = listen-HasFinal tries os h in
      Dialogue-if (λ r. r.0 ≡ returned) (ltb tries max_tries)
        (react host (decode host (heard d) zero_pi) tries rest) _
        (Dialogue-react host (λ r. r.0 ≡ returned) (decode host (heard d) zero_pi) tries rest ih
          refl ih)
        refl

  -- A dialogue leaves tries for its sequence number.
  pub listen-tries :
      (tries : ℕ) (os : List (Option (List ℕ))) → (listen host tries os).1 < max_tries
  unfolding listen
  listen-tries tries [] = ground arith
  listen-tries tries (none ∷ os) =
      Dialogue-if (λ r. r.1 < max_tries) (ltb tries max_tries) _ _ (listen-tries (tries + 1) os)
        (omega arith)
  listen-tries tries (some d ∷ os) =
      let rest : Dialogue = listen host tries os in
      elim (Bool-cases (ltb tries max_tries)) [
        | inl t ↦ rw t (
            Dialogue-react host (λ r. r.1 < max_tries) (decode host (heard d) zero_pi) tries rest
              (listen-tries tries os) (ground (arith, t)) (listen-tries tries os))
        | inr t ↦ rw t (omega arith)
      ]

  -- Waits that bring a final answer, or run out of time as often as there are tries.
  pub record Settles (timeout : Timeval) (answers : List Answer) : Type 0 where
    pub brought : List (Option (List ℕ))
    pub bytes : HoldBytes brought
    pub hears : Hears timeout answers brought
    pub over : HasFinal brought ⊎ (max_tries ≤ timeouts host brought)

  listen-over :
      (tries : ℕ) (os : List (Option (List ℕ)))
      → HasFinal os ⊎ (max_tries ≤ timeouts host os)
      → (listen host tries os).0 ≡ returned
  listen-over tries os (inl f) = listen-HasFinal tries os f
  listen-over tries os (inr t) = listen-returned host tries os (omega arith)

-- The client is usable after a dialogue, whatever frame it has sent.
pub Follows-IsUsable :
    (id : ℕ) (timeout : Timeval) (cl cl' : Client) (seq : ℕ) (frame : List ℕ) (r : Dialogue)
    → IsUsable id timeout cl
    → length frame ≤ buf_size
    → r.1 < max_tries
    → Follows seq (record cl { send_buf = filled frame cl.send_buf }) cl' r
    → IsUsable id timeout cl'
Follows-IsUsable id timeout cl cl' seq frame r usable short t f = record {
  tries_size =
      ap (λ (l : List ℕ). length l) f.counted ∙ length-set cl.tries seq r.1 ∙ usable.tries_size;
  tries_left =
      subst (All (λ n. n < max_tries)) (sym f.counted)
        (All-set (λ n. n < max_tries) cl.tries seq r.1 usable.tries_left t);
  send_size =
      ap (λ (c : Client). length c.send_buf) f.framed
      ∙ length-filled frame cl.send_buf (omega (arith, usable.send_size))
      ∙ usable.send_size;
  same_id = ap (λ (c : Client). c.id) f.framed ∙ usable.same_id;
  same_timeout = ap (λ (c : Client). c.timeout) f.framed ∙ usable.same_timeout;
}

module _ (host : ByteOrder) (pi : PacketInfo) (id : ℕ) (timeout : Timeval) (cl : Client)
    (usable : IsUsable id timeout cl) where
  module _ (dest : Address) (sendto : ℤ) (answers : List Answer) (sendable : IsSendable pi)
      (short : layout pi.type ≡ with_payload → IsByte (data_len pi)) where
    fits : length (wire host pi) ≤ buf_size
    fits = omega (arith, length-wire-le host pi (layout pi.type) short)

    -- The client behind `flatten`.
    abbrev behind_flatten : Client
    behind_flatten = record cl { send_buf = filled (wire host pi) cl.send_buf }

    undelivered :
        is_minus_one sendto ≡ true
        → client_send_packet host pi dest sendto answers cl
          ≡ ok (returned, behind_flatten, sent dest (wire host pi) ∷ [])
    unfolding client_send_packet
    undelivered e =
        rw
          (
            flatten-wire host pi cl.send_buf buf_size (omega (arith, usable.send_size)) sendable
                fits,
            e,
            take-length-append (length (wire host pi)) (wire host pi)
                (drop (length (wire host pi)) cl.send_buf) refl,
          )
          refl

    -- Whether `sendto` succeeds or not, the client returns from a packet with a sequence number that
    -- `tries` has room for, if its waits settle, and is usable again.
    pub client_send_packet-IsUsable :
        seq_num pi < max_seq_num
        → Settles host timeout answers
        → (cl' : Client) × (actions : List Action) × (client_send_packet host pi dest sendto answers
              cl
            ≡ ok (returned, cl', actions))
          × IsUsable id timeout cl'
    client_send_packet-IsUsable room settles = elim (Bool-cases (is_minus_one sendto)) [
      | inl failed ↦ (
        behind_flatten,
        sent dest (wire host pi) ∷ [],
        undelivered failed,
        record {
          tries_size = usable.tries_size;
          tries_left = usable.tries_left;
          send_size =
              length-filled (wire host pi) cl.send_buf (omega (arith, usable.send_size, fits))
              ∙ usable.send_size;
          same_id = usable.same_id;
          same_timeout = usable.same_timeout;
        },
      )
      | inr delivered ↦
          let r : Dialogue = listen host (tries_of cl pi) settles.brought in
          let can : CanSend host pi sendto cl = record {
            sendable = sendable;
            short = short;
            delivered = delivered;
            has_room = usable.send_size;
          } in
          let (cl', run, f) =
            client_send_packet-Follows host pi dest sendto cl can answers settles.brought
              (omega (arith, usable.tries_size)) settles.bytes
              (subst (λ t. Hears t answers settles.brought) (sym usable.same_timeout)
                settles.hears) in
          (
            cl',
            sent dest (wire host pi) ∷ r.2,
            run
                ∙ ap (λ p. ok (p, cl', sent dest (wire host pi) ∷ r.2))
                    (listen-over host (tries_of cl pi) settles.brought settles.over),
            Follows-IsUsable id timeout cl cl' (seq_num pi) (wire host pi) r usable fits
                (listen-tries host (tries_of cl pi) settles.brought) f,
          )
    ]
