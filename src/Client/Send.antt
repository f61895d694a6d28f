-- ===== src/Client/Send.antt =====
-- `client_send_packet` as a whole: what it sends, when it returns and when it does not.
use ghetto_subscriber_valida.Prelude.{
  ℕ, suc, ◌+◌, ◌≤◌, ◌<◌, ◌≡◌, ◌∙◌, refl, ap, List, [], ◌∷◌, ◌++◌, Bool, true, false, not, ltb, ◌==◌,
  if◌then◌else◌, Option, none, some, ok, fault, ◌>>=◌, length, get_or, set, drop, arith, All,
  All-append, take-length-append,
}
use ghetto_subscriber_valida.Prelude.Int.{ℤ, is_minus_one}
use ghetto_subscriber_valida.Host.{ByteOrder, IsByte}
use ghetto_subscriber_valida.RawIterator.Laws.{filled}
use ghetto_subscriber_valida.Database.{buf_size}
use ghetto_subscriber_valida.Packet.{PacketInfo, with_payload, layout, seq_num, data_len}
use ghetto_subscriber_valida.Packet.Wire.{wire, IsSendable, flatten-wire}
use ghetto_subscriber_valida.Packet.RoundTrip.{length-wire-le}
use ghetto_subscriber_valida.Packet.Decode.{decode}
use ghetto_subscriber_valida.Server.{Address}
use ghetto_subscriber_valida.Client.Protocol.{heard, Dialogue, react, listen, Hears, HoldBytes}
use ghetto_subscriber_valida.Client.Refines.{client_loop-listen}
use ghetto_subscriber_valida.Client.Rounds.{Follows}
use ghetto_subscriber_valida.Client.{
  Client, Action, sent, rejected, replied, Answer, returned, max_tries, zero_pi, get_tries,
  client_handle_reply, client_round, client_loop, client_send_packet,
}

-- An action that is no datagram.
abbrev pub IsQuiet : Action → Type 0
IsQuiet (sent dest frame) = ⊥
IsQuiet (rejected message) = Unit
IsQuiet (replied message) = Unit

client_handle_reply-IsQuiet :
    (host : ByteOrder) (pi : PacketInfo) → All IsQuiet (client_handle_reply host pi).1
unfolding client_handle_reply
client_handle_reply-IsQuiet host pi = ground arith

pub Dialogue-if :
    (P : Dialogue → Type 0) (c : Bool) (r s : Dialogue) → P r → P s → P (if c then r else s)
Dialogue-if P true r s hr hs = hr
Dialogue-if P false r s hr hs = hs

module _ (host : ByteOrder) where
  -- What holds of each way to react holds of the reaction.
  pub Dialogue-react :
      (P : Dialogue → Type 0) (m : ℕ × PacketInfo) (tries : ℕ) (rest : Dialogue)
      → P rest
      → P (returned, tries, (client_handle_reply host m.1).1)
      → P (rest.0, rest.1, (client_handle_reply host m.1).1 ++ rest.2)
      → P (react host m tries rest)
  Dialogue-react P (code, pi) tries rest bad final again =
      Dialogue-if P (not (code == 0)) rest _ bad
        (Dialogue-if P (not (client_handle_reply host pi).0) _ _ final again)

  listen-IsQuiet : (tries : ℕ) (os : List (Option (List ℕ))) → All IsQuiet (listen host tries os).2
  unfolding listen
  listen-IsQuiet tries [] = Dialogue-if (λ r. All IsQuiet r.2) (ltb tries max_tries) _ _ tt tt
  listen-IsQuiet tries (none ∷ os) =
      Dialogue-if (λ r. All IsQuiet r.2) (ltb tries max_tries) (listen host (tries + 1) os) _
        (listen-IsQuiet (tries + 1) os) tt
  listen-IsQuiet tries (some d ∷ os) =
      let m = decode host (heard d) zero_pi in
      let rest : Dialogue = listen host tries os in
      let quiet : All IsQuiet (client_handle_reply host m.1).1 =
        client_handle_reply-IsQuiet host m.1 in
      Dialogue-if (λ r. All IsQuiet r.2) (ltb tries max_tries) (react host m tries rest) _
        (Dialogue-react (λ r. All IsQuiet r.2) m tries rest (listen-IsQuiet tries os) quiet
          (All-append IsQuiet (client_handle_reply host m.1).1 rest.2 quiet
            (listen-IsQuiet tries os)))
        tt

  -- The waits that ran out of time.
  abbrev pub timeouts : List (Option (List ℕ)) → ℕ
  timeouts [] = 0
  timeouts (none ∷ os) = suc (timeouts os)
  timeouts (some d ∷ os) = timeouts os

  pub listen-returned :
      (tries : ℕ) (os : List (Option (List ℕ)))
      → max_tries ≤ tries + timeouts os
      → (listen host tries os).0 ≡ returned
  unfolding listen
  listen-returned tries [] h = ground arith
  listen-returned tries (none ∷ os) h =
      Dialogue-if (λ r. r.0 ≡ returned) (ltb tries max_tries) (listen host (tries + 1) os) _
        (listen-returned (tries + 1) os (omega arith)) refl
  listen-returned tries (some d ∷ os) h =
      let rest : Dialogue = listen host tries os in
      Dialogue-if (λ r. r.0 ≡ returned) (ltb tries max_tries)
        (react host (decode host (heard d) zero_pi) tries rest) _
        (Dialogue-react (λ r. r.0 ≡ returned) (decode host (heard d) zero_pi) tries rest
          (listen-returned tries os h) refl (listen-returned tries os h))
        refl

-- A packet that fits, handed to `sendto` with success.
pub record CanSend (host : ByteOrder) (pi : PacketInfo) (sendto : ℤ) (cl : Client) : Type 0 where
  pub sendable : IsSendable pi
  pub short : layout pi.type ≡ with_payload → IsByte (data_len pi)
  pub delivered : is_minus_one sendto ≡ false
  pub has_room : length cl.send_buf ≡ buf_size

-- The tries for the sequence number of a packet.
abbrev pub tries_of : Client → PacketInfo → ℕ
tries_of cl pi = get_or cl.tries (seq_num pi) 0

module _ (host : ByteOrder) (pi : PacketInfo) (dest : Address) (sendto : ℤ) (cl : Client)
    (can : CanSend host pi sendto cl) where
  -- What `client_send_packet` comes to behind `flatten` and `sendto`.
  send_packet-loop :
      (answers : List Answer)
      → client_send_packet host pi dest sendto answers cl ≡ (
          client_loop host
            (seq_num pi)
            answers
            (record cl { send_buf = filled (wire host pi) cl.send_buf })
          >>= λ (progress, cl', effects). ok (progress, cl', sent dest (wire host pi) ∷ effects))
  unfolding client_send_packet
  send_packet-loop answers =
      let short : length (wire host pi) ≤ buf_size =
        omega (arith, length-wire-le host pi (layout pi.type) can.short) in
      rw
        (
          flatten-wire host pi cl.send_buf buf_size (omega (arith, can.has_room)) can.sendable
              short,
          can.delivered,
          take-length-append (length (wire host pi)) (wire host pi)
              (drop (length (wire host pi)) cl.send_buf) refl,
        )
        refl

  -- The whole client after the dialogue: besides what the loop leaves, only `send_buf` has changed.
  pub client_send_packet-Follows :
      (answers : List Answer) (os : List (Option (List ℕ)))
      → seq_num pi < length cl.tries
      → HoldBytes os
      → Hears cl.timeout answers os
      → let r : Dialogue = listen host (tries_of cl pi) os in
        (cl' : Client) × (client_send_packet host pi dest sendto answers cl
          ≡ ok (r.0, cl', sent dest (wire host pi) ∷ r.2))
        × Follows (seq_num pi) (record cl { send_buf = filled (wire host pi) cl.send_buf }) cl' r
  client_send_packet-Follows answers os room b m =
      let (cl', run, f) =
        client_loop-listen host (seq_num pi) answers os
          (record cl { send_buf = filled (wire host pi) cl.send_buf }) room b m in
      (cl', rw (send_packet-loop answers, run) refl, f)

  -- On a sequence number that `tries` has room for, and whatever the waits bring, `client_send_packet`
  -- hands one datagram to `sendto`, the packet's wire format, and then does what the protocol does; it
  -- never sends again. Of the client's tries it changes only those for the packet's sequence number, to
  -- those of the protocol.
  pub client_send_packet-listen :
      (answers : List Answer) (os : List (Option (List ℕ)))
      → seq_num pi < length cl.tries
      → HoldBytes os
      → Hears cl.timeout answers os
      → let r : Dialogue = listen host (tries_of cl pi) os in
        (cl' : Client) × (client_send_packet host pi dest sendto answers cl
          ≡ ok (r.0, cl', sent dest (wire host pi) ∷ r.2))
        × All IsQuiet r.2
        × (cl'.tries ≡ set cl.tries (seq_num pi) r.1)
  client_send_packet-listen answers os room b m =
      let (cl', run, f) = client_send_packet-Follows answers os room b m in
      (cl', run, listen-IsQuiet host (tries_of cl pi) os, f.counted)

  -- On a sequence number that `tries` has room for, whatever datagrams come in between,
  -- `client_send_packet` returns when as many waits have run out of time as the client has tries left.
  pub client_send_packet-returned :
      (answers : List Answer) (os : List (Option (List ℕ)))
      → seq_num pi < length cl.tries
      → HoldBytes os
      → Hears cl.timeout answers os
      → max_tries ≤ tries_of cl pi + timeouts host os
      → (cl' : Client) × (actions : List Action) × (client_send_packet host pi dest sendto answers
            cl
          ≡ ok (returned, cl', actions))
  client_send_packet-returned answers os room b m h =
      let r : Dialogue = listen host (tries_of cl pi) os in
      let (cl', run, _, _) = client_send_packet-listen answers os room b m in
      (
        cl',
        sent dest (wire host pi) ∷ r.2,
        run
            ∙ ap (λ p. ok (p, cl', sent dest (wire host pi) ∷ r.2))
                (listen-returned host (tries_of cl pi) os h),
      )

  loop-fault :
      (answers : List Answer) (cl' : Client)
      → length cl'.tries ≤ seq_num pi
      → client_loop host (seq_num pi) answers cl' ≡ fault
  unfolding client_loop client_round get_tries
  loop-fault [] cl' h = ground arith
  loop-fault (a ∷ answers) cl' h = ground arith

  -- The access to the tries for a sequence number that is not below their length leaves the array.
  pub client_send_packet-fault :
      (answers : List Answer)
      → length cl.tries ≤ seq_num pi
      → client_send_packet host pi dest sendto answers cl ≡ fault
  client_send_packet-fault answers h =
      rw
        (
          send_packet-loop answers,
          loop-fault answers (record cl { send_buf = filled (wire host pi) cl.send_buf }) h,
        )
        refl
