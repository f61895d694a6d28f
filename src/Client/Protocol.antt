-- ===== src/Client/Protocol.antt =====
-- The protocol that `client_send_packet` follows, without buffers, clocks and arrays, and that it does.
use ghetto_subscriber_valida.Prelude.{
  ℕ, ◌+◌, ◌≡◌, List, [], ◌∷◌, ◌++◌, not, ltb, ◌==◌, if◌then◌else◌, Option, none, some, ok, length,
  replicate, arith, All-append, All-take, All-drop, All-replicate, length-replicate, take, drop,
}
use Prim.Native.Nat.{min}
use ghetto_subscriber_valida.Host.{ByteOrder, IsByte}
use ghetto_subscriber_valida.Database.{buf_size}
use ghetto_subscriber_valida.Packet.{PacketInfo, interpret_packet}
use ghetto_subscriber_valida.Packet.Decode.{IsBytes, decode, interpret_packet-decode}
use ghetto_subscriber_valida.Recv.{received_into}
use ghetto_subscriber_valida.BusyWait.{Timeval}
use ghetto_subscriber_valida.Client.Answers.{Meets, length-received_into}
use ghetto_subscriber_valida.Client.{
  Action, Answer, Progress, returned, waiting, max_tries, zero_pi, client_handle_reply,
}

-- The receive buffer when a datagram has come into it.
abbrev pub heard : List ℕ → List ℕ
heard d = received_into (replicate buf_size 0) buf_size d

-- What comes of it: whether the client has returned, its tries for the sequence number, and what it does.
abbrev pub Dialogue : Type 0
Dialogue = Progress × ℕ × List Action

module _ (host : ByteOrder) where
  -- The reaction to a packet with this code: a bad one is ignored, and so is an answer that is not final,
  -- but for what is printed.
  abbrev pub react : ℕ × PacketInfo → ℕ → Dialogue → Dialogue
  react (code, pi) tries rest =
      if not (code == 0)
      then rest
      else if not (client_handle_reply host pi).0
      then (returned, tries, (client_handle_reply host pi).1)
      else (rest.0, rest.1, (client_handle_reply host pi).1 ++ rest.2)

  -- The protocol over what the waits bring: datagrams, or nothing in time.
  unfoldable pub listen : ℕ → List (Option (List ℕ)) → Dialogue
  listen tries [] = if ltb tries max_tries then (waiting, tries, []) else (returned, 0, [])
  listen tries (none ∷ os) =
      let rest = listen (tries + 1) os in if ltb tries max_tries then rest else (returned, 0, [])
  listen tries (some d ∷ os) =
      let rest = listen tries os in
      if ltb tries max_tries
      then react (decode host (heard d) zero_pi) tries rest
      else (returned, 0, [])

-- The waits bring these.
abbrev pub Hears : Timeval → List Answer → List (Option (List ℕ)) → Type 0
Hears timeout [] [] = Unit
Hears timeout [] (o ∷ os) = ⊥
Hears timeout (a ∷ answers) [] = ⊥
Hears timeout (a ∷ answers) (o ∷ os) = Meets timeout a.start a.polls o × Hears timeout answers os

-- The datagrams hold bytes.
abbrev pub HoldBytes : List (Option (List ℕ)) → Type 0
HoldBytes [] = Unit
HoldBytes (none ∷ os) = HoldBytes os
HoldBytes (some d ∷ os) = IsBytes d × HoldBytes os

heard-IsBytes : (d : List ℕ) → IsBytes d → IsBytes (heard d)
heard-IsBytes d b =
    All-append IsByte (take buf_size d) (drop (min (length d) buf_size) (replicate buf_size 0))
      (All-take IsByte buf_size d b)
      (All-drop IsByte (min (length d) buf_size) (replicate buf_size 0)
        (All-replicate IsByte buf_size 0 (omega arith)))

zeros-length : length (replicate {A = ℕ} buf_size 0) ≡ buf_size
zeros-length = length-replicate {A = ℕ} buf_size 0

-- What the client heard is interpreted without a fault.
pub interpret_packet-heard :
    (host : ByteOrder) (d : List ℕ)
    → IsBytes d
    → interpret_packet host (heard d) zero_pi buf_size ≡ ok (decode host (heard d) zero_pi)
interpret_packet-heard host d b =
    interpret_packet-decode host (heard d) buf_size (heard-IsBytes d b)
      (omega (
        arith,
        length-received_into (replicate buf_size 0) d buf_size (omega (arith, zeros-length)),
        zeros-length,
      ))
      (omega arith) zero_pi
