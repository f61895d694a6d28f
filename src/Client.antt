-- ===== src/Client.antt =====
-- client.c and client.h: the client's state, and the sending of one packet.
pub mod Rounds
pub mod Tests
pub mod Answers
pub mod Protocol
pub mod Refines
pub mod Send
pub mod Replies
pub mod Usable
pub mod Faults
use ghetto_subscriber_valida.Prelude.{
  ℕ, ◌+◌, List, [], ◌∷◌, ◌++◌, Bool, true, false, not, ltb, ◌==◌, if◌then◌else◌, Option, none, some,
  Outcome, ok, fault, ◌>>=◌, length, take, get_or, set, replicate,
}
use Prim.Native.String.{String}
use ghetto_subscriber_valida.Prelude.Int.{ℤ, pos, ltb_ℤ, is_minus_one}
use ghetto_subscriber_valida.Host.{ByteOrder}
use ghetto_subscriber_valida.Database.{buf_size}
use ghetto_subscriber_valida.Packet.{
  PacketInfo, seq_num, reject_code, flatten, interpret_packet, ack, reject, not_paid, not_exist,
  acc_ok,
}
use ghetto_subscriber_valida.Packet.Alerts.{alert_reject, alert_reply}
use ghetto_subscriber_valida.Recv.{RecvArgs, Received, try_recv}
use ghetto_subscriber_valida.BusyWait.{
  Timeval, Poll, Wait, going_on, timed_out, succeeded, busy_wait_until,
}
use ghetto_subscriber_valida.Server.{Address}

abbrev pub max_seq_num : ℕ
max_seq_num = 0xFF

abbrev pub max_tries : ℕ
max_tries = 3

-- `client`. `tries` has `max_seq_num` elements.
pub record Client : Type 0 where
  pub tries : List ℕ
  pub sock_fd : ℤ
  pub addr : Address
  pub timeout : Timeval
  pub send_buf : List ℕ
  pub recv_buf : List ℕ
  pub id : ℕ
  pub last_recvd_len : ℕ

-- What the client does to the world: a datagram handed to `sendto`, and what the two alerts print.
pub data Action : Type 0 where
  sent : Address → List ℕ → Action
  rejected : ℕ × String → Action
  replied : String → Action

-- `client_init`. The results of `socket` and `bind` are arguments.
unfoldable pub client_init : ℤ → ℤ → Option Address → ℕ → Bool × Client
client_init socket bind addr id =
    let cl : Client = record {
      tries = replicate max_seq_num 0;
      sock_fd = socket;
      addr = elim addr [ none ↦ record { ip = 0; port = 0 } | some a ↦ a ];
      timeout = record { tv_sec = pos 1; tv_usec = 0 };
      send_buf = replicate buf_size 0;
      recv_buf = replicate buf_size 0;
      id = id;
      last_recvd_len = 0;
    } in
    if ltb_ℤ socket (pos 0)
    then (false, cl)
    else if ltb_ℤ bind (pos 0)
    then (false, cl)
    else (true, cl)

-- The environment of one wait: the time at its start, and what each try meets.
pub record Answer : Type 0 where
  pub start : Timeval
  pub polls : List (Poll Received)

-- MSG_DONTWAIT of <sys/socket.h>, in Linux.
abbrev pub msg_dontwait : ℕ
msg_dontwait = 64

-- `client_recv_packet`.
unfoldable pub client_recv_packet : Answer → Client → Outcome Wait
client_recv_packet answer cl =
    let sargs : RecvArgs = record {
      sockfd = cl.sock_fd;
      buf = cl.recv_buf;
      len = buf_size;
      flags = msg_dontwait;
    } in
    busy_wait_until try_recv cl.timeout answer.start answer.polls sargs cl.last_recvd_len

-- What `client_recv_packet` leaves in the client.
abbrev pub with_received : Client → RecvArgs → ℕ → Client
with_received cl args retval = record cl { recv_buf = args.buf; last_recvd_len = retval }

-- `tries[seq]`, and `++tries[seq]` or `tries[seq] = 0`.
unfoldable pub get_tries : Client → ℕ → Outcome ℕ
get_tries cl seq = if ltb seq (length cl.tries) then ok (get_or cl.tries seq 0) else fault

unfoldable pub set_tries : Client → ℕ → ℕ → Outcome Client
set_tries cl seq n =
    if ltb seq (length cl.tries) then ok (record cl { tries = set cl.tries seq n }) else fault

-- What has come of `client_send_packet`: it has returned, or it is still waiting for an answer.
pub data Progress : Type 0 where
  returned waiting : Progress

-- `reply_pi` after the memset.
abbrev pub zero_pi : PacketInfo
zero_pi = record {
  type = 0;
  id = 0;
  cont = record { b0 = 0; b1 = 0; b2 = 0; b3 = 0; b4 = 0; payload = [] };
}

abbrev pub Sending : Type 0
Sending = Outcome (Progress × Client × List Action)

module _ (host : ByteOrder) where
  -- `client_handle_reply`: whether more is to be received, and what is printed.
  unfoldable pub client_handle_reply : PacketInfo → Bool × List Action
  client_handle_reply pi =
      if pi.type == reject
      then (false, rejected (alert_reject pi (reject_code host pi)) ∷ [])
      else if pi.type == ack
      then (true, [])
      else if pi.type == not_exist
      then (false, replied (alert_reply pi) ∷ [])
      else if pi.type == not_paid
      then (false, replied (alert_reply pi) ∷ [])
      else if pi.type == acc_ok
      then (false, replied (alert_reply pi) ∷ [])
      else (true, [])

  -- The branch for a packet that could be received.
  unfoldable pub handle_received : (Client → Sending) → Client → Sending
  unfolding client_handle_reply
  handle_received more cl = do
    (code, pi) ← interpret_packet host cl.recv_buf zero_pi buf_size
    let again = (client_handle_reply pi).0
    let printed = (client_handle_reply pi).1
    if not (code == 0)
        then more cl
        else if not again
        then ok (returned, cl, printed)
        else (more cl >>= λ (progress, cl', effects). ok (progress, cl', printed ++ effects))

  -- What a round does with the result of `client_recv_packet`.
  unfoldable pub after_wait : ℕ → (Client → Sending) → Client → Wait → Sending
  after_wait seq more cl (going_on args retval) = ok (waiting, with_received cl args retval, [])
  after_wait seq more cl (timed_out args retval) = do
    tries ← get_tries (with_received cl args retval) seq
    cl' ← set_tries (with_received cl args retval) seq (tries + 1)
    more cl'
  after_wait seq more cl (succeeded args retval) =
      handle_received more (with_received cl args retval)

  -- A round of the loop of `client_send_packet`, and the end behind it; `more` is the rounds that follow,
  -- and `none` stands for a wait that has not begun.
  unfoldable pub client_round : ℕ → Option Answer → (Client → Sending) → Client → Sending
  unfolding get_tries set_tries client_recv_packet
  client_round seq answer more cl = do
    tries ← get_tries cl seq
    if ltb tries max_tries
        then (elim answer [
          | none ↦ ok (waiting, cl, [])
          | some a ↦ do
            let cl₁ : Client = record cl { recv_buf = replicate buf_size 0 }
            wait ← client_recv_packet a cl₁
            after_wait seq more cl₁ wait
        ])
        else (set_tries cl seq 0 >>= λ cl'. ok (returned, cl', []))

  unfoldable pub client_loop : ℕ → List Answer → Client → Sending
  unfolding client_round
  client_loop seq [] cl = client_round seq none (λ cl'. ok (waiting, cl', [])) cl
  client_loop seq (a ∷ answers) cl = client_round seq (some a) (client_loop seq answers) cl

  -- `client_send_packet`. The result of `sendto` is an argument.
  unfoldable pub client_send_packet : PacketInfo → Address → ℤ → List Answer → Client → Sending
  client_send_packet pi dest sendto answers cl = do
    (raw_len, out) ← flatten host pi cl.send_buf buf_size
    let cl₁ : Client = record cl { send_buf = out }
    if is_minus_one sendto
        then ok (returned, cl₁, sent dest (take raw_len out) ∷ [])
        else (client_loop (seq_num pi) answers cl₁ >>= λ (progress, cl', effects).
            ok (progress, cl', sent dest (take raw_len out) ∷ effects))
