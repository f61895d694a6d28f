-- ===== src/Client/Rounds.antt =====
-- The rounds of the loop of `client_send_packet`.
use ghetto_subscriber_valida.Prelude.{
  ℕ, ◌+◌, ◌-◌, ◌^◌, ◌≤◌, ◌<◌, ◌≡◌, ◌∙◌, refl, sym, ap, subst, List, [], ◌==◌, Option, none, some,
  inl, inr, ok, length, get_or, set, replicate, arith, length-replicate, Bool-cases, lt→ltb,
  set-set, set-get_or,
}
use Prim.Native.Nat.{min}
use ghetto_subscriber_valida.Host.{ByteOrder}
use ghetto_subscriber_valida.Database.{buf_size}
use ghetto_subscriber_valida.Packet.{interpret_packet}
use ghetto_subscriber_valida.Packet.Decode.{IsBytes, decode}
use ghetto_subscriber_valida.Recv.{RecvArgs}
use ghetto_subscriber_valida.Client.Answers.{Meets, wait_of, busy_wait_until-Meets}
use ghetto_subscriber_valida.Client.Protocol.{heard, Dialogue, react, interpret_packet-heard}
use ghetto_subscriber_valida.Client.{
  Client, Answer, Sending, returned, waiting, max_tries, msg_dontwait, zero_pi, get_tries,
  set_tries, client_recv_packet, client_handle_reply, handle_received, after_wait, client_round,
}

-- What the loop leaves of the client: the tries for its sequence number are those of the dialogue, and all
-- but the tries, the receive buffer and the last length is as it was.
pub record Follows (seq : ℕ) (cl cl' : Client) (r : Dialogue) : Type 0 where
  pub counted : cl'.tries ≡ set cl.tries seq r.1
  pub framed : cl' ≡ record cl {
    tries = cl'.tries;
    recv_buf = cl'.recv_buf;
    last_recvd_len = cl'.last_recvd_len;
  }

-- A run of the loop that comes to a dialogue.
abbrev pub Performs : Sending → ℕ → Client → Dialogue → Type 0
Performs m seq cl r = (cl' : Client) × (m ≡ ok (r.0, cl', r.2)) × Follows seq cl cl' r

-- The client behind a wait.
abbrev pub behind : Client → Option (List ℕ) → Client
behind cl none = record cl { recv_buf = replicate buf_size 0; last_recvd_len = 2 ^ 64 - 1 }
behind cl (some d) = record cl { recv_buf = heard d; last_recvd_len = min (length d) buf_size }

module _ (host : ByteOrder) (seq : ℕ) where
  -- The reaction to a datagram, from what the rest of the loop does.
  handle_received-react :
      (more : Client → Sending) (cl : Client) (d : List ℕ) (r : Dialogue)
      → IsBytes d
      → cl.recv_buf ≡ heard d
      → Performs (more cl) seq cl r
      → Performs
          (handle_received host more cl)
          seq
          cl
          (react host (decode host (heard d) zero_pi) (get_or cl.tries seq 0) r)
  unfolding handle_received
  handle_received-react more cl d r b e (cl', run, f) =
      let pi = (decode host (heard d) zero_pi).1 in
      let keep : cl.tries ≡ set cl.tries seq (get_or cl.tries seq 0) =
        sym (set-get_or cl.tries seq 0) in
      let read : interpret_packet host cl.recv_buf zero_pi buf_size
          ≡ ok (decode host (heard d) zero_pi) =
        ap (λ (buf : List ℕ). interpret_packet host buf zero_pi buf_size) e
        ∙ interpret_packet-heard host d b in
      rw read (elim (Bool-cases ((decode host (heard d) zero_pi).0 == 0)) [
        | inr bad ↦ rw bad (cl', run, f)
        | inl good ↦ elim (Bool-cases (client_handle_reply host pi).0) [
          | inr final ↦ rw (good, final) (cl, refl, record { counted = keep; framed = refl })
          | inl again ↦
              rw (good, again, run) (cl', refl, record { counted = f.counted; framed = f.framed })
        ]
      ])

  zeros : length (replicate {A = ℕ} buf_size 0) ≡ buf_size
  zeros = length-replicate {A = ℕ} buf_size 0

  -- A wait that brings something, in a round that is not the last.
  client_round-heard :
      (more : Client → Sending) (cl : Client) (a : Answer) (o : Option (List ℕ))
      → seq < length cl.tries
      → get_or cl.tries seq 0 < max_tries
      → Meets cl.timeout a.start a.polls o
      → client_round host seq (some a) more cl
        ≡ after_wait host seq more
            (record cl { recv_buf = replicate buf_size 0 })
            (wait_of
              (record {
                sockfd = cl.sock_fd;
                buf = replicate buf_size 0;
                len = buf_size;
                flags = msg_dontwait;
              })
              o)
  unfolding client_round client_recv_packet get_tries
  client_round-heard more cl a o h t m =
      rw
        (
          lt→ltb seq (length cl.tries) h,
          lt→ltb (get_or cl.tries seq 0) max_tries t,
          busy_wait_until-Meets cl.timeout a.start a.polls o
              (record {
                sockfd = cl.sock_fd;
                buf = replicate buf_size 0;
                len = buf_size;
                flags = msg_dontwait;
              })
              cl.last_recvd_len (omega (arith, zeros)) (omega (arith, zeros)) m,
        )
        refl

  client_round-full :
      (more : Client → Sending) (cl : Client) (answer : Option Answer)
      → seq < length cl.tries
      → max_tries ≤ get_or cl.tries seq 0
      → client_round host seq answer more cl
        ≡ ok (returned, record cl { tries = set cl.tries seq 0 }, [])
  unfolding client_round get_tries set_tries
  client_round-full more cl answer h t = ground arith

  pub Performs-behind :
      (m : Sending) (cl : Client) (o : Option (List ℕ)) (r : Dialogue)
      → Performs m seq (behind cl o) r
      → Performs m seq cl r
  Performs-behind m cl none r (cl', run, f) =
      (cl', run, record { counted = f.counted; framed = f.framed })
  Performs-behind m cl (some d) r (cl', run, f) =
      (cl', run, record { counted = f.counted; framed = f.framed })

  -- The client with one more try.
  abbrev pub retried : Client → Client
  retried cl = record cl { tries = set cl.tries seq (get_or cl.tries seq 0 + 1) }

  pub Performs-retried :
      (m : Sending) (cl : Client) (r : Dialogue)
      → Performs m seq (retried cl) r
      → Performs m seq cl r
  Performs-retried m cl r (cl', run, f) = (
    cl',
    run,
    record {
      counted = f.counted ∙ set-set cl.tries seq (get_or cl.tries seq 0 + 1) r.1;
      framed = f.framed;
    },
  )

  -- A round that runs out of time goes on with one more try.
  pub after_wait-none :
      (more : Client → Sending) (cl : Client) (args : RecvArgs)
      → args.buf ≡ replicate buf_size 0
      → seq < length cl.tries
      → after_wait host seq more (record cl { recv_buf = replicate buf_size 0 }) (wait_of args none)
        ≡ more (retried (behind cl none))
  unfolding after_wait get_tries set_tries
  after_wait-none more cl args e h = rw (e, lt→ltb seq (length cl.tries) h) refl

  -- The first round that finds no tries left is the last.
  pub Performs-full :
      (more : Client → Sending) (cl : Client) (answer : Option Answer)
      → seq < length cl.tries
      → max_tries ≤ get_or cl.tries seq 0
      → Performs (client_round host seq answer more cl) seq cl (returned, 0, [])
  Performs-full more cl answer h t = (
    record cl { tries = set cl.tries seq 0 },
    client_round-full more cl answer h t,
    record { counted = refl; framed = refl },
  )

  pub Performs-none :
      (more : Client → Sending) (cl : Client)
      → seq < length cl.tries
      → get_or cl.tries seq 0 < max_tries
      → Performs (client_round host seq none more cl) seq cl (waiting, get_or cl.tries seq 0, [])
  unfolding client_round get_tries
  Performs-none more cl h t = (
    cl,
    rw (lt→ltb seq (length cl.tries) h, lt→ltb (get_or cl.tries seq 0) max_tries t) refl,
    record { counted = sym (set-get_or cl.tries seq 0); framed = refl },
  )

  pub Performs-some :
      (more : Client → Sending) (cl : Client) (a : Answer) (o : Option (List ℕ)) (r : Dialogue)
      → seq < length cl.tries
      → get_or cl.tries seq 0 < max_tries
      → Meets cl.timeout a.start a.polls o
      → Performs
          (after_wait host seq more
            (record cl { recv_buf = replicate buf_size 0 })
            (wait_of
              (record {
                sockfd = cl.sock_fd;
                buf = replicate buf_size 0;
                len = buf_size;
                flags = msg_dontwait;
              })
              o))
          seq
          cl
          r
      → Performs (client_round host seq (some a) more cl) seq cl r
  Performs-some more cl a o r h t m p =
      subst (λ x. Performs x seq cl r) (sym (client_round-heard more cl a o h t m)) p

module _ (host : ByteOrder) (seq : ℕ) (cl : Client) (d : List ℕ) where
  -- A round that brings a datagram.
  pub Performs-heard :
      (more : Client → Sending) (args : RecvArgs) (r : Dialogue)
      → IsBytes d
      → args.buf ≡ replicate buf_size 0
      → args.len ≡ buf_size
      → Performs (more (behind cl (some d))) seq (behind cl (some d)) r
      → Performs
          (after_wait host seq more
            (record cl { recv_buf = replicate buf_size 0 })
            (wait_of args (some d)))
          seq
          cl
          (react host (decode host (heard d) zero_pi) (get_or cl.tries seq 0) r)
  unfolding after_wait
  Performs-heard more args r b e l p =
      rw (e, l)
        (Performs-behind host seq _ cl (some d) _
          (handle_received-react host seq more (behind cl (some d)) d r b refl p))
