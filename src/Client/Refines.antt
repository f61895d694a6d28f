-- ===== src/Client/Refines.antt =====
-- The loop of `client_send_packet` follows the protocol.
use ghetto_subscriber_valida.Prelude.{
  ℕ, ◌+◌, ◌<◌, refl, sym, subst, List, [], ◌∷◌, ltb, Option, none, some, inl, inr, ok, length,
  get_or, length-set, arith, Bool-cases, get_or-set,
}
use ghetto_subscriber_valida.Host.{ByteOrder}
use ghetto_subscriber_valida.Packet.Decode.{decode}
use ghetto_subscriber_valida.Client.Protocol.{heard, react, listen, Hears, HoldBytes}
use ghetto_subscriber_valida.Client.{Client, Answer, waiting, max_tries, zero_pi, client_loop}
use ghetto_subscriber_valida.Client.Rounds.{
  Performs, Performs-behind, Performs-full, Performs-heard, Performs-none, Performs-retried,
  Performs-some, after_wait-none, behind, retried,
}

-- On a sequence number that `tries` has room for, whatever the waits bring, the loop of
-- `client_send_packet` does what the protocol does: it returns or waits on with it, and does the same,
-- the tries for the sequence number are those of the protocol, no other tries change, no assertion
-- fails and no access leaves a buffer.
pub client_loop-listen :
    (host : ByteOrder) (seq : ℕ) (answers : List Answer) (os : List (Option (List ℕ))) (cl : Client)
    → seq < length cl.tries
    → HoldBytes os
    → Hears cl.timeout answers os
    → Performs (client_loop host seq answers cl) seq cl (listen host (get_or cl.tries seq 0) os)
unfolding client_loop listen
client_loop-listen host seq [] [] cl h b m =
    elim (Bool-cases (ltb (get_or cl.tries seq 0) max_tries)) [
      | inl t ↦
          rw t (Performs-none host seq (λ cl'. ok (waiting, cl', [])) cl h (ground (arith, t)))
      | inr t ↦
          rw t (Performs-full host seq (λ cl'. ok (waiting, cl', [])) cl none h (ground (arith, t)))
    ]
client_loop-listen host seq [] (o ∷ os) cl h b m = absurd m
client_loop-listen host seq (a ∷ answers) [] cl h b m = absurd m
client_loop-listen host seq (a ∷ answers) (none ∷ os) cl h b m =
    elim (Bool-cases (ltb (get_or cl.tries seq 0) max_tries)) [
      | inl t ↦
          let cl' : Client = retried host seq (behind cl none) in
          let ih =
            client_loop-listen host seq answers os cl'
              (omega (arith, h, length-set cl.tries seq (get_or cl.tries seq 0 + 1))) b m.1 in
          rw t (
            Performs-some host seq (client_loop host seq answers) cl a none _ h (ground (arith, t))
              m.0
              (subst (λ x. Performs x seq cl (listen host (get_or cl.tries seq 0 + 1) os))
                (sym (after_wait-none host seq (client_loop host seq answers) cl _ refl h))
                (Performs-behind host seq (client_loop host seq answers cl') cl none _ (
                  Performs-retried host seq (client_loop host seq answers cl') (behind cl none) _ (
                    subst
                      (λ n. Performs (client_loop host seq answers cl') seq cl' (listen host n os))
                      (get_or-set cl.tries seq (get_or cl.tries seq 0 + 1) 0 h) ih)))))
      | inr t ↦
          rw t (
            Performs-full host seq (client_loop host seq answers) cl (some a) h (ground (arith, t)))
    ]
client_loop-listen host seq (a ∷ answers) (some d ∷ os) cl h b m =
    elim (Bool-cases (ltb (get_or cl.tries seq 0) max_tries)) [
      | inl t ↦
          let cl' : Client = behind cl (some d) in
          let ih = client_loop-listen host seq answers os cl' h b.1 m.1 in
          rw t (
            Performs-some host seq (client_loop host seq answers) cl a (some d)
              (react host (decode host (heard d) zero_pi) (get_or cl.tries seq 0)
                (listen host (get_or cl.tries seq 0) os))
              h (ground (arith, t)) m.0
              (Performs-heard host seq cl d (client_loop host seq answers) _
                (listen host (get_or cl.tries seq 0) os) b.0 refl refl ih))
      | inr t ↦
          rw t (
            Performs-full host seq (client_loop host seq answers) cl (some a) h (ground (arith, t)))
    ]
