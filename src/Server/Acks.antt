-- ===== src/Server/Acks.antt =====
-- The state after a receive, and the sequence numbers of the ACKs that are sent.
use ghetto_subscriber_valida.Prelude.{
  ℕ, ◌+◌, ◌%◌, ◌≡◌, ◌≢◌, ap, sym, refl, subst, List, [], ◌∷◌, ◌++◌, length, take, drop, arith, Bool,
  true, false, ◌==◌, if◌then◌else◌, Option, none, some, All-append, All-take, All-drop, length-take,
  length-drop, length-append, length-replicate,
}
use Prim.Native.Nat.{min}
use ghetto_subscriber_valida.Host.{IsByte}
use ghetto_subscriber_valida.RawIterator.Laws.{◌!◌}
use ghetto_subscriber_valida.SortSearch.{SortSearch}
use ghetto_subscriber_valida.Database.{ClientInfo, buf_size, lookup}
use ghetto_subscriber_valida.Packet.Decode.{IsBytes}
use ghetto_subscriber_valida.Server.{
  Server, Address, Effect, sent, alert, update, receive, reply_type,
}
use ghetto_subscriber_valida.Server.Frames.{IsReady, ack_frame, data_frame}
use ghetto_subscriber_valida.Server.Handle.{verdict, asked_number, asked_tech}
use ghetto_subscriber_valida.Server.Process.{Accepted, Rejected}

-- The sequence numbers of the ACKs for a client, in the order in which they are sent.
abbrev pub acks_to : ℕ → List Effect → List ℕ
acks_to id [] = []
acks_to id (alert pi code ∷ effects) = acks_to id effects
acks_to id (sent a frame ∷ effects) =
    let rest = acks_to id effects in
    if frame ! 3 == 255
    then (if frame ! 4 == 0xF2 then (if frame ! 2 == id then frame ! 5 ∷ rest else rest) else rest)
    else rest

-- The numbers count up from the first, round 256, and the last number comes next.
abbrev pub CountsUp : ℕ → List ℕ → ℕ → Type 0
CountsUp s [] t = s ≡ t
CountsUp s (x ∷ xs) t = (x ≡ s) × CountsUp ((s + 1) % 256) xs t

pub receive-IsReady :
    (serv : Server) (d : List ℕ) → IsReady serv → IsBytes d → IsReady (receive serv d)
unfolding receive
receive-IsReady serv d ready b = record {
  recv_size = omega (
    arith,
    ready.recv_size,
    length-append (take buf_size d) (drop (min (length d) buf_size) serv.recv_buf),
    length-take buf_size d,
    length-drop (min (length d) buf_size) serv.recv_buf,
  );
  recv_bytes =
      All-append IsByte (take buf_size d) (drop (min (length d) buf_size) serv.recv_buf)
        (All-take IsByte buf_size d b)
        (All-drop IsByte (min (length d) buf_size) serv.recv_buf ready.recv_bytes);
  send_size = length-replicate {A = ℕ} buf_size 0;
  expected = ready.expected;
}

pub CountsUp-append :
    (s t u : ℕ) (xs ys : List ℕ) → CountsUp s xs t → CountsUp t ys u → CountsUp s (xs ++ ys) u
CountsUp-append s t u [] ys h k = subst (λ i. CountsUp i ys u) (sym h) k
CountsUp-append s t u (x ∷ xs) ys h k = (h.0, CountsUp-append ((s + 1) % 256) t u xs ys h.1 k)

pub acks_to-append :
    (id : ℕ) (xs ys : List Effect) → acks_to id (xs ++ ys) ≡ acks_to id xs ++ acks_to id ys
acks_to-append id [] ys = refl
acks_to-append id (alert pi code ∷ xs) ys = acks_to-append id xs ys
acks_to-append id (sent a frame ∷ xs) ys = ground (arith, acks_to-append id xs ys)

reply_type-not_ack : (r : Option ClientInfo) (ttype : ℕ) → reply_type r ttype % 256 ≢ 0xF2
unfolding reply_type
reply_type-not_ack none ttype = λ e. absurd (omega (arith, e))
reply_type-not_ack (some e) ttype = ground arith

verdict-not_ack :
    (std : SortSearch ClientInfo) (key : ClientInfo) (serv : Server)
    → verdict std key serv % 256 ≢ 0xF2
verdict-not_ack std key serv =
    reply_type-not_ack (lookup std key serv.db (asked_number serv)) (asked_tech serv)

acks_to-data_frame :
    (id i type s : ℕ) (payload : List ℕ) (a : Address)
    → type % 256 ≢ 0xF2
    → acks_to id (sent a (data_frame type i s payload) ∷ []) ≡ []
acks_to-data_frame id i type s payload a h = ground (arith, h)

acks_to-ack_frame :
    (id i s : ℕ) (a : Address) (rest : List Effect)
    → acks_to id rest ≡ []
    → acks_to id (sent a (ack_frame i s) ∷ rest) ≡ (if i == id then s ∷ [] else [])
acks_to-ack_frame id i s a rest h = rw h refl

CountsUp-if :
    (b : Bool) (s t : ℕ)
    → (b ≡ true → s ≡ t)
    → CountsUp t (if b then s ∷ [] else []) (if b then (s + 1) % 256 else t)
CountsUp-if true s t h = (h refl, ap (λ n. (n + 1) % 256) (sym (h refl)))
CountsUp-if false s t h = refl

CountsUp-update :
    (f : ℕ → ℕ) (id i : ℕ)
    → CountsUp (f id) (if i == id then f i ∷ [] else []) (update f i ((f i + 1) % 256) id)
CountsUp-update f id i = CountsUp-if (i == id) (f i) (f id) (λ e. ap f (ground (arith, e)))

pub Accepted-CountsUp :
    (std : SortSearch ClientInfo) (key : ClientInfo) (serv : Server) (ret : Address)
    (out : Server × List Effect) (id : ℕ)
    → Accepted std key serv ret out
    → CountsUp (serv.expect_recv id) (acks_to id out.1) (out.0.expect_recv id)
Accepted-CountsUp std key serv ret out id a =
    let quiet =
      acks_to-data_frame id a.id (verdict std key serv) (serv.expect_recv a.id) a.payload ret
        (verdict-not_ack std key serv) in
    rw
      (
        a.answered,
        a.counted,
        acks_to-ack_frame id a.id (serv.expect_recv a.id) ret
            (sent ret (data_frame (verdict std key serv) a.id (serv.expect_recv a.id) a.payload)
              ∷ [])
            quiet,
      )
      (CountsUp-update serv.expect_recv id a.id)

pub Rejected-CountsUp :
    (serv : Server) (ret : Address) (out : Server × List Effect) (id : ℕ)
    → Rejected serv ret out
    → CountsUp (serv.expect_recv id) (acks_to id out.1) (out.0.expect_recv id)
Rejected-CountsUp serv ret out id r = rw (r.answered, r.kept) refl
