-- ===== src/Server/Run.antt =====
-- `server_run` over any sequence of events.
use ghetto_subscriber_valida.Prelude.{
  ℕ, ◌≡◌, ◌≢◌, ◌⊎◌, inl, inr, ◌∙◌, refl, List, [], ◌∷◌, ◌++◌, length, arith, Bool, true, false,
  ◌==◌, if◌then◌else◌, ok,
}
use ghetto_subscriber_valida.Host.{ByteOrder}
use native.Mathlib.Decide.{ℕ_discrete}
use ghetto_subscriber_valida.SortSearch.{SortSearch}
use ghetto_subscriber_valida.Database.{ClientInfo}
use ghetto_subscriber_valida.Packet.Decode.{IsBytes}
use ghetto_subscriber_valida.Server.{
  Server, Address, Effect, Garbage, Event, failed, datagram, receive, server_process_packet,
  server_run,
}
use ghetto_subscriber_valida.Server.Frames.{IsReady}
use ghetto_subscriber_valida.Server.Process.{Accepted, Rejected, server_process_packet-answers}
use ghetto_subscriber_valida.Server.Acks.{
  Accepted-CountsUp, CountsUp, CountsUp-append, Rejected-CountsUp, acks_to, acks_to-append,
  receive-IsReady,
}

-- The datagrams among the events hold bytes.
abbrev pub HoldsBytes : List Event → Type 0
HoldsBytes [] = Unit
HoldsBytes (failed ∷ events) = HoldsBytes events
HoldsBytes (datagram ret d g ∷ events) = IsBytes d × HoldsBytes events

-- Whether one of the datagrams is empty.
abbrev pub has_empty : List Event → Bool
has_empty [] = false
has_empty (failed ∷ events) = has_empty events
has_empty (datagram ret d g ∷ events) =
    let rest = has_empty events in if length d == 0 then true else rest

module _ (host : ByteOrder) (std : SortSearch ClientInfo) where
  abbrev pub RunsWell : List Event → Server → Type 0
  RunsWell events serv =
      (out : Bool × Server × List Effect) × (server_run host std events serv ≡ ok out)
      × (out.0 ≡ has_empty events)
      × IsReady out.1
      × (out.1.db ≡ serv.db)
      × ((id : ℕ) → CountsUp (serv.expect_recv id) (acks_to id out.2) (out.1.expect_recv id))

  RunsWell-failed :
      (events : List Event) (serv : Server) → RunsWell events serv → RunsWell (failed ∷ events) serv
  unfolding server_run
  RunsWell-failed events serv r = r

  RunsWell-empty :
      (events : List Event) (serv : Server) (ret : Address) (d : List ℕ) (g : Garbage)
      → length d ≡ 0
      → IsReady serv
      → RunsWell (datagram ret d g ∷ events) serv
  unfolding server_run
  RunsWell-empty events serv ret d g e ready =
      rw e ((true, serv, []), refl, refl, ready, refl, λ id. refl)

  RunsWell-answered :
      (events : List Event) (serv : Server) (ret : Address) (d : List ℕ) (g : Garbage)
      (out : Server × List Effect)
      → length d ≢ 0
      → server_process_packet host std (receive serv d) ret g ≡ ok out
      → out.0.db ≡ serv.db
      → ((id : ℕ) → CountsUp (serv.expect_recv id) (acks_to id out.1) (out.0.expect_recv id))
      → RunsWell events out.0
      → RunsWell (datagram ret d g ∷ events) serv
  unfolding server_run
  RunsWell-answered events serv ret d g out ne e db c (r, run, ended, ready, db', c') =
      let b : (length d == 0) ≡ false = ground arith in
      (
        (r.0, r.1, out.1 ++ r.2),
        rw (b, e, run) refl,
        rw b ended,
        ready,
        db' ∙ db,
        λ id. rw (acks_to-append id out.1 r.2) (
            CountsUp-append (serv.expect_recv id) (out.0.expect_recv id) (r.1.expect_recv id)
              (acks_to id out.1) (acks_to id r.2) (c id) (c' id)),
      )

counted :
    (std : SortSearch ClientInfo) (key : ClientInfo) (serv : Server) (d : List ℕ) (ret : Address)
    (out : Server × List Effect)
    → Accepted std key (receive serv d) ret out ⊎ Rejected (receive serv d) ret out
    → (id : ℕ) → CountsUp (serv.expect_recv id) (acks_to id out.1) (out.0.expect_recv id)
unfolding receive
counted std key serv d ret out (inl a) id = Accepted-CountsUp std key (receive serv d) ret out id a
counted std key serv d ret out (inr r) id = Rejected-CountsUp (receive serv d) ret out id r

-- From a server that is ready, whatever datagrams of bytes come, from whatever addresses, `server_run`
-- returns: no assertion fails and no access leaves a buffer. It has ended by itself if and only if an
-- empty datagram has come. The server stays ready and keeps its database, and for each client the ACKs
-- that are sent carry consecutive sequence numbers, round 256, from the number expected before to the
-- one expected after.
pub server_run-CountsUp :
    (host : ByteOrder) (std : SortSearch ClientInfo) (events : List Event) (serv : Server)
    → HoldsBytes events
    → IsReady serv
    → RunsWell host std events serv
unfolding server_run receive
server_run-CountsUp host std [] serv b ready =
    ((false, serv, []), refl, refl, ready, refl, λ id. refl)
server_run-CountsUp host std (failed ∷ events) serv b ready =
    RunsWell-failed host std events serv (server_run-CountsUp host std events serv b ready)
server_run-CountsUp host std (datagram ret d g ∷ events) serv b ready =
    elim (ℕ_discrete (length d) 0) [
      | yes e ↦ RunsWell-empty host std events serv ret d g e ready
      | no ne ↦
          let (out, e, ready', db, which) =
            server_process_packet-answers host std (receive serv d) ret g
              (receive-IsReady serv d ready b.0) in
          RunsWell-answered host std events serv ret d g out ne e db
            (counted std g.key serv d ret out which)
            (server_run-CountsUp host std events out.0 b.1 ready')
    ]
