-- ===== src/Exchange/Noise.antt =====
-- What the server makes of datagrams that are no access requests, from wherever they come.
use ghetto_subscriber_valida.Prelude.{
  ℕ, ◌<◌, ◌≡◌, ◌∙◌, sym, ap, refl, subst, List, [], ok, Outcome, length, take, inl, inr,
}
use mathlib.Core.List.{Perm}
use ghetto_subscriber_valida.Host.{ByteOrder}
use ghetto_subscriber_valida.SortSearch.{SortSearch}
use ghetto_subscriber_valida.Database.{ClientInfo, buf_size}
use ghetto_subscriber_valida.Database.Lookup.{IsSearchable, filled_entries}
use ghetto_subscriber_valida.Packet.{acc_per}
use ghetto_subscriber_valida.Packet.Decode.{IsBytes}
use ghetto_subscriber_valida.Server.{
  Server, Effect, Event, failed, datagram, receive, server_process_packet,
}
use ghetto_subscriber_valida.Server.Frames.{data_frame}
use ghetto_subscriber_valida.Server.Acks.{receive-IsReady}
use ghetto_subscriber_valida.Server.Process.{server_process_packet-answers}
use ghetto_subscriber_valida.Server.Replay.{received-receive}
use ghetto_subscriber_valida.Exchange.Handled.{Serves}

-- A failure of `recvfrom`, or a datagram of bytes that is not empty and is no access request.
abbrev pub IsNoise : Event → Type 0
IsNoise failed = Unit
IsNoise (datagram ret d g) =
    IsBytes d
    × (0 < length d)
    × ¬ (
        (id : ℕ) × (seq : ℕ) × (payload : List ℕ) × (take buf_size d
          ≡ data_frame acc_per id seq payload)
        × (length payload < 256))

module _ (host : ByteOrder) (std : SortSearch ClientInfo) where
  -- What `server_run` does with it, before it goes on.
  abbrev pub pass : Event → Server → Outcome (Server × List Effect)
  pass failed serv = ok (serv, [])
  pass (datagram ret d g) serv = server_process_packet host std (receive serv d) ret g

  -- The server rejects it, and serves as before.
  pub pass-Serves :
      (entries : List ClientInfo) (base : ℕ) (next : ℕ → ℕ) (serv : Server) (e : Event)
      → IsNoise e
      → Serves entries base next serv
      → (serv' : Server) × (effects : List Effect) × (pass e serv ≡ ok (serv', effects))
        × Serves entries base next serv'
  unfolding receive
  pass-Serves entries base next serv failed n serves = (serv, [], refl, serves)
  pass-Serves entries base next serv (datagram ret d g) (b, _, none_such) serves =
      let (out, run, ready, same_db, which) =
        server_process_packet-answers host std (receive serv d) ret g
          (receive-IsReady serv d serves.ready b) in
      (
        out.0,
        out.1,
        run,
        record {
          ready = ready;
          searchable = subst (IsSearchable base) (sym same_db) serves.searchable;
          holds = subst (λ db. Perm (filled_entries db) entries) (sym same_db) serves.holds;
          expected = elim which [
            | inl a ↦ absurd (
                none_such (
                  a.id,
                  serv.expect_recv a.id,
                  a.payload,
                  sym (received-receive serv d) ∙ a.request.0,
                  a.request.1,
                ))
            | inr r ↦ λ id. ap (λ h. h id) r.kept ∙ serves.expected id
          ];
        },
      )
