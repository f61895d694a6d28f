-- ===== src/Drivers/Serving.antt =====
-- The server program from its command line on.
use ghetto_subscriber_valida.Prelude.{
  ℕ, ◌<◌, ◌≡◌, refl, List, [], ◌∷◌, map, length, true, false, some, ok, if◌then◌else◌, subst,
}
use ghetto_subscriber_valida.Prelude.Int.{ℤ, pos, ltb_ℤ, is_minus_one}
use ghetto_subscriber_valida.Host.{ByteOrder}
use ghetto_subscriber_valida.SortSearch.{SortSearch}
use ghetto_subscriber_valida.Database.{
  ClientInfo, AstNode, Mpc, buf_size, max_entries, str_to_entry,
}
use ghetto_subscriber_valida.Database.Order.{InWindow}
use ghetto_subscriber_valida.Database.Lines.{lines, IsShaped}
use ghetto_subscriber_valida.Server.{Server, Effect, Event}
use ghetto_subscriber_valida.Server.Init.{HasArrays, server_init-Loads}
use ghetto_subscriber_valida.Server.Acks.{acks_to, CountsUp}
use ghetto_subscriber_valida.Server.Run.{HoldsBytes, has_empty, server_run-CountsUp}
use ghetto_subscriber_valida.Drivers.{exit, running, default_address, start_server, server_main}

-- What the server needs of its calls and of its file to start.
pub record CanServe (mpc : Mpc) (socket bind : ℤ) (base : ℕ) (filename : List ℕ)
    (nodes : List AstNode) : Type 0 where
  pub socket_ok : ltb_ℤ socket (pos 0) ≡ false
  pub bind_ok : is_minus_one bind ≡ false
  pub grammar : mpc.grammar_ok ≡ true
  pub parsed : mpc.parse_contents filename ≡ some nodes
  pub shaped : IsShaped 0 nodes
  pub few : length (lines [] nodes) < max_entries
  pub window : InWindow base (map str_to_entry (lines [] nodes))

-- From a command line with the name of a file that can be loaded, and whatever datagrams of bytes come,
-- the server program does not end but by an empty datagram, and then with exit code 0; and the ACKs
-- that each client is sent carry the sequence numbers 0, 1, 2 and so on, round 256.
pub server_main-CountsUp :
    (host : ByteOrder) (mpc : Mpc) (std : SortSearch ClientInfo) (socket bind : ℤ) (base : ℕ)
    (program filename : List ℕ) (nodes : List AstNode) (events : List Event) (serv : Server)
    (curr_str : List ℕ)
    → CanServe mpc socket bind base filename nodes
    → length curr_str ≡ buf_size
    → HasArrays serv
    → HoldsBytes events
    → (effects : List Effect) × (server_main host mpc std socket bind
          (program ∷ filename ∷ [])
          events
          serv
          curr_str
        ≡ ok (if has_empty events then exit 0 else running, effects))
      × ((id : ℕ) → (next : ℕ) × CountsUp 0 (acks_to id effects) next)
unfolding server_main start_server
server_main-CountsUp host mpc std socket bind base program filename nodes events serv curr_str can c
      h b =
    let (serv', init, _, ready, zeros, _) =
      server_init-Loads mpc std socket bind serv (some (default_address host mpc std socket bind))
        base filename curr_str nodes can.socket_ok can.bind_ok can.grammar can.parsed can.shaped
        can.few can.window c h in
    let (out, run, ended, _, _, counts) = server_run-CountsUp host std events serv' b ready in
    (
      out.2,
      rw (init, run, ended) refl,
      λ id. (
        out.1.expect_recv id,
        subst (λ n. CountsUp n (acks_to id out.2) (out.1.expect_recv id)) (zeros id) (counts id),
      ),
    )
