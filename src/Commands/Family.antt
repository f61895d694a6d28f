-- ===== src/Commands/Family.antt =====
-- The family of the address that `getaddrinfo` gives to `send_req`.
use ghetto_subscriber_valida.Prelude.{
  ℕ, ◌≡◌, ◌≢◌, ◌↔◌, ◌⊎◌, inl, inr, ◌==◌, false, refl, List, [], ◌∷◌, aborted, length, arith,
}
use native.Mathlib.Decide.{ℕ_discrete}
use ghetto_subscriber_valida.Host.{ByteOrder}
use ghetto_subscriber_valida.BusyWait.{Timeval}
use ghetto_subscriber_valida.Server.{Address}
use ghetto_subscriber_valida.Client.{Client}
use ghetto_subscriber_valida.Client.Usable.{IsUsable, Settles}
use ghetto_subscriber_valida.Commands.{
  AddrInfo, gai_error, resolved, CommandEnv, parse_ip_args, send_req, request_size,
  sockaddr_in_size,
}
use ghetto_subscriber_valida.Commands.Usable.{HasRoom, IsInet, send_req-Returns}

-- An address of another family than IPv4.
abbrev pub IsOther : AddrInfo → Type 0
IsOther found =
    (addrlen : ℕ) × (addr : Address) × (found ≡ resolved addrlen addr)
    × (addrlen ≢ sockaddr_in_size)

module _ (host : ByteOrder) (getaddrinfo : List ℕ → List ℕ → AddrInfo) (env : CommandEnv) (id : ℕ)
    (timeout : Timeval) (cl : Client) (name node service seq num_str tech_str : List ℕ) where
  abbrev argv : List (List ℕ)
  argv = name ∷ node ∷ service ∷ seq ∷ num_str ∷ tech_str ∷ []

  other-aborted :
      IsOther (getaddrinfo node service) → send_req host getaddrinfo env argv cl ≡ aborted
  unfolding send_req parse_ip_args
  other-aborted (addrlen, addr, found, ne) =
      let no : (addrlen == sockaddr_in_size) ≡ false = ground arith in
      rw (send_req, parse_ip_args, found, no) refl

  inet-not_aborted :
      length env.payload ≡ request_size
      → Settles host timeout env.answers
      → IsUsable id timeout cl
      → HasRoom argv
      → IsInet (getaddrinfo node service)
      → send_req host getaddrinfo env argv cl ≢ aborted
  inet-not_aborted size settles usable room inet e =
      let (_, _, run, _) =
        send_req-Returns host getaddrinfo env id timeout size settles argv cl usable room inet in
      absurd (cc (run, e))

  IsInet-or-IsOther : (found : AddrInfo) → IsInet found ⊎ IsOther found
  IsInet-or-IsOther (gai_error code) = inl tt
  IsInet-or-IsOther (resolved addrlen addr) = elim (ℕ_discrete addrlen sockaddr_in_size) [
    | yes same ↦ inl same
    | no ne ↦ inr (addrlen, addr, refl, ne)
  ]

  -- On a usable client, for a line of six tokens whose sequence number has room in `tries`, with a payload
  -- of the size of a request and waits that bring a final answer or run out of time as often as there are
  -- tries: `send_req` aborts exactly if `getaddrinfo` gives an address of another family than IPv4 for the
  -- line's node and service.
  pub send_req-aborted_iff :
      length env.payload ≡ request_size
      → Settles host timeout env.answers
      → IsUsable id timeout cl
      → HasRoom argv
      → (send_req host getaddrinfo env argv cl ≡ aborted) ↔ IsOther (getaddrinfo node service)
  send_req-aborted_iff size settles usable room = (
    λ e. elim (IsInet-or-IsOther (getaddrinfo node service)) [
      | inl inet ↦ absurd (inet-not_aborted size settles usable room inet e)
      | inr other ↦ other
    ],
    other-aborted,
  )
