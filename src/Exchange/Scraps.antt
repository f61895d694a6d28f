-- ===== src/Exchange/Scraps.antt =====
-- What a client makes of datagrams that are no packets.
use ghetto_subscriber_valida.Prelude.{
  ℕ, ◌<◌, ◌≡◌, ◌≢◌, refl, List, [], ◌∷◌, Option, some, All, false, ◌==◌, lt→ltb, arith,
}
use ghetto_subscriber_valida.Host.{ByteOrder}
use ghetto_subscriber_valida.Packet.Decode.{IsBytes, decode}
use ghetto_subscriber_valida.Client.{max_tries, zero_pi}
use ghetto_subscriber_valida.Client.Protocol.{heard, listen, HoldBytes}

-- Bytes that are no packet, on any host.
abbrev pub IsScrap : List ℕ → Type 0
IsScrap d = IsBytes d × ((host : ByteOrder) → (decode host (heard d) zero_pi).0 ≢ 0)

-- These come first.
abbrev pub scraps : List (List ℕ) → List (Option (List ℕ)) → List (Option (List ℕ))
scraps [] os = os
scraps (d ∷ ds) os = some d ∷ scraps ds os

nonzero : (n : ℕ) → n ≢ 0 → (n == 0) ≡ false
nonzero n h = ground arith

-- The client ignores them, and they take none of its tries.
pub listen-scraps :
    (host : ByteOrder) (tries : ℕ) (ds : List (List ℕ)) (os : List (Option (List ℕ)))
    → tries < max_tries
    → All IsScrap ds
    → listen host tries (scraps ds os) ≡ listen host tries os
unfolding listen
listen-scraps host tries [] os room h = refl
listen-scraps host tries (d ∷ ds) os room ((_, bad), h) =
    let no : ((decode host (heard d) zero_pi).0 == 0) ≡ false =
      nonzero (decode host (heard d) zero_pi).0 (bad host) in
    rw (lt→ltb tries max_tries room, no) (listen-scraps host tries ds os room h)

pub HoldBytes-scraps :
    (ds : List (List ℕ)) (os : List (Option (List ℕ)))
    → All IsScrap ds
    → HoldBytes os
    → HoldBytes (scraps ds os)
HoldBytes-scraps [] os h b = b
HoldBytes-scraps (d ∷ ds) os ((bytes, _), h) b = (bytes, HoldBytes-scraps ds os h b)
