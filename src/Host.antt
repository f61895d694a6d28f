-- ===== src/Host.antt =====
-- What the C code uses of its host: the bytes of a number in memory, which the host orders in one
-- of two ways, and the conversions htons, ntohs, htonl and ntohl of <arpa/inet.h>.
use ghetto_subscriber_valida.Prelude.{
  ℕ, ◌+◌, ◌*◌, ◌/◌, ◌%◌, ◌^◌, ◌<◌, ◌≡◌, List, [], ◌∷◌, get_or, arith,
}

pub data ByteOrder : Type 0 where
  little big : ByteOrder

abbrev pub IsByte : ℕ → Type 0
IsByte b = b < 256

-- Network order: the most significant byte first.
abbrev pub be16 : ℕ → List ℕ
be16 x = (x / 256 % 256) ∷ (x % 256) ∷ []

abbrev pub be32 : ℕ → List ℕ
be32 x = (x / 16777216 % 256) ∷ (x / 65536 % 256) ∷ (x / 256 % 256) ∷ (x % 256) ∷ []

-- The bytes of a uint16_t and of a 32-bit number in memory, lowest address first.
unfoldable pub store16 : ByteOrder → ℕ → List ℕ
store16 little x = (x % 256) ∷ (x / 256 % 256) ∷ []
store16 big x = be16 x

unfoldable pub store32 : ByteOrder → ℕ → List ℕ
store32 little x = (x % 256) ∷ (x / 256 % 256) ∷ (x / 65536 % 256) ∷ (x / 16777216 % 256) ∷ []
store32 big x = be32 x

-- The number that the first bytes of a piece of memory hold.
unfoldable pub load16 : ByteOrder → List ℕ → ℕ
load16 little bs = get_or bs 0 0 + 256 * get_or bs 1 0
load16 big bs = 256 * get_or bs 0 0 + get_or bs 1 0

unfoldable pub load32 : ByteOrder → List ℕ → ℕ
load32 little bs =
    get_or bs 0 0 + 256 * get_or bs 1 0 + 65536 * get_or bs 2 0 + 16777216 * get_or bs 3 0
load32 big bs =
    16777216 * get_or bs 0 0 + 65536 * get_or bs 1 0 + 256 * get_or bs 2 0 + get_or bs 3 0

-- The conversions take their argument as a uint16_t or a uint32_t.
unfoldable pub htons : ByteOrder → ℕ → ℕ
htons little x = x % 256 * 256 + x / 256 % 256
htons big x = x % 65536

abbrev pub ntohs : ByteOrder → ℕ → ℕ
ntohs = htons

unfoldable pub htonl : ByteOrder → ℕ → ℕ
htonl little x =
    x % 256 * 16777216 + x / 256 % 256 * 65536 + x / 65536 % 256 * 256 + x / 16777216 % 256
htonl big x = x % 4294967296

abbrev pub ntohl : ByteOrder → ℕ → ℕ
ntohl = htonl

pub store16-htons : (host : ByteOrder) (x : ℕ) → store16 host (htons host x) ≡ be16 x
unfolding store16 htons
store16-htons little x = ground arith
store16-htons big x = ground arith

pub store32-htonl : (host : ByteOrder) (x : ℕ) → store32 host (htonl host x) ≡ be32 x
unfolding store32 htonl
store32-htonl little x = ground arith
store32-htonl big x = ground arith

module _ (host : ByteOrder) (a b : ℕ) (ha : IsByte a) (hb : IsByte b) where
  pub ntohs-load16 : ntohs host (load16 host (a ∷ b ∷ [])) ≡ 256 * a + b
  unfolding load16 htons
  ntohs-load16 = elim host as (λ h. ntohs h (load16 h (a ∷ b ∷ [])) ≡ 256 * a + b) [
    | little ↦ omega arith
    | big ↦ omega arith
  ]

  pub load16-lt : load16 host (a ∷ b ∷ []) < 65536
  unfolding load16
  load16-lt = elim host as (λ h. load16 h (a ∷ b ∷ []) < 65536) [
    | little ↦ omega arith
    | big ↦ omega arith
  ]

module _ (a b c d : ℕ) (ha : IsByte a) (hb : IsByte b) (hc : IsByte c) (hd : IsByte d) where
  pub ntohl-load32 :
      (host : ByteOrder)
      → ntohl host (load32 host (a ∷ b ∷ c ∷ d ∷ [])) ≡ 16777216 * a + 65536 * b + 256 * c + d
  unfolding load32 htonl
  ntohl-load32 little = omega arith
  ntohl-load32 big = omega arith

pub load32-store32 : (host : ByteOrder) (x : ℕ) → x < 2 ^ 32 → load32 host (store32 host x) ≡ x
unfolding load32 store32
load32-store32 little x h = omega arith
load32-store32 big x h = omega arith
