-- ===== src/Commands/Digits.antt =====
-- What the arguments of a request stand for.
use ghetto_subscriber_valida.Prelude.{
  drop_all, ℕ, ◌%◌, ◌^◌, ◌≤◌, ◌<◌, ◌≡◌, ap, List, [], ◌∷◌, ◌++◌, some, ok, length, drop, All, arith,
}
use ghetto_subscriber_valida.Host.{ByteOrder, be32, store32-htonl}
use ghetto_subscriber_valida.CString.Laws.{IsDigit, decimal, decimal-lt, strtoul-decimal}
use ghetto_subscriber_valida.RawIterator.{rit_init}
use ghetto_subscriber_valida.RawIterator.Laws.{rit_write-filled}
use ghetto_subscriber_valida.Commands.{
  strict_strtoul, parse_client_info, build_payload, request_size,
}

-- A string of 1 to 18 digits is read whole.
pub strict_strtoul-decimal :
    (s : List ℕ)
    → All IsDigit s
    → 0 < length s
    → length s ≤ 18
    → strict_strtoul s ≡ some (decimal 0 s)
unfolding strict_strtoul
strict_strtoul-decimal [] d p q = absurd (omega arith)
strict_strtoul-decimal (c ∷ s) d p q = rw (strtoul-decimal c s d q) (ground arith)

-- What the user's digits stand for.
abbrev pub number_of : List ℕ → ℕ
number_of s = decimal 0 s % 2 ^ 32

pub parse_client_info-digits :
    (num_str tech_str : List ℕ)
    → All IsDigit num_str
    → All IsDigit tech_str
    → length num_str ≡ 10
    → length tech_str ≡ 2
    → parse_client_info num_str tech_str ≡ (some (number_of num_str, decimal 0 tech_str), [])
unfolding parse_client_info
parse_client_info-digits num_str tech_str dn dt ln lt =
    rw
      (
        ln,
        lt,
        strict_strtoul-decimal num_str dn (omega arith) (omega arith),
        strict_strtoul-decimal tech_str dt (omega arith) (omega arith),
      )
      (ap (λ t. (some (number_of num_str, t), [])) (omega (arith, decimal-lt 0 tech_str 2 dt lt)))

-- The payload holds the technology, and the number in network order.
pub build_payload-lem :
    (host : ByteOrder) (payload : List ℕ) (number ttype : ℕ)
    → length payload ≡ request_size
    → build_payload host payload number ttype ≡ ok (ttype ∷ be32 number)
unfolding build_payload rit_init
build_payload-lem host payload number ttype h =
    let all : (ttype ∷ be32 number) ++ drop 5 payload ≡ ttype ∷ be32 number =
      ap (λ l. (ttype ∷ be32 number) ++ l) (drop_all 5 payload (omega arith)) in
    rw
      (
        rit_write-filled [] (ttype ∷ []) payload 1 5 (omega arith) (omega arith) (omega arith),
        store32-htonl host number,
        rit_write-filled (ttype ∷ []) (be32 number) payload 4 5 (omega arith) (omega arith)
            (omega arith),
      )
      (ap ok all)
