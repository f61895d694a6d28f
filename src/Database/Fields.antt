-- ===== src/Database/Fields.antt =====
-- What the fields of an entry are, from the text of its line.
use ghetto_subscriber_valida.Prelude.{
  ℕ, ◌+◌, ◌*◌, ◌%◌, ◌^◌, ◌≤◌, ◌<◌, ◌≡◌, ◌↔◌, ◌∙◌, ap, List, [], ◌∷◌, ◌++◌, true, take, drop, get_or,
  length, arith, All, take-length-append, drop-length-append, get_or-append, ==_iff,
}
use ghetto_subscriber_valida.CString.{until_nul, strtol}
use ghetto_subscriber_valida.CString.Laws.{
  IsDigit, decimal, strtol-decimal, until_nul-digits, decimal-lt,
}
use ghetto_subscriber_valida.Database.{str_to_entry}

-- The number that a string of 1 to 18 digits denotes.
value-strtol :
    (s : List ℕ) → All IsDigit s → 0 < length s → length s ≤ 18 → strtol (until_nul s) ≡ decimal 0 s
value-strtol [] d p q = absurd (omega arith)
value-strtol (c ∷ s) d p q = ap strtol (until_nul-digits (c ∷ s) d) ∙ strtol-decimal c s d q

module _ (number tech : List ℕ) (flag : ℕ) where
  abbrev pub raw_entry : List ℕ
  raw_entry = number ++ (tech ++ (flag ∷ []))

  module _ (dn : All IsDigit number) (dt : All IsDigit tech) (ln : length number ≡ 10)
      (lt : length tech ≡ 2) where
    take-number : take 10 raw_entry ≡ number
    take-number = take-length-append 10 number (tech ++ (flag ∷ [])) (omega arith)

    take-tech : take 2 (drop 10 raw_entry) ≡ tech
    take-tech =
        ap (take 2) (drop-length-append 10 number (tech ++ (flag ∷ [])) (omega arith))
        ∙ take-length-append 2 tech (flag ∷ []) (omega arith)

    flag-at : get_or raw_entry 12 0 ≡ flag
    flag-at =
        get_or-append 12 2 number (tech ++ (flag ∷ [])) 0 (omega arith)
        ∙ get_or-append 2 0 tech (flag ∷ []) 0 (omega arith)

    -- The entry of a line of 10 digits, 2 digits and a flag: the number is that of the 10 digits, cut
    -- to 32 bits, the technology is that of the 2 digits, and the subscriber has paid exactly if the
    -- flag is '1'.
    pub str_to_entry-fields :
        ((str_to_entry raw_entry).number ≡ decimal 0 number % 2 ^ 32)
        × ((str_to_entry raw_entry).ttype ≡ decimal 0 tech)
        × (((str_to_entry raw_entry).paid ≡ true) ↔ (flag ≡ b'1'))
    unfolding str_to_entry
    str_to_entry-fields = (
      rw (take-number, value-strtol number dn (omega arith) (omega arith)),
      rw (take-tech, value-strtol tech dt (omega arith) (omega arith))
          (omega (arith, decimal-lt 0 tech 2 dt lt)),
      rw flag-at (==_iff flag b'1'),
    )

-- Ten digits do not fit in 32 bits: two lines whose numbers differ by a multiple of 2 ^ 32 become entries
-- of one subscriber number, although the lines name different subscribers.
pub str_to_entry-alias :
    (n₁ n₂ t₁ t₂ : List ℕ) (f₁ f₂ k : ℕ)
    → All IsDigit n₁
    → All IsDigit n₂
    → All IsDigit t₁
    → All IsDigit t₂
    → length n₁ ≡ 10
    → length n₂ ≡ 10
    → length t₁ ≡ 2
    → length t₂ ≡ 2
    → decimal 0 n₂ ≡ decimal 0 n₁ + 4294967296 * k
    → (str_to_entry (raw_entry n₁ t₁ f₁)).number ≡ (str_to_entry (raw_entry n₂ t₂ f₂)).number
str_to_entry-alias n₁ n₂ t₁ t₂ f₁ f₂ k d₁ d₂ e₁ e₂ l₁ l₂ m₁ m₂ h = omega (
  arith,
  (str_to_entry-fields n₁ t₁ f₁ d₁ e₁ l₁ m₁).0,
  (str_to_entry-fields n₂ t₂ f₂ d₂ e₂ l₂ m₂).0,
)
