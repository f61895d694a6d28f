-- ===== src/RawIterator/Tests.antt =====
-- raw_iterator.c on a small buffer.
use ghetto_subscriber_valida.Prelude.{
  ℕ, ◌+◌, ◌<◌, ◌≤◌, ◌≡◌, ◌⊎◌, List, [], ◌∷◌, ok, aborted, length, take, drop, arith, refl,
}
use ghetto_subscriber_valida.RawIterator.{RawIterator, rit_read, rit_write}
use ghetto_subscriber_valida.RawIterator.Bounds.{rit_write-read}

-- A cursor behind the first byte of a buffer of four.
abbrev four_bytes : RawIterator
four_bytes = record { bytes = 1 ∷ 2 ∷ 3 ∷ 4 ∷ []; curr = 1; size = 4 }

abbrev two_bytes : List ℕ
two_bytes = 8 ∷ 9 ∷ []

rit_write-read_example :
    ((1 + 2 ≤ 4)
      × ((rit' : RawIterator) × (rit_write 2 two_bytes four_bytes ≡ ok rit')
          × (rit_read 2 (record rit' { curr = 1 }) ≡ ok (two_bytes, rit'))
          × (length rit'.bytes ≡ 4)
          × (take 1 rit'.bytes ≡ 1 ∷ [])
          × (drop 3 rit'.bytes ≡ 4 ∷ [])))
    ⊎ ((4 < 1 + 2) × (rit_write 2 two_bytes four_bytes ≡ aborted))
rit_write-read_example = rit_write-read 2 two_bytes four_bytes (omega arith) (omega arith)

-- A write of four bytes there is refused.
rit_write-four : rit_write 4 (1 ∷ 2 ∷ 3 ∷ 4 ∷ []) four_bytes ≡ aborted
unfolding rit_write
rit_write-four = refl
