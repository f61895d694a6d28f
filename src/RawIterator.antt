-- ===== src/RawIterator.antt =====
-- raw_iterator.c and raw_iterator.h: a cursor over a buffer, with a bounds check by `assert`.
pub mod Laws
pub mod Bounds
mod Tests
use ghetto_subscriber_valida.Prelude.{
  ℕ, ◌+◌, List, ◌++◌, ◌&&◌, leb, if◌then◌else◌, length, take, drop, Outcome, ok, aborted, fault,
  ◌>>=◌, ◌>>◌,
}

-- `data` is the memory from the pointer `data` on, to the end of its object; `curr` is the distance
-- of the pointer `curr` from `data`.
pub record RawIterator : Type 0 where
  pub bytes : List ℕ
  pub curr : ℕ
  pub size : ℕ

unfoldable pub rit_init : List ℕ → ℕ → RawIterator
rit_init bytes size = record { bytes = bytes; curr = 0; size = size }

unfoldable pub rit_reset : RawIterator → RawIterator
rit_reset rit = record rit { curr = 0 }

-- The `assert` of `check_bounds`. The difference of the pointers is not negative, so the comparison
-- with a `size_t` is that of the numbers.
unfoldable pub check_bounds : RawIterator → ℕ → Outcome (Unit {0})
check_bounds rit n = if leb (rit.curr + n) rit.size then ok tt else aborted

-- memcpy out of an object at an offset: the `n` bytes there.
unfoldable pub copy_out : List ℕ → ℕ → ℕ → Outcome (List ℕ)
copy_out bytes i n = if leb (i + n) (length bytes) then ok (take n (drop i bytes)) else fault

-- memcpy of `n` bytes of `src` into an object at an offset.
unfoldable pub copy_in : List ℕ → ℕ → ℕ → List ℕ → Outcome (List ℕ)
copy_in bytes i n src =
    if leb n (length src) && leb (i + n) (length bytes)
    then ok (take i bytes ++ take n src ++ drop (i + n) bytes)
    else fault

-- The bytes that `rit_read` saves, and the iterator after it.
unfoldable pub rit_read : ℕ → RawIterator → Outcome (List ℕ × RawIterator)
unfolding check_bounds copy_out
rit_read n rit = do
  check_bounds rit n
  saved ← copy_out rit.bytes rit.curr n
  ok (saved, record rit { curr = rit.curr + n })

unfoldable pub rit_write : ℕ → List ℕ → RawIterator → Outcome RawIterator
unfolding check_bounds copy_in
rit_write n src rit = do
  check_bounds rit n
  bytes ← copy_in rit.bytes rit.curr n src
  ok (record rit { bytes = bytes; curr = rit.curr + n })

-- `rit.curr += n`, which no check guards.
unfoldable pub rit_skip : ℕ → RawIterator → RawIterator
rit_skip n rit = record rit { curr = rit.curr + n }
