-- ===== src/RawIterator/Laws.antt =====
-- What reads and writes through an iterator do while they stay inside its buffer.
use ghetto_subscriber_valida.Prelude.{
  ℕ, ◌+◌, ◌≤◌, ◌<◌, ◌≡◌, refl, ◌∙◌, ap, List, [], ◌∷◌, ◌++◌, length, take, drop, get_or, ok, arith,
  drop-cons, take-length-append, drop-length-append, length-append, length-drop, drop-drop, sym,
  length-take,
}
use ghetto_subscriber_valida.RawIterator.{RawIterator, rit_read, rit_write}

module _ (bytes : List ℕ) (i size : ℕ) where
  abbrev pub rit_at : RawIterator
  rit_at = record { bytes = bytes; curr = i; size = size }

drop-append :
    (i n : ℕ) (pre rest : List ℕ) → i ≡ length pre → drop (i + n) (pre ++ rest) ≡ drop n rest
drop-append i n pre rest h =
    sym (drop-drop i n (i + n) (pre ++ rest) refl) ∙ ap (drop n) (drop-length-append i pre rest h)

-- A byte of a buffer, by its offset.
infixl 90 ◌!◌
abbrev pub ◌!◌ : List ℕ → ℕ → ℕ
bytes ! i = get_or bytes i 0

take_one : (bytes : List ℕ) (i : ℕ) → i < length bytes → take 1 (drop i bytes) ≡ (bytes ! i) ∷ []
take_one bytes i h = rw (drop-cons i bytes 0 h)

take_two :
    (bytes : List ℕ) (i : ℕ)
    → i + 1 < length bytes
    → take 2 (drop i bytes) ≡ (bytes ! i) ∷ (bytes ! (i + 1)) ∷ []
take_two bytes i h =
    rw (drop-cons i bytes 0 (omega arith)) (ap (◌∷◌ (bytes ! i)) (take_one bytes (i + 1) h))

take_four :
    (bytes : List ℕ) (i : ℕ)
    → i + 3 < length bytes
    → take 4 (drop i bytes)
      ≡ (bytes ! i) ∷ (bytes ! (i + 1)) ∷ (bytes ! (i + 2)) ∷ (bytes ! (i + 3)) ∷ []
take_four bytes i h =
    let two : i + 1 + 1 ≡ i + 2 = omega arith in
    let three : i + 2 + 1 ≡ i + 3 = omega arith in
    rw
      (
        drop-cons i bytes 0 (omega arith),
        drop-cons (i + 1) bytes 0 (omega arith),
        two,
        drop-cons (i + 2) bytes 0 (omega arith),
        three,
        drop-cons (i + 3) bytes 0 h,
      )
      refl

module _ (bytes : List ℕ) (i size : ℕ) (fits : size ≤ length bytes) where
  -- A read of one byte inside the buffer.
  pub rit_read_one :
      i + 1 ≤ size
      → rit_read 1 (rit_at bytes i size) ≡ ok ((bytes ! i) ∷ [], rit_at bytes (i + 1) size)
  unfolding rit_read
  rit_read_one h = ground (arith, take_one bytes i)

  pub rit_read_two :
      i + 2 ≤ size
      → rit_read 2 (rit_at bytes i size)
        ≡ ok ((bytes ! i) ∷ (bytes ! (i + 1)) ∷ [], rit_at bytes (i + 2) size)
  unfolding rit_read
  rit_read_two h = ground (arith, take_two bytes i)

  pub rit_read_four :
      i + 4 ≤ size
      → rit_read 4 (rit_at bytes i size)
        ≡ ok (
          (bytes ! i) ∷ (bytes ! (i + 1)) ∷ (bytes ! (i + 2)) ∷ (bytes ! (i + 3)) ∷ [],
          rit_at bytes (i + 4) size,
        )
  unfolding rit_read
  rit_read_four h = ground (arith, take_four bytes i)

-- A buffer in which `written` has been written from its start, and the iterator behind that.
abbrev pub filled : List ℕ → List ℕ → List ℕ
filled written buf = written ++ drop (length written) buf

abbrev pub rit_filled : List ℕ → List ℕ → ℕ → RawIterator
rit_filled written buf size = rit_at (filled written buf) (length written) size

pub length-filled :
    (written buf : List ℕ) → length written ≤ length buf → length (filled written buf) ≡ length buf
length-filled written buf h =
    omega
      (arith, length-append written (drop (length written) buf), length-drop (length written) buf)

drop-filled :
    (written src buf : List ℕ) (n : ℕ)
    → n ≡ length src
    → drop (length written + n) (filled written buf) ≡ drop (length (written ++ src)) buf
drop-filled written src buf n h =
    drop-append (length written) n written (drop (length written) buf) refl
    ∙ drop-drop (length written) n (length (written ++ src)) buf
        (omega (arith, length-append written src))

module _ (written src buf : List ℕ) (n size : ℕ) where
  -- A write of `n` bytes just behind what has been written, inside the buffer.
  pub rit_write-filled :
      n ≤ length src
      → length written + n ≤ size
      → size ≤ length buf
      → rit_write n src (rit_filled written buf size)
        ≡ ok (rit_filled (written ++ take n src) buf size)
  unfolding rit_write
  rit_write-filled hn hs hl = ground (
    arith,
    length-filled written buf,
    take-length-append (length written) written (drop (length written) buf) refl,
    drop-filled written (take n src) buf n,
    length-take n src,
    length-append written (take n src),
  )
