-- ===== src/RawIterator/Bounds.antt =====
-- What the assertion of raw_iterator.c is worth: the accesses at and past the end.
use ghetto_subscriber_valida.Prelude.{
  ℕ, ◌+◌, ◌≤◌, ◌<◌, ◌≡◌, ◌⊎◌, inl, inr, ◌∙◌, ap, refl, List, ◌++◌, ok, aborted, length, take, drop,
  leb, Bool-cases, le→leb, arith, length-append, length-take, length-drop, drop-length-append,
  take-length-append,
}
use mathlib.Core.List.{append_assoc}
use ghetto_subscriber_valida.RawIterator.{RawIterator, rit_read, rit_write}

-- The memory after a write of `n` bytes of `src` at `i`.
abbrev pub written : List ℕ → ℕ → ℕ → List ℕ → List ℕ
written bytes i n src = take i bytes ++ take n src ++ drop (i + n) bytes

length-written :
    (bytes : List ℕ) (i n : ℕ) (src : List ℕ)
    → i + n ≤ length bytes
    → n ≤ length src
    → length (written bytes i n src) ≡ length bytes
length-written bytes i n src h k = omega (
  arith,
  length-append (take i bytes ++ take n src) (drop (i + n) bytes),
  length-append (take i bytes) (take n src),
  length-take i bytes,
  length-take n src,
  length-drop (i + n) bytes,
)

take-drop-written :
    (bytes : List ℕ) (i n : ℕ) (src : List ℕ)
    → i + n ≤ length bytes
    → n ≤ length src
    → take n (drop i (written bytes i n src)) ≡ take n src
take-drop-written bytes i n src h k =
    ap (λ l. take n (drop i l)) (append_assoc (take i bytes) (take n src) (drop (i + n) bytes))
    ∙ ap (take n) (
        drop-length-append i (take i bytes) (take n src ++ drop (i + n) bytes)
          (omega (arith, length-take i bytes)))
    ∙ take-length-append n (take n src) (drop (i + n) bytes) (omega (arith, length-take n src))

written-before :
    (bytes : List ℕ) (i n : ℕ) (src : List ℕ)
    → i ≤ length bytes
    → take i (written bytes i n src) ≡ take i bytes
written-before bytes i n src h =
    ap (take i) (append_assoc (take i bytes) (take n src) (drop (i + n) bytes))
    ∙ take-length-append i (take i bytes) (take n src ++ drop (i + n) bytes)
        (omega (arith, length-take i bytes))

written-behind :
    (bytes : List ℕ) (i n : ℕ) (src : List ℕ)
    → i + n ≤ length bytes
    → n ≤ length src
    → drop (i + n) (written bytes i n src) ≡ drop (i + n) bytes
written-behind bytes i n src h k =
    drop-length-append (i + n) (take i bytes ++ take n src) (drop (i + n) bytes) (
      omega
        (arith, length-append (take i bytes) (take n src), length-take i bytes, length-take n src))

-- On an iterator whose size is not beyond its memory, and with enough bytes to write, `rit_write`
-- either ends inside the size, and then `rit_read` from the same place gives the bytes back and nothing
-- before or behind them has changed, or it would end outside, and then the assertion fails. It never
-- leaves the memory.
pub rit_write-read :
    (n : ℕ) (src : List ℕ) (rit : RawIterator)
    → rit.size ≤ length rit.bytes
    → n ≤ length src
    → ((rit.curr + n ≤ rit.size)
        × ((rit' : RawIterator) × (rit_write n src rit ≡ ok rit')
            × (rit_read n (record rit' { curr = rit.curr }) ≡ ok (take n src, rit'))
            × (length rit'.bytes ≡ length rit.bytes)
            × (take rit.curr rit'.bytes ≡ take rit.curr rit.bytes)
            × (drop (rit.curr + n) rit'.bytes ≡ drop (rit.curr + n) rit.bytes)))
      ⊎ ((rit.size < rit.curr + n) × (rit_write n src rit ≡ aborted))
unfolding rit_write rit_read
rit_write-read n src rit fits enough = elim (Bool-cases (leb (rit.curr + n) rit.size)) [
  | inl e ↦
      let h : rit.curr + n ≤ rit.size = ground (arith, e) in
      let k : rit.curr + n ≤ length rit.bytes = omega (arith, h, fits) in
      let out : List ℕ = written rit.bytes rit.curr n src in
      let size : length out ≡ length rit.bytes = length-written rit.bytes rit.curr n src k enough in
      inl (
        h,
        (
          record { bytes = out; curr = rit.curr + n; size = rit.size },
          rw (e, le→leb n (length src) enough, le→leb (rit.curr + n) (length rit.bytes) k) refl,
          rw
              (
                e,
                le→leb (rit.curr + n) (length out) (omega (arith, size, k)),
                take-drop-written rit.bytes rit.curr n src k enough,
              )
              refl,
          size,
          written-before rit.bytes rit.curr n src (omega (arith, k)),
          written-behind rit.bytes rit.curr n src k enough,
        ),
      )
  | inr e ↦ inr (ground (arith, e), rw e refl)
]
