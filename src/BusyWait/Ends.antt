-- ===== src/BusyWait/Ends.antt =====
-- When `busy_wait_until` comes to an end.
use ghetto_subscriber_valida.Prelude.{
  ℕ, ◌≤◌, ◌≡◌, ◌⊎◌, inl, inr, refl, List, [], ◌∷◌, Bool, true, false, Outcome, ok, length,
  Bool-cases, le→leb,
}
use ghetto_subscriber_valida.RawIterator.{copy_out}
use ghetto_subscriber_valida.Recv.{RecvArgs}
use ghetto_subscriber_valida.BusyWait.{
  Timeval, TryFn, Poll, Wait, timed_out, succeeded, printed_size, timersub, timer_greater,
  after_try, busy_wait_until,
}

module _ {E : Type 0} (fn : TryFn E) (timeout start : Timeval) where
  -- One of the times that would be read is late.
  abbrev pub Late : List (Poll E) → Type 0
  Late [] = ⊥
  Late (poll ∷ polls) = (timer_greater (timersub poll.now start) timeout ≡ true) ⊎ Late polls

  -- A result that ends the wait.
  abbrev pub HasEnded : Outcome Wait → Type 0
  HasEnded m =
      (args : RecvArgs) × (retval : ℕ) × ((m ≡ ok (timed_out args retval))
        ⊎ (m ≡ ok (succeeded args retval)))

  after_try-HasEnded :
      (now : Timeval) (more : RecvArgs → ℕ → Outcome Wait) (r : Bool × RecvArgs × ℕ)
      → printed_size ≤ length r.1.buf
      → (timer_greater (timersub now start) timeout ≡ true) ⊎ HasEnded (more r.1 r.2)
      → HasEnded (after_try fn timeout start now more r)
  unfolding after_try copy_out
  after_try-HasEnded now more (true, args, retval) h l =
      (args, retval, inr (rw (le→leb printed_size (length args.buf) h) refl))
  after_try-HasEnded now more (false, args, retval) h (inl e) = (args, retval, inl (rw e refl))
  after_try-HasEnded now more (false, args, retval) h (inr m) =
      elim (Bool-cases (timer_greater (timersub now start) timeout)) [
        | inl e ↦ (args, retval, inl (rw e refl))
        | inr e ↦ rw e m
      ]

  -- If one of the times read is late, `busy_wait_until` returns, whatever the tries do, as long as they
  -- leave the buffer as large as what is printed of it; no access leaves the buffer.
  pub busy_wait_until-HasEnded :
      (polls : List (Poll E)) (args : RecvArgs) (retval : ℕ)
      → ((e : E) (a : RecvArgs) (r : ℕ)
          → printed_size ≤ length a.buf
          → printed_size ≤ length (fn e a r).1.buf)
      → printed_size ≤ length args.buf
      → Late polls
      → HasEnded (busy_wait_until fn timeout start polls args retval)
  unfolding busy_wait_until
  busy_wait_until-HasEnded [] args retval k h l = absurd l
  busy_wait_until-HasEnded (poll ∷ polls) args retval k h (inl e) =
      after_try-HasEnded poll.now (busy_wait_until fn timeout start polls)
        (fn poll.attempt args retval) (k poll.attempt args retval h) (inl e)
  busy_wait_until-HasEnded (poll ∷ polls) args retval k h (inr l) =
      let r = fn poll.attempt args retval in
      let h' : printed_size ≤ length r.1.buf = k poll.attempt args retval h in
      after_try-HasEnded poll.now (busy_wait_until fn timeout start polls) r h'
        (inr (busy_wait_until-HasEnded polls r.1 r.2 k h' l))
