-- ===== src/BusyWait.antt =====
-- busywait.c: a loop that tries until it succeeds or a time has gone by.
mod Tests
pub mod Clock
pub mod Ends
use ghetto_subscriber_valida.Prelude.{
  ℕ, ◌+◌, ◌-◌, List, [], ◌∷◌, Bool, true, false, ltb, if◌then◌else◌, Option, none, some, Outcome,
  ok, ◌>>=◌,
}
use ghetto_subscriber_valida.Prelude.Int.{ℤ, pos, ◌-ℤ◌, ltb_ℤ, eqb_ℤ}
use ghetto_subscriber_valida.RawIterator.{copy_out}
use ghetto_subscriber_valida.Recv.{RecvArgs}

-- A `struct timeval`, its microseconds below 10 ^ 6.
pub record Timeval : Type 0 where
  pub tv_sec : ℤ
  pub tv_usec : ℕ

-- `timersub` and `timercmp (a, b, >)` of <sys/time.h>.
unfoldable pub timersub : Timeval → Timeval → Timeval
timersub a b =
    if ltb a.tv_usec b.tv_usec
    then record {
      tv_sec = a.tv_sec -ℤ b.tv_sec -ℤ pos 1;
      tv_usec = a.tv_usec + 1000000 - b.tv_usec;
    }
    else record { tv_sec = a.tv_sec -ℤ b.tv_sec; tv_usec = a.tv_usec - b.tv_usec }

unfoldable pub timer_greater : Timeval → Timeval → Bool
timer_greater a b =
    if eqb_ℤ a.tv_sec b.tv_sec then ltb b.tv_usec a.tv_usec else ltb_ℤ b.tv_sec a.tv_sec

-- A `try_fn`, over what its environment does: whether it succeeded, and its argument and result objects.
abbrev pub TryFn : Type 0 → Type 0
TryFn E = E → RecvArgs → ℕ → Bool × RecvArgs × ℕ

-- What a try meets, and the time that is read if it fails.
pub record Poll (E : Type 0) : Type 0 where
  pub attempt : E
  pub now : Timeval

-- What has come of a wait: it goes on, it is over for want of time, or a try has succeeded.
pub data Wait : Type 0 where
  going_on : RecvArgs → ℕ → Wait
  timed_out : RecvArgs → ℕ → Wait
  succeeded : RecvArgs → ℕ → Wait

-- The five words of the buffer that are printed after a success.
abbrev pub printed_size : ℕ
printed_size = 20

module _ {E : Type 0} (fn : TryFn E) (timeout start : Timeval) where
  -- The end of a round of the loop, behind the call of `fn`; `more` is the rounds that follow.
  unfoldable pub after_try :
      Timeval → (RecvArgs → ℕ → Outcome Wait) → Bool × RecvArgs × ℕ → Outcome Wait
  after_try now more (true, args, retval) = do
    printed ← copy_out args.buf 0 printed_size
    ok (succeeded args retval)
  after_try now more (false, args, retval) =
      if timer_greater (timersub now start) timeout
      then ok (timed_out args retval)
      else more args retval

  -- `busy_wait_until` over the tries that come. It is false only at `timed_out`.
  unfoldable pub busy_wait_until : List (Poll E) → RecvArgs → ℕ → Outcome Wait
  unfolding after_try
  busy_wait_until [] args retval = ok (going_on args retval)
  busy_wait_until (poll ∷ polls) args retval =
      after_try poll.now (busy_wait_until polls) (fn poll.attempt args retval)
