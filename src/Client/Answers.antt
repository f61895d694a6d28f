-- ===== src/Client/Answers.antt =====
-- What a wait of the client comes to.
use ghetto_subscriber_valida.Prelude.{
  ℕ, ◌-◌, ◌^◌, ◌≤◌, ◌≡◌, refl, List, ◌∷◌, true, false, Option, none, some, ok, length, take, drop,
  le→leb, arith, length-append, length-take, length-drop,
}
use Prim.Native.Nat.{min}
use ghetto_subscriber_valida.RawIterator.{copy_out}
use ghetto_subscriber_valida.Recv.{RecvArgs, Received, nothing, datagram, received_into, try_recv}
use ghetto_subscriber_valida.BusyWait.{
  Timeval, Poll, Wait, timed_out, succeeded, printed_size, timersub, timer_greater, after_try,
  busy_wait_until,
}

-- What a wait brings: the datagram of the first try that succeeds, unless a time that is late is read
-- before.
pub data Meets (timeout start : Timeval) : List (Poll Received) → Option (List ℕ) → Type 0 where
  arrives :
      (poll : Poll Received) (polls : List (Poll Received)) (d : List ℕ)
      → poll.attempt ≡ datagram d
      → Meets timeout start (poll ∷ polls) (some d)
  late :
      (poll : Poll Received) (polls : List (Poll Received))
      → poll.attempt ≡ nothing
      → timer_greater (timersub poll.now start) timeout ≡ true
      → Meets timeout start (poll ∷ polls) none
  retry :
      (poll : Poll Received) (polls : List (Poll Received)) (o : Option (List ℕ))
      → poll.attempt ≡ nothing
      → timer_greater (timersub poll.now start) timeout ≡ false
      → Meets timeout start polls o
      → Meets timeout start (poll ∷ polls) o

abbrev pub wait_of : RecvArgs → Option (List ℕ) → Wait
wait_of args none = timed_out args (2 ^ 64 - 1)
wait_of args (some d) =
    succeeded (record args { buf = received_into args.buf args.len d }) (min (length d) args.len)

pub length-received_into :
    (buf d : List ℕ) (len : ℕ) → len ≤ length buf → length (received_into buf len d) ≡ length buf
length-received_into buf d len h = omega (
  arith,
  length-append (take len d) (drop (min (length d) len) buf),
  length-take len d,
  length-drop (min (length d) len) buf,
)

-- A wait leaves the buffer as it was, or with the datagram in it, and no access leaves the buffer.
pub busy_wait_until-Meets :
    (timeout start : Timeval) (polls : List (Poll Received)) (o : Option (List ℕ)) (args : RecvArgs)
    (retval : ℕ)
    → args.len ≤ length args.buf
    → printed_size ≤ length args.buf
    → Meets timeout start polls o
    → busy_wait_until try_recv timeout start polls args retval ≡ ok (wait_of args o)
unfolding busy_wait_until after_try try_recv copy_out
busy_wait_until-Meets timeout start _ _ args retval h p (arrives poll polls d e) =
    rw
      (
        e,
        le→leb printed_size (length (received_into args.buf args.len d))
            (omega (arith, length-received_into args.buf d args.len h)),
      )
      refl
busy_wait_until-Meets timeout start _ _ args retval h p (late poll polls e l) = rw (e, l) refl
busy_wait_until-Meets timeout start _ _ args retval h p (retry poll polls o e l m) =
    rw (e, l) (busy_wait_until-Meets timeout start polls o args (2 ^ 64 - 1) h p m)
