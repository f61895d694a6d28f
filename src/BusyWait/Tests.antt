-- ===== src/BusyWait/Tests.antt =====
-- busywait.c on concrete waits.
use ghetto_subscriber_valida.Prelude.{
  ℕ, refl, List, [], ◌∷◌, Bool, false, inl, inr, replicate, arith,
}
use ghetto_subscriber_valida.Prelude.Int.{pos, ◌-ℤ◌}
use ghetto_subscriber_valida.Recv.{RecvArgs}
use ghetto_subscriber_valida.BusyWait.{Poll, timersub, timer_greater, busy_wait_until}
use ghetto_subscriber_valida.BusyWait.Clock.{time}
use ghetto_subscriber_valida.BusyWait.Ends.{HasEnded, busy_wait_until-HasEnded}

abbrev args : RecvArgs
args = record { sockfd = pos 3; buf = replicate 24 0; len = 4; flags = 64 }

-- A try that fails, and leaves a number as its result.
abbrev try_failing : ℕ → RecvArgs → ℕ → Bool × RecvArgs × ℕ
try_failing e a r = (false, a, e)

-- The second time is 1.2 s behind the start.
abbrev polls : List (Poll ℕ)
polls =
    record { attempt = 1; now = time 5 900000 } ∷ record { attempt = 2; now = time 6 200000 } ∷ []

busy_wait_until-HasEnded_example :
    HasEnded try_failing
      (time 1 0)
      (time 5 0)
      (busy_wait_until try_failing (time 1 0) (time 5 0) polls args 0)
unfolding timersub timer_greater ◌-ℤ◌
busy_wait_until-HasEnded_example =
    busy_wait_until-HasEnded try_failing (time 1 0) (time 5 0) polls args 0 (λ e a r h. h)
      (omega arith) (inr (inl refl))
