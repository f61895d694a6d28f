-- ===== src/BusyWait/Clock.antt =====
-- The time that a wait takes, in microseconds.
use ghetto_subscriber_valida.Prelude.{ℕ, ◌+◌, ◌*◌, ◌<◌, ◌≡◌, ◌↔◌, true, arith}
use ghetto_subscriber_valida.Prelude.Int.{pos, ◌-ℤ◌, -ℤ_parts}
use ghetto_subscriber_valida.BusyWait.{Timeval, timersub, timer_greater}

abbrev pub time : ℕ → ℕ → Timeval
time sec usec = record { tv_sec = pos sec; tv_usec = usec }

-- Between times since the epoch the test of `busy_wait_until` is exact: it holds if and only if more
-- microseconds than those of the timeout lie between the start and now, also if the clock has been set
-- back.
pub timer_greater-timersub :
    (s₁ u₁ s₂ u₂ ts tu : ℕ)
    → u₁ < 1000000
    → u₂ < 1000000
    → tu < 1000000
    → (timer_greater (timersub (time s₂ u₂) (time s₁ u₁)) (time ts tu) ≡ true)
      ↔ (1000000 * s₁ + u₁ + (1000000 * ts + tu) < 1000000 * s₂ + u₂)
unfolding timersub timer_greater
timer_greater-timersub s₁ u₁ s₂ u₂ ts tu h₁ h₂ h₃ =
    ground (arith, -ℤ_parts (pos s₂) (pos s₁), -ℤ_parts (pos s₂ -ℤ pos s₁) (pos 1))
