-- ===== src/AcceptBackoff.antt =====
-- resolvd/src/accept_backoff.rs. An Instant is a count of nanoseconds, a descriptor an integer.
use resolvd.Prelude.{ℕ, ◌+◌, ◌≡◌, Option, none, some, ltb, if◌then◌else◌, ℤ, negsuc, arith, refl}

abbrev pub retry_delay : ℕ
retry_delay = 250_000_000

pub record AcceptBackoff : Type 0 where
  pub until : Option ℕ

-- `Default`
abbrev pub default_backoff : AcceptBackoff
default_backoff = record { until = none }

-- `failed` replaces the whole state.
unfoldable pub failed : ℕ → AcceptBackoff → AcceptBackoff
failed now b = record b { until = some (now + retry_delay) }

unfoldable pub deadline : ℕ → AcceptBackoff → Option ℕ
deadline now b = elim b.until [ none ↦ none | some t ↦ if ltb now t then some t else none ]

unfoldable pub poll_fd : ℤ → ℕ → AcceptBackoff → ℤ
unfolding deadline
poll_fd fd now b = elim (deadline now b) [ none ↦ fd | some t ↦ negsuc 0 ]

-- After an accept that failed, the listener is left out of `poll` for 250 ms, and the loop has a
-- deadline for just that time, after which the listener is polled again.
pub poll_fd-failed :
    (fd : ℤ) (start now : ℕ) (b : AcceptBackoff)
    → (poll_fd fd now (failed start b) ≡ (if ltb now (start + retry_delay) then negsuc 0 else fd))
      × (deadline now (failed start b)
          ≡ (if ltb now (start + retry_delay) then some (start + retry_delay) else none))
unfolding poll_fd deadline failed
poll_fd-failed fd start now b = (ground arith, refl)
