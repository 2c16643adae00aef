-- ===== src/Controller/Retry.antt =====
-- internal/controller/automation_controller.go: how a failed reconcile is counted and when it is
-- tried again. Durations are nanoseconds in an int64, counts are int32.
pub mod Backoff
use unifi_reactor.Base.{
  ℕ, zero, suc, ◌+◌, ◌-◌, ◌*◌, ◌%◌, Bool, true, false, not, ◌||◌, Option, none, some, if◌then◌else◌,
  ltb,
}
use unifi_reactor.Base.Int.{ℤ, pos, negsuc, ltb_ℤ, add_ℤ, sub_ℤ, to_int32}
use unifi_reactor.Controller.Automation.{ExecutionStatus}

abbrev pub reevaluate_interval : ℤ
reevaluate_interval = pos 15000000000

abbrev pub max_action_attempts : ℤ
max_action_attempts = pos 5

abbrev pub retry_backoff_base : ℕ
retry_backoff_base = 2000000000

abbrev pub retry_backoff_cap : ℤ
retry_backoff_cap = pos 60000000000

-- `attemptsAfter`
unfoldable pub attempts_after : Option ExecutionStatus → ℤ
attempts_after none = pos 1
attempts_after (some last) =
    if last.succeeded then pos 1 else to_int32 (add_ℤ last.attempts (pos 1))

-- A shift of a 64-bit pattern to the left: as Go defines it, `n` shifts by one.
unfoldable pub shl64 : ℕ → ℕ → ℕ
shl64 x zero = x
shl64 x (suc n) = (shl64 x n * 2) % 18446744073709551616

-- The signed number that a 64-bit pattern stands for.
unfoldable pub signed64 : ℕ → ℤ
signed64 x = if ltb x 9223372036854775808 then pos x else negsuc (18446744073709551615 - x)

capped : ℤ → ℤ
capped backoff =
    if ltb_ℤ retry_backoff_cap backoff || not (ltb_ℤ (pos 0) backoff)
    then retry_backoff_cap
    else backoff

shifted : ℤ → Option ℤ
unfolding capped
shifted (pos n) = some (capped (signed64 (shl64 retry_backoff_base n)))
shifted (negsuc n) = none

-- `retryBackoff`: `none` is the panic of a shift by a negative count.
unfoldable pub retry_backoff : ℤ → Option ℤ
unfolding shifted
retry_backoff attempts = shifted (to_int32 (sub_ℤ attempts (pos 1)))

-- `recordApplyFailure`: the status entry that it writes, and when the Automation is queued again if
-- the status is written.
unfoldable pub record_apply_failure : Option ExecutionStatus → Bool → ExecutionStatus × Option ℤ
record_apply_failure last claiming =
    let attempts = attempts_after last in
    (
      record { succeeded = false; on_exit = not claiming; attempts = attempts },
      if not (ltb_ℤ attempts max_action_attempts)
          then some reevaluate_interval
          else retry_backoff attempts,
    )
