-- ===== src/Controller/Retry/Backoff.antt =====
-- The backoff never overflows, and the retries end.
use unifi_reactor.Base.{
  ℕ, zero, suc, ◌≤◌, ◌<◌, Bool, true, Option, none, some, ◌≡◌, refl, arith, ltb, subst, ◌&&◌, ap,
  inl, inr, Bool-cases,
}
use unifi_reactor.Base.Int.{ℤ, pos, ltb_ℤ, sub_ℤ, same_ℤ, same_ℤ→eq, to_int32}
use unifi_reactor.Controller.Automation.{ExecutionStatus}
use unifi_reactor.Controller.Retry.{
  shl64, signed64, capped, retry_backoff, retry_backoff_base, retry_backoff_cap,
  record_apply_failure,
}

abbrev pub schedule : ℕ → ℤ
schedule zero = pos 2000000000
schedule (suc zero) = pos 4000000000
schedule (suc (suc zero)) = pos 8000000000
schedule (suc (suc (suc zero))) = pos 16000000000
schedule (suc (suc (suc (suc zero)))) = pos 32000000000
schedule (suc (suc (suc (suc (suc n))))) = retry_backoff_cap

shl64-zero : (n : ℕ) → 54 ≤ n → shl64 retry_backoff_base n ≡ 0
unfolding shl64
shl64-zero zero h = absurd (omega arith)
shl64-zero (suc n) h = elim (Bool-cases (ltb n 54)) [
  | inl small ↦
      let e : 53 ≡ n = ground (arith, small) in
      subst (λ k. shl64 retry_backoff_base (suc k) ≡ 0) e refl
  | inr large ↦ ground (arith, shl64-zero n (ground (arith, large)))
]

scheduled : ℕ → Bool
unfolding capped signed64 shl64 same_ℤ ltb_ℤ
scheduled n = same_ℤ (capped (signed64 (shl64 retry_backoff_base n))) (schedule n)

scheduled_below : ℕ → Bool
scheduled_below zero = true
scheduled_below (suc n) = scheduled n && scheduled_below n

scheduled_below-lt : (m n : ℕ) → scheduled_below m ≡ true → n < m → scheduled n ≡ true
unfolding scheduled_below
scheduled_below-lt zero n h l = absurd (omega arith)
scheduled_below-lt (suc m) n h l = elim (Bool-cases (ltb n m)) [
  | inl below ↦ scheduled_below-lt m n (ground arith) (ground (arith, below))
  | inr top ↦
      let e : m ≡ n = ground (arith, top) in subst (λ k. scheduled k ≡ true) e (ground arith)
]

table : scheduled_below 54 ≡ true
unfolding scheduled_below scheduled
table = refl

schedule_late : (n : ℕ) → 5 ≤ n → schedule n ≡ retry_backoff_cap
schedule_late zero h = absurd (omega arith)
schedule_late (suc zero) h = absurd (omega arith)
schedule_late (suc (suc zero)) h = absurd (omega arith)
schedule_late (suc (suc (suc zero))) h = absurd (omega arith)
schedule_late (suc (suc (suc (suc zero)))) h = absurd (omega arith)
schedule_late (suc (suc (suc (suc (suc n))))) h = refl

capped-schedule : (n : ℕ) → capped (signed64 (shl64 retry_backoff_base n)) ≡ schedule n
unfolding scheduled
capped-schedule n = elim (Bool-cases (ltb n 54)) [
  | inl small ↦ same_ℤ→eq _ (schedule n) (scheduled_below-lt 54 n table (ground (arith, small)))
  | inr large ↦
      rw (shl64-zero n (ground (arith, large)), schedule_late n (ground (arith, large))) refl
]

one_less : (n : ℕ) → suc n < 2147483648 → to_int32 (sub_ℤ (pos (suc n)) (pos 1)) ≡ pos n
unfolding to_int32 sub_ℤ
one_less n h = ground arith

-- The wait after the attempts 1 to 5 is 2, 4, 8, 16 and 32 seconds, and one minute after any later
-- one: the 64-bit shift wraps around for large counts, and the cap takes those cases in too.
pub retry_backoff-schedule :
    (n : ℕ) → suc n < 2147483648 → retry_backoff (pos (suc n)) ≡ some (schedule n)
unfolding retry_backoff
retry_backoff-schedule n h = rw (one_less n h) (ap some (capped-schedule n))

-- What the status holds after `n` failures in a row: before the first, nothing or an execution that
-- succeeded, and after each, the entry that `recordApplyFailure` writes.
abbrev pub FailedTimes : ℕ → Option ExecutionStatus → Type 0
FailedTimes zero none = Unit
FailedTimes zero (some last) = last.succeeded ≡ true
FailedTimes (suc n) none = ⊥
FailedTimes (suc n) (some last) =
    (before : Option ExecutionStatus) × (claiming : Bool) × FailedTimes n before
    × (last ≡ (record_apply_failure before claiming).0)
