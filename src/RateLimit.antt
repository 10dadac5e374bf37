-- ===== src/RateLimit.antt =====
-- The rate limiter (src/kimi_proxy/services/rate_limiter.py). A time is a number of microseconds;
-- an operation takes, for each of its calls of `time.time()`, the time that the call returns.
-- The percentage, which is only reported, is left out: its division raises for a max_rpm of 0, where a
-- limiter that is made with it raises in any case. `max_rpm * 0.95` and `max_rpm * 0.875` are rounded down, as `int` does.
pub mod Window
pub mod Burst
use kimi_proxy.Base.{
  ℕ, zero, suc, ◌+◌, ◌-◌, ◌*◌, ◌/◌, max, Bool, true, false, Option, none, some, List, [], ◌∷◌, ◌++◌,
  length, leb, ltb, if◌then◌else◌,
}

abbrev pub second : ℕ
second = 1000000

abbrev pub minute : ℕ
minute = 60 * second

-- 0.1 seconds
abbrev pub margin : ℕ
margin = 100000

pub record RateLimiter : Type 0 where
  pub max_rpm : ℕ
  pub warning_threshold : ℕ
  pub critical_threshold : ℕ
  pub requests : List ℕ
  pub total_throttled : ℕ

unfoldable pub init : ℕ → RateLimiter
init max_rpm = record {
  max_rpm = max_rpm;
  warning_threshold = max_rpm * 875 / 1000;
  critical_threshold = max_rpm * 95 / 100;
  requests = [];
  total_throttled = 0;
}

-- `while self.requests and self.requests[0] < cutoff: self.requests.popleft()`
unfoldable pub pop_old : ℕ → List ℕ → List ℕ
pop_old now [] = []
pop_old now (t ∷ ts) = let rest = pop_old now ts in if ltb (t + minute) now then rest else t ∷ ts

unfoldable pub clean_old_requests : ℕ → RateLimiter → RateLimiter
unfolding pop_old
clean_old_requests now l = record l { requests = pop_old now l.requests }

unfoldable pub get_current_rpm : ℕ → RateLimiter → RateLimiter × ℕ
unfolding clean_old_requests
get_current_rpm now l = let l' = clean_old_requests now l in (l', length l'.requests)

-- the dict that `acquire` returns, without the percentage, which is `current_rpm / max_rpm`
pub record Status : Type 0 where
  pub allowed : Bool
  pub current_rpm : ℕ
  pub throttled : Bool
  pub wait_time : ℕ

abbrev pub fresh : ℕ → Status
fresh rpm = record { allowed = true; current_rpm = rpm; throttled = false; wait_time = 0 }

-- `max(0.1, 60 - (now - oldest) + 0.1)`
unfoldable pub wait_for : ℕ → ℕ → ℕ
wait_for now oldest = max margin (oldest + minute + margin - now)

-- the oldest request is read before anything is written, and an empty queue raises
throttle : ℕ → RateLimiter → ℕ → List ℕ → Option (RateLimiter × Status)
throttle now l rpm [] = none
throttle now l rpm (oldest ∷ _) = some (
  record l { total_throttled = l.total_throttled + 1 },
  record (fresh rpm) { wait_time = wait_for now oldest; throttled = true },
)

append_request : ℕ → RateLimiter → RateLimiter
append_request now l = record l { requests = l.requests ++ now ∷ [] }

-- `acquire(wait_if_needed)`: `now` is read by the cleaning, and `now'` for the wait or the append
unfoldable pub acquire : Bool → ℕ → ℕ → RateLimiter → Option (RateLimiter × Status)
unfolding clean_old_requests throttle append_request wait_for
acquire wait_if_needed now now' l =
    let l' = clean_old_requests now l in
    let rpm = length l'.requests in
    if leb l'.critical_threshold rpm
    then if wait_if_needed
      then throttle now' l' rpm l'.requests
      else some (l', record (fresh rpm) { allowed = false })
    else some (append_request now' l', fresh rpm)

-- the second half of `throttle_if_needed`, after the sleep
unfoldable pub resume : ℕ → ℕ → RateLimiter → Status → RateLimiter × Status
unfolding clean_old_requests append_request
resume now now' l status =
    let l' = append_request now' (clean_old_requests now l) in
    (l', record status { current_rpm = length l'.requests; throttled = false })

pub data Alert : Type 0 where
  critical warning : ℕ → ℕ → Alert

-- `check_alert`, with the numbers that the message shows; the two cleanings are at `now` and `now'`
unfoldable pub check_alert : ℕ → ℕ → RateLimiter → RateLimiter × Option Alert
unfolding get_current_rpm
check_alert now now' l =
    let (l1, rpm) = get_current_rpm now l in
    let (l2, _) = get_current_rpm now' l1 in
    if leb l2.critical_threshold rpm
    then (l2, some (critical rpm l2.max_rpm))
    else if leb l2.warning_threshold rpm
    then (l2, some (warning rpm l2.max_rpm))
    else (l2, none)
