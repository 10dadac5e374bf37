-- ===== src/Examples/Limits.antt =====
-- The rate limiter at concrete times.
use kimi_proxy.Base.{
  is_some, true, ℕ, ◌≤◌, ◌≡◌, refl, true, false, List, [], ◌∷◌, length, arith, All,
}
use kimi_proxy.RateLimit
use kimi_proxy.RateLimit.{RateLimiter, Status}
use kimi_proxy.RateLimit.Window.{
  IsQueue, Acquired, acquire-Acquired, acquire_bounded, acquire_returns,
}
use kimi_proxy.RateLimit.Burst.{World, Reach, start, burst_reachable}

abbrev queue : List ℕ
queue = 10 ∷ 20 ∷ 90000000 ∷ []

queue-IsQueue : IsQueue 0 90000001 queue
queue-IsQueue = (omega arith, (omega arith, (omega arith, omega arith)))

abbrev limiter : List ℕ → RateLimiter
limiter requests = record {
  max_rpm = 40;
  warning_threshold = 35;
  critical_threshold = 38;
  requests = requests;
  total_throttled = 0;
}

abbrev status : Status
status = record { allowed = true; current_rpm = 1; throttled = false; wait_time = 0 }

acquire-Acquired_example :
    Acquired true 90000001 90000002 (limiter queue) (limiter (90000000 ∷ 90000002 ∷ [])) status
unfolding RateLimit.acquire
acquire-Acquired_example =
    acquire-Acquired true 90000001 90000002 (limiter queue) (limiter (90000000 ∷ 90000002 ∷ []))
      status queue-IsQueue refl

acquire_bounded_example : IsQueue 0 90000002 (90000000 ∷ 90000002 ∷ []) × (2 ≤ 38)
unfolding RateLimit.acquire
acquire_bounded_example =
    acquire_bounded true 90000001 90000002 (limiter queue) (limiter (90000000 ∷ 90000002 ∷ []))
      status (omega arith) queue-IsQueue (omega arith) refl

burst_reachable_example :
    (w : World) × Reach (start 40) w
    × (length w.limiter.requests ≡ 101)
    × All (λ t. t ≡ w.clock) w.limiter.requests
burst_reachable_example = burst_reachable 40 100 (omega arith)

acquire_returns_example : is_some (RateLimit.acquire true 90000001 90000002 (limiter queue)) ≡ true
acquire_returns_example = acquire_returns true 90000001 90000002 (limiter queue) (omega arith)
