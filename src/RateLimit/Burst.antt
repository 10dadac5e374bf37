-- ===== src/RateLimit/Burst.antt =====
-- Callers that wait are not counted again when they wake (`throttle_if_needed`), so the promise of
-- `max_rpm` requests per minute is broken by concurrent callers.
use native.Mathlib.Nat.{le_refl, add-zero}
use kimi_proxy.Base.{
  ℕ, zero, suc, ◌+◌, ◌-◌, ◌*◌, ◌/◌, ◌≤◌, ◌<◌, ◌≡◌, refl, ap, subst, ◌∙◌, true, false, some, List,
  [], ◌∷◌, ◌++◌, length, arith, All,
}
use kimi_proxy.RateLimit
use kimi_proxy.RateLimit.{RateLimiter, Status, minute, margin, init, acquire, resume}

-- the limiter, the clock, and the callers of `throttle_if_needed` that sleep: when each wakes
pub record World : Type 0 where
  pub limiter : RateLimiter
  pub clock : ℕ
  pub sleepers : List ℕ

-- A caller that enters is let through, or goes to sleep for its wait. One whose time has come wakes
-- and is let through. Time passes.
pub data Step (w : World) : World → Type 0 where
  pass :
      (l : RateLimiter) (s : Status)
      → acquire true w.clock w.clock w.limiter ≡ some (l, s)
      → s.throttled ≡ false
      → Step w (record w { limiter = l })
  sleep :
      (l : RateLimiter) (s : Status)
      → acquire true w.clock w.clock w.limiter ≡ some (l, s)
      → s.throttled ≡ true
      → Step w (record w { limiter = l; sleepers = (w.clock + s.wait_time) ∷ w.sleepers })
  wake :
      (t : ℕ) (ts : List ℕ) (s : Status)
      → w.sleepers ≡ t ∷ ts
      → t ≤ w.clock
      → Step w (record w { limiter = (resume w.clock w.clock w.limiter s).0; sleepers = ts })
  tick : (d : ℕ) → Step w (record w { clock = w.clock + d })

pub data Reach (w : World) : World → Type 0 where
  here : Reach w w
  next : {u v : World} → Reach w u → Step u v → Reach w v

pub start : ℕ → World
start max_rpm = record { limiter = init max_rpm; clock = 0; sleepers = [] }

abbrev at_time : ℕ → ℕ → List ℕ
at_time t zero = []
at_time t (suc n) = t ∷ at_time t n

-- every caller that is asleep wakes at the same time
abbrev woken : ℕ
woken = minute + margin

abbrev world : ℕ → List ℕ → ℕ → ℕ → List ℕ → World
world m rs n clock sleepers = record {
  limiter = record {
    max_rpm = m;
    warning_threshold = m * 875 / 1000;
    critical_threshold = m * 95 / 100;
    requests = rs;
    total_throttled = n;
  };
  clock = clock;
  sleepers = sleepers;
}

at_time-append : (t n : ℕ) → at_time t n ++ t ∷ [] ≡ at_time t (suc n)
at_time-append t zero = refl
at_time-append t (suc n) = ap (◌∷◌ t) (at_time-append t n)

length-at_time : (t n : ℕ) → length (at_time t n) ≡ n
length-at_time t zero = refl
length-at_time t (suc n) = ap suc (length-at_time t n)

All-at_time : (t n : ℕ) → All (λ u. u ≡ t) (at_time t n)
All-at_time t zero = tt
All-at_time t (suc n) = (refl, All-at_time t n)

-- what has just been recorded is not removed, and what is older than a minute is
pop_old-at_time : (t n : ℕ) → RateLimit.pop_old t (at_time t n) ≡ at_time t n
unfolding RateLimit.pop_old
pop_old-at_time t zero = refl
pop_old-at_time t (suc n) = ground arith

pop_old-woken : (n : ℕ) → RateLimit.pop_old woken (at_time 0 n) ≡ []
unfolding RateLimit.pop_old
pop_old-woken zero = refl
pop_old-woken (suc n) = pop_old-woken n

abbrev asleep : ℕ → Status
asleep c = record (RateLimit.fresh c) { wait_time = woken; throttled = true }

module _ (m : ℕ) where
  acquire-pass :
      (k : ℕ)
      → suc k ≤ m * 95 / 100
      → acquire true 0 0 (world m (at_time 0 k) 0 0 []).limiter
        ≡ some ((world m (at_time 0 (suc k)) 0 0 []).limiter, RateLimit.fresh k)
  unfolding acquire
  acquire-pass k h = ground (arith, pop_old-at_time 0 k, at_time-append 0 k, length-at_time 0 k)

  fill-queue : (k : ℕ) → k ≤ m * 95 / 100 → Reach (start m) (world m (at_time 0 k) 0 0 [])
  unfolding start init
  fill-queue zero h = here
  fill-queue (suc k) h = next (fill-queue k (omega arith)) (pass _ _ (acquire-pass k h) refl)

  acquire-sleep :
      (c n : ℕ)
      → suc c ≡ m * 95 / 100
      → acquire true 0 0 (world m (at_time 0 (suc c)) n 0 []).limiter
        ≡ some ((world m (at_time 0 (suc c)) (n + 1) 0 []).limiter, asleep (suc c))
  unfolding acquire
  acquire-sleep c n h = ground (arith, pop_old-at_time 0 (suc c), length-at_time 0 c)

  sleep-all :
      (c n : ℕ)
      → suc c ≡ m * 95 / 100
      → (t : ℕ) × Reach (start m) (world m (at_time 0 (suc c)) t 0 (at_time woken n))
  sleep-all c zero h = (0, fill-queue (suc c) (omega arith))
  sleep-all c (suc n) h =
      let (t, r) = sleep-all c n h in (t + 1, next r (sleep _ _ (acquire-sleep c t h) refl))

  wake-one :
      (j t : ℕ) (rs ts : List ℕ) (w : World)
      → RateLimit.pop_old woken rs ≡ at_time woken j
      → Reach w (world m rs t woken (woken ∷ ts))
      → Reach w (world m (at_time woken (suc j)) t woken ts)
  unfolding resume
  wake-one j t rs ts w e r =
      subst (λ qs. Reach w (world m qs t woken ts))
        (ap (λ qs. qs ++ woken ∷ []) e ∙ at_time-append woken j)
        (next r (wake woken ts (RateLimit.fresh 0) refl (le_refl woken)))

  wake-all :
      (n j t : ℕ) (w : World)
      → Reach w (world m (at_time woken j) t woken (at_time woken n))
      → Reach w (world m (at_time woken (j + n)) t woken [])
  wake-all zero j t w r = rw add-zero r
  wake-all (suc n) j t w r =
      let e : j + suc n ≡ suc j + n = omega arith in
      rw e (
        wake-all n (suc j) t w
          (wake-one j t (at_time woken j) (at_time woken n) w (pop_old-at_time woken j) r))

  -- For every number of callers there is a run in which more requests than that go through at
  -- one moment, whatever the limit per minute, if its critical threshold is at least 1: callers
  -- that enter while the limiter is at the threshold all sleep for the same wait, and wake
  -- without being counted again.
  pub burst_reachable :
      (n : ℕ)
      → 0 < m * 95 / 100
      → (w : World) × Reach (start m) w
        × (length w.limiter.requests ≡ suc n)
        × All (λ t. t ≡ w.clock) w.limiter.requests
  burst_reachable n h =
      let c = m * 95 / 100 - 1 in
      let (t, r) = sleep-all c (suc n) (omega arith) in
      let first =
        wake-one 0 t (at_time 0 (suc c)) (at_time woken n) (start m) (pop_old-woken (suc c))
          (next r (tick woken)) in
      let last = wake-all n 1 t (start m) first in
      let e : 1 + n ≡ suc n = omega arith in
      (
        world m (at_time woken (1 + n)) t woken [],
        last,
        length-at_time woken (1 + n) ∙ e,
        All-at_time woken (1 + n),
      )
