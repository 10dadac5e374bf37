-- ===== src/RateLimit/Window.antt =====
-- The queue of the rate limiter: what it holds after each operation.
use kimi_proxy.Base.{
  ℕ, ◌+◌, ◌≤◌, ◌<◌, ◌≡◌, refl, sym, ap, subst, ltb→lt, Bool, true, false, not, some, List, [], ◌∷◌,
  ◌++◌, length, length-append, keep_if, ltb, leb, is_some, none, arith, Bool-cases, inl, inr,
}
use kimi_proxy.RateLimit
use kimi_proxy.RateLimit.{RateLimiter, Status, minute, acquire, resume, clean_old_requests}

-- oldest first, from `lo` on, and none after `now`
abbrev pub IsQueue : ℕ → ℕ → List ℕ → Type 0
IsQueue lo now [] = lo ≤ now
IsQueue lo now (t ∷ ts) = (lo ≤ t) × IsQueue t now ts

-- the requests of the last minute
abbrev pub recent : ℕ → List ℕ → List ℕ
recent now = keep_if (λ t. not (ltb (t + minute) now))

recent-all :
    (lo now now' : ℕ) (ts : List ℕ)
    → ltb (lo + minute) now ≡ false
    → IsQueue lo now' ts
    → recent now ts ≡ ts
recent-all lo now now' [] h q = refl
recent-all lo now now' (t ∷ ts) h q = ground (arith, recent-all t now now' ts)

-- In a queue that is in order the cleaning keeps exactly the requests of the last minute.
pub pop_old-eq-recent :
    (lo now now' : ℕ) (ts : List ℕ) → IsQueue lo now' ts → RateLimit.pop_old now ts ≡ recent now ts
unfolding RateLimit.pop_old
pop_old-eq-recent lo now now' [] q = refl
pop_old-eq-recent lo now now' (t ∷ ts) q =
    ground (arith, pop_old-eq-recent t now now' ts q.1, recent-all t now now' ts)

IsQueue-weaken : (lo lo' now : ℕ) (ts : List ℕ) → lo ≤ lo' → IsQueue lo' now ts → IsQueue lo now ts
IsQueue-weaken lo lo' now [] h q = omega arith
IsQueue-weaken lo lo' now (t ∷ ts) h q = (omega arith, q.1)

pop_old-IsQueue :
    (lo now now' : ℕ) (ts : List ℕ)
    → IsQueue lo now' ts
    → IsQueue lo now' (RateLimit.pop_old now ts)
unfolding RateLimit.pop_old
pop_old-IsQueue lo now now' [] q = q
pop_old-IsQueue lo now now' (t ∷ ts) q =
    ground (arith, pop_old-IsQueue lo now now' ts (IsQueue-weaken lo t now' ts q.0 q.1))

append-IsQueue :
    (lo now now' : ℕ) (ts : List ℕ)
    → now ≤ now'
    → IsQueue lo now ts
    → IsQueue lo now' (ts ++ now' ∷ [])
append-IsQueue lo now now' [] h q = omega arith
append-IsQueue lo now now' (t ∷ ts) h q = (q.0, append-IsQueue t now now' ts h q.1)

IsQueue-later :
    (lo now now' : ℕ) (ts : List ℕ) → now ≤ now' → IsQueue lo now ts → IsQueue lo now' ts
IsQueue-later lo now now' [] h q = omega arith
IsQueue-later lo now now' (t ∷ ts) h q = (q.0, IsQueue-later t now now' ts h q.1)

length-pop_old-le : (now : ℕ) (ts : List ℕ) → length (RateLimit.pop_old now ts) ≤ length ts
unfolding RateLimit.pop_old
length-pop_old-le now [] = omega arith
length-pop_old-le now (t ∷ ts) = ground (arith, length-pop_old-le now ts)

-- what `acquire` does to a queue, seen as the requests of the last minute
pub record Acquired (w : Bool) (now now' : ℕ) (l l' : RateLimiter) (s : Status) : Type 0 where
  pub counted : s.current_rpm ≡ length (recent now l.requests)
  pub granted :
      length (recent now l.requests) < l.critical_threshold
      → (s.allowed ≡ true)
        × (s.throttled ≡ false)
        × (l'.requests ≡ recent now l.requests ++ now' ∷ [])
  pub refused :
      l.critical_threshold ≤ length (recent now l.requests)
      → (s.allowed ≡ w) × (s.throttled ≡ w) × (l'.requests ≡ recent now l.requests)
  pub thresholds : (l'.critical_threshold ≡ l.critical_threshold) × (l'.max_rpm ≡ l.max_rpm)

module _ (w : Bool) (now now' : ℕ) (l l' : RateLimiter) (s : Status) where
  -- Where the queue is in order and `acquire` returns, the status counts the requests of the
  -- last minute. Below the critical threshold the request is recorded at once; from there on
  -- nothing is recorded, and the caller is told to wait or, if it does not want to wait, is
  -- refused.
  pub acquire-Acquired :
      IsQueue 0 now l.requests → acquire w now now' l ≡ some (l', s) → Acquired w now now' l l' s
  unfolding acquire RateLimit.clean_old_requests
  acquire-Acquired q e =
      let p = pop_old-eq-recent 0 now now l.requests q in
      record {
        counted = ground (arith, p);
        granted = λ h. ground (arith, p);
        refused = λ h. ground (arith, p);
        thresholds = ground (arith, p);
      }

  recent_bounded :
      IsQueue 0 now l.requests
      → length l.requests ≤ l.critical_threshold
      → IsQueue 0 now (recent now l.requests)
        × (length (recent now l.requests) ≤ l.critical_threshold)
  recent_bounded q b =
      let p = pop_old-eq-recent 0 now now l.requests q in
      (
        subst (IsQueue 0 now) p (pop_old-IsQueue 0 now now l.requests q),
        omega (arith, ap length p, length-pop_old-le now l.requests),
      )

  -- If the queue is in order and no longer than the critical threshold, it is so after
  -- `acquire` too, where that returns.
  pub acquire_bounded :
      now ≤ now'
      → IsQueue 0 now l.requests
      → length l.requests ≤ l.critical_threshold
      → acquire w now now' l ≡ some (l', s)
      → IsQueue 0 now' l'.requests × (length l'.requests ≤ l'.critical_threshold)
  acquire_bounded h q b e =
      let a = acquire-Acquired q e in
      let kept = recent now l.requests in
      let r = recent_bounded q b in
      elim (Bool-cases (ltb (length kept) l.critical_threshold)) [
        | inl p ↦
            let g = (a.granted (ground arith)).2 in
            (
              subst (IsQueue 0 now') (sym g) (append-IsQueue 0 now now' kept h r.0),
              omega (
                arith,
                ap length g,
                length-append kept (now' ∷ []),
                a.thresholds.0,
                ltb→lt _ _ p,
              ),
            )
        | inr p ↦
            let g = (a.refused (ground arith)).2 in
            (
              subst (IsQueue 0 now') (sym g) (IsQueue-later 0 now now' kept h r.0),
              omega (arith, ap length g, a.thresholds.0, r.1),
            )
      ]

throttle-is_some :
    (now : ℕ) (l : RateLimiter) (rpm : ℕ) (ts : List ℕ)
    → 0 < length ts
    → is_some (RateLimit.throttle now l rpm ts) ≡ true
unfolding RateLimit.throttle
throttle-is_some now l rpm [] h = absurd (omega arith)
throttle-is_some now l rpm (t ∷ ts) h = refl

-- With a critical threshold of at least 1, `acquire` returns a status and never raises.
pub acquire_returns :
    (w : Bool) (now now' : ℕ) (l : RateLimiter)
    → 0 < l.critical_threshold
    → is_some (acquire w now now' l) ≡ true
unfolding acquire RateLimit.clean_old_requests
acquire_returns w now now' l h =
    let ts = RateLimit.pop_old now l.requests in
    elim (Bool-cases (leb l.critical_threshold (length ts))) [
      | inl p ↦ elim (Bool-cases w) [
        | inl q ↦ rw (p, q) (throttle-is_some now' _ _ ts (ground arith))
        | inr q ↦ rw (p, q) refl
      ]
      | inr p ↦ rw p refl
    ]

-- Where the critical threshold is 0, as for a limit of one request per minute, `acquire` raises
-- if it is to wait while no request of the last minute is recorded.
pub acquire_raises :
    (now now' : ℕ) (l : RateLimiter)
    → l.critical_threshold ≡ 0
    → RateLimit.pop_old now l.requests ≡ []
    → acquire true now now' l ≡ none
unfolding acquire RateLimit.clean_old_requests RateLimit.throttle
acquire_raises now now' l h e = rw (h, e) refl
