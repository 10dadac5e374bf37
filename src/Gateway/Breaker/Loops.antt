-- ===== src/Gateway/Breaker/Loops.antt =====
-- What the breaker does of a loop of calls, and how much it remembers.
use kimi_proxy.Base.{
  ℕ, zero, suc, ◌+◌, ◌≤◌, ◌<◌, ◌≡◌, refl, sym, ap, ◌∙◌, inl, inr, pos, leb_ℤ, ltb, true, false,
  String, List, [], ◌∷◌, ◌++◌, length, length-append, elem, add, union, arith, Bool-cases, eq_refl,
  ◌=ₛ◌,
}
use mathlib.Core.List.{append_assoc, append-nil}
use kimi_proxy.Json.{Fields}
use kimi_proxy.Gateway.Breaker
use kimi_proxy.Gateway.Breaker.{
  Ratios, CircuitBreaker, intersection, last_ten, empty, tokenize, jaccard, similar_count,
  check_call,
}

-- the history has at most ten entries
abbrev pub IsShort : CircuitBreaker → Type 0
IsShort b = length b.call_history ≤ 10

length-last_ten : (h : List (List String)) → length h ≤ 11 → length (last_ten h) ≤ 10
unfolding last_ten
length-last_ten [] le = omega arith
length-last_ten (t ∷ h) le = ground arith

-- Sets: a set meets and joins itself.
intersection-within :
    (s t : List String) → ((k : String) → elem k s ≡ true → elem k t ≡ true) → intersection s t ≡ s
unfolding intersection elem
intersection-within [] t h = refl
intersection-within (k ∷ s) t h =
    rw (h k (rw (eq_refl k) refl), intersection-within s t (λ j e. h j (ground (arith, k =ₛ j))))
      refl

union-within :
    (s t : List String) → ((k : String) → elem k t ≡ true → elem k s ≡ true) → union s t ≡ s
unfolding union add elem
union-within s [] h = refl
union-within s (k ∷ t) h =
    rw (h k (rw (eq_refl k) refl)) (union-within s t (λ j e. h j (ground (arith, k =ₛ j))))

abbrev copies : ℕ → List String → List (List String)
copies zero t = []
copies (suc n) t = t ∷ copies n t

copies-snoc : (n : ℕ) (t : List String) → copies n t ++ t ∷ [] ≡ copies (suc n) t
copies-snoc zero t = refl
copies-snoc (suc n) t = ap (◌∷◌ t) (copies-snoc n t)

length-copies : (n : ℕ) (t : List String) → length (copies n t) ≡ n
length-copies zero t = omega arith
length-copies (suc n) t = omega (arith, length-copies n t)

-- a history that ends with `n` copies of the set
abbrev EndsWith : ℕ → List String → List (List String) → Type 0
EndsWith n t h = (p : List (List String)) × (h ≡ p ++ copies n t)

last_ten_short : (h : List (List String)) → length h ≤ 10 → last_ten h ≡ h
unfolding last_ten
last_ten_short [] le = refl
last_ten_short (t ∷ h) le = ground arith

append-copies-snoc :
    (n : ℕ) (t : List String) (p : List (List String))
    → (p ++ copies n t) ++ t ∷ [] ≡ p ++ copies (suc n) t
append-copies-snoc n t p = append_assoc p (copies n t) (t ∷ []) ∙ ap (λ r. p ++ r) (copies-snoc n t)

last_ten-snoc :
    (n : ℕ) (t : List String) (p : List (List String))
    → n < 10
    → EndsWith (suc n) t (last_ten ((p ++ copies n t) ++ t ∷ []))
unfolding last_ten
last_ten-snoc n t [] lt = (
  [],
  ap last_ten (copies-snoc n t)
      ∙ last_ten_short (copies (suc n) t) (omega (arith, length-copies n t)),
)
last_ten-snoc n t (x ∷ p) lt =
    elim (Bool-cases (ltb 10 (length ((x ∷ p ++ copies n t) ++ t ∷ [])))) [
      | inl q ↦ (p, rw q (append-copies-snoc n t p))
      | inr q ↦ (x ∷ p, rw q (append-copies-snoc n t (x ∷ p)))
    ]

last_ten-EndsWith :
    (n : ℕ) (t : List String) (h : List (List String))
    → n < 10
    → EndsWith n t h
    → EndsWith (suc n) t (last_ten (h ++ t ∷ []))
last_ten-EndsWith n t h lt (p, e) = rw e (last_ten-snoc n t p lt)

empty-length : (s : List String) → empty s ≡ false → 0 < length s
empty-length [] h = cc
empty-length (k ∷ s) h = omega arith

module _ (R : Ratios) (words : Fields → List String) where
  pub check_call-IsShort :
      (b : CircuitBreaker) (params : Fields) → IsShort b → IsShort (check_call R words b params).0
  unfolding check_call Breaker.check_tokens
  check_call-IsShort b params h = ground (
    arith,
    length-last_ten (b.call_history ++ tokenize R words params ∷ []),
    length-append b.call_history (tokenize R words params ∷ []),
  )

  similar_count-le-length :
      (threshold : ℕ) (t : List String) (h : List (List String))
      → similar_count R words threshold t h ≤ length h
  unfolding similar_count
  similar_count-le-length threshold t [] = omega arith
  similar_count-le-length threshold t (u ∷ h) =
      ground (arith, similar_count-le-length threshold t h)

  similar_count-append :
      (threshold : ℕ) (t : List String) (h k : List (List String))
      → similar_count R words threshold t (h ++ k)
        ≡ similar_count R words threshold t h + similar_count R words threshold t k
  unfolding similar_count
  similar_count-append threshold t [] k = omega arith
  similar_count-append threshold t (u ∷ h) k = ground (arith, similar_count-append threshold t h k)

  -- With a limit above ten, no call is refused.
  check_call_never_refuses :
      (b : CircuitBreaker) (params : Fields)
      → IsShort b
      → leb_ℤ b.max_failures (pos 10) ≡ false
      → (check_call R words b params).1 ≡ false
  unfolding check_call Breaker.check_tokens
  check_call_never_refuses b params h big = ground (
    arith,
    similar_count-le-length b.similarity_threshold (tokenize R words params) b.call_history,
  )

  -- the breaker after `n` calls with the same parameters
  abbrev pub after_calls : Fields → ℕ → CircuitBreaker → CircuitBreaker
  after_calls params zero b = b
  after_calls params (suc n) b = (check_call R words (after_calls params n b) params).0

  module _ (params : Fields) (b : CircuitBreaker) (on : b.enabled ≡ true)
      (some_words : empty (tokenize R words params) ≡ false) where
    abbrev t : List String
    t = tokenize R words params

    jaccard_self : jaccard R words t t ≡ R.quotient (length t) (length t)
    unfolding jaccard
    jaccard_self =
        rw (intersection-within t t (λ k e. e), union-within t t (λ k e. e))
          (ground (arith, empty-length t some_words))

    after_calls_keeps :
        (n : ℕ)
        → let c = after_calls params n b in
          (c.enabled ≡ true)
          × (c.max_failures ≡ b.max_failures)
          × (c.similarity_threshold ≡ b.similarity_threshold)
    unfolding check_call Breaker.check_tokens
    after_calls_keeps zero = (on, refl, refl)
    after_calls_keeps (suc n) = ground (arith, after_calls_keeps n)

    check_call_history :
        (c : CircuitBreaker)
        → c.enabled ≡ true
        → (check_call R words c params).0.call_history ≡ last_ten (c.call_history ++ t ∷ [])
    unfolding check_call Breaker.check_tokens
    check_call_history c h = ground arith

    check_call_answer :
        (c : CircuitBreaker)
        → c.enabled ≡ true
        → (check_call R words c params).1
          ≡ leb_ℤ c.max_failures
              (pos (similar_count R words c.similarity_threshold t c.call_history))
    unfolding check_call Breaker.check_tokens
    check_call_answer c h = ground arith

    after_calls-EndsWith : (n : ℕ) → n ≤ 10 → EndsWith n t (after_calls params n b).call_history
    after_calls-EndsWith zero le = (b.call_history, sym (append-nil b.call_history))
    after_calls-EndsWith (suc n) le =
        rw (check_call_history (after_calls params n b) (after_calls_keeps n).0) (
          last_ten-EndsWith n t (after_calls params n b).call_history (omega arith)
            (after_calls-EndsWith n (omega arith)))

    module _
        (alike : R.at_least (R.quotient (length t) (length t)) b.similarity_threshold ≡ true) where
      similar_count-copies :
          (n : ℕ) → similar_count R words b.similarity_threshold t (copies n t) ≡ n
      unfolding similar_count
      similar_count-copies zero = refl
      similar_count-copies (suc n) =
          rw (some_words, jaccard_self, alike, similar_count-copies n) refl

      -- A loop of calls with the same parameters is refused as soon as the limit of similar calls is
      -- reached, whatever the breaker has seen before, if that limit is at most ten, the parameters
      -- have a word, and equal sets of words are similar enough.
      pub check_call_refuses :
          (n : ℕ)
          → n ≤ 10
          → leb_ℤ b.max_failures (pos n) ≡ true
          → (check_call R words (after_calls params n b) params).1 ≡ true
      check_call_refuses n le reached =
          let (p, e) = after_calls-EndsWith n le in
          let (on_still, m, threshold) = after_calls_keeps n in
          let counted = similar_count-append b.similarity_threshold t p (copies n t) in
          rw
            (
              check_call_answer (after_calls params n b) on_still,
              m,
              threshold,
              e,
              counted,
              similar_count-copies n,
            )
            (ground arith)
