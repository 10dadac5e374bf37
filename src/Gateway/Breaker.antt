-- ===== src/Gateway/Breaker.antt =====
-- `MCPCircuitBreaker` (features/mcp/detector.py): calls that are too similar to the last ones are
-- refused. The words of the sorted JSON of the parameters, `re.findall(r"\w+", …)`, and the
-- arithmetic of floats are parameters.
pub mod Loops
use kimi_proxy.Base.{
  ℕ, zero, suc, ◌+◌, ℤ, pos, leb_ℤ, ltb, String, Bool, true, false, not, List, [], ◌∷◌, ◌++◌,
  length, elem, union, if◌then◌else◌,
}
use kimi_proxy.Json.{Fields}

-- `n / m` and `x >= y` of floats, by their bits
pub record Ratios : Type 0 where
  pub quotient : ℕ → ℕ → ℕ
  pub at_least : ℕ → ℕ → Bool

pub record CircuitBreaker : Type 0 where
  pub max_failures : ℤ
  pub similarity_threshold : ℕ
  pub enabled : Bool
  pub call_history : List (List String)

-- `MCPCircuitBreaker(max_failures=…, similarity_threshold=…, enabled=…)`
unfoldable pub init : ℤ → ℕ → Bool → CircuitBreaker
init max_failures similarity_threshold enabled = record {
  max_failures = max_failures;
  similarity_threshold = similarity_threshold;
  enabled = enabled;
  call_history = [];
}

-- `a.intersection(b)`
unfoldable pub intersection : List String → List String → List String
intersection [] b = []
intersection (k ∷ a) b = let rest = intersection a b in if elem k b then k ∷ rest else rest

-- `pop(0)` of a list with more than ten elements
unfoldable pub last_ten : List (List String) → List (List String)
last_ten [] = []
last_ten (tokens ∷ history) =
    if ltb 10 (length (tokens ∷ history)) then history else tokens ∷ history

abbrev pub empty : List String → Bool
empty [] = true
empty (k ∷ s) = false

module _ (R : Ratios) (words : Fields → List String) where
  -- `_tokenize` of the parameters: the set of their words
  unfoldable pub tokenize : Fields → List String
  tokenize params = union [] (words params)

  unfoldable pub jaccard : List String → List String → ℕ
  unfolding intersection
  jaccard current past =
      let size = length (union current past) in
      if ltb 0 size then R.quotient (length (intersection current past)) size else 0

  unfoldable pub similar_count : ℕ → List String → List (List String) → ℕ
  unfolding jaccard
  similar_count threshold current [] = 0
  similar_count threshold current (past ∷ history) =
      let rest = similar_count threshold current history in
      if empty past
      then rest
      else if R.at_least (jaccard current past) threshold
      then suc rest
      else rest

  check_tokens : CircuitBreaker → List String → CircuitBreaker × Bool
  unfolding similar_count last_ten
  check_tokens b current = if empty current then (b, false) else (
    record b { call_history = last_ten (b.call_history ++ current ∷ []) },
    leb_ℤ b.max_failures (pos (similar_count b.similarity_threshold current b.call_history)),
  )

  unfoldable pub check_call : CircuitBreaker → Fields → CircuitBreaker × Bool
  unfolding check_tokens tokenize
  check_call b params = if not b.enabled then (b, false) else check_tokens b (tokenize params)
