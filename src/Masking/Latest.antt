-- ===== src/Masking/Latest.antt =====
-- `_compute_keep_ids_by_last_k_per_tool` against a count of the results that follow.
use mathlib.Core.List.{reverse-append}
use kimi_proxy.Base.{
  ℕ, ◌+◌, String, ◌≡◌, refl, Bool, false, ◌&&◌, ◌||◌, Option, none, some, or_else, List, [], ◌∷◌,
  ◌++◌, reverse, Dict, lookup, lookup-assign, elem, elem-add, arith, eq_iff, ◌=ₛ◌, ltb, min,
  Bool-cases, Option-cases, inl, inr, if◌then◌else◌,
}
use kimi_proxy.Json.{Fields, get, is_str}
use kimi_proxy.Masking
use kimi_proxy.Masking.{LastK}

-- the id of a tool result
pub result_id : Fields → Option String
result_id msg =
    if is_str "tool" (get "role" msg) then Masking.nonempty_str (get "tool_call_id" msg) else none

module _ (names : Dict String) where
  tool_of : Option String → Option String
  tool_of none = none
  tool_of (some tc_id) = lookup tc_id names

  abbrev names_it : String → Option String → Bool
  names_it t none = false
  names_it t (some u) = u =ₛ t

  -- how many results of a tool a conversation holds
  pub results_of : String → List Fields → ℕ
  unfolding tool_of
  results_of t [] = 0
  results_of t (msg ∷ rest) =
      (if names_it t (tool_of (result_id msg)) then 1 else 0) + results_of t rest

  -- a result with fewer than `k` later results of its tool
  is_late : ℕ → String → Option String → List Fields → Bool
  is_late k j none rest = false
  is_late k j (some tool) rest = ltb (results_of tool rest) k

  abbrev has_id : String → Option String → Bool
  has_id j none = false
  has_id j (some i) = i =ₛ j

  -- `j` is the id of one of the last `k` results of some tool
  pub among_last_k : ℕ → String → List Fields → Bool
  unfolding is_late result_id tool_of
  among_last_k k j [] = false
  among_last_k k j (msg ∷ rest) =
      among_last_k k j rest
      || (has_id j (result_id msg) && is_late k j (tool_of (result_id msg)) rest)

  module _ (k : ℕ) where
    record Scanned (rest : List Fields) (s : LastK) : Type 0 where
      seen : (t : String) → or_else (lookup t s.seen_per_tool) 0 ≡ min k (results_of t rest)
      kept : (j : String) → elem j s.keep ≡ among_last_k k j rest

    keep_result-Scanned :
        (msg : Fields) (tc_id tool : String) (rest : List Fields) (s : LastK)
        → result_id msg ≡ some tc_id
        → lookup tc_id names ≡ some tool
        → Scanned rest s
        → Scanned (msg ∷ rest) (Masking.keep_result k tc_id (some tool) s)
    unfolding Masking.keep_result results_of among_last_k
    keep_result-Scanned msg tc_id tool rest s e f h = record {
      seen = λ t. ground (
        arith,
        h.seen t,
        h.seen tool,
        eq_iff tool t,
        lookup-assign tool t (or_else (lookup tool s.seen_per_tool) 0 + 1) s.seen_per_tool,
      );
      kept = λ j. ground (arith, h.kept j, h.seen tool, elem-add j tc_id s.keep);
    }

    -- a message that is the result of no known tool changes nothing
    Scanned-skip :
        (msg : Fields) (rest : List Fields) (s : LastK)
        → tool_of (result_id msg) ≡ none
        → Scanned rest s
        → Scanned (msg ∷ rest) s
    unfolding results_of among_last_k
    Scanned-skip msg rest s e h = record {
      seen = λ t. ground (arith, h.seen t);
      kept = λ j. ground (arith, h.kept j);
    }

    keep_id-Scanned :
        (msg : Fields) (o : Option String) (rest : List Fields) (s : LastK)
        → result_id msg ≡ o
        → Scanned rest s
        → Scanned (msg ∷ rest) (Masking.keep_id k names o s)
    unfolding Masking.keep_id results_of among_last_k
    keep_id-Scanned msg none rest s e h = Scanned-skip msg rest s (unfold tool_of in rw e) h
    keep_id-Scanned msg (some tc_id) rest s e h = elim (Option-cases (lookup tc_id names)) [
      | inl f ↦
          rw f
            (unfold Masking.keep_result in Scanned-skip msg rest s (unfold tool_of in rw (e, f)) h)
      | inr (tool, f) ↦ rw f (keep_result-Scanned msg tc_id tool rest s e f h)
    ]

    keep_message-Scanned :
        (msg : Fields) (rest : List Fields) (s : LastK)
        → Scanned rest s
        → Scanned (msg ∷ rest) (Masking.keep_message k names msg s)
    unfolding Masking.keep_message
    keep_message-Scanned msg rest s h = elim (Bool-cases (is_str "tool" (get "role" msg))) [
      | inl p ↦ rw p (keep_id-Scanned msg _ rest s (unfold result_id in rw p) h)
      | inr p ↦
          rw p
            (unfold Masking.keep_id in keep_id-Scanned msg none rest s (unfold result_id in rw p) h)
    ]

    keep_scan-append :
        (xs ys : List Fields) (s : LastK)
        → Masking.keep_scan k names (xs ++ ys) s
          ≡ Masking.keep_scan k names ys (Masking.keep_scan k names xs s)
    unfolding Masking.keep_scan
    keep_scan-append [] ys s = refl
    keep_scan-append (x ∷ xs) ys s = keep_scan-append xs ys (Masking.keep_message k names x s)

    keep_scan-Scanned :
        (messages : List Fields)
        → Scanned messages (
            Masking.keep_scan k names (reverse messages) (record { keep = []; seen_per_tool = [] }))
    unfolding Masking.keep_scan
    keep_scan-Scanned [] = record {
      seen = λ t. unfold lookup results_of in omega arith;
      kept = λ j. unfold elem among_last_k in refl;
    }
    keep_scan-Scanned (msg ∷ rest) =
        rw (reverse-append (msg ∷ []) rest, keep_scan-append (reverse rest) (msg ∷ []))
          (keep_message-Scanned msg rest _ (keep_scan-Scanned rest))

  -- An id is exempted exactly if it belongs to one of the last `k` results of its tool.
  pub elem-compute_keep_ids_by_last_k_per_tool :
      (messages : List Fields) (k : ℕ) (j : String)
      → elem j (Masking.compute_keep_ids_by_last_k_per_tool messages names k)
        ≡ among_last_k k j messages
  unfolding Masking.compute_keep_ids_by_last_k_per_tool
  elem-compute_keep_ids_by_last_k_per_tool messages k j = (keep_scan-Scanned k messages).kept j
