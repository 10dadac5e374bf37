-- ===== src/ContextPruning/Messages.antt =====
-- What the pruning changes in a chat, and what it counts.
use kimi_proxy.Base.{
  ℕ, ◌+◌, ◌≤◌, String, ◌≡◌, refl, ap, ◌∙◌, ◌⊎◌, inl, inr, Bool, true, false, Option, none, some,
  List, [], ◌∷◌, is_some, arith, ◌=ₛ◌, Bool-cases, if◌then◌else◌, eq_iff, pos, count, ltb_ℤ, ◌>>=◌,
}
use mathlib.Core.Option.{some_inj}
use kimi_proxy.Json.{
  Value, Fields, null, bool, int, real, str, arr, obj, as_str, is_str, get, get-put,
}
use kimi_proxy.Python.{Python}
use kimi_proxy.ContextPruning
use kimi_proxy.ContextPruning.{
  ContextPruningConfig, ContextPruningSummary, PrunerOutcome, Tally, prunable,
  prune_text_via_pruner_mcp, prune_tool_messages_best_effort,
}

-- the result of a tool, a text of at least `min_chars_to_prune` characters
abbrev pub IsToolResult : ContextPruningConfig → Fields → Type 0
IsToolResult cfg m =
    (get "role" m ≡ str "tool")
    × ((text : String) × ((get "content" m ≡ str text)
          × (ltb_ℤ (pos (count text)) cfg.min_chars_to_prune ≡ false)))

-- the message is as before, or is the result of a tool, long enough, that keeps all its fields but
-- `content` and the mark `_pruner`
abbrev pub IsPrunedFrom : ContextPruningConfig → Fields → Fields → Type 0
IsPrunedFrom cfg m m' =
    (m' ≡ m)
    ⊎ (IsToolResult cfg m
        × ((k : String) → ("content" =ₛ k) ≡ false → ("_pruner" =ₛ k) ≡ false → get k m' ≡ get k m))

-- the same for each message: none is added, lost or moved
abbrev pub ArePrunedFrom : ContextPruningConfig → List Fields → List Fields → Type 0
ArePrunedFrom cfg [] [] = Unit
ArePrunedFrom cfg (m ∷ ms) (m' ∷ ms') = IsPrunedFrom cfg m m' × ArePrunedFrom cfg ms ms'
ArePrunedFrom cfg [] (_ ∷ _) = ⊥
ArePrunedFrom cfg (_ ∷ _) [] = ⊥

-- the number of messages that are to be pruned
abbrev pub prunable_count : ContextPruningConfig → List Fields → ℕ
prunable_count cfg [] = 0
prunable_count cfg (m ∷ ms) = (if is_some (prunable cfg m) then 1 else 0) + prunable_count cfg ms

is_str-eq : (v : Value) → is_str "tool" v ≡ true → v ≡ str "tool"
is_str-eq (str s) h = ap str ((eq_iff s "tool").0 h)
is_str-eq null h = absurd cc
is_str-eq (bool b) h = absurd cc
is_str-eq (int i) h = absurd cc
is_str-eq (real x) h = absurd cc
is_str-eq (arr xs) h = absurd cc
is_str-eq (obj d) h = absurd cc

as_str-some : (v : Value) (s : String) → as_str v ≡ some s → v ≡ str s
as_str-some (str t) s h = ap str (some_inj.0 h)
as_str-some null s h = absurd cc
as_str-some (bool b) s h = absurd cc
as_str-some (int i) s h = absurd cc
as_str-some (real x) s h = absurd cc
as_str-some (arr xs) s h = absurd cc
as_str-some (obj d) s h = absurd cc

long_text :
    (cfg : ContextPruningConfig) (m : Fields) (o : Option String)
    → as_str (get "content" m) ≡ o
    → is_some (o >>= (λ s. if ltb_ℤ (pos (count s)) cfg.min_chars_to_prune then none else some s))
      ≡ true
    → (text : String) × ((get "content" m ≡ str text)
        × (ltb_ℤ (pos (count text)) cfg.min_chars_to_prune ≡ false))
long_text cfg m none e h = absurd cc
long_text cfg m (some s) e h = (s, (as_str-some (get "content" m) s e, ground arith))

prunable-IsToolResult :
    (cfg : ContextPruningConfig) (m : Fields) → is_some (prunable cfg m) ≡ true → IsToolResult cfg m
unfolding prunable
prunable-IsToolResult cfg m h = elim (Bool-cases (is_str "tool" (get "role" m))) [
  | inl p ↦
      (is_str-eq (get "role" m) p, long_text cfg m (as_str (get "content" m)) refl (ground arith))
  | inr p ↦ ground arith
]

ArePrunedFrom-refl : (cfg : ContextPruningConfig) (ms : List Fields) → ArePrunedFrom cfg ms ms
ArePrunedFrom-refl cfg [] = tt
ArePrunedFrom-refl cfg (m ∷ ms) = (inl refl, ArePrunedFrom-refl cfg ms)

get-pruned_message :
    (m : Fields) (o : PrunerOutcome) (k : String)
    → ("content" =ₛ k) ≡ false
    → ("_pruner" =ₛ k) ≡ false
    → get k (ContextPruning.pruned_message m o) ≡ get k m
unfolding ContextPruning.pruned_message
get-pruned_message m o k h j = rw (get-put, j, get-put, h) refl

fallback_count-le : (b : Option Bool) → ContextPruning.fallback_count b ≤ 1
unfolding ContextPruning.fallback_count
fallback_count-le none = omega arith
fallback_count-le (some true) = omega arith
fallback_count-le (some false) = omega arith

-- what one message adds to the counts
record Counted (made : ℕ) (t t' : Tally) : Type 0 where
  calls : t'.calls_attempted ≡ t.calls_attempted + made
  pruned : t'.messages_pruned ≤ t.messages_pruned + made
  fallbacks :
      t'.used_fallback_count + t.messages_pruned ≤ t.used_fallback_count + t'.messages_pruned

-- one call for each message that is to be pruned, and at most one success or fallback for each call
abbrev pub IsSummaryOf : ContextPruningConfig → List Fields → ContextPruningSummary → Type 0
IsSummaryOf cfg ms s =
    (s.calls_attempted ≡ prunable_count cfg ms)
    × (s.messages_pruned ≤ s.calls_attempted)
    × (s.used_fallback_count ≤ s.messages_pruned)

module _ (py : Python) (server : Value → Option Value) (goal_hint source_type : String)
    (cfg : ContextPruningConfig) where
  settle-IsPrunedFrom :
      (m : Fields) (t : Tally) (o : Option PrunerOutcome)
      → is_some (prunable cfg m) ≡ true
      → IsPrunedFrom cfg m (ContextPruning.settle m t o).0
  unfolding ContextPruning.settle
  settle-IsPrunedFrom m t none h = inl refl
  settle-IsPrunedFrom m t (some o) h = inr (prunable-IsToolResult cfg m h, get-pruned_message m o)

  call-IsPrunedFrom :
      (m : Fields) (t : Tally) (p : Option String)
      → prunable cfg m ≡ p
      → IsPrunedFrom cfg m (ContextPruning.call py server goal_hint source_type cfg m t p).0
  unfolding ContextPruning.call
  call-IsPrunedFrom m t none h = inl refl
  call-IsPrunedFrom m t (some s) h =
      settle-IsPrunedFrom m (ContextPruning.called t)
        (prune_text_via_pruner_mcp py server s goal_hint source_type cfg (t.req_id + 1))
        (ap is_some h)

  settle-Counted :
      (m : Fields) (t : Tally) (o : Option PrunerOutcome)
      → Counted 1 t (ContextPruning.settle m (ContextPruning.called t) o).1
  unfolding ContextPruning.settle ContextPruning.called
  settle-Counted m t none = record { calls = refl; pruned = omega arith; fallbacks = omega arith }
  settle-Counted m t (some o) = record {
    calls = refl;
    pruned = omega arith;
    fallbacks = omega (arith, fallback_count-le o.stats.used_fallback);
  }

  call-Counted :
      (m : Fields) (t : Tally) (p : Option String)
      → Counted
          (if is_some p then 1 else 0)
          t
          (ContextPruning.call py server goal_hint source_type cfg m t p).1
  unfolding ContextPruning.call
  call-Counted m t none = record {
    calls = omega arith;
    pruned = omega arith;
    fallbacks = omega arith;
  }
  call-Counted m t (some s) =
      settle-Counted m t
        (prune_text_via_pruner_mcp py server s goal_hint source_type cfg (t.req_id + 1))

  prune_messages-ArePrunedFrom :
      (ms : List Fields) (t : Tally)
      → ArePrunedFrom cfg ms
          (ContextPruning.prune_messages py server goal_hint source_type cfg ms t).0
  unfolding ContextPruning.prune_messages
  prune_messages-ArePrunedFrom [] t = tt
  prune_messages-ArePrunedFrom (m ∷ ms) t = (
    call-IsPrunedFrom m t (prunable cfg m) refl,
    prune_messages-ArePrunedFrom ms
        (ContextPruning.call py server goal_hint source_type cfg m t (prunable cfg m)).1,
  )

  prune_messages-Counted :
      (ms : List Fields) (t : Tally)
      → Counted
          (prunable_count cfg ms)
          t
          (ContextPruning.prune_messages py server goal_hint source_type cfg ms t).1
  unfolding ContextPruning.prune_messages
  prune_messages-Counted [] t = record {
    calls = omega arith;
    pruned = omega arith;
    fallbacks = omega arith;
  }
  prune_messages-Counted (m ∷ ms) t =
      let t' = (ContextPruning.call py server goal_hint source_type cfg m t (prunable cfg m)).1 in
      let c = call-Counted m t (prunable cfg m) in
      let d = prune_messages-Counted ms t' in
      record {
        calls = omega (arith, c.calls, d.calls);
        pruned = omega (arith, c.pruned, d.pruned);
        fallbacks = omega (arith, c.fallbacks, d.fallbacks);
      }

  -- Pruning keeps the messages of a chat in number and order, and all the fields of each; only the
  -- content of a tool's result of at least `min_chars_to_prune` characters may change, with the mark
  -- `_pruner`.
  pub prune_tool_messages_best_effort-ArePrunedFrom :
      (ms : List Fields)
      → ArePrunedFrom cfg ms
          (prune_tool_messages_best_effort py server ms goal_hint cfg source_type).0
  unfolding prune_tool_messages_best_effort
  prune_tool_messages_best_effort-ArePrunedFrom ms = elim (Bool-cases cfg.enabled) [
    | inl p ↦ simp p (prune_messages-ArePrunedFrom ms ContextPruning.first_tally)
    | inr p ↦ simp p (ArePrunedFrom-refl cfg ms)
  ]

  -- An enabled pruning calls the service once for each message that is to be pruned, prunes at most
  -- one message for each call, and counts a fallback at most once for each pruned message.
  pub prune_tool_messages_best_effort-IsSummaryOf :
      (ms : List Fields)
      → cfg.enabled ≡ true
      → IsSummaryOf cfg ms
          (prune_tool_messages_best_effort py server ms goal_hint cfg source_type).1
  unfolding prune_tool_messages_best_effort ContextPruning.summary_of
  prune_tool_messages_best_effort-IsSummaryOf ms p =
      let c = prune_messages-Counted ms ContextPruning.first_tally in
      simp p (omega (arith, c.calls), omega (arith, c.calls, c.pruned), omega (arith, c.fallbacks))

  call-failed :
      (f : (v : Value) → server v ≡ none) (m : Fields) (t : Tally) (p : Option String)
      → (ContextPruning.call py server goal_hint source_type cfg m t p).0 ≡ m
  unfolding ContextPruning.call ContextPruning.settle prune_text_via_pruner_mcp
  call-failed f m t none = refl
  call-failed f m t (some s) = rw f refl

  prune_messages-failed :
      (f : (v : Value) → server v ≡ none) (ms : List Fields) (t : Tally)
      → (ContextPruning.prune_messages py server goal_hint source_type cfg ms t).0 ≡ ms
  unfolding ContextPruning.prune_messages
  prune_messages-failed f [] t = refl
  prune_messages-failed f (m ∷ ms) t =
      let t' = (ContextPruning.call py server goal_hint source_type cfg m t (prunable cfg m)).1 in
      ap (λ x. x ∷ (ContextPruning.prune_messages py server goal_hint source_type cfg ms t').0)
        (call-failed f m t (prunable cfg m))
      ∙ ap (◌∷◌ m) (prune_messages-failed f ms t')

  -- If each call of the service raises, the chat is passed on as it is.
  pub prune_tool_messages_best_effort-failed :
      (f : (v : Value) → server v ≡ none) (ms : List Fields)
      → (prune_tool_messages_best_effort py server ms goal_hint cfg source_type).0 ≡ ms
  unfolding prune_tool_messages_best_effort
  prune_tool_messages_best_effort-failed f ms = elim (Bool-cases cfg.enabled) [
    | inl p ↦ simp p (prune_messages-failed f ms ContextPruning.first_tally)
    | inr p ↦ simp p refl
  ]
