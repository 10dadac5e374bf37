-- ===== src/Pruner/Serve/Stored.antt =====
-- What the tool stores of the texts that it prunes.
use kimi_proxy.Base.{
  ℕ, ◌*◌, ◌-◌, ◌≤◌, ℤ, pos, ltb, ltb_ℤ, String, count, Option, none, some, List, elem, ◌≡◌, refl,
  arith, Bool-cases, Option-cases, inl, inr, [], ◌∷◌, if◌then◌else◌, ap, subst, eq_refl,
}
use kimi_proxy.Json.{Fields, get, as_str}
use kimi_proxy.Config.Sections.{McpPrunerBackendConfig}
use kimi_proxy.Pruner.Target.{Rounding}
use kimi_proxy.Pruner.Store.{PruneStore, second}
use kimi_proxy.Pruner.Store
use kimi_proxy.Pruner.Store.Expiry.{IsDict, get-put}
use kimi_proxy.Pruner.Cache.{CachedPrune}
use kimi_proxy.Pruner.Backends.{Services}
use kimi_proxy.Pruner.Answer.{
  Server, Reply, invalid, payload, Payload, Times, PruneOptions, Numbers, concluded, too_large,
  answered, from_cache,
}
use kimi_proxy.Pruner.Serve.{tool_prune_text}
use kimi_proxy.Pruner.Serve

module _ (fl : Rounding) (nm : Numbers fl) (sv : Services) (toml_cfg : McpPrunerBackendConfig)
    (default_endpoint_url : String) (max_input_chars : ℤ) (t : Times) (prune_id : String) where
  -- an error changes nothing; with a payload, the lines of the text are stored under its id
  unfoldable pub IsStored : Server → String → Option (Server × Reply) → Type 0
  IsStored s text none = Unit
  IsStored s text (some (s', invalid message)) = s' ≡ s
  IsStored s text (some (s', payload p)) =
      (p.prune_id ≡ prune_id)
      × (s'.store ≡ Store.put s.store t.stored prune_id (sv.splitlines text))

  too_large-IsStored :
      (s : Server) (text : String) (backends : List String)
      → IsStored s text (
          some (
            too_large fl nm sv toml_cfg default_endpoint_url max_input_chars t prune_id s text
              backends))
  unfolding too_large concluded IsStored
  too_large-IsStored s text backends = (refl, refl)

  from_cache-IsStored :
      (s s' : Server) (key backends_str text : String) (fresh cached : Option CachedPrune)
      → s'.store ≡ s.store
      → IsStored s text (
          from_cache fl nm sv toml_cfg default_endpoint_url max_input_chars t prune_id s' key
            backends_str fresh text cached)
  unfolding from_cache answered concluded IsStored
  from_cache-IsStored s s' key backends_str text fresh (some e) h =
      (refl, ap (λ x. Store.put x t.stored prune_id (sv.splitlines text)) h)
  from_cache-IsStored s s' key backends_str text (some e) none h =
      (refl, ap (λ x. Store.put x t.stored prune_id (sv.splitlines text)) h)
  from_cache-IsStored s s' key backends_str text none none h = tt

  check_limits-IsStored :
      (s : Server) (backends : List String) (text goal_hint source_type : String)
      (o : PruneOptions fl)
      → IsStored s text (
          Serve.check_limits fl nm sv toml_cfg default_endpoint_url max_input_chars t prune_id s
            backends text goal_hint source_type o)
  unfolding Serve.check_limits Serve.prune_checked IsStored
  check_limits-IsStored s backends text goal_hint source_type o =
      elim (Bool-cases (nm.outside o.max_prune_ratio)) [
        | inl p ↦ rw p refl
        | inr p ↦ elim (Bool-cases (ltb_ℤ o.min_keep_lines (pos 0))) [
          | inl q ↦ rw (p, q) refl
          | inr q ↦ elim (Bool-cases (ltb_ℤ o.timeout_ms (pos 1))) [
            | inl r ↦ rw (p, q, r) refl
            | inr r ↦ rw (p, q, r) (from_cache-IsStored s _ _ _ text _ _ refl)
          ]
        ]
      ]

  check_options-IsStored :
      (s : Server) (backends : List String) (text goal_hint source_type : String)
      (o : Option (PruneOptions fl))
      → IsStored s text (
          Serve.check_options fl nm sv toml_cfg default_endpoint_url max_input_chars t prune_id s
            backends text goal_hint source_type o)
  unfolding Serve.check_options IsStored
  check_options-IsStored s backends text goal_hint source_type none = refl
  check_options-IsStored s backends text goal_hint source_type (some o) =
      check_limits-IsStored s backends text goal_hint source_type o

  check_arguments-IsStored :
      (s : Server) (text : String) (goal_hint source_type : Option String) (options : Option Fields)
      → IsStored s text (
          Serve.check_arguments fl nm sv toml_cfg default_endpoint_url max_input_chars t prune_id s
            (some text)
            goal_hint
            source_type
            options)
  unfolding Serve.check_arguments IsStored
  check_arguments-IsStored s text none source_type options = refl
  check_arguments-IsStored s text (some g) none options = refl
  check_arguments-IsStored s text (some g) (some k) none = refl
  check_arguments-IsStored s text (some g) (some k) (some d) =
      elim (Bool-cases (elem k ("code" ∷ "logs" ∷ "docs" ∷ []))) [
        | inr p ↦ rw p refl
        | inl p ↦ elim (Bool-cases (ltb_ℤ max_input_chars (pos (count text)))) [
          | inl q ↦ rw (p, q) (too_large-IsStored s text _)
          | inr q ↦ rw (p, q) (check_options-IsStored s _ text g k _)
        ]
      ]

  tool_prune_text-IsStored :
      (s : Server) (args : Fields) (text : String)
      → as_str (get "text" args) ≡ some text
      → IsStored s text
          (tool_prune_text fl nm sv toml_cfg default_endpoint_url max_input_chars t prune_id s args)
  unfolding tool_prune_text IsStored
  tool_prune_text-IsStored s args text h = rw h (check_arguments-IsStored s text _ _ _)

  -- When the tool answers with a payload, whether the text was pruned, was too large, or came from
  -- the cache, the store gives back all lines of the text under the id of the payload, until the
  -- time to live has passed.
  pub get-tool_prune_text :
      (s s' : Server) (args : Fields) (text : String) (p : Payload) (t1 : ℕ)
      → as_str (get "text" args) ≡ some text
      → tool_prune_text fl nm sv toml_cfg default_endpoint_url max_input_chars t prune_id s args
        ≡ some (s', payload p)
      → IsDict s.store.items
      → t.stored ≤ t1
      → (Store.get s'.store t1 p.prune_id).1
        ≡ (if ltb (s.store.ttl_s * second) (t1 - t.stored) then none else some (sv.splitlines text))
  unfolding IsStored
  get-tool_prune_text s s' args text p t1 h e d le =
      let (same_id, stored) = subst (IsStored s text) e (tool_prune_text-IsStored s args text h) in
      rw
        (
          same_id,
          stored,
          get-put s.store t.stored t1 prune_id prune_id (sv.splitlines text) d le,
          eq_refl prune_id,
        )
        refl

  missing_text :
      (s s' : Server) (o : Option String) (goal_hint source_type : Option String)
      (options : Option Fields) (message : String)
      → o ≡ none
      → Serve.check_arguments fl nm sv toml_cfg default_endpoint_url max_input_chars t prune_id s o
          goal_hint source_type options
        ≡ some (s', invalid message)
      → s' ≡ s
  unfolding Serve.check_arguments
  missing_text s s' none g k d message h e = ground arith
  missing_text s s' (some x) g k d message h e = cc

  -- An error of the arguments leaves the store, the cache and the counters as they are.
  pub tool_prune_text_invalid :
      (s s' : Server) (args : Fields) (message : String)
      → tool_prune_text fl nm sv toml_cfg default_endpoint_url max_input_chars t prune_id s args
        ≡ some (s', invalid message)
      → s' ≡ s
  unfolding IsStored tool_prune_text
  tool_prune_text_invalid s s' args message e = elim (Option-cases (as_str (get "text" args))) [
    | inl h ↦ missing_text s s' _ _ _ _ message h e
    | inr (text, h) ↦ subst (IsStored s text) e (tool_prune_text-IsStored s args text h)
  ]
