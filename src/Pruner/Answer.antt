-- ===== src/Pruner/Answer.antt =====
-- How the tool `prune_text` of the pruner's server answers (mcp_pruner/server.py): a text that is too
-- large, a text from the cache, and a text that the backends prune.
use kimi_proxy.Base.{
  ℕ, ◌-◌, ℤ, pos, sub_ℕ, String, ◌<>◌, Bool, true, false, Option, none, some, or_else, List, [],
  ◌∷◌, ◌++◌, map, length, elem, ltb, ◌>>=◌,
}
use kimi_proxy.Base.Text.{join, contains}
use kimi_proxy.Base.Words.{replace}
use kimi_proxy.Json.{
  Value, Fields, int, real, bool, str, field, end, get, put, as_str, as_bool, as_int,
}
use kimi_proxy.Config.Sections.{McpPrunerBackendConfig}
use kimi_proxy.Pruner.Select.{range}
use kimi_proxy.Pruner.Target.{Rounding, compute_keep_target}
use kimi_proxy.Pruner.Rebuild.{Annotation, reconstruct_pruned_text, prune_reason}
use kimi_proxy.Pruner.Store.{PruneStore}
use kimi_proxy.Pruner.Store
use kimi_proxy.Pruner.Cache.{PruneCache, CachedPrune, PrunerMetrics, record_call}
use kimi_proxy.Pruner.Cache
use kimi_proxy.Pruner.Backends.{Services, Pass, run_backends, cleaned}

-- what the server keeps
pub record Server : Type 0 where
  pub store : PruneStore
  pub cache : PruneCache
  pub metrics : PrunerMetrics

pub record Payload : Type 0 where
  pub prune_id : String
  pub pruned_text : String
  pub annotations : List Annotation
  pub stats : Fields
  pub warnings : List String

-- an error -32602 with its message, or the payload
pub data Reply : Type 0 where
  invalid : String → Reply
  payload : Payload → Reply

-- `time.time()` at the calls of the cache and of the store, and the measured milliseconds
pub record Times : Type 0 where
  pub looked : ℕ
  pub cached : ℕ
  pub stored : ℕ
  pub elapsed_ms : ℕ

unfoldable pub replace_prune_id : String → List Annotation → List Annotation
replace_prune_id prune_id annotations =
    map
      (λ (ann : Annotation). record ann {
        marker = replace "prune_id=<pending>" ("prune_id=" <> prune_id) ann.marker;
      })
      annotations

-- the int of `max(0, before - after)`, or 0
saved_tokens : Option ℤ → Option ℤ → ℕ
saved_tokens (some (pos before)) (some (pos after)) = before - after
saved_tokens _ _ = 0

unfoldable pub compute_savings : (ℕ → ℕ) → Fields → ℕ × ℕ
unfolding saved_tokens
compute_savings cost stats =
    let saved =
      saved_tokens (as_int (get "tokens_est_before" stats))
        (as_int (get "tokens_est_after" stats)) in
    (saved, cost saved)

int_field : String → Option ℕ → Fields → Fields
int_field key none stats = stats
int_field key (some n) stats = put key (int (pos n)) stats

status_field : Option ℤ → Fields → Fields
status_field none stats = stats
status_field (some i) stats = put "deepinfra_http_status" (int i) stats

-- the five options, of their types
pub record PruneOptions (fl : Rounding) : Type 0 where
  pub max_prune_ratio : fl.Ratio
  pub min_keep_lines : ℤ
  pub timeout_ms : ℤ
  pub annotate_lines : Bool
  pub include_markers : Bool

-- what is done with floats: `float(v)` of a number, none for another value, the test of the limits
-- 0 and 1, the bits of a ratio, the part of the lines that is pruned, the cost of a number of
-- tokens, and the sum of two costs; and the digest of the arguments, the key of the cache
pub record Numbers (fl : Rounding) : Type 0 where
  pub float_of : Value → Option fl.Ratio
  pub outside : fl.Ratio → Bool
  pub bits : fl.Ratio → ℕ
  pub pruned_ratio : ℕ → ℕ → ℕ
  pub cost : ℕ → ℕ
  pub add : ℕ → ℕ → ℕ
  pub digest : String → String → String → String → Fields → String

module _ (fl : Rounding) (nm : Numbers fl) (sv : Services) (toml_cfg : McpPrunerBackendConfig)
    (default_endpoint_url : String) (max_input_chars : ℤ) (t : Times) (prune_id : String) where
  -- The text is stored, the call counted, and the payload returned.
  unfoldable pub concluded :
      Server → String → String → List Annotation → Fields → List String → Bool → Server × Reply
  concluded s text pruned_text annotations stats warnings used_fallback =
      let (saved, cost) = compute_savings nm.cost stats in
      let priced =
        put "cost_estimated_usd" (real cost) (put "tokens_saved_est" (int (pos saved)) stats) in
      let backend = or_else (as_str (get "backend" priced)) "None" in
      (
        record s {
          store = Store.put s.store t.stored prune_id (sv.splitlines text);
          metrics = record_call nm.add backend used_fallback cost s.metrics;
        },
        payload (record {
          prune_id = prune_id;
          pruned_text = pruned_text;
          annotations = annotations;
          stats = priced;
          warnings = warnings;
        }),
      )

  stats_of : String → ℕ → ℕ → String → String → Bool → Fields
  stats_of backend n kept_lines text pruned_text used_fallback = field "backend" (str backend) (
      field "original_lines" (int (pos n)) (
        field "kept_lines" (int (pos kept_lines)) (
          field "pruned_lines" (int (sub_ℕ n kept_lines)) (
            field "pruned_ratio" (real (nm.pruned_ratio n kept_lines)) (
              field "tokens_est_before" (int (pos (sv.count_tokens_text text))) (
                field "tokens_est_after" (int (pos (sv.count_tokens_text pruned_text))) (
                  field "elapsed_ms" (int (pos 0))
                    (field "used_fallback" (bool used_fallback) end))))))))

  -- a text over the limit is returned as it is
  unfoldable pub too_large : Server → String → List String → Server × Reply
  unfolding stats_of
  too_large s text backends =
      let n = length (sv.splitlines text) in
      concluded s text text [] (stats_of (join "," backends) n n text text true)
        ("input_too_large" ∷ []) true

  deepinfra_fields : Bool → Pass → Fields → Fields
  unfolding int_field status_field
  deepinfra_fields false p stats = stats
  deepinfra_fields true p stats = status_field p.http_status (
      int_field "deepinfra_docs_total" p.docs_total (
        int_field "deepinfra_docs_scored" p.docs_scored
          (int_field "deepinfra_latency_ms" p.latency_ms stats)))

  -- the end of the tool, from the cache or not: the pending ids are replaced
  unfoldable pub answered : Server → String → CachedPrune → Server × Reply
  unfolding concluded
  answered s text e =
      let stats = put "elapsed_ms" (int (pos t.elapsed_ms)) e.stats in
      concluded s text (replace "prune_id=<pending>" ("prune_id=" <> prune_id) e.pruned_text)
        (replace_prune_id prune_id e.annotations) stats e.warnings
        (or_else (as_bool (get "used_fallback" stats)) false)

  cached_stats : Bool → Fields → Fields
  cached_stats false stats = put "cached" (bool true) stats
  cached_stats true stats =
      put "deepinfra_latency_ms" (int (pos 0))
        (put "deepinfra_cached" (bool true) (put "cached" (bool true) stats))

  entry_of :
      List String
      → List String
      → String
      → Pass
      → Option (String × List Annotation)
      → Option CachedPrune
  unfolding deepinfra_fields stats_of
  entry_of backends lines text p none = none
  entry_of backends lines text p (some (pruned_text, annotations)) = some (record {
    created_at_s = t.cached;
    pruned_text = pruned_text;
    annotations = annotations;
    stats = deepinfra_fields (elem "deepinfra" backends) p (
        stats_of (join "," backends) (length lines) (length p.keep_set) text pruned_text
          (ltb 0 (length p.warnings)));
    warnings = p.warnings;
  })

  -- the pruning of a text that is not in the cache
  unfoldable pub pruned_entry : List String → String → String → PruneOptions fl → Option CachedPrune
  unfolding entry_of
  pruned_entry backends text goal_hint o =
      let lines = cleaned sv backends (sv.splitlines text) in
      run_backends fl sv toml_cfg default_endpoint_url lines goal_hint
        (compute_keep_target fl (length lines) o.max_prune_ratio o.min_keep_lines) backends
        (record {
          keep_set = range 0 (length lines);
          warnings = [];
          latency_ms = none;
          docs_scored = none;
          docs_total = none;
          http_status = none;
        })
      >>= (λ (p : Pass). entry_of backends lines text p (
          reconstruct_pruned_text
            (record {
              prune_id = "<pending>";
              reason = prune_reason sv.lower goal_hint;
              annotate_lines = o.annotate_lines;
              include_markers = o.include_markers;
            })
            lines p.keep_set))

  unfoldable pub from_cache :
      Server
      → String
      → String
      → Option CachedPrune
      → String
      → Option CachedPrune
      → Option (Server × Reply)
  unfolding answered cached_stats
  from_cache s key backends_str fresh text (some e) = some (
      answered s text (record e {
        stats = cached_stats (contains "deepinfra" backends_str) e.stats;
        warnings = e.warnings ++ "cache_hit" ∷ [];
      }))
  from_cache s key backends_str fresh text none = fresh >>= (λ (e : CachedPrune).
      some (answered (record s { cache = Cache.put s.cache t.cached key e }) text e))
