-- ===== src/Pruner/Cache.antt =====
-- `PruneCache` and `PrunerMetrics` (mcp_pruner/server.py): pruned texts that are kept for a short
-- time, at most `max_items` of them, and the counters of the calls. Times are in microseconds.
use kimi_proxy.Base.{
  ℕ, suc, ◌-◌, max, ℤ, pos_part, String, Bool, Option, List, [], ◌∷◌, length, take, Dict, lookup,
  assign, discard, ltb, leb, ◌=ₛ◌, if◌then◌else◌,
}
use kimi_proxy.Base.Sorting.{sort_by}
use kimi_proxy.Json.{Fields}
use kimi_proxy.Pruner.Rebuild.{Annotation}
use kimi_proxy.Pruner.Store.{is_expired}

pub record CachedPrune : Type 0 where
  pub created_at_s : ℕ
  pub pruned_text : String
  pub annotations : List Annotation
  pub stats : Fields
  pub warnings : List String

pub record PruneCache : Type 0 where
  pub ttl_s : ℕ
  pub max_items : ℕ
  pub items : Dict CachedPrune

-- `PruneCache(ttl_s=…, max_items=…)`
unfoldable pub init : ℤ → ℤ → PruneCache
init ttl_s max_items = record {
  ttl_s = max 1 (pos_part ttl_s);
  max_items = max 1 (pos_part max_items);
  items = [];
}

-- `_gc_locked`: the entries that stay
gc : ℕ → ℕ → Dict CachedPrune → Dict CachedPrune
gc ttl now [] = []
gc ttl now ((k, item) ∷ items) =
    let rest = gc ttl now items in
    if is_expired ttl now item.created_at_s then rest else (k, item) ∷ rest

unfoldable pub get : PruneCache → ℕ → String → PruneCache × Option CachedPrune
unfolding gc
get c now key = let items = gc c.ttl_s now c.items in (record c { items = items }, lookup key items)

older : String × CachedPrune → String × CachedPrune → Bool
older (j, a) (k, b) = leb a.created_at_s b.created_at_s

-- `for k, _ in oldest: del self._items[k]`
remove_all : Dict CachedPrune → Dict CachedPrune → Dict CachedPrune
remove_all [] d = d
remove_all ((k, item) ∷ oldest) d = remove_all oldest (discard k d)

trim : ℕ → Dict CachedPrune → Dict CachedPrune
unfolding older remove_all
trim max_items d =
    if ltb max_items (length d)
    then remove_all (take (length d - max_items) (sort_by older d)) d
    else d

unfoldable pub put : PruneCache → ℕ → String → CachedPrune → PruneCache
unfolding gc trim
put c now key item = record c {
  items = trim c.max_items (gc c.ttl_s now (assign key item c.items));
}

-- The total of the costs is a float, by its bits.
pub record PrunerMetrics : Type 0 where
  pub calls_total : ℕ
  pub calls_deepinfra : ℕ
  pub fallbacks_deepinfra : ℕ
  pub cost_estimated_total_usd : ℕ

-- `record_call`, where `add` is the sum of floats
unfoldable pub record_call : (ℕ → ℕ → ℕ) → String → Bool → ℕ → PrunerMetrics → PrunerMetrics
record_call add backend used_fallback cost m =
    let deepinfra = backend =ₛ "deepinfra" in
    record m {
      calls_total = suc m.calls_total;
      calls_deepinfra = if deepinfra then suc m.calls_deepinfra else m.calls_deepinfra;
      fallbacks_deepinfra =
          if deepinfra
          then if used_fallback then suc m.fallbacks_deepinfra else m.fallbacks_deepinfra
          else m.fallbacks_deepinfra;
      cost_estimated_total_usd = add m.cost_estimated_total_usd cost;
    }
