-- ===== src/Pruner/Store.antt =====
-- `PruneStore` (mcp_pruner/server.py): an in-memory dictionary whose entries expire.
-- A time is a number of microseconds, handed in by the caller for `time.time()`.
pub mod Expiry
use kimi_proxy.Base.{
  ℕ, zero, suc, ◌+◌, ◌-◌, ◌*◌, max, ℤ, pos_part, String, Bool, Option, none, some, List, [], ◌∷◌,
  length, drop, take, map, Dict, lookup, assign, discard, leb, ltb, if◌then◌else◌,
}
use kimi_proxy.Base.Sorting.{sort_by}

abbrev pub second : ℕ
second = 1000000

pub record StoredPrune : Type 0 where
  pub created_at_s : ℕ
  pub lines : List String

pub record PruneStore : Type 0 where
  pub ttl_s : ℕ
  pub items : Dict StoredPrune

-- `PruneStore(ttl_s=…)`
unfoldable pub init : ℤ → PruneStore
init ttl_s = record { ttl_s = max 1 (pos_part ttl_s); items = [] }

-- `now_s - item.created_at_s > self._ttl_s`, where a time in the future has not expired
unfoldable pub is_expired : ℕ → ℕ → ℕ → Bool
is_expired ttl now created = ltb (ttl * second) (now - created)

-- `_gc_locked`: the entries that stay
gc : ℕ → ℕ → Dict StoredPrune → Dict StoredPrune
unfolding is_expired
gc ttl now [] = []
gc ttl now ((k, item) ∷ items) =
    let rest = gc ttl now items in
    if is_expired ttl now item.created_at_s then rest else (k, item) ∷ rest

unfoldable pub put : PruneStore → ℕ → String → List String → PruneStore
unfolding gc
put s now prune_id lines = record s {
  items = gc s.ttl_s now (assign prune_id (record { created_at_s = now; lines = lines }) s.items);
}

-- `None if item is None else list(item.lines)`
lines_found : Option StoredPrune → Option (List String)
lines_found none = none
lines_found (some item) = some item.lines

unfoldable pub get : PruneStore → ℕ → String → PruneStore × Option (List String)
unfolding gc lines_found
get s now prune_id =
    let items = gc s.ttl_s now s.items in
    (record s { items = items }, lines_found (lookup prune_id items))
