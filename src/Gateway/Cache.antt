-- ===== src/Gateway/Cache.antt =====
-- The cache of the gateway (api/routes/mcp_gateway.py): answers to calls of tools that are taken to
-- only read, for 30 seconds. Times are in microseconds. `digest` is the hash of the sorted JSON of a
-- request.
pub mod Fresh
use kimi_proxy.Base.{
  ℕ, ◌-◌, String, ◌<>◌, Bool, true, false, not, ◌||◌, ◌&&◌, Option, none, some, List, [], ◌∷◌,
  length, any, Dict, lookup, assign, ltb, leb, if◌then◌else◌,
}
use kimi_proxy.Base.Text.{begins, contains}
use kimi_proxy.Json.{Value, Fields, bool, obj, as_obj, as_str, get, put, is_str}

-- `_GATEWAY_CACHE`: the time of storing and the answer
abbrev pub Cached : Type 0
Cached = Dict (ℕ × Value)

abbrev pub gateway_cache_ttl : ℕ
gateway_cache_ttl = 30000000

abbrev pub max_entries : ℕ
max_entries = 512

abbrev pub write_verbs : List String
write_verbs = "write" ∷ "edit" ∷ "create" ∷ "delete" ∷ "remove" ∷ "update" ∷ []

reads : Option String → Bool
reads none = false
reads (some name) = not (any (λ (verb : String). contains verb name) write_verbs)

params_read : Option Fields → Bool
unfolding reads
params_read none = false
params_read (some params) = reads (as_str (get "name" params))

unfoldable pub is_read_operation : Fields → Bool
unfolding params_read
is_read_operation request =
    if is_str "tools/call" (get "method" request)
    then params_read (as_obj (get "params" request))
    else false

unfoldable pub get_cache_key : (Fields → String) → String → Fields → String
get_cache_key digest server_name request = server_name <> (":" <> digest request)

-- a copy of the cached answer, marked where it is a dict
unfoldable pub marked : Value → Value
marked (obj d) = obj (put "_gateway_cached" (bool true) d)
marked v = v

if_fresh : ℕ → Option (ℕ × Value) → Option Value
unfolding marked
if_fresh now none = none
if_fresh now (some (ts, v)) = if ltb (now - ts) gateway_cache_ttl then some (marked v) else none

-- the key, for an operation that reads, and the answer
unfoldable pub get_from_cache :
    (Fields → String) → ℕ → Cached → String → Fields → Option String × Option Value
unfolding if_fresh get_cache_key is_read_operation
get_from_cache digest now cache server_name request =
    let key = get_cache_key digest server_name request in
    if is_read_operation request then (some key, if_fresh now (lookup key cache)) else (none, none)

-- `_GATEWAY_CACHE.pop(next(iter(_GATEWAY_CACHE)), None)`
pop_oldest : Cached → Cached
pop_oldest [] = []
pop_oldest (entry ∷ cache) = cache

without_prefix : String → Cached → Cached
without_prefix prefix [] = []
without_prefix prefix ((k, entry) ∷ cache) =
    let rest = without_prefix prefix cache in if begins k prefix then rest else (k, entry) ∷ rest

-- the key is none exactly where the operation does not read
unfoldable pub update_cache : ℕ → Cached → String → Option String → Value → Cached
unfolding pop_oldest without_prefix
update_cache now cache server_name none masked = without_prefix (server_name <> ":") cache
update_cache now cache server_name (some key) masked =
    assign key (now, masked) (if leb max_entries (length cache) then pop_oldest cache else cache)
