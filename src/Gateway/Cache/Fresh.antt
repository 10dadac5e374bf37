-- ===== src/Gateway/Cache/Fresh.antt =====
-- What the cache of the gateway holds: never more entries than its limit, and no answer of a server
-- after a call that may have written.
use Prim.Native.String.{String as Text}
use kimi_proxy.Base.{
  ℕ, suc, ◌-◌, ◌≤◌, ◌<◌, ◌≡◌, refl, sym, inl, inr, String, ◌<>◌, true, false, Option, none, some,
  [], ◌∷◌, length, Dict, lookup, assign, lookup-assign, leb, arith, if◌then◌else◌, Bool-cases,
  eq_iff, eq_refl, subst, any, Bool,
}
use text.Mathlib.TextLemmas.{append_assoc, cons-append}
use kimi_proxy.Base.Text.{begins, contains}
use kimi_proxy.Json.{Value, Fields, obj, str, get, is_str}
use kimi_proxy.Gateway.Cache
use kimi_proxy.Gateway.Cache.{
  Cached, max_entries, gateway_cache_ttl, marked, is_read_operation, get_cache_key, get_from_cache,
  update_cache,
}

length-assign {ℓ} :
    {V : Type ℓ} (k : String) (v : V) (d : Dict V) → length (assign k v d) ≤ suc (length d)
unfolding assign
length-assign k v [] = omega arith
length-assign k v ((j, w) ∷ d) = ground (arith, length-assign k v d)

length-pop_oldest : (cache : Cached) → length (Cache.pop_oldest cache) ≡ length cache - 1
unfolding Cache.pop_oldest
length-pop_oldest [] = omega arith
length-pop_oldest (entry ∷ cache) = omega arith

length-without_prefix :
    (prefix : String) (cache : Cached) → length (Cache.without_prefix prefix cache) ≤ length cache
unfolding Cache.without_prefix
length-without_prefix prefix [] = omega arith
length-without_prefix prefix ((k, entry) ∷ cache) =
    ground (arith, length-without_prefix prefix cache)

-- The cache never has more than 512 entries.
pub length-update_cache :
    (now : ℕ) (cache : Cached) (server_name : String) (key : Option String) (v : Value)
    → length cache ≤ max_entries
    → length (update_cache now cache server_name key v) ≤ max_entries
unfolding update_cache
length-update_cache now cache server_name none v h =
    omega (arith, length-without_prefix (server_name <> ":") cache)
length-update_cache now cache server_name (some key) v h = ground (
  arith,
  length-pop_oldest cache,
  length-assign key (now, v) cache,
  length-assign key (now, v) (Cache.pop_oldest cache),
)

begins-append : (s t : String) → begins (s <> t) s ≡ true
unfolding begins
begins-append Text.[] t = refl
begins-append (Text.◌∷◌ c s) t = rw (cons-append c s t) (ground (arith, begins-append s t))

lookup-without_prefix :
    (prefix k : String) (cache : Cached)
    → lookup k (Cache.without_prefix prefix cache)
      ≡ (if begins k prefix then none else lookup k cache)
unfolding Cache.without_prefix lookup
lookup-without_prefix prefix k [] = ground arith
lookup-without_prefix prefix k ((j, entry) ∷ cache) =
    ground (arith, eq_iff j k, lookup-without_prefix prefix k cache)

-- the words that tell a call that writes
abbrev pub has_verb : String → Bool
has_verb name =
    any (λ (verb : String). contains verb name)
      ("write" ∷ "edit" ∷ "create" ∷ "delete" ∷ "remove" ∷ "update" ∷ [])

module _ (digest : Fields → String) where
  begins-get_cache_key :
      (server_name : String) (request : Fields)
      → begins (get_cache_key digest server_name request) (server_name <> ":") ≡ true
  unfolding get_cache_key
  begins-get_cache_key server_name request =
      rw (sym (append_assoc server_name ":" (digest request)))
        (begins-append (server_name <> ":") (digest request))

  nothing_found :
      (later : ℕ) (cache : Cached) (server_name : String) (request : Fields)
      → lookup (get_cache_key digest server_name request) cache ≡ none
      → (get_from_cache digest later cache server_name request).1 ≡ none
  unfolding get_from_cache Cache.if_fresh
  nothing_found later cache server_name request gone =
      elim (Bool-cases (is_read_operation request)) [
        | inl p ↦ rw (p, gone) refl
        | inr p ↦ rw p refl
      ]

  same_lookup :
      (later : ℕ) (cache' cache : Cached) (server_name : String) (request : Fields)
      → lookup (get_cache_key digest server_name request) cache'
        ≡ lookup (get_cache_key digest server_name request) cache
      → get_from_cache digest later cache' server_name request
        ≡ get_from_cache digest later cache server_name request
  unfolding get_from_cache
  same_lookup later cache' cache server_name request e = rw e refl

  no_key :
      (now : ℕ) (cache : Cached) (server_name : String) (written params : Fields) (name : String)
      → get "params" written ≡ obj params
      → get "name" params ≡ str name
      → has_verb name ≡ true
      → (get_from_cache digest now cache server_name written).0 ≡ none
  unfolding get_from_cache is_read_operation Cache.params_read Cache.reads
  no_key now cache server_name written params name e f h =
      elim (Bool-cases (is_str "tools/call" (get "method" written))) [
        | inl p ↦ rw (p, e, f, h) refl
        | inr p ↦ rw p refl
      ]

  without_key :
      (stored_at later : ℕ) (cache : Cached) (server_name other : String) (v : Value)
      (request : Fields)
      → begins (get_cache_key digest other request) (server_name <> ":") ≡ false
      → let cache' = update_cache stored_at cache server_name none v in
        ((get_from_cache digest later cache' server_name request).1 ≡ none)
        × (get_from_cache digest later cache' other request
            ≡ get_from_cache digest later cache other request)
  unfolding update_cache
  without_key stored_at later cache server_name other v request apart = (
    nothing_found later _ server_name request (
        rw
          (
            lookup-without_prefix (server_name <> ":") (get_cache_key digest server_name request)
                cache,
            begins-get_cache_key server_name request,
          )
          refl),
    same_lookup later _ cache other request (
        rw
          (
            lookup-without_prefix (server_name <> ":") (get_cache_key digest other request) cache,
            apart,
          )
          refl),
  )

  -- After an answer to a call of a tool whose name has one of the verbs in it, the cache has no answer
  -- of that server, and for every other server the same as before, if the key of the other server's
  -- request does not begin with the name of the first one and a colon.
  pub get_from_cache-update_cache_written :
      (now stored_at later : ℕ) (cache : Cached) (server_name other : String) (v : Value)
      (request written params : Fields) (name : String)
      → get "params" written ≡ obj params
      → get "name" params ≡ str name
      → has_verb name ≡ true
      → begins (get_cache_key digest other request) (server_name <> ":") ≡ false
      → let key = (get_from_cache digest now cache server_name written).0 in
        let cache' = update_cache stored_at cache server_name key v in
        ((get_from_cache digest later cache' server_name request).1 ≡ none)
        × (get_from_cache digest later cache' other request
            ≡ get_from_cache digest later cache other request)
  get_from_cache-update_cache_written now stored_at later cache server_name other v request written
        params name e f h apart =
      subst
        (λ key.
          let cache' = update_cache stored_at cache server_name key v in
          ((get_from_cache digest later cache' server_name request).1 ≡ none)
          × (get_from_cache digest later cache' other request
              ≡ get_from_cache digest later cache other request))
        (sym (no_key now cache server_name written params name e f h))
        (without_key stored_at later cache server_name other v request apart)

  -- An answer to a call that only reads is given again, with the mark, to the same request for 30
  -- seconds.
  pub get_from_cache-update_cache :
      (now stored_at later : ℕ) (cache : Cached) (server_name : String) (v : Value)
      (request : Fields)
      → is_read_operation request ≡ true
      → later - stored_at < gateway_cache_ttl
      → (get_from_cache digest later
          (update_cache stored_at cache server_name
            (get_from_cache digest now cache server_name request).0
            v)
          server_name
          request).1
        ≡ some (marked v)
  unfolding update_cache get_from_cache Cache.if_fresh
  get_from_cache-update_cache now stored_at later cache server_name v request reads fresh =
      let key = get_cache_key digest server_name request in
      let kept = if leb max_entries (length cache) then Cache.pop_oldest cache else cache in
      rw (reads, lookup-assign key key (stored_at, v) kept, eq_refl key) (ground arith)
