-- ===== src/AutoSession.antt =====
-- The sessions that a request creates by itself (core/auto_session.py). A session is a row of the
-- database with its id; the model of a request is a text. The clock's text, `str.title` and the
-- sending of the news to the web sockets are parameters.
pub mod Settled
use kimi_proxy.Base.{
  ℕ, String, ◌<>◌, Bool, true, false, not, ◌||◌, ◌&&◌, Option, none, some, or_else, List, [], ◌∷◌,
  Dict, lookup, is_some, ◌=ₛ◌, if◌then◌else◌,
}
use kimi_proxy.Base.Text.{strip}
use kimi_proxy.Base.Words.{ends, replace}
use kimi_proxy.Base.Tables.{Table, find, set}
use kimi_proxy.Json.{Value, Fields, str, obj, as_obj, get}
use kimi_proxy.Router.{Model, map_model_name}
use kimi_proxy.Database.{SessionRow, Database, create_session, update_session_external_id}

-- `_auto_session_cache`
unfoldable pub get_auto_session_status : ℕ → Table Bool → Bool
get_auto_session_status session_id statuses = or_else (find session_id statuses) true

unfoldable pub set_auto_session_status : ℕ → Bool → Table Bool → Table Bool
set_auto_session_status session_id enabled statuses = set session_id enabled statuses

-- the second loop: the internal names
internal_provider : String → Dict Model → Option String
internal_provider model [] = none
internal_provider model ((key, m) ∷ ms) =
    let rest = internal_provider model ms in
    let internal_model = or_else m.model "" in
    if (internal_model =ₛ model) || ends internal_model ("/" <> model) then m.provider else rest

-- the first loop: the keys
keyed_provider : String → Dict Model → Dict Model → Option String
unfolding internal_provider
keyed_provider model [] models = internal_provider model models
keyed_provider model ((key, m) ∷ ms) models =
    let rest = keyed_provider model ms models in
    if ends key ("/" <> model) || (key =ₛ model) then m.provider else rest

found_provider : String → Dict Model → Option Model → Option String
unfolding keyed_provider
found_provider model models (some m) = m.provider
found_provider model models none = keyed_provider model models models

unfoldable pub detect_provider_from_model : String → Dict Model → Option String
unfolding found_provider
detect_provider_from_model model models = found_provider model models (lookup model models)

-- `value.strip() or None`
unfoldable pub normalized : String → Option String
normalized s = if strip s =ₛ "" then none else some (strip s)

unfoldable pub normalize_optional_string : Option String → Option String
unfolding normalized
normalize_optional_string none = none
normalize_optional_string (some s) = normalized s

normalize_value : Value → Option String
unfolding normalized
normalize_value (str s) = normalized s
normalize_value v = none

-- the value at a path, null where it ends
at_path : List String → Value → Value
at_path [] v = v
at_path (segment ∷ path) (obj d) = at_path path (get segment d)
at_path (segment ∷ path) v = Value.null

first_of : Option String → Option String → Option String
first_of none rest = rest
first_of (some s) rest = some s

unfoldable pub extract_nested_string : Fields → List (List String) → Option String
unfolding at_path normalize_value first_of
extract_nested_string payload [] = none
extract_nested_string payload (path ∷ paths) =
    let rest = extract_nested_string payload paths in
    first_of (normalize_value (at_path path (obj payload))) rest

unfoldable pub extract_provider_from_request : Fields → Option String
unfolding extract_nested_string
extract_provider_from_request request_body =
    extract_nested_string request_body
      (("provider" ∷ []) ∷ ("metadata" ∷ "provider" ∷ []) ∷ ("session" ∷ "provider" ∷ []) ∷ [])

unfoldable pub extract_external_session_id_from_request : Fields → Option String
unfolding extract_nested_string
extract_external_session_id_from_request request_body = extract_nested_string request_body (
    ("external_session_id" ∷ [])
    ∷ ("session_external_id" ∷ [])
    ∷ ("metadata" ∷ "external_session_id" ∷ [])
    ∷ ("metadata" ∷ "session_external_id" ∷ [])
    ∷ ("session" ∷ "external_session_id" ∷ [])
    ∷ ("session" ∷ "session_external_id" ∷ [])
    ∷ [])

-- both are there, and differ
unfoldable pub both_differ : Option String → Option String → Bool
both_differ (some a) (some b) = not (a =ₛ b)
both_differ _ _ = false

-- `a != b`
unfoldable pub differ : Option String → Option String → Bool
differ none none = false
differ (some a) (some b) = not (a =ₛ b)
differ _ _ = true

unfoldable pub should_auto_create_session :
    String → String → Option (ℕ × SessionRow) → Option String → Bool
unfolding normalize_optional_string both_differ differ
should_auto_create_session provider model none external = true
should_auto_create_session provider model (some (id, s)) external =
    both_differ (normalized provider) (normalized s.provider)
    || both_differ (normalize_optional_string external)
        (normalize_optional_string s.external_session_id)
    || differ (normalized model) (normalize_optional_string s.model)

-- what the creation calls: the time of the row and its text, `str.title`, and whether the news of
-- the new session are sent without an exception
pub record Outside : Type 0 where
  pub now : ℕ
  pub timestamp : String
  pub title : String → String
  pub broadcasts : Bool

unfoldable pub session_name : Outside → String → String
session_name o detected_provider =
    "Session "
    <> (o.title (replace "-" " " (replace "managed:" "" detected_provider)) <> (" " <> o.timestamp))

-- a session that was created, unless telling of it raises
unfoldable pub auto_create_session :
    Outside → String → String → Option String → Database → Database × Option (ℕ × SessionRow)
unfolding session_name
auto_create_session o provider model external db =
    let (db', created) =
      create_session o.now (session_name o provider) provider (some model) external db in
    (db', if o.broadcasts then some created else none)

-- the session to use, and whether it was created
abbrev pub Chosen : Type 0
Chosen = Option (ℕ × SessionRow) × Bool

-- the external id is noted in a session that has none
note_external_id : Option (ℕ × SessionRow) → Option String → Database → Database × Chosen
note_external_id none external db = (db, (none, false))
note_external_id (some s) none db = (db, (some s, false))
note_external_id (some (id, s)) (some external) db =
    if is_some (normalize_optional_string s.external_session_id)
    then (db, (some (id, s), false))
    else (
      (update_session_external_id id (some external) db).0,
      (some (id, record s { external_session_id = some external }), false),
    )

-- the mode of the session, which is on without one
is_automatic : Option (ℕ × SessionRow) → Table Bool → Bool
is_automatic none statuses = true
is_automatic (some (id, s)) statuses = get_auto_session_status id statuses

use_created : Option (ℕ × SessionRow) → Database × Option (ℕ × SessionRow) → Database × Chosen
use_created current (db, some created) = (db, (some created, true))
use_created current (db, none) = (db, (current, false))

with_provider :
    Outside
    → Dict Model
    → Table Bool
    → String
    → Option String
    → Option (ℕ × SessionRow)
    → Database
    → Option String
    → Database × Chosen
unfolding note_external_id is_automatic use_created
with_provider o models statuses model external current db none = (db, (current, false))
with_provider o models statuses model external current db (some provider) =
    let mapped_model = map_model_name model models in
    if not (should_auto_create_session provider mapped_model current external)
    then note_external_id current external db
    else if not (is_automatic current statuses)
    then (db, (current, false))
    else use_created current (auto_create_session o provider mapped_model external db)

-- a provider that is an empty text counts as none
truthy : Option String → Option String
truthy none = none
truthy (some s) = if s =ₛ "" then none else some s

unfoldable pub process_auto_session :
    Outside
    → Dict Model
    → Table Bool
    → String
    → Fields
    → Option (ℕ × SessionRow)
    → Database
    → Database × Chosen
unfolding with_provider first_of truthy
process_auto_session o models statuses model request_body current db =
    if model =ₛ ""
    then (db, (current, false))
    else with_provider o models statuses model
        (extract_external_session_id_from_request request_body) current db
        (truthy (
          first_of (extract_provider_from_request request_body)
            (detect_provider_from_model model models)))
