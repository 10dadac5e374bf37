-- ===== src/Database.antt =====
-- The sessions in the database (core/database.py): the statements on the table `sessions` as
-- functions on its rows, and the cache of the active session. The rows of a table are keyed by their
-- ids, which AUTOINCREMENT never gives twice. Times are in microseconds; errors of SQLite are
-- modelled for the deletion alone. AutoTrigger has the columns of automatic compactions on its own.
pub mod Active
pub mod Valid
pub mod Stale
pub mod Usage
pub mod Delete
pub mod Automatic
use kimi_proxy.Base.{
  ℕ, zero, suc, ◌+◌, ◌-◌, ℤ, pos, String, count, ◌<>◌, Bool, true, false, ◌||◌, Option, none, some,
  List, [], ◌∷◌, ◌++◌, ltb, is_some, ◌=ₛ◌, if◌then◌else◌,
}
use kimi_proxy.Base.Text.{strip, begins, take_chars}
use kimi_proxy.Base.Tables.{Table, find, update}

pub record SessionRow : Type 0 where
  pub name : String
  pub provider : String
  pub model : Option String
  pub external_session_id : Option String
  pub created_at : ℕ
  pub is_active : Bool
  pub reserved_tokens : ℤ
  pub compaction_count : Option ℕ
  pub last_compaction_at : Option ℕ
  pub auto_compaction_enabled : Bool
  -- the bits of a float
  pub auto_compaction_threshold : ℕ
  pub consecutive_auto_compactions : Option ℕ

pub record MetricRow : Type 0 where
  pub session_id : ℕ
  pub timestamp : ℕ
  pub estimated_tokens : ℕ
  -- percentage and memory_ratio are the bits of floats
  pub percentage : ℕ
  pub content_preview : String
  pub prompt_tokens : Option ℕ
  pub completion_tokens : Option ℕ
  pub is_estimated : Bool
  pub source : String
  pub memory_tokens : ℕ
  pub chat_tokens : ℕ
  pub memory_ratio : ℕ

pub record CompactionRow : Type 0 where
  pub session_id : ℕ
  pub timestamp : ℕ
  pub tokens_before : ℕ
  pub tokens_after : ℕ
  pub tokens_saved : ℤ
  pub preserved_messages : ℕ
  pub summarized_messages : ℕ
  -- the bits of a float
  pub compaction_ratio : ℕ
  pub trigger_reason : String

-- The tables, with the last id that each has given. `others` has the tables that this code only
-- deletes from: for each of their rows, the name of the table and the session.
pub record Database : Type 0 where
  pub sessions : Table SessionRow
  pub last_session : ℕ
  pub metrics : Table MetricRow
  pub last_metric : ℕ
  pub compaction_history : Table CompactionRow
  pub last_compaction : ℕ
  pub others : List (String × ℕ)
  pub cached_active_session : Option (ℕ × SessionRow)
  pub cached_active_session_time : ℕ

abbrev pub active_session_cache_ttl : ℕ
active_session_cache_ttl = 2000000

unfoldable pub invalidate_session_cache : Database → Database
invalidate_session_cache db = record db { cached_active_session = none }

newer : ℕ × SessionRow → Option (ℕ × SessionRow) → Option (ℕ × SessionRow)
newer a none = some a
newer a (some b) = if ltb b.0 a.0 then some a else some b

-- `SELECT * FROM sessions WHERE is_active = 1 ORDER BY id DESC LIMIT 1`
unfoldable pub newest_active : Table SessionRow → Option (ℕ × SessionRow)
unfolding newer
newest_active [] = none
newest_active ((i, s) ∷ t) =
    let rest = newest_active t in if s.is_active then newer (i, s) rest else rest

fetch : ℕ → Database → Database × Option (ℕ × SessionRow)
fetch now db =
    let res = newest_active db.sessions in
    (record db { cached_active_session = res; cached_active_session_time = now }, res)

cached_or_fetched : ℕ → Database → Option (ℕ × SessionRow) → Database × Option (ℕ × SessionRow)
unfolding fetch
cached_or_fetched now db none = fetch now db
cached_or_fetched now db (some s) =
    if ltb (now - db.cached_active_session_time) active_session_cache_ttl
    then (db, some s)
    else fetch now db

unfoldable pub get_active_session : ℕ → Database → Database × Option (ℕ × SessionRow)
unfolding cached_or_fetched
get_active_session now db = cached_or_fetched now db db.cached_active_session

unfoldable pub get_session_by_id : ℕ → Database → Option SessionRow
get_session_by_id session_id db = find session_id db.sessions

-- `UPDATE sessions SET is_active = 0`
unfoldable pub deactivate : Table SessionRow → Table SessionRow
deactivate [] = []
deactivate ((i, s) ∷ t) = (i, record s { is_active = false }) ∷ deactivate t

-- the column `model`, which an empty text leaves NULL
unfoldable pub nonempty : Option String → Option String
nonempty none = none
nonempty (some s) = if s =ₛ "" then none else some s

unfoldable pub new_row : ℕ → String → String → Option String → Option String → SessionRow
unfolding nonempty
new_row now name provider model external_session_id = record {
  name = name;
  provider = provider;
  model = nonempty model;
  external_session_id = external_session_id;
  created_at = now;
  is_active = true;
  reserved_tokens = pos 0;
  compaction_count = some 0;
  last_compaction_at = none;
  auto_compaction_enabled = true;
  -- 0.85
  auto_compaction_threshold = 4605831338911806259;
  consecutive_auto_compactions = some 0;
}

-- the new session with its id
unfoldable pub create_session :
    ℕ → String → String → Option String → Option String → Database → Database × (ℕ × SessionRow)
unfolding invalidate_session_cache deactivate new_row
create_session now name provider model external_session_id db =
    let row = new_row now name provider model external_session_id in
    let session_id = suc db.last_session in
    (
      record (invalidate_session_cache db) {
        sessions = deactivate db.sessions ++ (session_id, row) ∷ [];
        last_session = session_id;
      },
      (session_id, row),
    )

-- an UPDATE of the row of a session, and `cursor.rowcount > 0`
update_row : ℕ → (SessionRow → SessionRow) → Database → Database × Bool
update_row session_id f db = (
  record db { sessions = update session_id f db.sessions },
  is_some (find session_id db.sessions),
)

unfoldable pub update_session_model : ℕ → String → Database → Database × Bool
unfolding update_row invalidate_session_cache
update_session_model session_id model db =
    update_row session_id (λ s. record s { model = some model }) (invalidate_session_cache db)

stripped : Option String → Option String
stripped none = none
stripped (some s) = if strip s =ₛ "" then none else some (strip s)

unfoldable pub update_session_external_id : ℕ → Option String → Database → Database × Bool
unfolding update_row stripped invalidate_session_cache
update_session_external_id session_id external_session_id db =
    update_row session_id (λ s. record s { external_session_id = stripped external_session_id })
      (invalidate_session_cache db)

renamed : String → SessionRow → SessionRow
renamed prompt s = record s {
  name = if ltb 50 (count prompt) then take_chars 50 prompt <> "..." else prompt;
}

name_after : ℕ → String → Database → Option SessionRow → Database
unfolding renamed
name_after session_id prompt db none = db
name_after session_id prompt db (some s) =
    if begins s.name "Session" || (s.name =ₛ "Session par défaut")
    then record db { sessions = update session_id (renamed prompt) db.sessions }
    else db

unfoldable pub update_session_first_prompt : ℕ → String → Database → Database
unfolding name_after invalidate_session_cache
update_session_first_prompt session_id prompt db =
    name_after session_id prompt (invalidate_session_cache db) (find session_id db.sessions)

activated : SessionRow → SessionRow
activated s = record s { is_active = true }

unfoldable pub set_active_session : ℕ → Database → Database × Bool
unfolding update_row activated deactivate invalidate_session_cache
set_active_session session_id db =
    update_row session_id activated
      (record (invalidate_session_cache db) { sessions = deactivate db.sessions })

-- These two do not invalidate the cache.
unfoldable pub update_session_reserved_tokens : ℕ → ℤ → Database → Database × Bool
unfolding update_row
update_session_reserved_tokens session_id reserved_tokens db =
    update_row session_id (λ s. record s { reserved_tokens = reserved_tokens }) db
