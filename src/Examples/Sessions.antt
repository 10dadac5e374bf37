-- ===== src/Examples/Sessions.antt =====
-- The database and the sessions that requests create, at concrete rows.
use kimi_proxy.Base.{
  Bool, ℕ, ◌+◌, ◌≡◌, refl, ◌⊎◌, inl, pos, true, false, none, some, is_some, List, [], ◌∷◌, length,
  arith, Dict, lookup,
}
use kimi_proxy.Base.Text.{strip}
use kimi_proxy.Base.Words.{ends, replace}
use kimi_proxy.Base.Tables.{find}
use kimi_proxy.Json.{Fields, str, field, end, get}
use kimi_proxy.Router.{Model, map_model_name}
use kimi_proxy.Database.{
  Database, SessionRow, MetricRow, newest_active, get_active_session, create_session,
  set_active_session, get_session_by_id,
}
use kimi_proxy.Database.Active.{
  get_active_session-create_session, get_active_session-set_active_session, activated_row,
}
use kimi_proxy.Database.Valid.{
  IsValid, active_count, Call, create, delete, set_active, get_active, steps, steps-IsValid,
}
use kimi_proxy.Database.Stale.{get_active_session-steps}
use kimi_proxy.Database.Usage.{
  save_metric, update_metric_with_real_tokens, get_session_total_tokens,
}
use kimi_proxy.Database.Usage.Totals.{get_session_total_tokens-save_metric}
use kimi_proxy.Database.Delete.{delete_sessions_bulk}
use kimi_proxy.Database.Delete.Bulk.{
  failing, left, is_there, is_empty, delete_sessions_bulk-failing,
}
use kimi_proxy.AutoSession.{
  Outside, process_auto_session, extract_provider_from_request,
  extract_external_session_id_from_request, detect_provider_from_model, should_auto_create_session,
  auto_create_session, get_auto_session_status, extract_nested_string, normalized, session_name,
  both_differ, differ,
}
use kimi_proxy.AutoSession.Settled.{process_auto_session-again}

abbrev row : SessionRow
row = record {
  name = "Session 1";
  provider = "managed:kimi-code";
  model = some "kimi";
  external_session_id = none;
  created_at = 5;
  is_active = true;
  reserved_tokens = pos 0;
  compaction_count = some 0;
  last_compaction_at = none;
  auto_compaction_enabled = true;
  auto_compaction_threshold = 4605831338911806259;
  consecutive_auto_compactions = some 0;
}

abbrev metric : MetricRow
metric = record {
  session_id = 3;
  timestamp = 6;
  estimated_tokens = 100;
  percentage = 0;
  content_preview = "read a";
  prompt_tokens = some 0;
  completion_tokens = some 0;
  is_estimated = true;
  source = "proxy";
  memory_tokens = 0;
  chat_tokens = 0;
  memory_ratio = 0;
}

abbrev db : Database
db = record {
  sessions = (3, row) ∷ [];
  last_session = 4;
  metrics = (8, metric) ∷ [];
  last_metric = 9;
  compaction_history = [];
  last_compaction = 0;
  others = ("memory_metrics", 3) ∷ [];
  cached_active_session = none;
  cached_active_session_time = 0;
}

db-IsValid : IsValid db
unfolding active_count find
db-IsValid = ((omega arith, refl, tt), omega arith)

get_active_session-create_session_example :
    let (db', created) = create_session 7 "Session 2" "nvidia" none none db in
    ((get_active_session 8 db').1 ≡ some created)
    × (get_session_by_id created.0 db' ≡ some created.1)
    × (get_session_by_id created.0 db ≡ none)
get_active_session-create_session_example =
    get_active_session-create_session 7 8 "Session 2" "nvidia" none none db db-IsValid

get_active_session-set_active_session_example :
    let (db', found) = set_active_session 5 db in
    (found ≡ is_some (get_session_by_id 5 db))
    × ((get_active_session 8 db').1 ≡ activated_row 5 (get_session_by_id 5 db))
get_active_session-set_active_session_example =
    get_active_session-set_active_session 8 5 db db-IsValid

abbrev calls : List Call
calls = get_active 6 ∷ create 7 "Session 2" "nvidia" none none ∷ set_active 3 ∷ delete false 5 ∷ []

steps-IsValid_example : IsValid (steps calls db)
steps-IsValid_example = steps-IsValid calls db db-IsValid

get_active_session-steps_example :
    (get_active_session 9 (steps calls db)).1 ≡ newest_active (steps calls db).sessions
get_active_session-steps_example =
    get_active_session-steps calls db 9 (refl, (refl, (refl, (refl, tt)))) (inl refl)

get_session_total_tokens-save_metric_example :
    let (db', id) = save_metric 7 3 50 0 "b" true "proxy" 0 0 0 db in
    (get_session_total_tokens 3 db'
      ≡ record { input_tokens = 50; output_tokens = 0; total_tokens = 50 + 0 })
    × (get_session_total_tokens 3 (update_metric_with_real_tokens (λ n m. n) id 40 9 49 1000 db').0
        ≡ record { input_tokens = 40; output_tokens = 9; total_tokens = 40 + 9 })
get_session_total_tokens-save_metric_example =
    get_session_total_tokens-save_metric 7 3 50 0 "b" true "proxy" 0 0 0 (λ n m. n) 40 9 49 1000 db
      ((omega arith, omega arith), tt) (omega arith)

-- the second deletion of 3 fails, and the first one of 5, which is not there
abbrev attempts : List (ℕ × Bool)
attempts = (3, false) ∷ (5, false) ∷ (3, false) ∷ []

delete_sessions_bulk-failing_example :
    let (db', r) = delete_sessions_bulk attempts db in
    (r.failed_ids ≡ failing (is_there db) attempts)
    × (r.deleted_count + length r.failed_ids ≡ length attempts)
    × (r.success ≡ is_empty r.failed_ids)
    × (is_there db' ≡ left (is_there db) attempts)
delete_sessions_bulk-failing_example = delete_sessions_bulk-failing attempts db

abbrev outside : Outside
outside = record { now = 7; timestamp = "12:00:00"; title = λ s. s; broadcasts = true }

abbrev models : Dict Model
models =
    (
      "nvidia/kimi",
      record { provider = some "nvidia"; model = some "kimi-k2"; max_context_size = none },
    )
    ∷ []

abbrev body : Fields
body = field "model" (str "kimi") end

process_auto_session-again_example :
    let (db', (chosen, created)) =
      process_auto_session outside models [] "kimi" body (some (3, row)) db in
    (created ≡ false)
    ⊎ ((c : ℕ × SessionRow) × ((chosen ≡ some c)
          × ((get_active_session 8 db').1 ≡ some c)
          × ((process_auto_session outside models [] "kimi" body (some c) db).1 ≡ (some c, false))))
process_auto_session-again_example =
    process_auto_session-again outside outside models [] [] "kimi" body (some (3, row)) 8 db db
      db-IsValid

created_test : (process_auto_session outside models [] "kimi" body (some (3, row)) db).1.1 ≡ true
unfolding process_auto_session extract_provider_from_request
    extract_external_session_id_from_request detect_provider_from_model should_auto_create_session
    auto_create_session get_auto_session_status map_model_name lookup extract_nested_string
    normalized find get ends strip session_name replace create_session both_differ differ
created_test = refl
