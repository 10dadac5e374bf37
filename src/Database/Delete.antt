-- ===== src/Database/Delete.antt =====
-- The deletion of sessions with all that refers to them (core/database.py).
pub mod Gone
pub mod Bulk
use kimi_proxy.Base.{
  ℕ, suc, ◌+◌, String, Bool, true, false, Option, List, [], ◌∷◌, ◌++◌, ◌==◌, ◌&&◌, elem, is_some,
  if◌then◌else◌,
}
use kimi_proxy.Base.Tables.{Table, find, erase}
use kimi_proxy.Database.{Database, SessionRow, MetricRow, CompactionRow, invalidate_session_cache}

-- the other tables that rows are deleted from
abbrev pub emptied_tables : List String
emptied_tables =
    "memory_metrics" ∷ "memory_segments" ∷ "compression_log" ∷ "mcp_memory_entries"
    ∷ "mcp_compression_results" ∷ "mcp_routing_decisions" ∷ []

-- `DELETE FROM metrics WHERE session_id = ?`
metrics_without : ℕ → Table MetricRow → Table MetricRow
metrics_without session_id [] = []
metrics_without session_id ((i, m) ∷ t) =
    let rest = metrics_without session_id t in
    if m.session_id == session_id then rest else (i, m) ∷ rest

-- `DELETE FROM compaction_history WHERE session_id = ?`
history_without : ℕ → Table CompactionRow → Table CompactionRow
history_without session_id [] = []
history_without session_id ((i, c) ∷ t) =
    let rest = history_without session_id t in
    if c.session_id == session_id then rest else (i, c) ∷ rest

-- the deletions from the other tables
others_without : ℕ → List (String × ℕ) → List (String × ℕ)
others_without session_id [] = []
others_without session_id ((table, j) ∷ rows) =
    let rest = others_without session_id rows in
    if elem table emptied_tables && (j == session_id) then rest else (table, j) ∷ rest

-- Without a row of the session nothing is committed; where a statement raises, all is rolled back.
unfoldable pub delete_session : Bool → ℕ → Database → Database × Bool
unfolding metrics_without history_without others_without invalidate_session_cache
delete_session true session_id db = (invalidate_session_cache db, false)
delete_session false session_id db =
    let db' = invalidate_session_cache db in
    if is_some (find session_id db.sessions)
    then (
      record db' {
        sessions = erase session_id db.sessions;
        metrics = metrics_without session_id db.metrics;
        compaction_history = history_without session_id db.compaction_history;
        others = others_without session_id db.others;
      },
      true,
    )
    else (db', false)

pub record Deletions : Type 0 where
  pub success : Bool
  pub deleted_count : ℕ
  pub failed_ids : List ℕ

note : ℕ → Bool → Deletions → Deletions
note session_id true r = record r { deleted_count = suc r.deleted_count }
note session_id false r = record r { success = false; failed_ids = r.failed_ids ++ session_id ∷ [] }

-- the ids, each with whether a statement of its deletion raises
delete_all : List (ℕ × Bool) → Database → Deletions → Database × Deletions
unfolding note
delete_all [] db r = (db, r)
delete_all ((session_id, raises) ∷ ids) db r =
    let (db', deleted) = delete_session raises session_id db in
    delete_all ids db' (note session_id deleted r)

unfoldable pub delete_sessions_bulk : List (ℕ × Bool) → Database → Database × Deletions
unfolding delete_all
delete_sessions_bulk session_ids db =
    delete_all session_ids db (record { success = true; deleted_count = 0; failed_ids = [] })
