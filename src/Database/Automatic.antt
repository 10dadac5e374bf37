-- ===== src/Database/Automatic.antt =====
-- The columns of the automatic compactions (core/database.py), and the model that routing writes
-- (features/sanitizer/routing.py). None of these operations empties the cache of the active session.
use kimi_proxy.Base.{ℕ, ◌+◌, String, Bool, Option, none, some, or_else}
use kimi_proxy.Base.Tables.{find, update}
use kimi_proxy.Database
use kimi_proxy.Database.{Database, SessionRow}

unfoldable pub update_session_auto_compaction : ℕ → Bool → Database → Database × Bool
unfolding Database.update_row
update_session_auto_compaction session_id enabled db =
    Database.update_row session_id (λ s. record s { auto_compaction_enabled = enabled }) db

-- the threshold as the bits of a float
unfoldable pub update_session_auto_threshold : ℕ → ℕ → Database → Database × Bool
unfolding Database.update_row
update_session_auto_threshold session_id threshold db =
    Database.update_row session_id (λ s. record s { auto_compaction_threshold = threshold }) db

unfoldable pub one_more : SessionRow → SessionRow
one_more s = record s {
  consecutive_auto_compactions = some (or_else s.consecutive_auto_compactions 0 + 1);
}

-- `cursor.fetchone()[0] or 0`, none where there is no row
count_of : Option SessionRow → Option ℕ
count_of none = none
count_of (some s) = some (or_else s.consecutive_auto_compactions 0)

unfoldable pub increment_consecutive_auto_compactions : ℕ → Database → Database × Option ℕ
unfolding one_more count_of
increment_consecutive_auto_compactions session_id db =
    let sessions' = update session_id one_more db.sessions in
    (record db { sessions = sessions' }, count_of (find session_id sessions'))

unfoldable pub reset_consecutive_auto_compactions : ℕ → Database → Database × Bool
unfolding Database.update_row
reset_consecutive_auto_compactions session_id db =
    Database.update_row session_id (λ s. record s { consecutive_auto_compactions = some 0 }) db

-- the statement of the fallback to a larger model
unfoldable pub write_fallback_model : ℕ → String → Database → Database
write_fallback_model session_id fallback_model db = record db {
  sessions = update session_id (λ s. record s { model = some fallback_model }) db.sessions;
}
