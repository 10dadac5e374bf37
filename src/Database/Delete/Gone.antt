-- ===== src/Database/Delete/Gone.antt =====
-- What is left of a session that is deleted, and of the other sessions.
use kimi_proxy.Base.{
  ℕ, ◌≡◌, refl, ◌∙◌, ◌⊎◌, inl, inr, String, Bool, true, false, none, is_some, List, [], ◌∷◌, any,
  arith, Bool-cases, ◌==◌, ◌&&◌, ◌||◌, not, elem,
}
use kimi_proxy.Base.Tables.{Table, find, find-erase}
use kimi_proxy.Database.{
  Database, MetricRow, CompactionRow, invalidate_session_cache, get_session_by_id,
}
use kimi_proxy.Database.Usage
use kimi_proxy.Database.Usage.{
  Tokens, get_session_cumulative_tokens, get_session_total_tokens, last_metric_of,
}
use kimi_proxy.Database.Delete
use kimi_proxy.Database.Delete.{Deletions, delete_session, delete_sessions_bulk, emptied_tables}

-- the other tables with a FOREIGN KEY (session_id) in the schema
abbrev pub referring_tables : List String
referring_tables =
    "memory_metrics" ∷ "memory_segments" ∷ "compression_log" ∷ "mcp_memory_entries"
    ∷ "mcp_compression_results" ∷ "mcp_routing_decisions" ∷ []

-- some row refers to the session
abbrev pub refers : ℕ → Database → Bool
refers k db =
    any (λ (row : ℕ × MetricRow). row.1.session_id == k) db.metrics
    || any (λ (row : ℕ × CompactionRow). row.1.session_id == k) db.compaction_history
    || any (λ (row : String × ℕ). elem row.0 referring_tables && (row.1 == k)) db.others

metrics_without_lem :
    (k : ℕ) (t : Table MetricRow)
    → any (λ (row : ℕ × MetricRow). row.1.session_id == k) (Delete.metrics_without k t) ≡ false
unfolding Delete.metrics_without
metrics_without_lem k [] = refl
metrics_without_lem k ((i, m) ∷ t) = ground (arith, metrics_without_lem k t)

history_without_lem :
    (k : ℕ) (t : Table CompactionRow)
    → any (λ (row : ℕ × CompactionRow). row.1.session_id == k) (Delete.history_without k t) ≡ false
unfolding Delete.history_without
history_without_lem k [] = refl
history_without_lem k ((i, m) ∷ t) = ground (arith, history_without_lem k t)

others_without_lem :
    (k : ℕ) (rows : List (String × ℕ))
    → any
        (λ (row : String × ℕ). elem row.0 referring_tables && (row.1 == k))
        (Delete.others_without k rows)
      ≡ false
unfolding Delete.others_without
others_without_lem k [] = refl
others_without_lem k ((table, j) ∷ rows) =
    elim (Bool-cases (elem table emptied_tables && (j == k))) [
      | inl p ↦ rw p (others_without_lem k rows)
      | inr p ↦ rw (p, p) (others_without_lem k rows)
    ]

rows_of-metrics_without :
    (j k : ℕ) (t : Table MetricRow)
    → (k == j) ≡ false
    → Usage.rows_of j (Delete.metrics_without k t) ≡ Usage.rows_of j t
unfolding Delete.metrics_without Usage.rows_of
rows_of-metrics_without j k [] h = refl
rows_of-metrics_without j k ((i, m) ∷ t) h = ground (arith, rows_of-metrics_without j k t h)

find-none :
    (k : ℕ) (db : Database) → is_some (find k db.sessions) ≡ false → find k db.sessions ≡ none
find-none k db h = ground arith

deleted :
    (raises : Bool) (k : ℕ) (db : Database) (b : Bool)
    → is_some (find k db.sessions) ≡ b
    → let (db', found) = delete_session raises k db in
      (found ≡ (b && not raises))
      × ((((raises || not b) ≡ true) × (db' ≡ invalidate_session_cache db))
          ⊎ ((get_session_by_id k db' ≡ none) × (refers k db' ≡ false)))
unfolding delete_session get_session_by_id invalidate_session_cache
deleted true k db true h = (refl, inl (refl, refl))
deleted true k db false h = (refl, inl (refl, refl))
deleted false k db true h = rw h (
  refl,
  inr (
    find-erase k k db.sessions ∙ ground arith,
    rw
        (
          metrics_without_lem k db.metrics,
          history_without_lem k db.compaction_history,
          others_without_lem k db.others,
        )
        refl,
  ),
)
deleted false k db false h = rw h (refl, inl (refl, refl))

others_kept :
    (raises : Bool) (k j : ℕ) (db : Database)
    → (k == j) ≡ false
    → let db' = (delete_session raises k db).0 in
      (get_session_by_id j db' ≡ get_session_by_id j db)
      × (get_session_cumulative_tokens j db' ≡ get_session_cumulative_tokens j db)
unfolding delete_session get_session_by_id get_session_cumulative_tokens invalidate_session_cache
others_kept true k j db h = (refl, refl)
others_kept false k j db h = elim (Bool-cases (is_some (find k db.sessions))) [
  | inl p ↦
      rw (p, find-erase k j db.sessions, h, rows_of-metrics_without j k db.metrics h) (refl, refl)
  | inr p ↦ rw p (refl, refl)
]

pub delete_session-refers :
    (raises : Bool) (k : ℕ) (db : Database)
    → let (db', found) = delete_session raises k db in
      let there = is_some (get_session_by_id k db) in
      (found ≡ (there && not raises))
      × ((((raises || not there) ≡ true) × (db' ≡ invalidate_session_cache db))
          ⊎ ((get_session_by_id k db' ≡ none) × (refers k db' ≡ false)))
      × ((j : ℕ)
          → (k == j) ≡ false
          → (get_session_by_id j db' ≡ get_session_by_id j db)
            × (get_session_cumulative_tokens j db' ≡ get_session_cumulative_tokens j db))
unfolding get_session_by_id
delete_session-refers raises k db =
    let (a, b) = deleted raises k db (is_some (find k db.sessions)) refl in
    (a, b, λ j h. others_kept raises k j db h)
