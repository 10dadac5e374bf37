-- ===== src/AutoTrigger.antt =====
-- The automatic compaction (src/kimi_proxy/features/compaction/auto_trigger.py), with the columns of
-- the table of sessions that it reads and writes (src/kimi_proxy/core/database.py). A time is a
-- number of seconds. `_last_check`, which is never filled, is left out.
pub mod Guards
use kimi_proxy.Base.{
  ℕ, ◌+◌, ◌*◌, ◌-◌, String, Bool, true, false, not, ◌&&◌, Option, none, some, or_else, List, [],
  ◌∷◌, length, leb, ltb, ◌>>=◌, is_some, ◌==◌, if◌then◌else◌,
}
use kimi_proxy.Base.Sorting.{elem_ℕ}
use kimi_proxy.Base.Tables.{Table, find, set, erase, update}
use kimi_proxy.Json.{Fields}
use kimi_proxy.Python.{Python}
use kimi_proxy.Compaction.{CompactionConfig, CompactionResult, should_compact, compact}

-- The thresholds are floats: `below` is `tokens / max_context < threshold`, where the quotient is 0
-- if `max_context` is not positive.
pub record Thresholds : Type 1 where
  pub Threshold : Type 0
  pub below : ℕ → ℕ → Threshold → Bool
  -- 0.85
  pub standard : Threshold

-- What the trigger calls: tiktoken, the saving of a result, and the callback. The last two tell
-- whether they return and do not raise.
pub record Outside : Type 0 where
  pub py : Python
  pub persist : CompactionResult → Bool
  pub callback : CompactionResult → Bool

module _ (th : Thresholds) where
  pub record AutoTriggerConfig : Type 0 where
    pub enabled : Bool
    pub threshold : th.Threshold
    pub cooldown_minutes : ℕ
    pub max_consecutive : ℕ
    pub min_tokens : ℕ
    pub min_messages : ℕ

  -- a row of `sessions`, where none is NULL
  pub record SessionRow : Type 0 where
    pub auto_compaction_enabled : Option Bool
    pub auto_compaction_threshold : Option th.Threshold
    pub consecutive_auto_compactions : Option ℕ

  -- the part of `get_session_compaction_state` that the trigger reads
  pub record CompactionState : Type 0 where
    pub auto_enabled : Bool
    pub auto_threshold : th.Threshold
    pub consecutive : ℕ

  -- the state of the trigger, and the database
  pub record World : Type 0 where
    pub cooldown_until : Table ℕ
    pub pending : List ℕ
    pub sessions : Table SessionRow

  unfoldable pub get_session_compaction_state : Option SessionRow → CompactionState
  get_session_compaction_state none = record {
    auto_enabled = true;
    auto_threshold = th.standard;
    consecutive = 0;
  }
  get_session_compaction_state (some row) = record {
    auto_enabled = or_else row.auto_compaction_enabled true;
    auto_threshold = or_else row.auto_compaction_threshold th.standard;
    consecutive = or_else row.consecutive_auto_compactions 0;
  }

  unfoldable pub one_more : SessionRow → SessionRow
  one_more row = record row {
    consecutive_auto_compactions = some (or_else row.consecutive_auto_compactions 0 + 1);
  }

  unfoldable pub zeroed : SessionRow → SessionRow
  zeroed row = record row { consecutive_auto_compactions = some 0 }

  unfoldable pub increment_consecutive_auto_compactions : ℕ → World → World
  increment_consecutive_auto_compactions id w = record w {
    sessions = update id one_more w.sessions;
  }

  unfoldable pub reset_consecutive_auto_compactions : ℕ → World → World
  reset_consecutive_auto_compactions id w = record w { sessions = update id zeroed w.sessions }

  cools : ℕ → Option ℕ → Bool
  cools now none = false
  cools now (some until) = ltb now until

  -- the guards of `check_and_trigger`, from the first to the last; one that fails returns None
  unfoldable pub passes : AutoTriggerConfig → ℕ → ℕ → ℕ → ℕ → List Fields → World → Bool
  unfolding cools
  passes config now id tokens max_context messages w =
      let state = get_session_compaction_state (find id w.sessions) in
      config.enabled
      && not (elem_ℕ id w.pending)
      && is_some (find id w.sessions)
      && state.auto_enabled
      && not (th.below tokens max_context state.auto_threshold)
      && not (cools now (find id w.cooldown_until))
      && ltb state.consecutive config.max_consecutive
      && leb config.min_messages (length messages)
      && leb config.min_tokens tokens

  compaction_config : AutoTriggerConfig → CompactionConfig
  compaction_config config = record {
    max_preserved_messages = 2;
    preserve_system_messages = true;
    create_summary = true;
    summary_max_length = 1000;
    min_messages_to_compact = config.min_messages;
    min_tokens_to_compact = config.min_tokens;
  }

  -- `await persist_compaction_result(result, …)`, if the result is compacted
  saved : Outside → CompactionResult → Option CompactionResult
  saved out r = if r.compacted then (if out.persist r then some r else none) else some r

  -- none where it raises; the result that is not compacted is told by its flag alone
  execute_verdict :
      Outside
      → AutoTriggerConfig
      → ℕ
      → List Fields
      → Bool × String
      → Option (Option CompactionResult)
  execute_verdict out config id messages (false, reason) = some none
  execute_verdict out config id messages (true, reason) = do
    r ← compact out.py (compaction_config config) messages id none
    r' ← saved out r
    some (if r'.compacted then some r' else none)

  unfoldable pub execute_auto_compaction :
      Outside → AutoTriggerConfig → ℕ → List Fields → Option (Option CompactionResult)
  unfolding execute_verdict saved compaction_config
  execute_auto_compaction out config id messages = do
    verdict ← should_compact out.py (compaction_config config) messages none
    execute_verdict out config id messages verdict

  pub data Outcome : Type 0 where
    raised : Outcome
    returned : Option CompactionResult → Outcome

  cool : AutoTriggerConfig → ℕ → ℕ → World → World
  cool config now id w = record w {
    cooldown_until = set id (now + config.cooldown_minutes * 60) w.cooldown_until;
  }

  remove : ℕ → List ℕ → List ℕ
  remove id [] = []
  remove id (x ∷ xs) = let rest = remove id xs in if x == id then rest else x ∷ rest

  -- the `finally` clause
  release : ℕ → World → World
  release id w = record w { pending = remove id w.pending }

  conclude :
      Outside
      → AutoTriggerConfig
      → ℕ
      → ℕ
      → World
      → Option (Option CompactionResult)
      → World × Outcome
  conclude out config now id w none = (w, raised)
  conclude out config now id w (some none) =
      (reset_consecutive_auto_compactions id w, returned none)
  conclude out config now id w (some (some r)) = (
    increment_consecutive_auto_compactions id (cool config now id w),
    (if out.callback r then returned (some r) else raised),
  )

  -- from the marking of the session to its release
  triggered : Outside → AutoTriggerConfig → ℕ → ℕ → List Fields → World → World × Outcome
  triggered out config now id messages w =
      let (w', o) =
        conclude out config now id (record w { pending = id ∷ w.pending })
          (execute_auto_compaction out config id messages) in
      (release id w', o)

  -- `now` is the time that `time.time()` returns
  unfoldable pub check_and_trigger :
      Outside → AutoTriggerConfig → ℕ → ℕ → ℕ → ℕ → List Fields → World → World × Outcome
  unfolding triggered conclude release remove cool
  check_and_trigger out config now id tokens max_context messages w =
      if passes config now id tokens max_context messages w
      then triggered out config now id messages w
      else (w, returned none)

  unfoldable pub reset_session : ℕ → World → World
  unfolding remove
  reset_session id w =
      reset_consecutive_auto_compactions id
        (record w { cooldown_until = erase id w.cooldown_until; pending = remove id w.pending })
