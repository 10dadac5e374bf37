-- ===== src/Examples/Triggers.antt =====
-- The automatic compaction at a concrete session.
use kimi_proxy.Base.{ℕ, ◌*◌, pos, refl, true, false, Option, none, some, [], ◌∷◌, ltb}
use kimi_proxy.Base.Sorting.{elem_ℕ}
use kimi_proxy.Base.Tables.{find}
use kimi_proxy.Compaction.{
  CompactionResult, should_compact, compact, summarize, all_but_last, compacted_messages, last_of,
}
use kimi_proxy.Json.{get_or}
use kimi_proxy.Tokens.{count_tokens_tiktoken}
use kimi_proxy.Examples.{py, chat}
use kimi_proxy.AutoTrigger.{
  Thresholds, Outside, AutoTriggerConfig, World, check_and_trigger, passes, execute_auto_compaction,
  returned, Outcome, get_session_compaction_state,
}
use kimi_proxy.AutoTrigger.Guards.{Guarded, Triggered, check_and_trigger-Triggered}

-- thresholds in percent
abbrev percents : Thresholds
percents = record {
  Threshold = ℕ;
  below = λ tokens max_context threshold. ltb (tokens * 100) (max_context * threshold);
  standard = 85;
}

abbrev outside : Outside
outside = record { py = py; persist = λ r. true; callback = λ r. true }

abbrev config : AutoTriggerConfig percents
config = record {
  enabled = true;
  threshold = 85;
  cooldown_minutes = 5;
  max_consecutive = 3;
  min_tokens = 10;
  min_messages = 6;
}

abbrev world : Option ℕ → World percents
world count = record {
  cooldown_until = [];
  pending = 7 ∷ [];
  sessions =
      (
        1,
        record {
          auto_compaction_enabled = none;
          auto_compaction_threshold = none;
          consecutive_auto_compactions = count;
        },
      )
      ∷ [];
}

-- where a run returns none
abbrev no_result : CompactionResult
no_result = record {
  compacted = false;
  session_id = 0;
  original_tokens = 0;
  compacted_tokens = 0;
  tokens_saved = pos 0;
  messages_before = 0;
  messages_after = 0;
  system_preserved = 0;
  recent_preserved = 0;
  summarized_count = 0;
  summary_text = none;
  reason = none;
}

abbrev result_of : Outcome percents → CompactionResult
result_of (returned (some r)) = r
result_of _ = no_result

abbrev run : World percents × Outcome percents
run = check_and_trigger percents outside config 50 1 900 1000 chat (world none)

check_and_trigger-Triggered_example :
    Guarded percents config 50 1 900 1000 chat (world none)
    × Triggered percents config 50 1 (world none) run.0
unfolding check_and_trigger passes elem_ℕ find get_session_compaction_state execute_auto_compaction
    should_compact count_tokens_tiktoken get_or compact summarize all_but_last compacted_messages
    last_of
check_and_trigger-Triggered_example =
    check_and_trigger-Triggered percents outside config 50 1 900 1000 chat (world none) run.0
      (result_of run.1) refl
