-- ===== src/Database/Usage.antt =====
-- The metrics of the requests and the history of compactions (core/database.py). Numbers of tokens
-- are natural numbers; ratios are the bits of floats, and their arithmetic is a parameter.
pub mod Totals
use kimi_proxy.Base.{
  ℕ, zero, suc, ◌+◌, sub_ℕ, ℤ, String, Bool, true, false, Option, none, some, or_else, List, [],
  ◌∷◌, ◌++◌, ltb, ◌==◌, ◌||◌, ◌&&◌, if◌then◌else◌,
}
use kimi_proxy.Base.Text.{take_chars}
use kimi_proxy.Base.Tables.{Table, update}
use kimi_proxy.Database.{Database, SessionRow, MetricRow, CompactionRow}

unfoldable pub new_metric : ℕ → ℕ → ℕ → ℕ → String → Bool → String → ℕ → ℕ → ℕ → MetricRow
new_metric now session_id tokens percentage preview is_estimated source memory chat ratio = record {
  session_id = session_id;
  timestamp = now;
  estimated_tokens = tokens;
  percentage = percentage;
  content_preview = take_chars 200 preview;
  prompt_tokens = some 0;
  completion_tokens = some 0;
  is_estimated = is_estimated;
  source = source;
  memory_tokens = memory;
  chat_tokens = chat;
  memory_ratio = ratio;
}

-- the id of the new metric
unfoldable pub save_metric :
    ℕ → ℕ → ℕ → ℕ → String → Bool → String → ℕ → ℕ → ℕ → Database → Database × ℕ
unfolding new_metric
save_metric now session_id tokens percentage preview is_estimated source memory chat ratio db =
    let m =
      new_metric now session_id tokens percentage preview is_estimated source memory chat ratio in
    let metric_id = suc db.last_metric in
    (record db { metrics = db.metrics ++ (metric_id, m) ∷ []; last_metric = metric_id }, metric_id)

pub record RealTokens : Type 0 where
  pub total : ℕ
  pub prompt : ℕ
  pub completion : ℕ
  pub percentage : ℕ

-- the row of a metric with the numbers of the provider
unfoldable pub with_real : RealTokens → MetricRow → MetricRow
with_real r m = record m {
  estimated_tokens = r.total;
  prompt_tokens = some r.prompt;
  completion_tokens = some r.completion;
  percentage = r.percentage;
  is_estimated = false;
}

-- `ratio n m` has the bits of `(n / m) * 100`.
unfoldable pub real_tokens : (ℕ → ℕ → ℕ) → ℕ → ℕ → ℕ → ℕ → RealTokens
real_tokens ratio prompt completion total max_context = record {
  total = total;
  prompt = prompt;
  completion = completion;
  percentage = if ltb 0 max_context then ratio total max_context else 0;
}

unfoldable pub update_metric_with_real_tokens :
    (ℕ → ℕ → ℕ) → ℕ → ℕ → ℕ → ℕ → ℕ → Database → Database × RealTokens
unfolding with_real real_tokens
update_metric_with_real_tokens ratio metric_id prompt completion total max_context db =
    let r = real_tokens ratio prompt completion total max_context in
    (record db { metrics = update metric_id (with_real r) db.metrics }, r)

-- the input and the output of a request
unfoldable pub input_of : MetricRow → ℕ
input_of m =
    let prompt = or_else m.prompt_tokens 0 in if ltb 0 prompt then prompt else m.estimated_tokens

unfoldable pub output_of : MetricRow → ℕ
output_of m = or_else m.completion_tokens 0

pub record Tokens : Type 0 where
  pub input_tokens : ℕ
  pub output_tokens : ℕ
  pub total_tokens : ℕ

later : ℕ × MetricRow → ℕ × MetricRow → Bool
later (i, m) (j, n) = ltb n.timestamp m.timestamp || ((n.timestamp == m.timestamp) && ltb j i)

latest : ℕ × MetricRow → Option (ℕ × MetricRow) → Option (ℕ × MetricRow)
unfolding later
latest a none = some a
latest a (some b) = if later a b then some a else some b

-- `… WHERE session_id = ? ORDER BY timestamp DESC, id DESC LIMIT 1`
unfoldable pub last_metric_of : ℕ → Table MetricRow → Option (ℕ × MetricRow)
unfolding latest
last_metric_of session_id [] = none
last_metric_of session_id ((i, m) ∷ t) =
    let rest = last_metric_of session_id t in
    if m.session_id == session_id then latest (i, m) rest else rest

totals_of : Option (ℕ × MetricRow) → Tokens
unfolding input_of output_of
totals_of none = record { input_tokens = 0; output_tokens = 0; total_tokens = 0 }
totals_of (some (i, m)) = record {
  input_tokens = input_of m;
  output_tokens = output_of m;
  total_tokens = input_of m + output_of m;
}

unfoldable pub get_session_total_tokens : ℕ → Database → Tokens
unfolding totals_of
get_session_total_tokens session_id db = totals_of (last_metric_of session_id db.metrics)

-- `… WHERE session_id = ?`; the order of the rows does not matter for a sum
unfoldable pub rows_of : ℕ → Table MetricRow → List MetricRow
rows_of session_id [] = []
rows_of session_id ((i, m) ∷ t) =
    let rest = rows_of session_id t in if m.session_id == session_id then m ∷ rest else rest

unfoldable pub sum_from : ℕ → ℕ → List MetricRow → Tokens
unfolding input_of output_of
sum_from total_input total_output [] = record {
  input_tokens = total_input;
  output_tokens = total_output;
  total_tokens = total_input + total_output;
}
sum_from total_input total_output (m ∷ ms) =
    sum_from (total_input + input_of m) (total_output + output_of m) ms

unfoldable pub get_session_cumulative_tokens : ℕ → Database → Tokens
unfolding rows_of sum_from
get_session_cumulative_tokens session_id db = sum_from 0 0 (rows_of session_id db.metrics)

-- one more compaction of the session
counted : ℕ → SessionRow → SessionRow
counted now s = record s {
  compaction_count = some (or_else s.compaction_count 0 + 1);
  last_compaction_at = some now;
}

-- `ratio s n` has the bits of `s / n * 100`.
unfoldable pub save_compaction_history :
    (ℤ → ℕ → ℕ) → ℕ → ℕ → ℕ → ℕ → ℕ → ℕ → String → Database → Database × ℕ
unfolding counted
save_compaction_history ratio now session_id tokens_before tokens_after preserved summarized reason
      db =
    let tokens_saved = sub_ℕ tokens_before tokens_after in
    let history_id = suc db.last_compaction in
    (
      record db {
        compaction_history =
            db.compaction_history
            ++ (
              history_id,
              record {
                session_id = session_id;
                timestamp = now;
                tokens_before = tokens_before;
                tokens_after = tokens_after;
                tokens_saved = tokens_saved;
                preserved_messages = preserved;
                summarized_messages = summarized;
                compaction_ratio =
                    if ltb 0 tokens_before then ratio tokens_saved tokens_before else 0;
                trigger_reason = reason;
              },
            )
              ∷ [];
        last_compaction = history_id;
        sessions = update session_id (counted now) db.sessions;
      },
      history_id,
    )
