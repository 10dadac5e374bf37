-- ===== src/ToolPruning/Metrics.antt =====
-- The counters of the tool pruning (mcp_tool_pruning/metrics.py).
use kimi_proxy.Base.{ℕ, suc, ◌+◌, Bool, if◌then◌else◌, ◌≡◌, ltb}

pub record Metrics : Type 0 where
  pub calls_total : ℕ
  pub skipped_disabled : ℕ
  pub skipped_excluded_path : ℕ
  pub skipped_invalid_request : ℕ
  pub skipped_non_tools_call : ℕ
  pub skipped_server_pruner : ℕ
  pub skipped_tool_excluded : ℕ
  pub skipped_invalid_response : ℕ
  pub skipped_error_response : ℕ
  pub skipped_no_content : ℕ
  pub eligible_total : ℕ
  pub responses_changed : ℕ
  pub pruner_calls_total : ℕ
  pub pruner_calls_ok : ℕ
  pub pruner_calls_fail : ℕ
  pub pruner_calls_exception : ℕ
  pub fail_open_total : ℕ
  pub fallback_mask_total : ℕ
  pub texts_examined : ℕ
  pub texts_over_threshold : ℕ
  pub texts_pruned : ℕ
  pub chars_before_total : ℕ
  pub chars_after_total : ℕ
  pub elapsed_ms_total : ℕ
  pub elapsed_ms_max : ℕ

-- the reasons that `record_skip` counts
pub data Skip : Type 0 where
  disabled excluded_path invalid_request non_tools_call server_pruner : Skip
  tool_excluded invalid_response error_response no_content : Skip

unfoldable pub record_call : Metrics → Metrics
record_call m = record m { calls_total = suc m.calls_total }

unfoldable pub record_skip : Skip → Metrics → Metrics
record_skip disabled m = record m { skipped_disabled = suc m.skipped_disabled }
record_skip excluded_path m = record m { skipped_excluded_path = suc m.skipped_excluded_path }
record_skip invalid_request m = record m { skipped_invalid_request = suc m.skipped_invalid_request }
record_skip non_tools_call m = record m { skipped_non_tools_call = suc m.skipped_non_tools_call }
record_skip server_pruner m = record m { skipped_server_pruner = suc m.skipped_server_pruner }
record_skip tool_excluded m = record m { skipped_tool_excluded = suc m.skipped_tool_excluded }
record_skip invalid_response m = record m {
  skipped_invalid_response = suc m.skipped_invalid_response;
}
record_skip error_response m = record m { skipped_error_response = suc m.skipped_error_response }
record_skip no_content m = record m { skipped_no_content = suc m.skipped_no_content }

unfoldable pub record_eligible : Metrics → Metrics
record_eligible m = record m { eligible_total = suc m.eligible_total }

unfoldable pub record_response_changed : Metrics → Metrics
record_response_changed m = record m { responses_changed = suc m.responses_changed }

abbrev pub one_if : Bool → ℕ
one_if b = if b then 1 else 0

unfoldable pub record_text_examined : ℕ → Bool → Metrics → Metrics
record_text_examined length_chars over_threshold m = record m {
  texts_examined = suc m.texts_examined;
  texts_over_threshold = m.texts_over_threshold + one_if over_threshold;
  chars_before_total = m.chars_before_total + length_chars;
}

unfoldable pub record_text_after : ℕ → Bool → Metrics → Metrics
record_text_after length_chars pruned m = record m {
  texts_pruned = m.texts_pruned + one_if pruned;
  chars_after_total = m.chars_after_total + length_chars;
}

unfoldable pub record_pruner_call : Bool → Bool → Metrics → Metrics
record_pruner_call ok had_exception m = record m {
  pruner_calls_total = suc m.pruner_calls_total;
  pruner_calls_exception = m.pruner_calls_exception + one_if had_exception;
  pruner_calls_ok = m.pruner_calls_ok + one_if ok;
  pruner_calls_fail = m.pruner_calls_fail + (if ok then 0 else 1);
}

unfoldable pub record_fail_open : Metrics → Metrics
record_fail_open m = record m { fail_open_total = suc m.fail_open_total }

unfoldable pub record_fallback_mask : Metrics → Metrics
record_fallback_mask m = record m { fallback_mask_total = suc m.fallback_mask_total }

unfoldable pub record_elapsed_ms : ℕ → Metrics → Metrics
record_elapsed_ms ms m = record m {
  elapsed_ms_total = m.elapsed_ms_total + ms;
  elapsed_ms_max = if ltb m.elapsed_ms_max ms then ms else m.elapsed_ms_max;
}

abbrev pub skipped_total : Metrics → ℕ
skipped_total m =
    m.skipped_disabled + m.skipped_excluded_path + m.skipped_invalid_request
    + m.skipped_non_tools_call + m.skipped_server_pruner + m.skipped_tool_excluded
    + m.skipped_invalid_response + m.skipped_error_response + m.skipped_no_content

-- Every call is skipped for one reason or found eligible, and every call of the pruner succeeds or
-- fails.
pub record IsBalanced (m : Metrics) : Type 0 where
  pub calls : skipped_total m + m.eligible_total ≡ m.calls_total
  pub pruner_calls : m.pruner_calls_ok + m.pruner_calls_fail ≡ m.pruner_calls_total
