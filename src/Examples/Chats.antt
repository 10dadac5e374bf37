-- ===== src/Examples/Chats.antt =====
-- Compaction and context pruning at a concrete chat.
use kimi_proxy.Base.{List, ℕ, pos, ◌≡◌, refl, true, false, Option, none, some}
use kimi_proxy.Json.{Value, Fields, str, arr, obj, nil, cons, field, end, get, get_or, has}
use kimi_proxy.Python.{Python}
use kimi_proxy.Tokens.{count_tokens_tiktoken}
use kimi_proxy.Examples.{py, chat}
use kimi_proxy.Compaction.{
  CompactionConfig, CompactionResult, compact, compacted_messages, summarize, last_of, all_but_last,
}
use kimi_proxy.Compaction.Counts.{Reported, compact-Reported}
use kimi_proxy.Compression.{Metadata, compress_history_heuristic}
use kimi_proxy.Compression.Split.{IsSplit, compress_history_heuristic-IsSplit}
use kimi_proxy.ContextPruning.{ContextPruningConfig, prune_tool_messages_best_effort}
use kimi_proxy.ContextPruning.Messages.{
  ArePrunedFrom, prune_tool_messages_best_effort-ArePrunedFrom,
}

-- two messages are preserved, or none
abbrev config : ℕ → CompactionConfig
config preserved = record {
  max_preserved_messages = preserved;
  preserve_system_messages = true;
  create_summary = false;
  summary_max_length = 1000;
  min_messages_to_compact = 6;
  min_tokens_to_compact = 10;
}

abbrev result : CompactionResult
result = record {
  compacted = true;
  session_id = 3;
  original_tokens = 700;
  compacted_tokens = 52;
  tokens_saved = pos 648;
  messages_before = 6;
  messages_after = 3;
  system_preserved = 1;
  recent_preserved = 2;
  summarized_count = 3;
  summary_text = none;
  reason = none;
}

compact-Reported_example : Reported py (config 1) chat (some 700) result
unfolding compact get summarize all_but_last count_tokens_tiktoken compacted_messages get_or last_of
compact-Reported_example = compact-Reported py (config 1) chat 3 (some 700) result refl

abbrev kept_all : CompactionResult
kept_all = record result {
  compacted_tokens = 105;
  tokens_saved = pos 595;
  messages_after = 6;
  recent_preserved = 5;
  summarized_count = 0;
}

abbrev pruning : ContextPruningConfig
pruning = record {
  enabled = true;
  min_chars_to_prune = pos 5;
  call_timeout_ms = pos 1500;
  max_prune_ratio = 0;
  min_keep_lines = pos 1;
  timeout_ms = pos 100;
  annotate_lines = false;
  include_markers = true;
}

-- a service that answers each call with one text, which Python reads as the payload
abbrev payload : Fields
payload = field "prune_id" (str "p1") (field "pruned_text" (str "short") end)

abbrev reader : Python
reader = record py { loads = λ s. some (obj payload) }

abbrev server : Value → Option Value
server request = some (
    obj (
      field "result"
        (obj (field "content" (arr (cons (obj (field "text" (str "payload") end)) nil)) end)) end))

-- both results of tools are pruned
pruned_both :
    (prune_tool_messages_best_effort reader server chat "a" pruning "logs").1.messages_pruned ≡ 2
unfolding prune_tool_messages_best_effort kimi_proxy.ContextPruning.prunable get
    kimi_proxy.ContextPruning.prune_text_via_pruner_mcp
    kimi_proxy.ContextPruning.extract_tool_payload_from_jsonrpc_response has
    kimi_proxy.ContextPruning.parse_pruner_tool_payload
pruned_both = refl

prune_tool_messages_best_effort-ArePrunedFrom_example :
    ArePrunedFrom pruning chat
      (prune_tool_messages_best_effort reader server chat "a" pruning "logs").0
prune_tool_messages_best_effort-ArePrunedFrom_example =
    prune_tool_messages_best_effort-ArePrunedFrom reader server "a" "logs" pruning chat

chat_tokens : count_tokens_tiktoken py chat ≡ some 105
unfolding count_tokens_tiktoken get get_or
chat_tokens = refl

compress_history_heuristic-IsSplit_example :
    (r : List Fields × Metadata) × (compress_history_heuristic py chat (some 1) ≡ some r)
    × IsSplit chat r
compress_history_heuristic-IsSplit_example =
    compress_history_heuristic-IsSplit py chat (some 1) 105 chat_tokens
