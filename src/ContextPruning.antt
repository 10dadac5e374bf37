-- ===== src/ContextPruning.antt =====
-- The pruning of tool results by the MCP pruner (src/kimi_proxy/proxy/context_pruning.py). The
-- service is the function `server` from a JSON-RPC request to its response, none where the call
-- raises; each request has an id of its own. The ratio in the statistics stays the number that the
-- response holds, where the code makes a float of it, and reads it no more: it is taken to be within the
-- floats, since a larger integer makes the code raise.
pub mod Messages
use kimi_proxy.Base.{
  ℕ, zero, suc, ◌+◌, ℤ, pos, ltb_ℤ, String, count, Bool, true, false, Option, none, some, or_else,
  List, [], ◌∷◌, ◌=ₛ◌, ◌>>=◌, ◌++◌, elem, if◌then◌else◌,
}
use kimi_proxy.Json.{
  Value, Items, Fields, null, bool, int, real, str, arr, obj, nil, cons, end, field, get, has, put,
  as_str, as_obj, as_arr, as_bool, as_int, is_str,
}
use kimi_proxy.Python.{Python}

pub record ContextPruningConfig : Type 0 where
  pub enabled : Bool
  pub min_chars_to_prune : ℤ
  pub call_timeout_ms : ℤ
  pub max_prune_ratio : ℕ
  pub min_keep_lines : ℤ
  pub timeout_ms : ℤ
  pub annotate_lines : Bool
  pub include_markers : Bool

pub record PrunerStats : Type 0 where
  pub tokens_est_before : Option ℤ
  pub tokens_est_after : Option ℤ
  pub used_fallback : Option Bool
  pub pruned_ratio : Option Value

pub record PrunerOutcome : Type 0 where
  pub prune_id : String
  pub pruned_text : String
  pub warnings : List String
  pub stats : PrunerStats
  pub annotation_count : ℕ

pub record ContextPruningSummary : Type 0 where
  pub enabled : Bool
  pub calls_attempted : ℕ
  pub messages_pruned : ℕ
  pub used_fallback_count : ℕ
  pub warnings : List String

safe_get_dict : Fields → String → Option Fields
safe_get_dict d key = as_obj (get key d)

safe_get_list : Fields → String → Option Items
safe_get_list d key = as_arr (get key d)

safe_get_str : Fields → String → Option String
safe_get_str d key = as_str (get key d)

safe_get_bool : Fields → String → Option Bool
safe_get_bool d key = as_bool (get key d)

safe_get_int : Fields → String → Option ℤ
safe_get_int d key = as_int (get key d)

number : Value → Option Value
number (int i) = some (int i)
number (real x) = some (real x)
number _ = none

safe_get_float : Fields → String → Option Value
safe_get_float d key = number (get key d)

texts : Items → List String
texts nil = []
texts (cons (str s) rest) = s ∷ texts rest
texts (cons _ rest) = texts rest

safe_get_str_list : Option Items → Option (List String)
safe_get_str_list none = none
safe_get_str_list (some items) = some (texts items)

pub items_count : Items → ℕ
items_count nil = 0
items_count (cons _ rest) = suc (items_count rest)

stats_from : Fields → PrunerStats
stats_from d = record {
  tokens_est_before = safe_get_int d "tokens_est_before";
  tokens_est_after = safe_get_int d "tokens_est_after";
  used_fallback = safe_get_bool d "used_fallback";
  pruned_ratio = safe_get_float d "pruned_ratio";
}

unfoldable pub parse_pruner_tool_payload : Fields → Option PrunerOutcome
unfolding safe_get_dict safe_get_list safe_get_str safe_get_bool safe_get_int safe_get_float number
    texts safe_get_str_list items_count stats_from
parse_pruner_tool_payload raw = do
  prune_id ← safe_get_str raw "prune_id"
  pruned_text ← safe_get_str raw "pruned_text"
  some (record {
    prune_id = prune_id;
    pruned_text = pruned_text;
    warnings = or_else (safe_get_str_list (safe_get_list raw "warnings")) [];
    stats = stats_from (or_else (safe_get_dict raw "stats") end);
    annotation_count = items_count (or_else (safe_get_list raw "annotations") nil);
  })

first_of : Items → Option Value
first_of nil = none
first_of (cons v _) = some v

nonempty : String → Option String
nonempty s = if s =ₛ "" then none else some s

result_of : Fields → Option Fields
result_of response = if has "error" response then none else as_obj (get "result" response)

unfoldable pub extract_tool_payload_from_jsonrpc_response : Python → Value → Option Fields
unfolding result_of first_of nonempty
extract_tool_payload_from_jsonrpc_response py response = do
  r ← as_obj response
  result ← result_of r
  content ← as_arr (get "content" result)
  v ← first_of content
  first ← as_obj v
  s ← as_str (get "text" first)
  text ← nonempty s
  parsed ← py.loads text
  as_obj parsed

options_of : ContextPruningConfig → Fields
options_of cfg = field "max_prune_ratio" (real cfg.max_prune_ratio) (
    field "min_keep_lines" (int cfg.min_keep_lines) (
      field "timeout_ms" (int cfg.timeout_ms) (
        field "annotate_lines" (bool cfg.annotate_lines)
          (field "include_markers" (bool cfg.include_markers) end))))

arguments_of : String → String → String → ContextPruningConfig → Fields
arguments_of text goal_hint source_type cfg = field "text" (str text) (
    field "goal_hint" (str goal_hint)
      (field "source_type" (str source_type) (field "options" (obj (options_of cfg)) end)))

unfoldable pub prune_request : String → String → String → ContextPruningConfig → ℕ → Value
unfolding arguments_of options_of
prune_request text goal_hint source_type cfg request_id = obj (
    field "jsonrpc" (str "2.0") (
      field "id" (int (pos request_id)) (
        field "method" (str "tools/call") (
          field "params"
            (obj (
              field "name" (str "prune_text")
                (field "arguments" (obj (arguments_of text goal_hint source_type cfg)) end)))
            end))))

module _ (py : Python) (server : Value → Option Value) where
  unfoldable pub prune_text_via_pruner_mcp :
      String → String → String → ContextPruningConfig → ℕ → Option PrunerOutcome
  unfolding prune_request
  prune_text_via_pruner_mcp text goal_hint source_type cfg request_id = do
    response ← server (prune_request text goal_hint source_type cfg request_id)
    payload ← extract_tool_payload_from_jsonrpc_response py response
    parse_pruner_tool_payload payload

-- the locals of the loop, but for the output
pub record Tally : Type 0 where
  pub calls_attempted : ℕ
  pub messages_pruned : ℕ
  pub used_fallback_count : ℕ
  pub warnings : List String
  pub req_id : ℕ

str_items : List String → Items
str_items [] = nil
str_items (s ∷ ss) = cons (str s) (str_items ss)

bool_or_null : Option Bool → Value
bool_or_null none = null
bool_or_null (some b) = bool b

-- the text that is not there yet goes to the end
note_warnings : List String → List String → List String
note_warnings [] warnings = warnings
note_warnings (w ∷ ws) warnings =
    note_warnings ws (if elem w warnings then warnings else warnings ++ w ∷ [])

fallback_count : Option Bool → ℕ
fallback_count (some true) = 1
fallback_count _ = 0

pruned_message : Fields → PrunerOutcome → Fields
pruned_message msg o =
    put "_pruner"
      (obj (
        field "prune_id" (str o.prune_id) (
          field "annotation_count" (int (pos o.annotation_count)) (
            field "warnings" (arr (str_items o.warnings))
              (field "used_fallback" (bool_or_null o.stats.used_fallback) end)))))
      (put "content" (str o.pruned_text) msg)

-- what happens with the outcome of a call
settle : Fields → Tally → Option PrunerOutcome → Fields × Tally
settle msg t none = (msg, t)
settle msg t (some o) = (
  pruned_message msg o,
  record t {
    used_fallback_count = t.used_fallback_count + fallback_count o.stats.used_fallback;
    warnings = note_warnings o.warnings t.warnings;
    messages_pruned = t.messages_pruned + 1;
  },
)

called : Tally → Tally
called t = record t { calls_attempted = t.calls_attempted + 1; req_id = t.req_id + 1 }

-- the content of a message that is to be pruned
unfoldable pub prunable : ContextPruningConfig → Fields → Option String
prunable cfg msg =
    if is_str "tool" (get "role" msg)
    then as_str (get "content" msg)
      >>= (λ s. if ltb_ℤ (pos (count s)) cfg.min_chars_to_prune then none else some s)
    else none

module _ (py : Python) (server : Value → Option Value) (goal_hint source_type : String)
    (cfg : ContextPruningConfig) where
  call : Fields → Tally → Option String → Fields × Tally
  call msg t none = (msg, t)
  call msg t (some text) =
      settle msg (called t)
        (prune_text_via_pruner_mcp py server text goal_hint source_type cfg (t.req_id + 1))

  prune_messages : List Fields → Tally → List Fields × Tally
  prune_messages [] t = ([], t)
  prune_messages (msg ∷ rest) t =
      let (msg', t') = call msg t (prunable cfg msg) in
      let (rest', t'') = prune_messages rest t' in (msg' ∷ rest', t'')

summary_of : Tally → ContextPruningSummary
summary_of t = record {
  enabled = true;
  calls_attempted = t.calls_attempted;
  messages_pruned = t.messages_pruned;
  used_fallback_count = t.used_fallback_count;
  warnings = t.warnings;
}

abbrev first_tally : Tally
first_tally = record {
  calls_attempted = 0;
  messages_pruned = 0;
  used_fallback_count = 0;
  warnings = [];
  req_id = 100;
}

disabled : ContextPruningSummary
disabled = record {
  enabled = false;
  calls_attempted = 0;
  messages_pruned = 0;
  used_fallback_count = 0;
  warnings = [];
}

unfoldable pub prune_tool_messages_best_effort :
    Python
    → (Value → Option Value)
    → List Fields
    → String
    → ContextPruningConfig
    → String
    → List Fields × ContextPruningSummary
unfolding prune_messages call settle called pruned_message summary_of disabled note_warnings
    fallback_count str_items bool_or_null
prune_tool_messages_best_effort py server messages goal_hint cfg source_type =
    if cfg.enabled
    then (let (output, t) =
          prune_messages py server goal_hint source_type cfg messages first_tally in
        (output, summary_of t))
    else (messages, disabled)
