-- ===== src/ToolPruning/Engine.antt =====
-- The pruning of one text, and of the texts inside a JSON value (mcp_tool_pruning/engine.py). All
-- operations get a collector of metrics; where the code gets none, it records nothing and returns
-- the same. A call of the pruner is a function of the number of calls that the response still has
-- left, so that no two calls of a response need to be answered alike.
pub mod Shape
pub mod Calls
pub mod FailOpen
use kimi_proxy.Base.{
  ℕ, zero, suc, max, ◌+◌, ◌-◌, ◌/◌, ℤ, pos_part, String, count, ◌<>◌, Bool, true, false, not, ◌||◌,
  Option, none, some, List, ◌=ₛ◌, leb, ltb, if◌then◌else◌,
}
use kimi_proxy.Base.Text.{take_chars, drop_chars, begins, lstrip, decimal}
use kimi_proxy.Json.{
  Value, Items, Fields, null, bool, int, real, str, arr, obj, nil, cons, end, field, as_str, get,
}
use kimi_proxy.Python.{Python}
use kimi_proxy.ToolPruning.Metrics.{
  Metrics, record_pruner_call, record_fail_open, record_fallback_mask,
}

pub record Config : Type 0 where
  pub enabled : Bool
  pub min_chars : ℤ
  pub call_timeout_ms : ℤ
  pub max_chars_fallback : ℤ
  pub goal_hint_override : Option String
  pub excluded_dirs : List String
  pub options : Fields
  pub max_depth : ℕ
  pub max_nodes : ℕ
  pub max_pruner_calls_per_response : ℕ

-- a request to the pruner, and what comes of it
pub record PruneRequest : Type 0 where
  pub request_id : ℤ
  pub text : String
  pub goal_hint : String
  pub source_type : String
  pub options : Fields
  pub call_timeout_ms : ℤ

pub data Answer : Type 0 where
  raises : Answer
  no_result : Answer
  result : Fields → Answer

-- the calls that a response has left, the nodes visited, and the metrics
pub record Run : Type 0 where
  pub remaining : ℕ
  pub visited : ℕ
  pub metrics : Metrics

-- `_NodeBudget.tick`
tick : Run → Run
tick r = record r { visited = suc r.visited }

unfoldable pub fallback_mask : String → ℕ → String
fallback_mask value max_chars =
    if leb max_chars 0
    then value
    else if leb (count value) max_chars
    then value
    else let head_chars = max_chars / 2 in
      let tail_chars = max_chars - head_chars in
      take_chars head_chars value
      <> ("\n... [KIMI_PROXY_MCP_TOOL_PRUNING_FALLBACK original_chars="
          <> (decimal (count value) <> ("] ...\n" <> drop_chars (count value - tail_chars) value)))

unfoldable pub fallback_or_original : String → Config → String
unfolding fallback_mask
fallback_or_original original cfg =
    let max_chars = pos_part cfg.max_chars_fallback in
    if leb max_chars 0
    then original
    else if leb (count original) max_chars
    then original
    else fallback_mask original max_chars

unfoldable pub looks_like_json_string : String → Bool
looks_like_json_string value =
    let stripped = lstrip value in begins stripped "{" || begins stripped "["

note_mask : Bool → Metrics → Metrics
note_mask same m = if same then m else record_fallback_mask m

-- the call has not given a text
open_fail : Config → String → Metrics → String × Metrics
unfolding note_mask
open_fail cfg original m =
    let fallback = fallback_or_original original cfg in
    (fallback, note_mask (fallback =ₛ original) (record_fail_open m))

nonempty_or_fail : Config → String → Option String → Metrics → String × Metrics
unfolding open_fail
nonempty_or_fail cfg original none m = open_fail cfg original m
nonempty_or_fail cfg original (some s) m = if s =ₛ "" then open_fail cfg original m else (s, m)

-- what `_prune_plain_text` makes of the answer
use_answer : Config → String → Answer → Metrics → String × Metrics
unfolding nonempty_or_fail
use_answer cfg original raises m =
    let fallback = fallback_or_original original cfg in
    (
      fallback,
      note_mask (fallback =ₛ original) (record_pruner_call false true (record_fail_open m)),
    )
use_answer cfg original no_result m = open_fail cfg original (record_pruner_call false false m)
use_answer cfg original (result r) m =
    nonempty_or_fail cfg original (as_str (get "pruned_text" r)) (record_pruner_call true false m)

spend : Config → String → ℕ → Run → Answer → String × Run
unfolding use_answer
spend cfg original left r a =
    let (text, m) = use_answer cfg original a r.metrics in
    (text, record r { remaining = left; metrics = m })

-- a node is entered while the budget and the depth allow it
enter : Config → Value → ℕ → Run → Value × (Run × Bool) → Value × (Run × Bool)
unfolding tick
enter cfg v depth r inside =
    if leb (suc r.visited) (max 1 cfg.max_nodes)
    then (if leb cfg.max_depth depth then (v, (tick r, false)) else inside)
    else (v, (tick r, false))

module _ (cfg : Config) (pruner : ℕ → PruneRequest → Answer) (request_id : ℤ)
    (goal_hint source_type : String) where
  plain_with : String → ℕ → Run → String × Run
  plain_with original zero r = (original, r)
  plain_with original (suc left) r = spend cfg original left r (
      pruner (suc left) (record {
        request_id = request_id;
        text = original;
        goal_hint = goal_hint;
        source_type = source_type;
        options = cfg.options;
        call_timeout_ms = cfg.call_timeout_ms;
      }))

  unfoldable pub prune_plain_text : String → Run → String × Run
  unfolding plain_with spend
  prune_plain_text original r = plain_with original r.remaining r

  -- a text inside a value
  prune_leaf : String → Run → Value × (Run × Bool)
  prune_leaf s r =
      if ltb (count s) (pos_part cfg.min_chars)
      then (str s, (r, false))
      else (let (t, r') = prune_plain_text s r in (str t, (r', not (t =ₛ s))))

  unfoldable mutual
    unfolding enter prune_leaf tick

    pub prune_json_value : Value → ℕ → Run → Value × (Run × Bool)
    prune_json_value (str s) depth r = enter cfg (str s) depth r (prune_leaf s (tick r))
    prune_json_value (arr xs) depth r =
        let (ys, (r', changed)) = prune_json_items xs (suc depth) (tick r) in
        enter cfg (arr xs) depth r (arr ys, (r', changed))
    prune_json_value (obj d) depth r =
        let (e, (r', changed)) = prune_json_fields d (suc depth) (tick r) in
        enter cfg (obj d) depth r (obj e, (r', changed))
    prune_json_value null depth r = enter cfg null depth r (null, (tick r, false))
    prune_json_value (bool b) depth r = enter cfg (bool b) depth r (bool b, (tick r, false))
    prune_json_value (int i) depth r = enter cfg (int i) depth r (int i, (tick r, false))
    prune_json_value (real x) depth r = enter cfg (real x) depth r (real x, (tick r, false))

    pub prune_json_items : Items → ℕ → Run → Items × (Run × Bool)
    prune_json_items nil depth r = (nil, (r, false))
    prune_json_items (cons v xs) depth r =
        let (v', (r', changed)) = prune_json_value v depth r in
        let (ys, (r'', rest)) = prune_json_items xs depth r' in (cons v' ys, (r'', changed || rest))

    pub prune_json_fields : Fields → ℕ → Run → Fields × (Run × Bool)
    prune_json_fields end depth r = (end, (r, false))
    prune_json_fields (field k v d) depth r =
        let (v', (r', changed)) = prune_json_value v depth r in
        let (e, (r'', rest)) = prune_json_fields d depth r' in
        (field k v' e, (r'', changed || rest))

  -- `json.dumps`, unless it raises
  dumped : String → Option String → String
  dumped original none = original
  dumped original (some s) = s

  print_changed : Python → String → Value → Bool → String
  print_changed py original v false = original
  print_changed py original v true = dumped original (py.dumps v)

  prune_parsed : Python → String → ℕ → Run → Option Value → String × Run
  unfolding print_changed dumped
  prune_parsed py original depth r none = prune_plain_text original r
  prune_parsed py original depth r (some parsed) =
      if leb cfg.max_depth depth
      then (original, r)
      else (let (v, (r', changed)) = prune_json_value parsed depth r in
          (print_changed py original v changed, r'))

  unfoldable pub prune_text_maybe_json : Python → String → ℕ → Run → String × Run
  unfolding prune_parsed
  prune_text_maybe_json py original depth r =
      if leb r.remaining 0
      then (original, r)
      else if looks_like_json_string original
      then prune_parsed py original depth r (py.loads original)
      else prune_plain_text original r
