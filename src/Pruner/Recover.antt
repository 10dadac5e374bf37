-- ===== src/Pruner/Recover.antt =====
-- `_tool_recover_text` (mcp_pruner/server.py): ranges of the original lines for a `prune_id`.
pub mod Restore
use kimi_proxy.Base.{
  ℕ, zero, suc, ◌+◌, ◌-◌, ◌≤◌, min, ℤ, pos, negsuc, String, ◌<>◌, Bool, Option, none, some, List,
  [], ◌∷◌, ◌++◌, length, take, drop, leb, ltb, if◌then◌else◌,
}
use kimi_proxy.Base.Text.{decimal, join}
use kimi_proxy.Json.{
  Value, Items, Fields, int, obj, nil, cons, get, as_str, as_arr, as_bool, as_int,
}
use kimi_proxy.Pruner.Store
use kimi_proxy.Pruner.Store.{PruneStore}

-- the JSON-RPC replies of the tool, without the request's id
pub data Reply : Type 0 where
  -- -32602 "Invalid params: expected {prune_id, ranges, include_line_numbers}"
  invalid_params : Reply
  -- -32602 "Invalid params: range item must be object"
  invalid_item : Reply
  -- -32004, with the id
  prune_id_not_found : String → Reply
  -- -32005, with the range, and the last line if the range starts past it
  invalid_range : Fields → Option ℕ → Reply
  -- the payload: `raw_text`, and the metadata
  recovered : String → String → Items → Reply

-- the lines from the number `idx + 1` on, as they are returned
number_lines : Bool → ℕ → List String → List String
number_lines numbers idx [] = []
number_lines numbers idx (line ∷ rest) =
    (if numbers then decimal (idx + 1) <> ("│ " <> line) else line)
    ∷ number_lines numbers (suc idx) rest

-- `for idx in range(start_line - 1, min(end_line, len(stored_lines)))`
unfoldable pub range_chunk : List String → Bool → ℕ → ℕ → List String
unfolding number_lines
range_chunk lines numbers start_line end_line =
    let start_idx = start_line - 1 in
    let end_idx = min end_line (length lines) in
    number_lines numbers start_idx (take (end_idx - start_idx) (drop start_idx lines))

-- an int of at least 1
line_number : Option ℤ → Option ℕ
line_number (some (pos (suc n))) = some (suc n)
line_number _ = none

-- the chunks so far, or the error that ends the loop
pub data Step : Type 0 where
  fail : Reply → Step
  chunks : List String → Step

check_range : List String → Bool → Fields → List String → Option ℕ → Option ℕ → Step
check_range lines numbers r out (some start_line) (some end_line) =
    if ltb end_line start_line
    then fail (invalid_range r none)
    else if ltb (length lines) start_line
    then fail (invalid_range r (some (length lines)))
    else chunks (out ++ range_chunk lines numbers start_line end_line)
check_range lines numbers r out none end_line = fail (invalid_range r none)
check_range lines numbers r out (some _) none = fail (invalid_range r none)

recover_item : List String → Bool → Value → List String → Step
recover_item lines numbers (obj r) out =
    check_range lines numbers r out (line_number (as_int (get "start_line" r)))
      (line_number (as_int (get "end_line" r)))
recover_item lines numbers _ out = fail invalid_item

continue : (List String → Step) → Step → Step
continue rest (fail e) = fail e
continue rest (chunks out) = rest out

unfoldable pub recover_ranges : List String → Bool → Items → List String → Step
unfolding recover_item check_range line_number continue range_chunk
recover_ranges lines numbers nil out = chunks out
recover_ranges lines numbers (cons r rest) out =
    continue (recover_ranges lines numbers rest) (recover_item lines numbers r out)

reply_of : String → Items → Step → Reply
reply_of prune_id ranges (fail e) = e
reply_of prune_id ranges (chunks out) = recovered (join "\n" out) prune_id ranges

recover_from : String → Items → Bool → Option (List String) → Reply
recover_from prune_id ranges numbers none = prune_id_not_found prune_id
recover_from prune_id ranges numbers (some lines) =
    reply_of prune_id ranges (recover_ranges lines numbers ranges [])

recover_checked : PruneStore → ℕ → Option String → Option Items → Option Bool → PruneStore × Reply
unfolding recover_from reply_of recover_ranges
recover_checked s now (some prune_id) (some ranges) (some numbers) =
    let (s', found) = Store.get s now prune_id in (s', recover_from prune_id ranges numbers found)
recover_checked s now _ _ _ = (s, invalid_params)

unfoldable pub tool_recover_text : PruneStore → ℕ → Fields → PruneStore × Reply
unfolding recover_checked
tool_recover_text s now args =
    recover_checked s now (as_str (get "prune_id" args)) (as_arr (get "ranges" args))
      (as_bool (get "include_line_numbers" args))
