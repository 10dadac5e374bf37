-- ===== src/Masking.antt =====
-- Observation masking, schema 1 (src/kimi_proxy/features/observation_masking/schema1.py): the tool
-- results that are older than a window of tool turns are replaced by a placeholder.
pub mod Turns
pub mod Laws
pub mod Latest
use kimi_proxy.Base.{
  ℕ, suc, ◌+◌, ◌-◌, ℤ, pos, pos_part, leb_ℤ, leb, String, count, ◌<>◌, Bool, true, false, not, ◌&&◌,
  ◌||◌, Option, none, some, or_else, List, [], ◌∷◌, ◌++◌, map, reverse, length, drop, any, Dict,
  lookup, assign, elem, add, union, is_some, ◌=ₛ◌, if◌then◌else◌,
}
use kimi_proxy.Base.Text.{begins, take_chars, lstrip, contains, decimal}
use kimi_proxy.Json.{
  Value, Items, Fields, str, obj, nil, cons, get, has, put, as_str, as_arr, as_obj, is_str,
}
use kimi_proxy.Python.{Python}

pub record MaskPolicy : Type 0 where
  pub enabled : Bool
  pub window_turns : ℤ
  pub keep_errors : Bool
  pub keep_last_k_per_tool : Option ℤ
  pub placeholder_template : String

-- `isinstance(v, str) and v`
abbrev pub nonempty_str : Value → Option String
nonempty_str (str s) = if s =ₛ "" then none else some s
nonempty_str _ = none

pub record ToolTurnExtraction : Type 0 where
  pub turns : List (List String)
  pub id_to_turn_index : Dict ℕ
  pub id_to_tool_name : Dict String

name_of_function : Option Fields → Option String
name_of_function none = none
name_of_function (some f) = nonempty_str (get "name" f)

unfoldable pub extract_tool_name_from_tool_call : Fields → Option String
unfolding name_of_function
extract_tool_name_from_tool_call tc = name_of_function (as_obj (get "function" tc))

-- the locals of the inner loop of `_extract_tool_turns`
pub record Calls : Type 0 where
  pub call_ids : List String
  pub names : Dict String

note_name : String → Option String → Dict String → Dict String
note_name tc_id none names = names
note_name tc_id (some name) names = assign tc_id name names

note_call : Fields → Option String → Calls → Calls
note_call tc none c = c
note_call tc (some tc_id) c = record {
  call_ids = add tc_id c.call_ids;
  names = note_name tc_id (extract_tool_name_from_tool_call tc) c.names;
}

scan_call : Value → Calls → Calls
scan_call (obj tc) c = note_call tc (nonempty_str (get "id" tc)) c
scan_call _ c = c

pub scan_calls : Items → Calls → Calls
unfolding scan_call note_call note_name
scan_calls nil c = c
scan_calls (cons tc rest) c = scan_calls rest (scan_call tc c)

-- `for tc_id in call_ids: id_to_turn_index[tc_id] = turn_index`
index_all : List String → ℕ → Dict ℕ → Dict ℕ
index_all [] i d = d
index_all (k ∷ ks) i d = index_all ks i (assign k i d)

add_turn : List String → Dict String → ToolTurnExtraction → ToolTurnExtraction
add_turn [] names e = record e { id_to_tool_name = names }
add_turn (k ∷ ks) names e = record {
  turns = e.turns ++ (k ∷ ks) ∷ [];
  id_to_turn_index = index_all (k ∷ ks) (length e.turns) e.id_to_turn_index;
  id_to_tool_name = names;
}

extract_calls : Option Items → ToolTurnExtraction → ToolTurnExtraction
extract_calls none e = e
extract_calls (some tcs) e =
    let c = scan_calls tcs (record { call_ids = []; names = e.id_to_tool_name }) in
    add_turn c.call_ids c.names e

extract_message : Fields → ToolTurnExtraction → ToolTurnExtraction
extract_message msg e =
    if is_str "assistant" (get "role" msg)
    then extract_calls (as_arr (get "tool_calls" msg)) e
    else e

extract_from : List Fields → ToolTurnExtraction → ToolTurnExtraction
extract_from [] e = e
extract_from (msg ∷ rest) e = extract_from rest (extract_message msg e)

unfoldable pub extract_tool_turns : List Fields → ToolTurnExtraction
unfolding extract_from extract_message extract_calls add_turn index_all scan_calls
extract_tool_turns messages =
    extract_from messages (record { turns = []; id_to_turn_index = []; id_to_tool_name = [] })

union_all : List (List String) → List String → List String
union_all [] keep = keep
union_all (t ∷ ts) keep = union_all ts (union keep t)

unfoldable pub compute_keep_ids_by_window : List (List String) → ℤ → List String
unfolding union_all
compute_keep_ids_by_window turns window_turns =
    if leb_ℤ window_turns (pos 0)
    then []
    else union_all (drop (length turns - pos_part window_turns) turns) []

-- the locals of `_compute_keep_ids_by_last_k_per_tool`
pub record LastK : Type 0 where
  pub keep : List String
  pub seen_per_tool : Dict ℕ

keep_result : ℕ → String → Option String → LastK → LastK
keep_result k tc_id none s = s
keep_result k tc_id (some tool) s =
    let n = or_else (lookup tool s.seen_per_tool) 0 in
    if leb k n
    then s
    else record { keep = add tc_id s.keep; seen_per_tool = assign tool (n + 1) s.seen_per_tool }

keep_id : ℕ → Dict String → Option String → LastK → LastK
keep_id k names none s = s
keep_id k names (some tc_id) s = keep_result k tc_id (lookup tc_id names) s

keep_message : ℕ → Dict String → Fields → LastK → LastK
keep_message k names msg s =
    if is_str "tool" (get "role" msg)
    then keep_id k names (nonempty_str (get "tool_call_id" msg)) s
    else s

keep_scan : ℕ → Dict String → List Fields → LastK → LastK
unfolding keep_message keep_id keep_result
keep_scan k names [] s = s
keep_scan k names (msg ∷ rest) s = keep_scan k names rest (keep_message k names msg s)

unfoldable pub compute_keep_ids_by_last_k_per_tool : List Fields → Dict String → ℕ → List String
unfolding keep_scan
compute_keep_ids_by_last_k_per_tool messages names k =
    (keep_scan k names (reverse messages) (record { keep = []; seen_per_tool = [] })).keep

abbrev structural_error_markers : List String
structural_error_markers =
    "traceback (most recent call last)" ∷ "raise " ∷ "error: " ∷ "fatal error" ∷ []

-- the keys of the whole call: those of the window, and those of the last k if that is asked for
last_k_ids : Option ℤ → List Fields → ToolTurnExtraction → List String
last_k_ids none messages e = []
last_k_ids (some k) messages e =
    if leb_ℤ k (pos 0)
    then []
    else compute_keep_ids_by_last_k_per_tool messages e.id_to_tool_name (pos_part k)

unfoldable pub keep_ids : MaskPolicy → List Fields → ToolTurnExtraction → List String
unfolding last_k_ids compute_keep_ids_by_window compute_keep_ids_by_last_k_per_tool
keep_ids policy messages e =
    union (compute_keep_ids_by_window e.turns policy.window_turns)
      (last_k_ids policy.keep_last_k_per_tool messages e)

module _ (py : Python) where
  open py use {loads, lower, format}

  error_status : Option String → Bool
  error_status none = false
  error_status (some s) = lower s =ₛ "error"

  error_object : Option Value → Bool
  error_object (some (obj d)) = has "error" d || error_status (as_str (get "status" d))
  error_object _ = false

  looks_like_error_text : String → Bool
  unfolding error_object error_status
  looks_like_error_text content =
      let lowered = lower (take_chars 2000 content) in
      let stripped = lstrip content in
      not (content =ₛ "")
      && (any (λ marker. contains marker lowered) structural_error_markers
          || ((begins stripped "{" || begins stripped "[") && error_object (loads content)))

  unfoldable pub looks_like_error_tool_content : Value → Bool
  unfolding looks_like_error_text
  looks_like_error_tool_content (str s) = looks_like_error_text s
  looks_like_error_tool_content _ = false

  unfoldable pub render_placeholder : String → String → String → ℕ → String
  render_placeholder template tool_call_id tool_name original_chars =
      or_else (format template tool_call_id tool_name original_chars) (
        "[Observation masquée: résultat d’outil ancien (tool_call_id="
        <> (tool_call_id
            <> (", outil=" <> (tool_name <> (", chars=" <> (decimal original_chars <> ")]"))))))

  module _ (policy : MaskPolicy) (keep : List String) (e : ToolTurnExtraction) where
    mask_text : Fields → String → Option String → Fields
    mask_text msg tc_id none = msg
    mask_text msg tc_id (some content) =
        put "content"
          (str (
            render_placeholder policy.placeholder_template tc_id
              (or_else (lookup tc_id e.id_to_tool_name) "inconnu") (count content)))
          msg

    mask_result : Fields → Option String → Fields
    mask_result msg none = msg
    mask_result msg (some tc_id) =
        if not (is_some (lookup tc_id e.id_to_turn_index))
        then msg
        else if elem tc_id keep
        then msg
        else if policy.keep_errors && looks_like_error_tool_content (get "content" msg)
        then msg
        else mask_text msg tc_id (as_str (get "content" msg))

    -- the body of the loop of `mask_old_tool_results`
    unfoldable pub mask_message : Fields → Fields
    unfolding mask_result mask_text
    mask_message msg =
        if is_str "tool" (get "role" msg)
        then mask_result msg (nonempty_str (get "tool_call_id" msg))
        else msg

  mask_turns : MaskPolicy → List Fields → ToolTurnExtraction → List (List String) → List Fields
  mask_turns policy messages e [] = messages
  mask_turns policy messages e (_ ∷ _) =
      map (mask_message policy (keep_ids policy messages e) e) messages

  unfoldable pub mask_old_tool_results : List Fields → MaskPolicy → List Fields
  unfolding mask_turns
  mask_old_tool_results messages policy =
      let e = extract_tool_turns messages in
      if not policy.enabled
      then messages
      else if leb_ℤ policy.window_turns (pos 0)
      then messages
      else mask_turns policy messages e e.turns
