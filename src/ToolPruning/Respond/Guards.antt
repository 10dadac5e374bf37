-- ===== src/ToolPruning/Respond/Guards.antt =====
-- What the guards have tested of a call whose response is pruned.
use kimi_proxy.Base.{String, true, false, ◌≡◌, refl, arith, ap, ◌∙◌, Option, none, some, ◌=ₛ◌}
use kimi_proxy.Json.{Value, Items, Fields, arr, obj, get, has, is_str, as_obj, as_arr}
use kimi_proxy.Python.{Python}
use kimi_proxy.ToolPruning.Engine.{Config}
use kimi_proxy.ToolPruning.Paths.{
  extract_candidate_paths_from_arguments, contains_excluded_path,
  response_content_contains_excluded_path,
}
use kimi_proxy.Base.{All, elem, [], ◌∷◌}
use kimi_proxy.ToolPruning.Paths.Free.{
  IsFree, AreFree, contains_excluded_path-IsFree, content-AreFree,
}
use kimi_proxy.ToolPruning.Request.{extract_tool_call_arguments, extract_tool_call_name}
use kimi_proxy.ToolPruning.Respond.{
  Checked, skipped, eligible, prune_content, maybe_prune_jsonrpc_response, check_call,
}
use kimi_proxy.ToolPruning.Respond

pub as_obj_lem : (v : Value) (d : Fields) → as_obj v ≡ some d → v ≡ obj d
as_obj_lem v d h = ground arith

pub as_arr_lem : (v : Value) (xs : Items) → as_arr v ≡ some xs → v ≡ arr xs
as_arr_lem v xs h = ground arith

-- a tool that is not one of the pruner's
abbrev pub IsOther : Option String → Type 0
IsOther none = Unit
IsOther (some name) = elem name ("prune_text" ∷ "recover_text" ∷ "health" ∷ []) ≡ false

is_excluded_tool-IsOther : (o : Option String) → Respond.is_excluded_tool o ≡ false → IsOther o
unfolding Respond.is_excluded_tool
is_excluded_tool-IsOther none h = tt
is_excluded_tool-IsOther (some name) h = h

module _ (cfg : Config) (py : Python) (urlparse : String → Option (String × String)) where
  -- what holds of a call whose response is pruned
  pub record IsPrunable (server_name : String) (request_json response_json : Value)
      (request response result : Fields) (content : Items) : Type 0 where
    pub enabled : cfg.enabled ≡ true
    pub server : (server_name =ₛ "pruner") ≡ false
    pub request_is : request_json ≡ obj request
    pub method : is_str "tools/call" (get "method" request) ≡ true
    pub tool : IsOther (extract_tool_call_name request)
    pub response_is : response_json ≡ obj response
    pub no_error : has "error" response ≡ false
    pub result_is : get "result" response ≡ obj result
    pub content_is : get "content" result ≡ arr content
    -- no path that is extracted from the arguments, or from a text of the content that is JSON, has
    -- an excluded directory as a segment
    pub arguments_free : All (IsFree urlparse cfg.excluded_dirs) (
        extract_candidate_paths_from_arguments urlparse py
          (extract_tool_call_arguments request)
          cfg.max_depth
          cfg.max_nodes)
    pub content_free : AreFree urlparse cfg.excluded_dirs py cfg.max_depth cfg.max_nodes content

  module _ (request response result : Fields) (content : Items) where
    check_content-eligible :
        (a b c : Fields) (o : Option Items)
        → Respond.check_content cfg py urlparse a b c o ≡ eligible request response result content
        → (a ≡ request)
          × (b ≡ response)
          × (c ≡ result)
          × (o ≡ some content)
          × (contains_excluded_path urlparse
                (extract_candidate_paths_from_arguments urlparse py
                  (extract_tool_call_arguments a)
                  cfg.max_depth
                  cfg.max_nodes)
                cfg.excluded_dirs
              ≡ false)
          × (response_content_contains_excluded_path urlparse py cfg.excluded_dirs cfg.max_depth
                cfg.max_nodes content
              ≡ false)
    unfolding Respond.check_content
    check_content-eligible a b c o h = ground arith

    check_result-eligible :
        (a b : Fields) (o : Option Fields)
        → Respond.check_result cfg py urlparse a b o ≡ eligible request response result content
        → (c : Fields) × (o ≡ some c)
          × (Respond.check_content cfg py urlparse a b c (as_arr (get "content" c))
              ≡ eligible request response result content)
    unfolding Respond.check_result
    check_result-eligible a b none h = cc
    check_result-eligible a b (some c) h = (c, refl, h)

    check_response-eligible :
        (a : Fields) (o : Option Fields)
        → Respond.check_response cfg py urlparse a o ≡ eligible request response result content
        → (b : Fields) × (o ≡ some b)
          × (has "error" b ≡ false)
          × (Respond.check_result cfg py urlparse a b (as_obj (get "result" b))
              ≡ eligible request response result content)
    unfolding Respond.check_response
    check_response-eligible a none h = cc
    check_response-eligible a (some b) h = (b, refl, ground arith, ground arith)

    check_request-eligible :
        (o o' : Option Fields)
        → Respond.check_request cfg py urlparse o o' ≡ eligible request response result content
        → (a : Fields) × (o ≡ some a)
          × (is_str "tools/call" (get "method" a) ≡ true)
          × (Respond.is_excluded_tool (extract_tool_call_name a) ≡ false)
          × (Respond.check_response cfg py urlparse a o' ≡ eligible request response result content)
    unfolding Respond.check_request
    check_request-eligible none o' h = cc
    check_request-eligible (some a) o' h = (a, refl, ground arith, ground arith, ground arith)

    check_call-eligible :
        (server_name : String) (request_json response_json : Value)
        → check_call cfg py urlparse server_name request_json response_json
          ≡ eligible request response result content
        → (cfg.enabled ≡ true)
          × ((server_name =ₛ "pruner") ≡ false)
          × (Respond.check_request cfg py urlparse (as_obj request_json) (as_obj response_json)
              ≡ eligible request response result content)
    unfolding check_call
    check_call-eligible server_name request_json response_json h = ground arith

    pub check_call-IsPrunable :
        (server_name : String) (request_json response_json : Value)
        → check_call cfg py urlparse server_name request_json response_json
          ≡ eligible request response result content
        → IsPrunable server_name request_json response_json request response result content
    check_call-IsPrunable server_name request_json response_json h =
        let (enabled, server, h₁) = check_call-eligible server_name request_json response_json h in
        let (a, is_a, method, tool, h₂) = check_request-eligible _ _ h₁ in
        let (b, is_b, no_error, h₃) = check_response-eligible a _ h₂ in
        let (c, is_c, h₄) = check_result-eligible a b _ h₃ in
        let (eq_a, eq_b, eq_c, is_content, free, free') = check_content-eligible a b c _ h₄ in
        record {
          enabled = enabled;
          server = server;
          request_is = as_obj_lem _ _ (is_a ∙ ap some eq_a);
          method = cc;
          tool = is_excluded_tool-IsOther (extract_tool_call_name request) cc;
          response_is = as_obj_lem _ _ (is_b ∙ ap some eq_b);
          no_error = cc;
          result_is = as_obj_lem _ _ cc;
          content_is = as_arr_lem _ _ cc;
          arguments_free = contains_excluded_path-IsFree urlparse cfg.excluded_dirs _ cc;
          content_free =
              content-AreFree urlparse cfg.excluded_dirs py cfg.max_depth cfg.max_nodes content
                free';
        }
