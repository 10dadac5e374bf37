-- ===== src/Pruner/Serve.antt =====
-- The tool `prune_text` of the pruner's server (mcp_pruner/server.py): the checks of its arguments,
-- the cache, and the answer. It is none where it raises, which only a backend does.
pub mod Stored
use kimi_proxy.Base.{
  ℕ, ℤ, pos, ltb_ℤ, String, count, Bool, Option, none, some, List, elem, leb, ◌>>=◌, if◌then◌else◌,
  [], ◌∷◌,
}
use kimi_proxy.Base.Text.{join}
use kimi_proxy.Json.{
  Fields, Value, int, real, bool, field, end, get, as_str, as_obj, as_bool, as_int,
}
use kimi_proxy.Config.Sections.{McpPrunerBackendConfig}
use kimi_proxy.Pruner.Target.{Rounding}
use kimi_proxy.Pruner.Cache
use kimi_proxy.Pruner.Backends.{Services, get_pruning_backends_from_env}
use kimi_proxy.Pruner.Answer.{
  Server, Reply, invalid, Times, PruneOptions, Numbers, too_large, pruned_entry, from_cache,
}

module _ (fl : Rounding) (nm : Numbers fl) (sv : Services) (toml_cfg : McpPrunerBackendConfig)
    (default_endpoint_url : String) (max_input_chars : ℤ) (t : Times) (prune_id : String) where
  -- the options, as the cache's key has them
  options_key : PruneOptions fl → Fields
  options_key o = field "max_prune_ratio" (real (nm.bits o.max_prune_ratio)) (
      field "min_keep_lines" (int o.min_keep_lines) (
        field "timeout_ms" (int o.timeout_ms) (
          field "annotate_lines" (bool o.annotate_lines)
            (field "include_markers" (bool o.include_markers) end))))

  prune_checked :
      Server → List String → String → String → String → PruneOptions fl → Option (Server × Reply)
  unfolding options_key
  prune_checked s backends text goal_hint source_type o =
      let backends_str = join "," backends in
      let key = nm.digest backends_str text goal_hint source_type (options_key o) in
      let (cache, cached) = Cache.get s.cache t.looked key in
      from_cache fl nm sv toml_cfg default_endpoint_url max_input_chars t prune_id
        (record s { cache = cache }) key backends_str
        (pruned_entry fl nm sv toml_cfg default_endpoint_url max_input_chars t prune_id backends
          text goal_hint o)
        text cached

  check_limits :
      Server → List String → String → String → String → PruneOptions fl → Option (Server × Reply)
  unfolding prune_checked
  check_limits s backends text goal_hint source_type o =
      if nm.outside o.max_prune_ratio
      then some (s, invalid "Invalid params: options.max_prune_ratio must be between 0 and 1")
      else if ltb_ℤ o.min_keep_lines (pos 0)
      then some (s, invalid "Invalid params: options.min_keep_lines must be >= 0")
      else if ltb_ℤ o.timeout_ms (pos 1)
      then some (s, invalid "Invalid params: options.timeout_ms must be >= 1")
      else prune_checked s backends text goal_hint source_type o

  -- the five options, none where one is missing or of another type
  options_of : Fields → Option (PruneOptions fl)
  options_of d = nm.float_of (get "max_prune_ratio" d) >>= (λ (ratio : fl.Ratio).
      as_int (get "min_keep_lines" d) >>= (λ (min_keep_lines : ℤ).
        as_int (get "timeout_ms" d) >>= (λ (timeout_ms : ℤ).
          as_bool (get "annotate_lines" d) >>= (λ (annotate_lines : Bool).
            as_bool (get "include_markers" d) >>= (λ (include_markers : Bool). some (record {
              max_prune_ratio = ratio;
              min_keep_lines = min_keep_lines;
              timeout_ms = timeout_ms;
              annotate_lines = annotate_lines;
              include_markers = include_markers;
            }))))))

  check_options :
      Server
      → List String
      → String
      → String
      → String
      → Option (PruneOptions fl)
      → Option (Server × Reply)
  unfolding check_limits
  check_options s backends text goal_hint source_type none = some (
    s,
    invalid
        "Invalid params: options must contain max_prune_ratio, min_keep_lines, timeout_ms, annotate_lines, include_markers",
  )
  check_options s backends text goal_hint source_type (some o) =
      check_limits s backends text goal_hint source_type o

  check_arguments :
      Server
      → Option String
      → Option String
      → Option String
      → Option Fields
      → Option (Server × Reply)
  unfolding options_of check_options
  check_arguments s (some text) (some goal_hint) (some source_type) (some options) =
      let backends = get_pruning_backends_from_env sv toml_cfg in
      if elem source_type ("code" ∷ "logs" ∷ "docs" ∷ [])
      then if ltb_ℤ max_input_chars (pos (count text))
        then some (
            too_large fl nm sv toml_cfg default_endpoint_url max_input_chars t prune_id s text
              backends)
        else check_options s backends text goal_hint source_type (options_of options)
      else some (s, invalid "Invalid params: source_type must be one of code|logs|docs")
  check_arguments s _ _ _ _ =
      some (s, invalid "Invalid params: expected {text, goal_hint, source_type, options}")

  unfoldable pub tool_prune_text : Server → Fields → Option (Server × Reply)
  unfolding check_arguments
  tool_prune_text s args =
      check_arguments s (as_str (get "text" args)) (as_str (get "goal_hint" args))
        (as_str (get "source_type" args)) (as_obj (get "options" args))
