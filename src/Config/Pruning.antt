-- ===== src/Config/Pruning.antt =====
-- The sections `context_pruning` and `mcp_tool_pruning`. A loader is none where it raises.
pub mod Clamped
use kimi_proxy.Base.{ℕ, ℤ, pos, String, Bool, true, false, Option, none, some, List, [], ◌∷◌, ◌>>=◌}
use kimi_proxy.Json.{
  Value, Items, Fields, null, bool, int, real, str, arr, obj, nil, cons, end, field, as_obj, as_arr,
  get, get_or,
}
use kimi_proxy.ContextPruning.{ContextPruningConfig}
use kimi_proxy.Config.Values.{Floats, truth, int_at_least, clamp_ratio, distinct, texts, list_or}

pub record ToolPruningOptions : Type 0 where
  pub max_prune_ratio : ℕ
  pub min_keep_lines : ℤ
  pub timeout_ms : ℤ
  pub annotate_lines : Bool
  pub include_markers : Bool

pub record ToolPruningConfig : Type 0 where
  pub enabled : Bool
  pub min_chars : ℤ
  pub timeout_ms : ℤ
  pub max_chars_fallback : ℤ
  pub excluded_dirs : List String
  pub options : ToolPruningOptions

-- the bits of 0.55
abbrev pub ratio_bits : ℕ
ratio_bits = 4603129179135383962

abbrev pub context_pruning_defaults : ContextPruningConfig
context_pruning_defaults = record {
  enabled = false;
  min_chars_to_prune = pos 2000;
  call_timeout_ms = pos 1500;
  max_prune_ratio = ratio_bits;
  min_keep_lines = pos 40;
  timeout_ms = pos 1500;
  annotate_lines = true;
  include_markers = true;
}

abbrev pub tool_pruning_defaults : ToolPruningConfig
tool_pruning_defaults = record {
  enabled = false;
  min_chars = pos 4000;
  timeout_ms = pos 1500;
  max_chars_fallback = pos 0;
  excluded_dirs = ".agents" ∷ ".cline" ∷ ".clinerules" ∷ ".windsurf" ∷ [];
  options = record {
    max_prune_ratio = ratio_bits;
    min_keep_lines = pos 40;
    timeout_ms = pos 1500;
    annotate_lines = true;
    include_markers = true;
  };
}

-- `v if isinstance(v, dict) else {}`
or_empty : Option Fields → Fields
or_empty none = end
or_empty (some d) = d

-- the paths of a list, each once, or the default
excluded_dirs_of : Option Items → List String
excluded_dirs_of none = tool_pruning_defaults.excluded_dirs
excluded_dirs_of (some xs) = list_or (distinct [] (texts xs)) tool_pruning_defaults.excluded_dirs

module _ (F : Floats) where
  context_section : Option Fields → Option ContextPruningConfig
  unfolding or_empty
  context_section none = some context_pruning_defaults
  context_section (some d) =
      let options = or_empty (as_obj (get "options" d)) in
      clamp_ratio F ratio_bits (get_or "max_prune_ratio" (real ratio_bits) options)
      >>= (λ (ratio : ℕ). some (record {
        enabled = truth (get_or "enabled" (bool false) d);
        min_chars_to_prune =
            int_at_least (pos 2000) (pos 0) (get_or "min_chars_to_prune" (int (pos 2000)) d);
        call_timeout_ms =
            int_at_least (pos 1500) (pos 1) (get_or "call_timeout_ms" (int (pos 1500)) d);
        max_prune_ratio = ratio;
        min_keep_lines =
            int_at_least (pos 40) (pos 0) (get_or "min_keep_lines" (int (pos 40)) options);
        timeout_ms = int_at_least (pos 1500) (pos 1) (get_or "timeout_ms" (int (pos 1500)) options);
        annotate_lines = truth (get_or "annotate_lines" (bool true) options);
        include_markers = truth (get_or "include_markers" (bool true) options);
      }))

  unfoldable pub get_context_pruning_config : Fields → Option ContextPruningConfig
  unfolding context_section
  get_context_pruning_config config = context_section (as_obj (get "context_pruning" config))

  tool_options : Fields → Option ToolPruningOptions
  tool_options options =
      clamp_ratio F ratio_bits (get_or "max_prune_ratio" (real ratio_bits) options)
      >>= (λ (ratio : ℕ). some (record {
        max_prune_ratio = ratio;
        min_keep_lines =
            int_at_least (pos 40) (pos 0) (get_or "min_keep_lines" (int (pos 40)) options);
        timeout_ms = int_at_least (pos 1500) (pos 1) (get_or "timeout_ms" (int (pos 1500)) options);
        annotate_lines = truth (get_or "annotate_lines" (bool true) options);
        include_markers = truth (get_or "include_markers" (bool true) options);
      }))

  tool_section : Option Fields → Option ToolPruningConfig
  unfolding tool_options excluded_dirs_of or_empty
  tool_section none = some tool_pruning_defaults
  tool_section (some d) =
      tool_options (or_empty (as_obj (get "options" d))) >>= (λ (options : ToolPruningOptions).
        some (record {
          enabled = truth (get_or "enabled" (bool false) d);
          min_chars = int_at_least (pos 4000) (pos 0) (get_or "min_chars" (int (pos 4000)) d);
          timeout_ms = int_at_least (pos 1500) (pos 1) (get_or "timeout_ms" (int (pos 1500)) d);
          max_chars_fallback =
              int_at_least (pos 0) (pos 0) (get_or "max_chars_fallback" (int (pos 0)) d);
          excluded_dirs = excluded_dirs_of (as_arr (get "excluded_dirs" d));
          options = options;
        }))

  unfoldable pub get_mcp_tool_pruning_config : Fields → Option ToolPruningConfig
  unfolding tool_section
  get_mcp_tool_pruning_config config = tool_section (as_obj (get "mcp_tool_pruning" config))
