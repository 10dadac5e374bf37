-- ===== src/ToolPruning/Settings.antt =====
-- The settings of the tool pruning: the environment before the file
-- (resolve_mcp_tool_pruning_config of mcp_tool_pruning/engine.py). `parse_int` is `int(s)`, none
-- where it raises.
pub mod Resolved
use kimi_proxy.Base.{
  ℕ, ℤ, pos, ltb_ℤ, String, Bool, true, false, Option, none, some, List, [], ◌∷◌, ◌=ₛ◌, elem,
  if◌then◌else◌, ◌>>=◌, or_else,
}
use kimi_proxy.Base.Text.{strip}
use kimi_proxy.Base.Words.{split}
use kimi_proxy.Json.{Fields, field, end, real, int, bool}
use kimi_proxy.Python.{Python}
use kimi_proxy.Config.Values.{Floats, zero_bits, one_bits, at_least, distinct, list_or}
use kimi_proxy.Config.Pruning.{ToolPruningConfig}
use kimi_proxy.ToolPruning.Engine.{Config}

abbrev pub default_excluded_dirs : List String
default_excluded_dirs = ".agents" ∷ ".cline" ∷ ".clinerules" ∷ ".windsurf" ∷ []

unfoldable pub parse_excluded_dirs_csv : String → List String
parse_excluded_dirs_csv value = distinct [] (split b',' value)

-- `[item.strip() for item in dirs if item.strip()]`
stripped : List String → List String
stripped [] = []
stripped (item ∷ items) =
    let rest = stripped items in if strip item =ₛ "" then rest else strip item ∷ rest

toml_or_default : List String → List String
unfolding stripped
toml_or_default toml_dirs = list_or (stripped toml_dirs) default_excluded_dirs

resolve_excluded_dirs : Option String → List String → List String
unfolding parse_excluded_dirs_csv toml_or_default
resolve_excluded_dirs none toml_dirs = toml_or_default toml_dirs
resolve_excluded_dirs (some env_raw) toml_dirs =
    list_or (parse_excluded_dirs_csv env_raw) (toml_or_default toml_dirs)

stripped_hint : Option String → Option String
stripped_hint none = none
stripped_hint (some raw) = if strip raw =ₛ "" then none else some (strip raw)

int_or : ℤ → ℤ → Option ℤ → ℤ
int_or default min_value none = default
int_or default min_value (some v) = at_least min_value v

module _ (py : Python) (F : Floats) (parse_int : String → Option ℤ)
    (env : String → Option String) where
  bool_of : Bool → Option String → Bool
  bool_of default none = default
  bool_of default (some raw) = elem (py.lower (strip raw)) ("1" ∷ "true" ∷ "yes" ∷ "y" ∷ "on" ∷ [])

  unfoldable pub env_bool : String → Bool → Bool
  unfolding bool_of
  env_bool name default = bool_of default (env name)

  unfoldable pub env_int : String → ℤ → ℤ → ℤ
  unfolding int_or
  env_int name default min_value =
      int_or default min_value (env name >>= (λ (raw : String). parse_int (strip raw)))

  float_or : ℕ → ℕ → ℕ → Option ℕ → ℕ
  float_or default min_value max_value none = default
  float_or default min_value max_value (some v) =
      if F.less v min_value then min_value else if F.less max_value v then max_value else v

  unfoldable pub env_float : String → ℕ → ℕ → ℕ → ℕ
  unfolding float_or
  env_float name default min_value max_value =
      float_or default min_value max_value (env name >>= (λ (raw : String). F.parse (strip raw)))

  unfoldable pub resolve_mcp_tool_pruning_config : ToolPruningConfig → Config
  unfolding resolve_excluded_dirs stripped_hint env_bool env_int env_float
  resolve_mcp_tool_pruning_config toml_cfg =
      let call_timeout_ms =
        env_int "KIMI_MCP_TOOL_PRUNING_TIMEOUT_MS" toml_cfg.timeout_ms (pos 1) in
      record {
        enabled = env_bool "KIMI_MCP_TOOL_PRUNING_ENABLED" toml_cfg.enabled;
        min_chars = env_int "KIMI_MCP_TOOL_PRUNING_MIN_CHARS" toml_cfg.min_chars (pos 0);
        call_timeout_ms = call_timeout_ms;
        max_chars_fallback =
            env_int "KIMI_MCP_TOOL_PRUNING_MAX_CHARS_FALLBACK" toml_cfg.max_chars_fallback (pos 0);
        goal_hint_override = stripped_hint (env "KIMI_MCP_PRUNING_GOAL_HINT");
        excluded_dirs =
            resolve_excluded_dirs (env "KIMI_MCP_TOOL_PRUNING_EXCLUDED_DIRS")
              toml_cfg.excluded_dirs;
        options =
            field "max_prune_ratio"
              (real (
                env_float "KIMI_MCP_TOOL_PRUNING_MAX_PRUNE_RATIO" toml_cfg.options.max_prune_ratio
                  zero_bits one_bits))
              (field "min_keep_lines"
                (int (
                  env_int "KIMI_MCP_TOOL_PRUNING_MIN_KEEP_LINES" toml_cfg.options.min_keep_lines
                    (pos 0)))
                (field "timeout_ms" (int call_timeout_ms) (
                  field "annotate_lines"
                    (bool (
                      env_bool "KIMI_MCP_TOOL_PRUNING_ANNOTATE_LINES"
                        toml_cfg.options.annotate_lines))
                    (field "include_markers"
                      (bool (
                        env_bool "KIMI_MCP_TOOL_PRUNING_INCLUDE_MARKERS"
                          toml_cfg.options.include_markers))
                      end))));
        max_depth = 20;
        max_nodes = 20000;
        max_pruner_calls_per_response = 3;
      }
