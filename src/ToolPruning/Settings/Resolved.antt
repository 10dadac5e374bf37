-- ===== src/ToolPruning/Settings/Resolved.antt =====
-- The limits that the settings keep whatever the environment holds.
use kimi_proxy.Base.{
  ℤ, pos, leb_ℤ, String, true, Option, none, some, List, [], ◌≡◌, ◌≢◌, arith, eq_iff,
}
use kimi_proxy.Base.Text.{strip}
use kimi_proxy.Python.{Python}
use kimi_proxy.Config.Values.{Floats}
use kimi_proxy.Config.Pruning.{ToolPruningConfig}
use kimi_proxy.Config.Pruning.Clamped.{IsClamped, at_least_lem, list_or_not_nil, cons_not_nil}
use kimi_proxy.ToolPruning.Engine.{Config}
use kimi_proxy.ToolPruning.Settings.{
  resolve_mcp_tool_pruning_config, env_int, default_excluded_dirs,
}
use kimi_proxy.ToolPruning.Settings

-- what the pruning of a response relies on
pub record IsResolved (c : Config) : Type 0 where
  pub min_chars : leb_ℤ (pos 0) c.min_chars ≡ true
  pub call_timeout_ms : leb_ℤ (pos 1) c.call_timeout_ms ≡ true
  pub max_chars_fallback : leb_ℤ (pos 0) c.max_chars_fallback ≡ true
  pub some_excluded : c.excluded_dirs ≢ []
  pub goal_hint : c.goal_hint_override ≢ some ""

int_or_lem :
    (default low : ℤ) (o : Option ℤ)
    → leb_ℤ low default ≡ true
    → leb_ℤ low (Settings.int_or default low o) ≡ true
unfolding Settings.int_or
int_or_lem default low none h = h
int_or_lem default low (some v) h = at_least_lem low v

resolve_excluded_dirs_not_nil :
    (o : Option String) (dirs : List String) → Settings.resolve_excluded_dirs o dirs ≢ []
unfolding Settings.resolve_excluded_dirs Settings.toml_or_default
resolve_excluded_dirs_not_nil none dirs = list_or_not_nil _ default_excluded_dirs (cons_not_nil _ _)
resolve_excluded_dirs_not_nil (some raw) dirs =
    list_or_not_nil (Settings.parse_excluded_dirs_csv raw) _
      (list_or_not_nil (Settings.stripped dirs) default_excluded_dirs (cons_not_nil _ _))

stripped_hint_lem : (o : Option String) → Settings.stripped_hint o ≢ some ""
unfolding Settings.stripped_hint
stripped_hint_lem none h = cc
stripped_hint_lem (some raw) h = ground (arith, eq_iff (strip raw) "")

module _ (py : Python) (F : Floats) (parse_int : String → Option ℤ)
    (env : String → Option String) where
  env_int_lem :
      (name : String) (default low : ℤ)
      → leb_ℤ low default ≡ true
      → leb_ℤ low (env_int py F parse_int env name default low) ≡ true
  unfolding env_int
  env_int_lem name default low h = int_or_lem default low _ h

  -- From a section of the file within its limits, whatever the variables of the environment hold,
  -- come settings within theirs: lengths that are not negative, a positive timeout, at least one
  -- excluded directory, and a hint of a goal, if any, that is not empty.
  pub resolve_mcp_tool_pruning_config-IsResolved :
      (c : ToolPruningConfig)
      → IsClamped F c
      → IsResolved (resolve_mcp_tool_pruning_config py F parse_int env c)
  unfolding resolve_mcp_tool_pruning_config
  resolve_mcp_tool_pruning_config-IsResolved c h = record {
    min_chars = env_int_lem "KIMI_MCP_TOOL_PRUNING_MIN_CHARS" c.min_chars (pos 0) h.min_chars;
    call_timeout_ms =
        env_int_lem "KIMI_MCP_TOOL_PRUNING_TIMEOUT_MS" c.timeout_ms (pos 1) h.timeout_ms;
    max_chars_fallback =
        env_int_lem "KIMI_MCP_TOOL_PRUNING_MAX_CHARS_FALLBACK" c.max_chars_fallback (pos 0)
          h.max_chars_fallback;
    some_excluded =
        resolve_excluded_dirs_not_nil (env "KIMI_MCP_TOOL_PRUNING_EXCLUDED_DIRS") c.excluded_dirs;
    goal_hint = stripped_hint_lem (env "KIMI_MCP_PRUNING_GOAL_HINT");
  }
