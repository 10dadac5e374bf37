-- ===== src/Examples/Masked.antt =====
-- Observation masking at a concrete chat.
use kimi_proxy.Base.{pos, String, ◌≡◌, refl, true, none, [], ◌∷◌, map, Dict}
use kimi_proxy.Examples.{py, chat}
use kimi_proxy.Masking
use kimi_proxy.Masking.{MaskPolicy}
use kimi_proxy.Masking.Laws.{expected, mask_old_tool_results-eq-expected}

abbrev policy : MaskPolicy
policy = record {
  enabled = true;
  window_turns = pos 1;
  keep_errors = true;
  keep_last_k_per_tool = none;
  placeholder_template = "[masked]";
}

abbrev names : Dict String
names = ("c1", "read") ∷ ("c2", "read") ∷ []

mask_old_tool_results-eq-expected_example :
    Masking.mask_old_tool_results py chat policy ≡ map (expected py policy chat) chat
mask_old_tool_results-eq-expected_example =
    mask_old_tool_results-eq-expected py policy chat refl refl
