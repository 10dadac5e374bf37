-- ===== src/Config/Sections.antt =====
-- The sections of the pruner's server, of the masking of observations, of the gateway, of the log
-- watcher and of the database. A loader is none where it raises.
use kimi_proxy.Base.{
  ℕ, ℤ, pos, ltb_ℤ, String, Bool, true, false, Option, none, some, List, [], ◌∷◌, ◌>>=◌, ◌=ₛ◌, ◌++◌,
  elem, if◌then◌else◌,
}
use kimi_proxy.Base.Text.{strip, join}
use kimi_proxy.Base.Words.{split}
use kimi_proxy.Json.{Value, Fields, bool, int, real, str, as_obj, get, get_or}
use kimi_proxy.Python.{Python}
use kimi_proxy.Config.Values.{
  Floats, truth, int_at_least, clamp_int, clamp_int_low, clamp_float, str_or,
}

pub record McpPrunerBackendConfig : Type 0 where
  pub backend : String
  pub deepinfra_timeout_ms : ℤ
  pub deepinfra_max_docs : ℤ
  pub cache_ttl_s : ℤ
  pub cache_max_entries : ℤ

abbrev pub backend_defaults : McpPrunerBackendConfig
backend_defaults = record {
  backend = "heuristic";
  deepinfra_timeout_ms = pos 20000;
  deepinfra_max_docs = pos 64;
  cache_ttl_s = pos 30;
  cache_max_entries = pos 256;
}

-- the names of one part of the list, none or one
unfoldable pub backend_part : String → List String
backend_part p =
    if elem p ("cloud" ∷ "deepinfra" ∷ [])
    then "deepinfra" ∷ []
    else if elem p ("local" ∷ "rag" ∷ "local_rag" ∷ [])
    then "local_rag" ∷ []
    else if p =ₛ "heuristic"
    then "heuristic" ∷ []
    else []

unfoldable pub backend_parts : List String → List String
unfolding backend_part
backend_parts [] = []
backend_parts (p ∷ ps) = backend_part (strip p) ++ backend_parts ps

joined_or_heuristic : List String → String
joined_or_heuristic [] = "heuristic"
joined_or_heuristic (p ∷ ps) = join "," (p ∷ ps)

unfoldable pub backend_of : Python → Value → String
unfolding backend_parts joined_or_heuristic
backend_of py (str backend) =
    let raw = py.lower (strip backend) in
    if raw =ₛ "" then "heuristic" else joined_or_heuristic (backend_parts (split b',' raw))
backend_of py _ = "heuristic"

pub record ObservationMaskingSchema1Config : Type 0 where
  pub enabled : Bool
  pub window_turns : ℤ
  pub keep_errors : Bool
  pub keep_last_k_per_tool : Option ℤ
  pub placeholder_template : String

abbrev pub masking_defaults : ObservationMaskingSchema1Config
masking_defaults = record {
  enabled = false;
  window_turns = pos 8;
  keep_errors = true;
  keep_last_k_per_tool = none;
  placeholder_template =
      "[Observation masquée: résultat d’outil ancien (tool_call_id={tool_call_id}, outil={tool_name}, chars={original_chars})]";
}

positive_int : Value → Option ℤ
positive_int (int i) = if ltb_ℤ (pos 0) i then some i else none
positive_int _ = none

schema1_of : Option Fields → ObservationMaskingSchema1Config
unfolding positive_int
schema1_of none = masking_defaults
schema1_of (some d) = record {
  enabled = truth (get_or "enabled" (bool false) d);
  window_turns = int_at_least (pos 8) (pos 0) (get_or "window_turns" (int (pos 8)) d);
  keep_errors = truth (get_or "keep_errors" (bool true) d);
  keep_last_k_per_tool = positive_int (get "keep_last_k_per_tool" d);
  placeholder_template =
      str_or masking_defaults.placeholder_template
        (get_or "placeholder_template" (str masking_defaults.placeholder_template) d);
}

masking_section : Option Fields → ObservationMaskingSchema1Config
unfolding schema1_of
masking_section none = masking_defaults
masking_section (some d) = schema1_of (as_obj (get "schema1" d))

unfoldable pub get_observation_masking_schema1_config : Fields → ObservationMaskingSchema1Config
unfolding masking_section
get_observation_masking_schema1_config config =
    masking_section (as_obj (get "observation_masking" config))

pub record McpGatewayConfig : Type 0 where
  pub cb_enabled : Bool
  pub cb_max_failures : ℤ
  pub cb_similarity_threshold : ℕ

-- The similarity has the bits of 0.85.
abbrev pub gateway_defaults : McpGatewayConfig
gateway_defaults = record {
  cb_enabled = true;
  cb_max_failures = pos 5;
  cb_similarity_threshold = 4605831338911806259;
}

module _ (F : Floats) where
  backend_section : Python → Option Fields → Option McpPrunerBackendConfig
  unfolding backend_of
  backend_section py none = some backend_defaults
  backend_section py (some d) =
      clamp_int F (pos 20000) (pos 1) (pos 120000)
        (get_or "deepinfra_timeout_ms" (int (pos 20000)) d)
      >>= (λ (timeout : ℤ).
          clamp_int F (pos 64) (pos 1) (pos 512) (get_or "deepinfra_max_docs" (int (pos 64)) d)
          >>= (λ (docs : ℤ).
              clamp_int F (pos 30) (pos 1) (pos 3600) (get_or "cache_ttl_s" (int (pos 30)) d)
              >>= (λ (ttl : ℤ).
                  clamp_int F (pos 256) (pos 1) (pos 100000)
                    (get_or "cache_max_entries" (int (pos 256)) d)
                  >>= (λ (entries : ℤ). some (record {
                    backend = backend_of py (get_or "backend" (str "heuristic") d);
                    deepinfra_timeout_ms = timeout;
                    deepinfra_max_docs = docs;
                    cache_ttl_s = ttl;
                    cache_max_entries = entries;
                  })))))

  unfoldable pub get_mcp_pruner_backend_config : Python → Fields → Option McpPrunerBackendConfig
  unfolding backend_section
  get_mcp_pruner_backend_config py config = backend_section py (as_obj (get "mcp_pruner" config))

  gateway_of : Option Fields → Option McpGatewayConfig
  gateway_of none = some gateway_defaults
  gateway_of (some d) =
      clamp_int_low F (pos 5) (pos 1) (get_or "cb_max_failures" (int (pos 5)) d)
      >>= (λ (failures : ℤ).
          clamp_float F gateway_defaults.cb_similarity_threshold
            (get_or "cb_similarity_threshold" (real gateway_defaults.cb_similarity_threshold) d)
          >>= (λ (similarity : ℕ). some (record {
            cb_enabled = truth (get_or "cb_enabled" (bool true) d);
            cb_max_failures = failures;
            cb_similarity_threshold = similarity;
          })))

  mcp_section : Option Fields → Option McpGatewayConfig
  unfolding gateway_of
  mcp_section none = some gateway_defaults
  mcp_section (some d) = gateway_of (as_obj (get "gateway" d))

  unfoldable pub get_mcp_gateway_config : Fields → Option McpGatewayConfig
  unfolding mcp_section
  get_mcp_gateway_config config = mcp_section (as_obj (get "mcp" config))

flag_in : String → Option Fields → Bool
flag_in key none = false
flag_in key (some d) = truth (get_or key (bool false) d)

-- The records of these two have the one field that is returned.
unfoldable pub get_log_watcher_config : Fields → Bool
unfolding flag_in
get_log_watcher_config config = flag_in "enabled" (as_obj (get "log_watcher" config))

unfoldable pub get_database_config : Fields → Bool
unfolding flag_in
get_database_config config = flag_in "persist_sessions" (as_obj (get "database" config))
