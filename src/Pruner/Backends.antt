-- ===== src/Pruner/Backends.antt =====
-- The backends that `prune_text` runs (mcp_pruner/server.py), and their configuration. The calls of
-- other parties are parameters.
pub mod Raises
use kimi_proxy.Base.{
  ℕ, zero, suc, ℤ, pos, ltb_ℤ, String, count, ◌<>◌, Bool, true, false, Option, none, some, or_else,
  List, [], ◌∷◌, ◌++◌, map, length, elem, ltb, leb, ◌=ₛ◌, ◌>>=◌, if◌then◌else◌,
}
use kimi_proxy.Base.Sorting.{sort_by}
use kimi_proxy.Base.Text.{strip}
use kimi_proxy.Base.Words.{split}
use kimi_proxy.Config.Sections.{McpPrunerBackendConfig, backend_parts}
use kimi_proxy.Pruner.Target.{Rounding, compute_heuristic_keep_set}
use kimi_proxy.Pruner.Select.{select_doc_indices}
use kimi_proxy.Pruner.Rank.{compute_deepinfra_keep_set}

-- `str(e)` of an exception, with its `code` and the status of the response if it has them
pub record Failure : Type 0 where
  pub code : Option String
  pub message : String
  pub status : Option ℤ

pub data Kept : Type 0 where
  kept : List ℕ → Kept
  failed : String → Kept

-- `str.splitlines`, the number of tokens of a text, `str.lower`, the environment, `int(s)`, the two
-- substitutions of the inline cleaning, the kept lines of the local model, the scores of DeepInfra or
-- how it fails, its latency, and the digest of the cache
pub record Services : Type 0 where
  pub splitlines : String → List String
  pub count_tokens_text : String → ℕ
  pub lower : String → String
  pub env : String → Option String
  pub parse_int : String → Option ℤ
  pub strip_uris : String → String
  pub strip_hashes : String → String
  pub local_rag : List String → List ℕ → String → ℕ → Kept
  pub rerank : List String → Option (ℕ → ℕ)
  pub rerank_failure : List String → Failure
  pub latency_ms : ℕ

-- one line of `clean_base64_and_hashes_inline`
clean_line : Services → String → String
clean_line sv line = if ltb 200 (count line) then sv.strip_hashes (sv.strip_uris line) else line

unfoldable pub clean_base64_and_hashes_inline : Services → List String → List String
unfolding clean_line
clean_base64_and_hashes_inline sv lines = map (clean_line sv) lines

-- the lines that the backends see
unfoldable pub cleaned : Services → List String → List String → List String
cleaned sv backends lines =
    if elem "heuristic" backends then clean_base64_and_hashes_inline sv lines else lines

or_heuristic : List String → List String
or_heuristic [] = "heuristic" ∷ []
or_heuristic (b ∷ bs) = b ∷ bs

unfoldable pub get_pruning_backends_from_env : Services → McpPrunerBackendConfig → List String
unfolding or_heuristic
get_pruning_backends_from_env sv toml_cfg =
    let raw = sv.lower (strip (or_else (sv.env "KIMI_PRUNING_BACKEND") "")) in
    or_heuristic (backend_parts (split b',' (if raw =ₛ "" then toml_cfg.backend else raw)))

env_int_optional : Services → String → Option ℤ
env_int_optional sv name =
    sv.env name >>= (λ (raw : String). if strip raw =ₛ "" then none else sv.parse_int (strip raw))

clamped : ℤ → ℤ → ℤ → ℤ
clamped low high i = if ltb_ℤ i low then low else if ltb_ℤ high i then high else i

pub record DeepInfraClientConfig : Type 0 where
  pub endpoint_url : String
  pub api_key : String
  pub timeout_ms : ℤ
  pub max_docs : ℤ

-- none where the key is missing
unfoldable pub get_deepinfra_client_config :
    String → Services → McpPrunerBackendConfig → Option DeepInfraClientConfig
unfolding env_int_optional clamped
get_deepinfra_client_config default_endpoint_url sv toml_cfg =
    let url = strip (or_else (sv.env "DEEPINFRA_ENDPOINT_URL") "") in
    let api_key = strip (or_else (sv.env "DEEPINFRA_API_KEY") "") in
    if api_key =ₛ ""
    then none
    else some (record {
      endpoint_url = if url =ₛ "" then default_endpoint_url else url;
      api_key = api_key;
      timeout_ms =
          clamped (pos 1) (pos 120000)
            (or_else (env_int_optional sv "DEEPINFRA_TIMEOUT_MS") toml_cfg.deepinfra_timeout_ms);
      max_docs =
          clamped (pos 1) (pos 512)
            (or_else (env_int_optional sv "DEEPINFRA_MAX_DOCS") toml_cfg.deepinfra_max_docs);
    })

-- the variables of the loop over the backends
pub record Pass : Type 0 where
  pub keep_set : List ℕ
  pub warnings : List String
  pub latency_ms : Option ℕ
  pub docs_scored : Option ℕ
  pub docs_total : Option ℕ
  pub http_status : Option ℤ

after_rag : Pass → Kept → Pass
after_rag p (kept keep_set) = record p { keep_set = sort_by leb keep_set }
after_rag p (failed e) = record p { warnings = p.warnings ++ ("local_rag_error:" <> e) ∷ [] }

code_warning : Option String → List String
code_warning none = []
code_warning (some code) = code ∷ []

status_after : Option ℤ → Option ℤ → Option ℤ
status_after none before = before
status_after (some status) before = some status

after_deepinfra : Services → List String → Pass → Option (List ℕ) → Pass
unfolding code_warning status_after
after_deepinfra sv lines p (some keep_set) = record p {
  keep_set = sort_by leb keep_set;
  latency_ms = some sv.latency_ms;
  http_status = some (pos 200);
}
after_deepinfra sv lines p none =
    let e = sv.rerank_failure lines in
    record p {
      warnings =
          p.warnings
          ++ ("deepinfra_error"
              ∷ (code_warning e.code
                  ++ ("deepinfra_error:[" <> (or_else e.code "None" <> ("] " <> e.message))) ∷ []));
      http_status = status_after e.status p.http_status;
    }

module _ (fl : Rounding) (sv : Services) (toml_cfg : McpPrunerBackendConfig)
    (default_endpoint_url : String) (lines : List String) (goal_hint : String)
    (keep_target : ℕ) where
  with_client : Pass → DeepInfraClientConfig → Pass
  unfolding after_deepinfra
  with_client p client =
      let scored = length (select_doc_indices fl (length p.keep_set) client.max_docs) in
      after_deepinfra sv lines
        (record p { docs_total = some (length lines); docs_scored = some scored })
        (compute_deepinfra_keep_set fl sv.rerank lines p.keep_set keep_target client.max_docs)

  run_backend : String → Pass → Option Pass
  unfolding after_rag with_client
  run_backend b p =
      if b =ₛ "heuristic"
      then some (record p { keep_set = compute_heuristic_keep_set fl p.keep_set keep_target })
      else if b =ₛ "local_rag"
      then some (after_rag p (sv.local_rag lines p.keep_set goal_hint keep_target))
      else if b =ₛ "deepinfra"
      then get_deepinfra_client_config default_endpoint_url sv toml_cfg
        >>= (λ (client : DeepInfraClientConfig). some (with_client p client))
      else some p

  -- none where a backend raises
  unfoldable pub run_backends : List String → Pass → Option Pass
  unfolding run_backend
  run_backends [] p = some p
  run_backends (b ∷ bs) p = run_backend b p >>= (λ (q : Pass). run_backends bs q)
