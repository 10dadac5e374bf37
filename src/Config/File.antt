-- ===== src/Config/File.antt =====
-- The file: the variables of the environment in its texts, the cache, the providers and the models,
-- and the settings of the sanitizer and of the compression. `env` is the environment and `read` what
-- the TOML library returns for a path, none where the file is missing or is no TOML.
use kimi_proxy.Base.{
  ℕ, zero, suc, pos, String, ◌<>◌, count, true, Option, none, some, ◌>>=◌, ◌=ₛ◌, or_else,
  if◌then◌else◌,
}
use Prim.Native.Char.{Char}
use kimi_proxy.Base.Text.{begins, drop_chars}
use kimi_proxy.Json.{
  Value, Items, Fields, null, bool, int, real, str, arr, obj, nil, cons, end, field, as_obj, get_or,
}

-- the text before the first `}`
before_brace : String → Option String
before_brace String.[] = none
before_brace (String.◌∷◌ c s) =
    let rest = before_brace s in
    if begins (String.◌∷◌ c "") "}"
    then some ""
    else rest >>= (λ (name : String). some (String.◌∷◌ c name))

nonempty_name : Option String → Option String
nonempty_name none = none
nonempty_name (some name) = if name =ₛ "" then none else some name

-- the name in a match of `\$\{([^}]+)\}` at the start of a text
variable : String → Option String
unfolding before_brace nonempty_name
variable s = if begins s "${" then nonempty_name (before_brace (drop_chars 2 s)) else none

-- the characters of the match after its first
match_rest : Option String → ℕ
match_rest none = 0
match_rest (some name) = suc (suc (count name))

replace_env_var : (String → Option String) → Char → Option String → String → String
replace_env_var env c none rest = String.◌∷◌ c rest
replace_env_var env c (some name) rest = or_else (env name) ("${" <> (name <> "}")) <> rest

-- the text after `skip` characters, with its variables replaced
expand_from : (String → Option String) → ℕ → String → String
unfolding variable match_rest replace_env_var
expand_from env skip String.[] = ""
expand_from env (suc skip) (String.◌∷◌ c s) = expand_from env skip s
expand_from env zero (String.◌∷◌ c s) =
    let found = variable (String.◌∷◌ c s) in
    replace_env_var env c found (expand_from env (match_rest found) s)

unfoldable mutual
  unfolding expand_from

  pub expand_env_vars : (String → Option String) → Value → Value
  expand_env_vars env (str s) = str (expand_from env 0 s)
  expand_env_vars env (obj d) = obj (expand_env_fields env d)
  expand_env_vars env (arr xs) = arr (expand_env_items env xs)
  expand_env_vars env null = null
  expand_env_vars env (bool b) = bool b
  expand_env_vars env (int i) = int i
  expand_env_vars env (real x) = real x

  pub expand_env_items : (String → Option String) → Items → Items
  expand_env_items env nil = nil
  expand_env_items env (cons v xs) = cons (expand_env_vars env v) (expand_env_items env xs)

  pub expand_env_fields : (String → Option String) → Fields → Fields
  expand_env_fields env end = end
  expand_env_fields env (field k v d) = field k (expand_env_vars env v) (expand_env_fields env d)

-- what a loader returns, none where it raises, and the cache that it leaves
module _ (env : String → Option String) (read : String → Option Fields)
    (default_path : String) where
  stored : Option Fields → Option Fields × Option Fields
  stored none = (none, none)
  stored (some raw) = (some (expand_env_fields env raw), some (expand_env_fields env raw))

  unfoldable pub load_config : Option String → Option Fields → Option Fields × Option Fields
  unfolding stored
  load_config path (some cached) = (some cached, some cached)
  load_config path none = stored (read (or_else path default_path))

  unfoldable pub reload_config : Option String → Option Fields → Option Fields × Option Fields
  unfolding load_config
  reload_config path cache = load_config path none

  unfoldable pub get_config : Option Fields → Option Fields × Option Fields
  unfolding load_config
  get_config cache = load_config none cache

-- `d.get(k, {})`, none where it is no dict and a method of it is called
section : String → Fields → Option Fields
section k d = as_obj (get_or k (obj end) d)

provider_entry : String → Fields → Value
provider_entry key d = obj (
    field "key" (str key) (
      field "type" (get_or "type" (str "openai") d) (
        field "base_url" (get_or "base_url" (str "") d)
          (field "api_key" (get_or "api_key" (str "") d) end))))

unfoldable pub provider_entries : Fields → Option Fields
unfolding provider_entry
provider_entries end = some end
provider_entries (field key v d) =
    let rest = provider_entries d in
    as_obj v >>= (λ (entry : Fields).
      rest >>= (λ (entries : Fields). some (field key (provider_entry key entry) entries)))

unfoldable pub init_providers : Fields → Option Fields
unfolding provider_entries section
init_providers config = section "providers" config >>= provider_entries

model_entry : String → Fields → Value
model_entry key d = obj (
    field "key" (str key) (
      field "model" (get_or "model" (str key) d) (
        field "provider" (get_or "provider" (str "nvidia") d) (
          field "max_context_size" (get_or "max_context_size" (int (pos 262144)) d)
            (field "capabilities" (get_or "capabilities" (arr nil) d) end)))))

unfoldable pub model_entries : Fields → Option Fields
unfolding model_entry
model_entries end = some end
model_entries (field key v d) =
    let rest = model_entries d in
    as_obj v >>= (λ (entry : Fields).
      rest >>= (λ (entries : Fields). some (field key (model_entry key entry) entries)))

unfoldable pub init_models : Fields → Option Fields
unfolding model_entries section
init_models config = section "models" config >>= model_entries

-- The folder depends on the user, and 0.90 is a float by its bits.
unfoldable pub get_sanitizer_config : String → Fields → Option Fields
unfolding section
get_sanitizer_config tmp_dir config = section "sanitizer" config >>= (λ (d : Fields).
    section "routing" d >>= (λ (routing : Fields). some (
      field "enabled" (get_or "enabled" (bool true) d) (
        field "threshold_tokens" (get_or "threshold_tokens" (int (pos 1000)) d) (
          field "preview_length" (get_or "preview_length" (int (pos 200)) d) (
            field "tmp_dir" (get_or "tmp_dir" (str tmp_dir) d) (
              field "tags"
                (get_or "trigger_tags"
                  (arr (
                    cons (str "@file") (
                      cons (str "@codebase")
                        (cons (str "@tool") (cons (str "@console") (cons (str "@output") nil))))))
                  d)
                (field "fallback_threshold"
                  (get_or "fallback_threshold" (real 4606281698874543309) routing)
                  (field "heavy_duty_fallback" (get_or "heavy_duty_fallback" (bool true) routing)
                    end)))))))))

unfoldable pub get_compression_config : Fields
get_compression_config = field "enabled" (bool true) (
    field "threshold_percentage" (int (pos 85)) (
      field "preserve_recent_exchanges" (int (pos 5))
        (field "summary_max_tokens" (int (pos 500)) end)))
