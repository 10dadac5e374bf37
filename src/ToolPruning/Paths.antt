-- ===== src/ToolPruning/Paths.antt =====
-- The paths that a tool is called with, or answers with, and the excluded directories
-- (mcp_tool_pruning/engine.py). `urlparse` stands for the standard library's functions: the host
-- and the unquoted path of a URI, or none where they raise.
pub mod Found
pub mod Free
use kimi_proxy.Base.{
  ℕ, zero, suc, max, String, ◌<>◌, Bool, true, false, not, ◌&&◌, ◌||◌, Option, none, some, List, [],
  ◌∷◌, ◌++◌, ◌=ₛ◌, leb, ltb, if◌then◌else◌, any, keep_if, elem,
}
use kimi_proxy.Base.Text.{strip, begins, contains}
use kimi_proxy.Base.Words.{split, forward, squeeze}
use kimi_proxy.Json.{
  Value, Items, Fields, null, bool, int, real, str, arr, obj, nil, cons, end, field, as_str, as_obj,
  get,
}
use kimi_proxy.Python.{Python}
use kimi_proxy.ToolPruning.Engine.{looks_like_json_string}

abbrev pub path_like_argument_keys : List String
path_like_argument_keys =
    "path" ∷ "file_path" ∷ "filepath" ∷ "paths" ∷ "directory" ∷ "dir" ∷ "cwd" ∷ "root" ∷ "roots"
    ∷ "uri" ∷ "uris" ∷ []

-- A drive letter before a slash, the last test of the source, has a slash, which is tested before.
unfoldable pub looks_like_path : String → Bool
looks_like_path value =
    let stripped = strip value in
    if stripped =ₛ ""
    then false
    else begins stripped "file://"
      || begins stripped "/"
      || begins stripped "./"
      || begins stripped "../"
      || begins stripped ".\\"
      || begins stripped "..\\"
      || contains "\\" stripped
      || contains "/" stripped

-- `_NodeBudget.tick` after the test of the depth
within : ℕ → ℕ → ℕ → ℕ → List String × ℕ → List String × ℕ
within max_depth max_nodes depth visited inside =
    if ltb max_depth depth
    then ([], visited)
    else if leb (suc visited) max_nodes
    then inside
    else ([], suc visited)

listed : Bool → String → List String
listed kept s = if kept then s ∷ [] else []

module _ (urlparse : String → Option (String × String)) where
  from_uri : String → Option (String × String) → String
  from_uri normalized none = normalized
  from_uri normalized (some (netloc, path)) =
      let candidate = if not (netloc =ₛ "") && not (begins path "/") then "/" <> path else path in
      if candidate =ₛ "" then normalized else candidate

  unfoldable pub normalize_path_like : String → String
  unfolding from_uri
  normalize_path_like value =
      let normalized = strip value in
      if normalized =ₛ ""
      then ""
      else strip (
          squeeze (
            forward (
              if begins normalized "file://"
              then from_uri normalized (urlparse normalized)
              else normalized)))

  unfoldable pub split_path_segments : String → List String
  unfolding normalize_path_like
  split_path_segments path =
      let normalized = normalize_path_like path in
      if normalized =ₛ ""
      then []
      else keep_if (λ segment. not (segment =ₛ "") && not (segment =ₛ ".")) (split b'/' normalized)

  unfoldable pub is_excluded_path_recursive : String → List String → Bool
  unfolding split_path_segments
  is_excluded_path_recursive path [] = false
  is_excluded_path_recursive path (d ∷ excluded_dirs) =
      any (λ segment. elem segment (d ∷ excluded_dirs)) (split_path_segments path)

  unfoldable pub contains_excluded_path : List String → List String → Bool
  unfolding is_excluded_path_recursive
  contains_excluded_path paths excluded_dirs =
      any (λ path. is_excluded_path_recursive path excluded_dirs) paths

  module _ (max_depth max_nodes : ℕ) where
    module _ (py : Python) where
      -- the walk of `_extract_candidate_paths_from_arguments`
      unfoldable mutual
        unfolding within listed

        pub walk : Value → Bool → ℕ → ℕ → List String × ℕ
        walk (str s) active depth visited =
            let normalized = normalize_path_like s in
            within max_depth max_nodes depth visited
              (listed (active && not (normalized =ₛ "")) normalized, suc visited)
        walk (arr xs) active depth visited =
            within max_depth max_nodes depth visited
              (walk_items xs active (suc depth) (suc visited))
        walk (obj d) active depth visited =
            within max_depth max_nodes depth visited
              (walk_fields d active (suc depth) (suc visited))
        walk null active depth visited = within max_depth max_nodes depth visited ([], suc visited)
        walk (bool b) active depth visited =
            within max_depth max_nodes depth visited ([], suc visited)
        walk (int i) active depth visited =
            within max_depth max_nodes depth visited ([], suc visited)
        walk (real x) active depth visited =
            within max_depth max_nodes depth visited ([], suc visited)

        pub walk_items : Items → Bool → ℕ → ℕ → List String × ℕ
        walk_items nil active depth visited = ([], visited)
        walk_items (cons v xs) active depth visited =
            let (found, visited') = walk v active depth visited in
            let (more, visited'') = walk_items xs active depth visited' in
            (found ++ more, visited'')

        pub walk_fields : Fields → Bool → ℕ → ℕ → List String × ℕ
        walk_fields end active depth visited = ([], visited)
        walk_fields (field key v d) active depth visited =
            let key_active = active || elem (py.lower (strip key)) path_like_argument_keys in
            let (found, visited') = walk v key_active depth visited in
            let (more, visited'') = walk_fields d active depth visited' in
            (found ++ more, visited'')

    -- the walk of `_extract_candidate_paths_from_json`
    unfoldable mutual
      unfolding within listed

      pub walk_json : Value → ℕ → ℕ → List String × ℕ
      walk_json (str s) depth visited =
          let normalized = normalize_path_like s in
          within max_depth max_nodes depth visited
            (listed (not (normalized =ₛ "") && looks_like_path normalized) normalized, suc visited)
      walk_json (arr xs) depth visited =
          within max_depth max_nodes depth visited (walk_json_items xs (suc depth) (suc visited))
      walk_json (obj d) depth visited =
          within max_depth max_nodes depth visited (walk_json_fields d (suc depth) (suc visited))
      walk_json null depth visited = within max_depth max_nodes depth visited ([], suc visited)
      walk_json (bool b) depth visited = within max_depth max_nodes depth visited ([], suc visited)
      walk_json (int i) depth visited = within max_depth max_nodes depth visited ([], suc visited)
      walk_json (real x) depth visited = within max_depth max_nodes depth visited ([], suc visited)

      pub walk_json_items : Items → ℕ → ℕ → List String × ℕ
      walk_json_items nil depth visited = ([], visited)
      walk_json_items (cons v xs) depth visited =
          let (found, visited') = walk_json v depth visited in
          let (more, visited'') = walk_json_items xs depth visited' in (found ++ more, visited'')

      pub walk_json_fields : Fields → ℕ → ℕ → List String × ℕ
      walk_json_fields end depth visited = ([], visited)
      walk_json_fields (field key v d) depth visited =
          let (found, visited') = walk_json v depth visited in
          let (more, visited'') = walk_json_fields d depth visited' in (found ++ more, visited'')

  unfoldable pub extract_candidate_paths_from_arguments : Python → Value → ℕ → ℕ → List String
  unfolding walk
  extract_candidate_paths_from_arguments py args max_depth max_nodes =
      (walk max_depth (max 1 max_nodes) py args false 0 0).0

  unfoldable pub extract_candidate_paths_from_json : Value → ℕ → ℕ → List String
  unfolding walk_json
  extract_candidate_paths_from_json value max_depth max_nodes =
      (walk_json max_depth (max 1 max_nodes) value 0 0).0

  paths_in : ℕ → ℕ → Option Value → List String
  unfolding extract_candidate_paths_from_json
  paths_in max_depth max_nodes none = []
  paths_in max_depth max_nodes (some parsed) =
      extract_candidate_paths_from_json parsed max_depth max_nodes

  -- the paths in a text of an item of the content
  text_paths : Python → ℕ → ℕ → Option String → List String
  unfolding paths_in
  text_paths py max_depth max_nodes none = []
  text_paths py max_depth max_nodes (some s) =
      if looks_like_json_string s then paths_in max_depth max_nodes (py.loads s) else []

  item_paths : Python → ℕ → ℕ → Option Fields → List String
  unfolding text_paths
  item_paths py max_depth max_nodes none = []
  item_paths py max_depth max_nodes (some item) =
      text_paths py max_depth max_nodes (as_str (get "text" item))

  unfoldable pub response_content_contains_excluded_path :
      Python → List String → ℕ → ℕ → Items → Bool
  unfolding item_paths contains_excluded_path
  response_content_contains_excluded_path py excluded_dirs max_depth max_nodes nil = false
  response_content_contains_excluded_path py excluded_dirs max_depth max_nodes (cons item xs) =
      contains_excluded_path (item_paths py max_depth max_nodes (as_obj item)) excluded_dirs
      || response_content_contains_excluded_path py excluded_dirs max_depth max_nodes xs
