-- ===== src/ToolPruning/Paths/Free.antt =====
-- Paths without an excluded directory among their segments, described apart from the code's test.
use kimi_proxy.Base.{
  ℕ, String, ◌≡◌, refl, false, Option, none, some, List, [], ◌∷◌, All, any, elem, arith, eq_iff,
  if◌then◌else◌,
}
use kimi_proxy.Json.{Value, Items, Fields, nil, cons, as_obj, as_str, get}
use kimi_proxy.Python.{Python}
use kimi_proxy.ToolPruning.Engine.{looks_like_json_string}
use kimi_proxy.ToolPruning.Paths
use kimi_proxy.ToolPruning.Paths.{
  split_path_segments, is_excluded_path_recursive, contains_excluded_path,
  extract_candidate_paths_from_json, response_content_contains_excluded_path,
}

none_of_none : (ds : List String) → All (λ d. elem d [] ≡ false) ds
unfolding elem
none_of_none [] = tt
none_of_none (d ∷ ds) = (refl, none_of_none ds)

none_of_more :
    (x : String) (xs ds : List String)
    → elem x ds ≡ false
    → All (λ d. elem d xs ≡ false) ds
    → All (λ d. elem d (x ∷ xs) ≡ false) ds
unfolding elem
none_of_more x xs [] h all = tt
none_of_more x xs (d ∷ ds) h all = (
  ground (arith, eq_iff x d, eq_iff d x, all.0),
  none_of_more x xs ds (ground (arith, eq_iff x d)) all.1,
)

any-none_of :
    (xs ds : List String)
    → any (λ segment. elem segment ds) xs ≡ false
    → All (λ d. elem d xs ≡ false) ds
any-none_of [] ds h = none_of_none ds
any-none_of (x ∷ xs) ds h = none_of_more x xs ds (ground arith) (any-none_of xs ds (ground arith))

module _ (urlparse : String → Option (String × String)) (excluded_dirs : List String) where
  -- no excluded directory is a segment of the path
  abbrev pub IsFree : String → Type 0
  IsFree path = All (λ d. elem d (split_path_segments urlparse path) ≡ false) excluded_dirs

  -- the paths in the text of an item of a content, if the text is JSON
  abbrev pub json_paths : ℕ → ℕ → Option Value → List String
  json_paths max_depth max_nodes none = []
  json_paths max_depth max_nodes (some v) =
      extract_candidate_paths_from_json urlparse v max_depth max_nodes

  abbrev pub paths_of_text : Python → ℕ → ℕ → Option String → List String
  paths_of_text py max_depth max_nodes none = []
  paths_of_text py max_depth max_nodes (some s) =
      if looks_like_json_string s then json_paths max_depth max_nodes (py.loads s) else []

  abbrev pub paths_of_item : Python → ℕ → ℕ → Option Fields → List String
  paths_of_item py max_depth max_nodes none = []
  paths_of_item py max_depth max_nodes (some item) =
      paths_of_text py max_depth max_nodes (as_str (get "text" item))

  -- no item has such a path with an excluded directory
  abbrev pub AreFree : Python → ℕ → ℕ → Items → Type 0
  AreFree py max_depth max_nodes nil = Unit
  AreFree py max_depth max_nodes (cons item items) =
      All IsFree (paths_of_item py max_depth max_nodes (as_obj item))
      × AreFree py max_depth max_nodes items

  is_excluded_path_recursive-none_of :
      (path : String) (dirs : List String)
      → is_excluded_path_recursive urlparse path dirs ≡ false
      → All (λ d. elem d (split_path_segments urlparse path) ≡ false) dirs
  unfolding is_excluded_path_recursive
  is_excluded_path_recursive-none_of path [] h = tt
  is_excluded_path_recursive-none_of path (d ∷ ds) h =
      any-none_of (split_path_segments urlparse path) (d ∷ ds) h

  pub contains_excluded_path-IsFree :
      (paths : List String)
      → contains_excluded_path urlparse paths excluded_dirs ≡ false
      → All IsFree paths
  unfolding contains_excluded_path
  contains_excluded_path-IsFree [] h = tt
  contains_excluded_path-IsFree (p ∷ ps) h = (
    is_excluded_path_recursive-none_of p excluded_dirs (ground arith),
    contains_excluded_path-IsFree ps (ground arith),
  )

  module _ (py : Python) (max_depth max_nodes : ℕ) where
    paths_in_lem :
        (o : Option Value)
        → Paths.paths_in urlparse max_depth max_nodes o ≡ json_paths max_depth max_nodes o
    unfolding Paths.paths_in
    paths_in_lem none = refl
    paths_in_lem (some v) = refl

    text_paths_lem :
        (o : Option String)
        → Paths.text_paths urlparse py max_depth max_nodes o
          ≡ paths_of_text py max_depth max_nodes o
    unfolding Paths.text_paths
    text_paths_lem none = refl
    text_paths_lem (some s) = rw (paths_in_lem (py.loads s)) refl

    item_paths_lem :
        (o : Option Fields)
        → Paths.item_paths urlparse py max_depth max_nodes o
          ≡ paths_of_item py max_depth max_nodes o
    unfolding Paths.item_paths
    item_paths_lem none = refl
    item_paths_lem (some item) = text_paths_lem (as_str (get "text" item))

    pub content-AreFree :
        (items : Items)
        → response_content_contains_excluded_path urlparse py excluded_dirs max_depth max_nodes
            items
          ≡ false
        → AreFree py max_depth max_nodes items
    unfolding response_content_contains_excluded_path
    content-AreFree nil h = tt
    content-AreFree (cons item items) h = (
      contains_excluded_path-IsFree (paths_of_item py max_depth max_nodes (as_obj item))
          (rw (← item_paths_lem (as_obj item)) (ground arith)),
      content-AreFree items (ground arith),
    )
