-- ===== src/ToolPruning/Request.antt =====
-- What is taken from the request of a tool's call (mcp_tool_pruning/engine.py): the name, the
-- arguments, the hint of a goal, the type of the source, and the identifiers of the pruner's calls.
use kimi_proxy.Base.{
  ℕ, ◌%◌, ◌^◌, ℤ, pos, add_ℕ, String, ◌<>◌, Option, none, some, List, [], ◌∷◌, ◌++◌, ◌=ₛ◌,
  if◌then◌else◌, elem,
}
use kimi_proxy.Base.Text.{strip, take_chars, join}
use kimi_proxy.Base.Words.{ends_any}
use kimi_proxy.Json.{Value, Fields, null, int, as_str, as_obj, get}
use kimi_proxy.Python.{Python}

stripped_name : Option String → Option String
stripped_name none = none
stripped_name (some name) = if strip name =ₛ "" then none else some (strip name)

params_name : Option Fields → Option String
unfolding stripped_name
params_name none = none
params_name (some params) = stripped_name (as_str (get "name" params))

unfoldable pub extract_tool_call_name : Fields → Option String
unfolding params_name
extract_tool_call_name request = params_name (as_obj (get "params" request))

params_arguments : Option Fields → Value
params_arguments none = null
params_arguments (some params) = get "arguments" params

unfoldable pub extract_tool_call_arguments : Fields → Value
unfolding params_arguments
extract_tool_call_arguments request = params_arguments (as_obj (get "params" request))

hint_part : String → Option String → List String
hint_part key none = []
hint_part key (some v) =
    if strip v =ₛ "" then [] else (key <> ("=" <> take_chars 120 (strip v))) ∷ []

hint_parts : Fields → List String → List String
unfolding hint_part
hint_parts args [] = []
hint_parts args (key ∷ keys) = hint_part key (as_str (get key args)) ++ hint_parts args keys

argument_parts : Option Fields → List String
unfolding hint_parts
argument_parts none = []
argument_parts (some args) =
    hint_parts args ("path" ∷ "pattern" ∷ "query" ∷ "glob" ∷ "filePattern" ∷ [])

tool_part : Option String → List String
tool_part none = []
tool_part (some tool_name) = ("outil=" <> tool_name) ∷ []

unfoldable pub derive_goal_hint_from_tool_call : String → Option String → Fields → String
unfolding tool_part argument_parts
derive_goal_hint_from_tool_call server_name tool_name request =
    let parts =
      ("serveur=" <> server_name)
      ∷ (tool_part tool_name ++ argument_parts (as_obj (extract_tool_call_arguments request))) in
    let hint = join " | " parts in if hint =ₛ "" then "résultat d’outil MCP" else hint

abbrev pub code_endings : List String
code_endings =
    ".py" ∷ ".js" ∷ ".ts" ∷ ".java" ∷ ".go" ∷ ".rs" ∷ ".c" ∷ ".cpp" ∷ ".h" ∷ ".hpp" ∷ ".css"
    ∷ ".html" ∷ ".json" ∷ ".toml" ∷ ".yaml" ∷ ".yml" ∷ []

path_source_type : Python → Option String → String
path_source_type py none = "logs"
path_source_type py (some path) =
    let p = py.lower path in
    if ends_any p code_endings
    then "code"
    else if ends_any p (".md" ∷ ".rst" ∷ ".txt" ∷ [])
    then "docs"
    else "logs"

args_source_type : Python → Option Fields → String
unfolding path_source_type
args_source_type py none = "logs"
args_source_type py (some args) = path_source_type py (as_str (get "path" args))

unfoldable pub derive_source_type : Python → String → Fields → String
unfolding args_source_type
derive_source_type py server_name request =
    if elem server_name ("ripgrep-agent" ∷ "fast-filesystem" ∷ [])
    then "code"
    else if elem server_name ("shrimp-task-manager" ∷ "sequential-thinking" ∷ [])
    then "docs"
    else args_source_type py (as_obj (extract_tool_call_arguments request))

unfoldable pub child_request_id : Value → ℕ → ℕ → ℤ
child_request_id (int parent_id) salt time_ns = add_ℕ parent_id salt
child_request_id _ salt time_ns = pos (time_ns % (2 ^ 53))
