-- ===== src/Tokens.antt =====
-- The counting of tokens (src/kimi_proxy/core/tokens.py): none where the code raises.
use kimi_proxy.Base.{ℕ, ◌+◌, Option, none, some, List, [], ◌∷◌, ◌>>=◌, if◌then◌else◌}
use kimi_proxy.Json.{Value, Items, Fields, str, arr, obj, nil, cons, get, get_or, is_str}
use kimi_proxy.Python.{Python}

-- `len(ENCODING.encode(value))`, which raises on what is no text, and at the special tokens of the encoding
encode : Python → Value → Option ℕ
encode py (str s) = py.encoded s
encode py _ = none

-- the estimate for an image
abbrev image_tokens : ℕ
image_tokens = 512

count_part : Python → Value → Option ℕ
count_part py (obj part) =
    if is_str "text" (get "type" part)
    then encode py (get_or "text" (str "") part)
    else if is_str "image_url" (get "type" part)
    then some image_tokens
    else some 0
count_part py _ = some 0

count_parts : Python → Items → Option ℕ
count_parts py nil = some 0
count_parts py (cons part rest) = do n ← count_part py part; m ← count_parts py rest; some (n + m)

count_content : Python → Value → Option ℕ
count_content py (str s) = py.encoded s
count_content py (arr parts) = count_parts py parts
count_content py _ = some 0

count_message : Python → Fields → Option ℕ
count_message py message = do
  n ← encode py (get_or "role" (str "") message)
  m ← count_content py (get_or "content" (str "") message)
  some (3 + n + m)

count_messages : Python → List Fields → Option ℕ
count_messages py [] = some 3
count_messages py (message ∷ rest) = do
  n ← count_message py message
  m ← count_messages py rest
  some (n + m)

unfoldable pub count_tokens_tiktoken : Python → List Fields → Option ℕ
unfolding count_messages count_message count_content count_parts count_part encode
count_tokens_tiktoken py [] = some 0
count_tokens_tiktoken py (message ∷ rest) = count_messages py (message ∷ rest)
