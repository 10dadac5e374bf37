-- ===== src/Python.antt =====
-- What the program uses of Python's runtime and does not implement. Every theorem holds for
-- whatever these functions return.
use kimi_proxy.Base.{ℕ, String, Option}
use kimi_proxy.Json.{Value}

pub record Python : Type 0 where
  -- `json.loads`, with none where it raises
  pub loads : String → Option Value
  -- `json.dumps(value, ensure_ascii=False)`
  pub dumps : Value → Option String
  -- `str.lower`
  pub lower : String → String
  -- `template.format(tool_call_id=…, tool_name=…, original_chars=…)`, with none where it raises
  pub format : String → String → String → ℕ → Option String
  -- `str(value)`
  pub text : Value → String
  -- `len(ENCODING.encode(text))`, of the library tiktoken
  pub encoded : String → Option ℕ
