-- ===== src/Examples.antt =====
-- The theorems at concrete inputs, and the inputs that they share.
mod Pruning
mod Tools
mod Served
mod Masked
mod Chats
mod Triggers
mod Limits
mod Routes
mod Gates
mod Sessions
mod Cleaned
use kimi_proxy.Base.{ℕ, count, String, Option, none, some, List, [], ◌∷◌, ◌*◌, ◌/◌, min}
use kimi_proxy.Json.{Fields, str, arr, obj, nil, cons, field, end}
use kimi_proxy.Python.{Python}
use kimi_proxy.Pruner.Target.{Rounding}

abbrev py : Python
py = record {
  loads = λ s. none;
  dumps = λ v. none;
  lower = λ s. s;
  format = λ template tool_call_id tool_name original_chars. some tool_call_id;
  text = λ v. "user";
  encoded = λ s. some (count s);
}

-- ratios in percent, rounded down
abbrev fl : Rounding
fl = record {
  Ratio = ℕ;
  ceil_keep = λ n percent. n * percent / 100;
  trunc_step = λ i n k. i * n / k;
  round_div = λ a b. a / b;
}

abbrev message : String → String → Fields
message role content = field "role" (str role) (field "content" (str content) end)

abbrev calling : String → String → Fields
calling tc_id name = field "role" (str "assistant") (
    field "tool_calls"
      (arr (
        cons
          (obj (field "id" (str tc_id) (field "function" (obj (field "name" (str name) end)) end)))
          nil))
      end)

abbrev tool_result : String → String → Fields
tool_result tc_id content =
    field "role" (str "tool") (field "tool_call_id" (str tc_id) (field "content" (str content) end))

-- two turns of the same tool
abbrev chat : List Fields
chat =
    message "system" "be brief"
    ∷ message "user" "read a, then b"
    ∷ calling "c1" "read"
    ∷ tool_result "c1" "the text of a"
    ∷ calling "c2" "read"
    ∷ tool_result "c2" "the text of b"
    ∷ []
