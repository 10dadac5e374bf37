-- ===== src/Gateway/Observe.antt =====
-- `MCPGatewayService` (features/mcp/gateway.py): long texts of an answer are cut, errors are built.
pub mod Masked
use kimi_proxy.Base.{
  ℕ, ◌-◌, ℤ, pos, ltb_ℤ, leb_ℤ, pos_part, String, count, ◌<>◌, Option, none, some, or_else,
  if◌then◌else◌,
}
use kimi_proxy.Base.Text.{take_chars, drop_chars, decimal}
use kimi_proxy.Json.{
  Value, Items, Fields, null, bool, int, real, str, arr, obj, nil, cons, end, field, as_obj, get,
  has, put,
}

pub record ObservationMaskingConfig : Type 0 where
  pub max_chars : ℤ
  pub head_chars : ℤ
  pub tail_chars : ℤ

abbrev pub default_masking : ObservationMaskingConfig
default_masking = record { max_chars = pos 4000; head_chars = pos 2000; tail_chars = pos 2000 }

-- `value[: max(n, 0)] if n > 0 else ""`
unfoldable pub head : ℤ → String → String
head n value = if ltb_ℤ (pos 0) n then take_chars (pos_part n) value else ""

-- `value[-max(n, 0) :] if n > 0 else ""`
unfoldable pub tail : ℤ → String → String
tail n value = if ltb_ℤ (pos 0) n then drop_chars (count value - pos_part n) value else ""

unfoldable pub marker : ℕ → ℕ → ℕ → String
marker original_len head_len tail_len =
    "\n... [KIMI_PROXY_OBSERVATION_MASKED original_chars="
    <> (decimal original_len
        <> (" head=" <> (decimal head_len <> (" tail=" <> (decimal tail_len <> "] ...\n")))))

unfoldable pub mask_string : ObservationMaskingConfig → String → String
mask_string cfg value =
    if leb_ℤ cfg.max_chars (pos 0)
    then value
    else if leb_ℤ (pos (count value)) cfg.max_chars
    then value
    else let h = head cfg.head_chars value in
      let t = tail cfg.tail_chars value in h <> (marker (count value) (count h) (count t) <> t)

unfoldable mutual
  pub mask_object : ObservationMaskingConfig → Value → Value
  mask_object cfg (str s) = str (mask_string cfg s)
  mask_object cfg (arr xs) = arr (mask_items cfg xs)
  mask_object cfg (obj d) = obj (mask_fields cfg d)
  mask_object cfg null = null
  mask_object cfg (bool b) = bool b
  mask_object cfg (int i) = int i
  mask_object cfg (real x) = real x

  pub mask_items : ObservationMaskingConfig → Items → Items
  mask_items cfg nil = nil
  mask_items cfg (cons v xs) = cons (mask_object cfg v) (mask_items cfg xs)

  pub mask_fields : ObservationMaskingConfig → Fields → Fields
  mask_fields cfg end = end
  mask_fields cfg (field k v d) = field k (mask_object cfg v) (mask_fields cfg d)

-- the configuration of a service, and the limits that a call gives in its place
unfoldable pub apply_observation_masking :
    ObservationMaskingConfig → Value → Option ℤ → Option ℤ → Option ℤ → Value
apply_observation_masking config payload max_chars head_chars tail_chars =
    mask_object
      (record {
        max_chars = or_else max_chars config.max_chars;
        head_chars = or_else head_chars config.head_chars;
        tail_chars = or_else tail_chars config.tail_chars;
      })
      payload

-- without limits of the call
abbrev applied : ObservationMaskingConfig → Value → Value
applied config payload = apply_observation_masking config payload none none none

mask_error : ObservationMaskingConfig → Fields → Option Fields → Fields
mask_error config masked none = masked
mask_error config masked (some error) =
    if has "data" error
    then put "error" (obj (put "data" (applied config (get "data" error)) error)) masked
    else masked

unfoldable pub mask_response : ObservationMaskingConfig → Fields → Fields
unfolding mask_error
mask_response config response =
    if has "result" response
    then put "result" (applied config (get "result" response)) response
    else mask_error config response (as_obj (get "error" response))

unfoldable pub mask_jsonrpc_response : ObservationMaskingConfig → Value → Value
unfolding mask_response
mask_jsonrpc_response config (obj response) = obj (mask_response config response)
mask_jsonrpc_response config response = response

-- the id of a request that is a dict
unfoldable pub id_of : Option Fields → Value
id_of none = null
id_of (some request) = get "id" request

data_part : Value → Fields
data_part null = end
data_part v = field "data" v end

-- `data` is null where it is None
unfoldable pub build_jsonrpc_error : Value → ℤ → String → Value → Fields
unfolding id_of data_part
build_jsonrpc_error request_json code message details = field "jsonrpc" (str "2.0") (
    field "error"
      (obj (field "code" (int code) (field "message" (str message) (data_part details))))
      (field "id" (id_of (as_obj request_json)) end))
