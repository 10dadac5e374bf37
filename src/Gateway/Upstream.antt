-- ===== src/Gateway/Upstream.antt =====
-- The forwarding of requests to the local servers (forward_jsonrpc of api/routes/mcp_gateway.py).
-- The HTTP client is a function: what comes of a POST of a value to a URL, with a timeout in
-- milliseconds.
use kimi_proxy.Base.{ℕ, pos, String, ◌<>◌, Option, none, some, ◌=ₛ◌, ◌==◌, ◌||◌, if◌then◌else◌}
use kimi_proxy.Base.Text.{take_chars, decimal}
use kimi_proxy.Json.{Value, int, str, obj, end, field}

-- what comes of a POST: an answer has a status, a text, and the JSON of the text or the error of
-- the parser; `failed` is any other exception
pub data Posted : Type 0 where
  timed_out : String → Posted
  not_connected : String → Posted
  failed : Posted
  answered : ℕ → String → Value → Posted
  not_json : ℕ → String → String → Posted

-- `MCPGatewayUpstreamError`
pub record UpstreamError : Type 0 where
  pub code : String
  pub message : String
  pub details : Value

pub data Forwarded : Type 0 where
  received : Value → Forwarded
  upstream_error : UpstreamError → Forwarded
  other_error : Forwarded

unfoldable pub get_mcp_server_base_url : String → Option String
get_mcp_server_base_url server_name =
    if server_name =ₛ "context-compression"
    then some "http://127.0.0.1:8001"
    else if server_name =ₛ "sequential-thinking"
    then some "http://127.0.0.1:8003"
    else if server_name =ₛ "fast-filesystem"
    then some "http://127.0.0.1:8004"
    else if server_name =ₛ "json-query"
    then some "http://127.0.0.1:8005"
    else if server_name =ₛ "pruner"
    then some "http://127.0.0.1:8006"
    else none

http_error : ℕ → String → Forwarded
http_error status text = upstream_error (record {
  code = "http_error";
  message = "Réponse HTTP inattendue: " <> decimal status;
  details =
      obj (field "status_code" (int (pos status)) (field "body" (str (take_chars 500 text)) end));
})

unreachable : String → String → String → String → String → Forwarded
unreachable code message server_name url error = upstream_error (record {
  code = code;
  message = message;
  details = obj (
      field "server_name" (str server_name)
        (field "url" (str url) (field "error" (str error) end)));
})

invalid_json : ℕ → String → String → Forwarded
invalid_json status text error = upstream_error (record {
  code = "invalid_json";
  message = "Réponse upstream non JSON";
  details = obj (
      field "status_code" (int (pos status))
        (field "error" (str error) (field "body" (str (take_chars 500 text)) end)));
})

of_posted : String → String → Posted → Forwarded
unfolding http_error unreachable invalid_json
of_posted server_name url (timed_out error) =
    unreachable "timeout" "Timeout lors de l'appel au serveur MCP" server_name url error
of_posted server_name url (not_connected error) =
    unreachable "connect_error" "Erreur de connexion au serveur MCP" server_name url error
of_posted server_name url failed = other_error
of_posted server_name url (answered status text value) =
    if (status == 200) || (status == 403) then received value else http_error status text
of_posted server_name url (not_json status text error) =
    if (status == 200) || (status == 403)
    then invalid_json status text error
    else http_error status text

forward_to : (ℕ → String → Value → Posted) → String → Value → ℕ → Option String → Forwarded
unfolding of_posted
forward_to post server_name request_json timeout_ms none = upstream_error (record {
  code = "unknown_server";
  message = "Serveur MCP inconnu: " <> server_name;
  details = obj (field "server_name" (str server_name) end);
})
forward_to post server_name request_json timeout_ms (some base_url) =
    let url = base_url <> "/rpc" in of_posted server_name url (post timeout_ms url request_json)

unfoldable pub forward_jsonrpc : (ℕ → String → Value → Posted) → String → Value → ℕ → Forwarded
unfolding forward_to get_mcp_server_base_url
forward_jsonrpc post server_name request_json timeout_ms =
    forward_to post server_name request_json timeout_ms (get_mcp_server_base_url server_name)
