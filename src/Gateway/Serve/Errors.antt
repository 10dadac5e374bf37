-- ===== src/Gateway/Serve/Errors.antt =====
-- What the gateway answers when it does not answer with the response of a server.
use kimi_proxy.Base.{
  ℕ, ◌≡◌, refl, ◌⊎◌, inl, inr, ℤ, String, Bool, true, false, Option, none, some, Dict, ◌||◌, ◌==◌,
  Bool-cases, ◌=ₛ◌,
}
use kimi_proxy.Json.{Value, Fields, null, bool, int, real, str, arr, obj, as_obj, get, has}
use kimi_proxy.Gateway.Observe.{build_jsonrpc_error, id_of}
use kimi_proxy.Gateway.Breaker.{CircuitBreaker}
use kimi_proxy.Gateway.Upstream.{
  UpstreamError, Forwarded, received, upstream_error, other_error, forward_jsonrpc,
}
use kimi_proxy.Gateway.Cache.{get_from_cache}
use kimi_proxy.Gateway.Serve
use kimi_proxy.Gateway.Serve.{
  Gateway, Reply, response, raised, Outside, api_mcp_gateway_rpc, handle_gateway_error, rendered,
}

-- a JSON-RPC error with that id
abbrev pub IsError : Value → Value → Type 0
IsError id v =
    (e : Fields) × ((v ≡ obj e)
      × (get "jsonrpc" e ≡ str "2.0")
      × (get "id" e ≡ id)
      × (has "error" e ≡ true)
      × (has "result" e ≡ false))

abbrev pub is_error_status : ℕ → Bool
is_error_status status = (status == 400) || (status == 404) || (status == 429) || (status == 502)

-- an answer with status 200, a JSON-RPC error, or the exception of the HTTP client
abbrev pub IsSettled : Value → Forwarded → Reply → Type 0
IsSettled id f reply =
    ((v : Value) × (reply ≡ response 200 v))
    ⊎ (((status : ℕ) × ((v : Value) × (reply ≡ response status v)
            × (is_error_status status ≡ true)
            × IsError id v))
        ⊎ ((reply ≡ raised) × (f ≡ other_error)))

build_jsonrpc_error-IsError :
    (request_json : Value) (code : ℤ) (message : String) (details : Value)
    → IsError
        (id_of (as_obj request_json))
        (obj (build_jsonrpc_error request_json code message details))
unfolding build_jsonrpc_error get has
build_jsonrpc_error-IsError request_json code message details =
    (build_jsonrpc_error request_json code message details, (refl, refl, refl, refl, refl))

error_answer :
    (request_json : Value) (f : Forwarded) (status : ℕ) (code : ℤ) (message : String)
    (details : Value)
    → is_error_status status ≡ true
    → IsSettled
        (id_of (as_obj request_json))
        f
        (response status (obj (build_jsonrpc_error request_json code message details)))
error_answer request_json f status code message details h =
    inr (inl (status, (_, refl, h, build_jsonrpc_error-IsError request_json code message details)))

handle_gateway_error-IsSettled :
    (f : Forwarded) (e : UpstreamError) (request_json : Value)
    → IsSettled (id_of (as_obj request_json)) f (handle_gateway_error e request_json)
unfolding handle_gateway_error
handle_gateway_error-IsSettled f e request_json = elim (Bool-cases (e.code =ₛ "unknown_server")) [
  | inl p ↦ rw p (error_answer request_json f 404 _ e.message e.details refl)
  | inr p ↦ elim (Bool-cases ((e.code =ₛ "timeout") || (e.code =ₛ "connect_error"))) [
    | inl q ↦ rw (p, q) (error_answer request_json f 502 _ e.message e.details refl)
    | inr q ↦ elim (Bool-cases (e.code =ₛ "invalid_json")) [
      | inl r ↦ rw (p, q, r) (error_answer request_json f 502 _ e.message e.details refl)
      | inr r ↦ rw (p, q, r) (error_answer request_json f 502 _ e.message e.details refl)
    ]
  ]
]

module _ (o : Outside) (g : Gateway) (server_name : String) where
  abbrev pub sent : Value → Forwarded
  sent request_json = forward_jsonrpc (o.post g.forwarded 0) server_name request_json 30000

  finish-IsSettled :
      (h : Gateway) (request : Fields) (key : Option String) (f : Forwarded)
      → IsSettled (get "id" request) f (Serve.finish o h server_name request key f).1
  unfolding Serve.finish id_of
  finish-IsSettled h request key (received v) = inl (_, refl)
  finish-IsSettled h request key (upstream_error e) =
      handle_gateway_error-IsSettled (upstream_error e) e (obj request)
  finish-IsSettled h request key other_error = inr (inr (refl, refl))

  from_cache-IsSettled :
      (b : Dict CircuitBreaker) (request : Fields) (found : Option String × Option Value)
      → IsSettled
          (get "id" request)
          (sent (obj request))
          (Serve.from_cache o (record g { breakers = b }) server_name request found).1
  unfolding Serve.from_cache
  from_cache-IsSettled b request (key, some v) = inl (v, refl)
  from_cache-IsSettled b request (key, none) =
      finish-IsSettled (record g { breakers = b }) request key (sent (obj request))

  refused-IsSettled :
      (b : Dict CircuitBreaker) (request : Fields) (checked : CircuitBreaker × Bool)
      → IsSettled
          (get "id" request)
          (sent (obj request))
          (Serve.unless_refused o
            (record g { breakers = b })
            server_name
            request
            (Serve.refusal o (obj request) checked)).1
  unfolding Serve.unless_refused Serve.refusal Serve.breaker_error id_of
  refused-IsSettled b request (cb, true) = error_answer (obj request) _ 429 _ _ null refl
  refused-IsSettled b request (cb, false) =
      from_cache-IsSettled b request (get_from_cache o.digest o.now g.cache server_name request)

  checked-IsSettled :
      (request : Fields)
      → IsSettled
          (get "id" request)
          (sent (obj request))
          (Serve.serve_object o g server_name (obj request) (some request)).1
  unfolding Serve.serve_object Serve.check_circuit_breaker Serve.unless_refused
  checked-IsSettled request = elim (Bool-cases (Serve.gateway_config o).cb_enabled) [
    | inl p ↦
        rw p (refused-IsSettled _ request (Serve.checked_call o server_name request g.breakers))
    | inr p ↦ rw p (from_cache-IsSettled g.breakers request _)
  ]

  served-IsSettled :
      (request_json : Value)
      → IsSettled
          (id_of (as_obj request_json))
          (sent request_json)
          (Serve.serve_object o g server_name request_json (as_obj request_json)).1
  unfolding Serve.serve_object Serve.invalid_request id_of
  served-IsSettled (obj request) = checked-IsSettled request
  served-IsSettled (arr xs) = error_answer (arr xs) _ 400 _ _ null refl
  served-IsSettled (str s) = error_answer (str s) _ 400 _ _ null refl
  served-IsSettled (real x) = error_answer (real x) _ 400 _ _ null refl
  served-IsSettled (int i) = error_answer (int i) _ 400 _ _ null refl
  served-IsSettled (bool b) = error_answer (bool b) _ 400 _ _ null refl
  served-IsSettled null = error_answer null _ 400 _ _ null refl

  -- what becomes of a body, none where it is not JSON
  abbrev pub IsHandled : Option Value → Reply → Type 0
  IsHandled none reply = reply ≡ raised
  IsHandled (some request_json) reply =
      (r : Reply) × (IsSettled (id_of (as_obj request_json)) (sent request_json) r
        × (reply ≡ rendered o r))

  -- A body that is not JSON makes the endpoint raise. Every other request is answered with status
  -- 200, or with a JSON-RPC error that carries the id of the request, no result, and status 400, 404,
  -- 429 or 502, if JSONResponse can write the answer, and raises if not; but for that the endpoint
  -- raises only where the HTTP client raises something other than a timeout or an error of the
  -- connection.
  pub api_mcp_gateway_rpc-IsSettled :
      (body : Option Value) → IsHandled body (api_mcp_gateway_rpc o g server_name body).1
  unfolding api_mcp_gateway_rpc
  api_mcp_gateway_rpc-IsSettled none = refl
  api_mcp_gateway_rpc-IsSettled (some request_json) = (_, (served-IsSettled request_json, refl))
