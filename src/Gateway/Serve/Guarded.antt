-- ===== src/Gateway/Serve/Guarded.antt =====
-- What a request to the gateway keeps of its state, and what its errors say.
use kimi_proxy.Base.{
  ◌≤◌, inl, inr, String, Option, none, some, Dict, [], ◌∷◌, length, All, lookup, assign, arith,
  Bool-cases, ◌=ₛ◌,
}
use kimi_proxy.Json.{Value, Fields, as_obj}
use kimi_proxy.Gateway.Breaker
use kimi_proxy.Gateway.Breaker.{CircuitBreaker}
use kimi_proxy.Gateway.Breaker.Loops.{IsShort, check_call-IsShort}
use kimi_proxy.Gateway.Upstream.{Forwarded, received, upstream_error, other_error}
use kimi_proxy.Gateway.Cache.{max_entries}
use kimi_proxy.Gateway.Cache.Fresh.{length-update_cache}
use kimi_proxy.Gateway.Serve
use kimi_proxy.Gateway.Serve.{
  Gateway, Reply, response, raised, Outside, api_mcp_gateway_rpc, handle_gateway_error,
}

-- every breaker has a short history
abbrev pub AreShort : Dict CircuitBreaker → Type 0
AreShort = All (λ (entry : String × CircuitBreaker). IsShort entry.1)

-- each breaker and the cache are bounded
abbrev pub IsBounded : Gateway → Type 0
IsBounded g = AreShort g.breakers × (length g.cache ≤ max_entries)

assign-AreShort :
    (k : String) (cb : CircuitBreaker) (d : Dict CircuitBreaker)
    → IsShort cb
    → AreShort d
    → AreShort (assign k cb d)
unfolding assign
assign-AreShort k cb [] h all = (h, tt)
assign-AreShort k cb ((j, c) ∷ d) h all = ground (arith, assign-AreShort k cb d h all.1)

IsFound : Option CircuitBreaker → Type 0
IsFound none = Unit
IsFound (some cb) = IsShort cb

lookup-IsFound : (k : String) (d : Dict CircuitBreaker) → AreShort d → IsFound (lookup k d)
unfolding lookup IsFound
lookup-IsFound k [] all = tt
lookup-IsFound k ((j, c) ∷ d) all = elim (Bool-cases (j =ₛ k)) [
  | inl p ↦ rw p all.0
  | inr p ↦ rw p (lookup-IsFound k d all.1)
]

module _ (o : Outside) where
  called-IsShort :
      (cb : CircuitBreaker) (params : Option Fields)
      → IsShort cb
      → IsShort (Serve.called o cb params).0
  unfolding Serve.called
  called-IsShort cb none h = h
  called-IsShort cb (some params) h = check_call-IsShort o.ratios o.words cb params h

  current_breaker-IsShort :
      (found : Option CircuitBreaker)
      → IsFound found
      → IsShort (Serve.current_breaker (Serve.gateway_config o) found)
  unfolding Serve.current_breaker Breaker.init IsFound
  current_breaker-IsShort none h = omega arith
  current_breaker-IsShort (some cb) h = h

  check_circuit_breaker-AreShort :
      (server_name : String) (request : Fields) (breakers : Dict CircuitBreaker)
      → AreShort breakers
      → AreShort (Serve.check_circuit_breaker o server_name request breakers).0
  unfolding Serve.check_circuit_breaker Serve.checked_call
  check_circuit_breaker-AreShort server_name request breakers h =
      elim (Bool-cases (Serve.gateway_config o).cb_enabled) [
        | inl p ↦ rw p (
            assign-AreShort server_name _ breakers
              (called-IsShort _ _
                (current_breaker-IsShort _ (lookup-IsFound server_name breakers h)))
              h)
        | inr p ↦ rw p h
      ]

  finish-IsBounded :
      (g : Gateway) (server_name : String) (request : Fields) (key : Option String) (f : Forwarded)
      → IsBounded g
      → IsBounded (Serve.finish o g server_name request key f).0
  unfolding Serve.finish
  finish-IsBounded g server_name request key (received v) h =
      (h.0, length-update_cache o.stored_at g.cache server_name key _ h.1)
  finish-IsBounded g server_name request key (upstream_error e) h = h
  finish-IsBounded g server_name request key other_error h = h

  from_cache-IsBounded :
      (g : Gateway) (server_name : String) (request : Fields) (found : Option String × Option Value)
      → IsBounded g
      → IsBounded (Serve.from_cache o g server_name request found).0
  unfolding Serve.from_cache
  from_cache-IsBounded g server_name request (key, some v) h = h
  from_cache-IsBounded g server_name request (key, none) h =
      finish-IsBounded g server_name request key _ h

  unless_refused-IsBounded :
      (g : Gateway) (server_name : String) (request : Fields) (refused : Option Reply)
      → IsBounded g
      → IsBounded (Serve.unless_refused o g server_name request refused).0
  unfolding Serve.unless_refused
  unless_refused-IsBounded g server_name request (some reply) h = h
  unless_refused-IsBounded g server_name request none h =
      from_cache-IsBounded g server_name request _ h

  serve_object-IsBounded :
      (g : Gateway) (server_name : String) (request_json : Value) (request : Option Fields)
      → IsBounded g
      → IsBounded (Serve.serve_object o g server_name request_json request).0
  unfolding Serve.serve_object
  serve_object-IsBounded g server_name request_json none h = h
  serve_object-IsBounded g server_name request_json (some request) h =
      unless_refused-IsBounded _ server_name request _
        (check_circuit_breaker-AreShort server_name request g.breakers h.0, h.1)

  -- Every request keeps at most ten calls in the history of each breaker, and at most 512 answers in
  -- the cache. Of the number of breakers nothing is said.
  pub api_mcp_gateway_rpc-IsBounded :
      (g : Gateway) (server_name : String) (body : Option Value)
      → IsBounded g
      → IsBounded (api_mcp_gateway_rpc o g server_name body).0
  unfolding api_mcp_gateway_rpc
  api_mcp_gateway_rpc-IsBounded g server_name none h = h
  api_mcp_gateway_rpc-IsBounded g server_name (some request_json) h =
      serve_object-IsBounded g server_name request_json (as_obj request_json) h
