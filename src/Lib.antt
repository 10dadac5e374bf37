-- ===== src/Lib.antt =====
-- Kimi Proxy: a proxy between a coding assistant and the providers of language models. It routes
-- each request, keeps to the rate of the provider, and shortens chats: old results of tools are
-- masked, texts are pruned line by line, and whole chats are compacted.
--
-- The parts, and the files that model them (paths are under src/kimi_proxy):
-- Masking: features/observation_masking/schema1.py. `mask_old_tool_results` maps a chat to a chat;
--   `extract_tool_turns` finds the turns that call tools. Turns and Latest read the same off the
--   chat independently, and Laws puts both together.
-- Pruner: features/mcp_pruner. Target, Thin (layer1_heuristic.py), Select and Rank
--   (deepinfra_engine.py) choose the lines to keep; Rebuild writes the pruned text with its markers
--   and Layout describes it; Store (server.py) keeps the original lines for a time, which Recover
--   gives back by ranges. Serve (server.py) checks the arguments of the tool `prune_text`, Backends
--   runs the engines one after the other, Cache keeps results, and Answer makes the payload; Rpc
--   dispatches the requests to the tools.
-- ContextPruning: proxy/context_pruning.py, the client of the pruner's service in the proxy.
-- ToolPruning: features/mcp_tool_pruning, which prunes the texts that tools of other servers return.
--   Respond goes from the guards of `maybe_prune_jsonrpc_response` (Guards) to the new response, and
--   Request reads the call; Engine prunes a text or the texts inside its JSON, within a budget of
--   nodes and of calls that a `Run` carries; Paths finds the paths that excluded directories hold;
--   Metrics counts, Settings puts the environment before the file, Client is pruner_client.py.
-- Config: config/loader.py, what each section of the file gives for any value; its settings go to
--   Pruner, Masking, ContextPruning and ToolPruning.
-- Tokens: core/tokens.py, the number of tokens of a chat.
-- Compaction: features/compaction/simple_compaction.py. Kept says what stays of a chat, Counts and
--   Reserved what is reported.
-- Compression: features/compression/heuristic.py, the split of a chat before it is summarised.
-- AutoTrigger: features/compaction/auto_trigger.py with its columns in core/database.py, a state
--   that `check_and_trigger` transforms; it calls Compaction.
-- Router: proxy/router.py, the address, the model and the context of a request.
-- RateLimit: services/rate_limiter.py, a queue of times; Burst makes its callers that sleep a step
--   relation.
-- Gateway: the proxy of tool servers. Observe is features/mcp/gateway.py, which cuts long texts of
--   answers; Breaker is MCPCircuitBreaker of features/mcp/detector.py; Upstream, Cache and Serve are
--   api/routes/mcp_gateway.py: the forwarding, the cache of answers, and the endpoint
--   `api_mcp_gateway_rpc`, which composes these parts with ToolPruning.
-- Database: core/database.py, the tables of sessions, metrics and compactions as association lists
--   from ids, with the cache of the active session; Usage counts tokens, Delete removes sessions,
--   and Automatic writes the columns that leave the cache as it is.
-- AutoSession: core/auto_session.py, which creates a session where a request differs from the
--   active one; it calls Database and Router.
-- Sanitizer: features/sanitizer. Cipher and Store are storage.py, the texts that are kept
--   enciphered; Mask is masking.py, which puts references to them in a chat.
-- Base, Json, Python: numbers, lists, dictionaries and texts as Python has them, JSON values, and
--   the functions of Python and tiktoken that are parameters. Examples instantiates the theorems.
--
-- Conventions. Fallible code returns Option, with none where it raises. A time is a number that is
-- handed in for each call of `time.time()`: microseconds in RateLimit and Pruner, seconds in
-- AutoTrigger. Dictionaries are association lists in the order of insertion. A pruner is asked with
-- the number of calls that are left, so no two calls of a response need have one answer. What the
-- code computes with floats is a parameter (`Rounding`, `Thresholds`, `Floats`, `Numbers`), or is
-- compared as a number; the limits of the rate limiter are rounded down from 95 % and 87.5 %. Calls
-- of other services are functions of the request (`Services` for the pruner's backends). Operations
-- under a lock are single steps. Recursion is on lists, on JSON values and on counts of rounds; fuel
-- stands in two places: the decimal digits of n get n + 1 rounds, which is more than n has digits,
-- and the keystream of the cipher gets a round for each byte, of which a block gives 32. Rows of the
-- database are read in the order of their ids, and requests to the gateway are handled one after
-- the other. Hashes, ciphers' blocks and codecs are functions in records of parameters.
-- Errors of SQLite are modelled for the deletion of sessions and the store of the sanitizer, and
-- special tokens, at which the encoding raises, for the counting of chats alone; integers in the
-- statistics of the pruner are taken to be within the floats.
--
-- Not modelled: the HTTP endpoints but for that of the gateway, streams and web sockets, the making
-- of the database's tables and its reports, the file watcher, the choice of models in the sanitizer
-- and its statistics, the clients of other services, the baseline pruning of the pruner, alerts, the
-- repair of broken JSON, display names and logging: input and output, texts for display, or glue.
-- Timestamps and percentages that are only reported are left out.
pub mod Base
pub mod Json
pub mod Python
pub mod Config
pub mod Router
pub mod Tokens
pub mod Compaction
pub mod Compression
pub mod ContextPruning
pub mod ToolPruning
pub mod AutoTrigger
pub mod Pruner
pub mod Masking
pub mod RateLimit
pub mod Gateway
pub mod Database
pub mod AutoSession
pub mod Sanitizer
pub mod Examples
