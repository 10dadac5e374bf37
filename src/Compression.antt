-- ===== src/Compression.antt =====
-- The heuristic compression of a chat (src/kimi_proxy/features/compression/heuristic.py). It is none
-- where the count of tokens raises. The number of exchanges to preserve is not negative.
pub mod Split
use kimi_proxy.Base.{
  ℕ, ◌*◌, Option, none, some, or_else, List, [], ◌∷◌, ◌++◌, ◌>>=◌, length, leb, if◌then◌else◌,
}
use kimi_proxy.Json.{Fields}
use kimi_proxy.Python.{Python}
use kimi_proxy.Tokens.{count_tokens_tiktoken}
use kimi_proxy.Compaction.{systems, non_systems, last_of, all_but_last}

pub record Compressed : Type 0 where
  pub original_count : ℕ
  pub original_tokens : ℕ
  pub system_count : ℕ
  pub preserved_recent_count : ℕ
  pub summarized_count : ℕ
  pub messages_to_summarize : List Fields

-- the metadata: the two reasons not to compress, or what was done
pub data Metadata : Type 0 where
  no_messages : Metadata
  insufficient_messages : ℕ → Metadata
  compressed : Compressed → Metadata

-- `DEFAULT_COMPRESSION_CONFIG["preserve_recent_exchanges"]`
abbrev default_exchanges : ℕ
default_exchanges = 5

unfoldable pub compress_from : List Fields → ℕ → ℕ → List Fields × Metadata
compress_from messages preserve_recent original_tokens =
    let others = non_systems messages in
    let preserve_count = preserve_recent * 2 in
    if leb (length others) preserve_count
    then (messages, insufficient_messages original_tokens)
    else (
      systems messages ++ last_of preserve_count others,
      compressed (record {
        original_count = length messages;
        original_tokens = original_tokens;
        system_count = length (systems messages);
        preserved_recent_count = length (last_of preserve_count others);
        summarized_count = length (all_but_last preserve_count others);
        messages_to_summarize = all_but_last preserve_count others;
      }),
    )

unfoldable pub compress_history_heuristic :
    Python → List Fields → Option ℕ → Option (List Fields × Metadata)
unfolding compress_from
compress_history_heuristic py [] preserve_recent = some ([], no_messages)
compress_history_heuristic py (m ∷ ms) preserve_recent =
    count_tokens_tiktoken py (m ∷ ms) >>= (λ (original_tokens : ℕ).
      some (compress_from (m ∷ ms) (or_else preserve_recent default_exchanges) original_tokens))
