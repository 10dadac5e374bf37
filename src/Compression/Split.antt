-- ===== src/Compression/Split.antt =====
-- No message is lost between the compressed chat and what is to be summarised.
use kimi_proxy.Base.{
  ℕ, ◌+◌, ◌*◌, ◌≡◌, refl, ap, ◌∙◌, arith, true, not, Option, some, or_else, List, [], ◌∷◌, ◌++◌,
  length, length-append, leb, Bool-cases, inl, inr,
}
use kimi_proxy.Json.{Fields}
use kimi_proxy.Python.{Python}
use kimi_proxy.Tokens.{count_tokens_tiktoken}
use kimi_proxy.Compaction.{is_system, systems, non_systems, last_of, all_but_last}
use kimi_proxy.Compaction.Kept.{
  all_but_last-append-last_of, length-split, keep_if-append, keep_if-All, All-keep_if, All-last_of,
  systems-none,
}
use kimi_proxy.Compression.{
  Metadata, no_messages, insufficient_messages, compressed, compress_from,
  compress_history_heuristic,
}

-- a chat and its metadata against the chat before
unfoldable pub IsSplit : List Fields → List Fields × Metadata → Type 0
IsSplit messages (out, no_messages) = out ≡ messages
IsSplit messages (out, insufficient_messages tokens) = out ≡ messages
IsSplit messages (out, compressed c) =
    (c.messages_to_summarize ++ non_systems out ≡ non_systems messages)
    × (length out + length c.messages_to_summarize ≡ c.original_count)
    × (c.original_count ≡ length messages)

non_systems-split :
    (messages : List Fields) (n : ℕ)
    → non_systems (systems messages ++ last_of n (non_systems messages))
      ≡ last_of n (non_systems messages)
non_systems-split messages n =
    let other = λ (m : Fields). not (is_system m) in
    keep_if-append other (systems messages) (last_of n (non_systems messages))
    ∙ ap (λ l. l ++ non_systems (last_of n (non_systems messages))) (systems-none messages)
    ∙ keep_if-All other (last_of n (non_systems messages)) (
        All-last_of other true n (non_systems messages)
          (All-keep_if other other true (λ m h. h) messages))

compress_from-IsSplit :
    (messages : List Fields) (n tokens : ℕ) → IsSplit messages (compress_from messages n tokens)
unfolding compress_from IsSplit
compress_from-IsSplit messages n tokens =
    elim (Bool-cases (leb (length (non_systems messages)) (n * 2))) [
      | inl p ↦ rw p refl
      | inr p ↦ rw p (
        ap (λ l. all_but_last (n * 2) (non_systems messages) ++ l)
              (non_systems-split messages (n * 2))
            ∙ all_but_last-append-last_of (n * 2) (non_systems messages),
        omega (
          arith,
          length-append (systems messages) (last_of (n * 2) (non_systems messages)),
          length-split messages,
          length-append (all_but_last (n * 2) (non_systems messages))
              (last_of (n * 2) (non_systems messages)),
          ap length (all_but_last-append-last_of (n * 2) (non_systems messages)),
        ),
        refl,
      )
    ]

-- Where the tokens of the chat can be counted, the compression gives a chat and its metadata: the chat
-- is unchanged, or the messages that are to be summarised, followed by those of the new chat that
-- are not from the system, are those of the old chat that are not from the system, and the two
-- together have as many messages as the old chat.
pub compress_history_heuristic-IsSplit :
    (py : Python) (messages : List Fields) (preserve_recent : Option ℕ) (tokens : ℕ)
    → count_tokens_tiktoken py messages ≡ some tokens
    → (r : List Fields × Metadata) × (compress_history_heuristic py messages preserve_recent
        ≡ some r)
      × IsSplit messages r
unfolding compress_history_heuristic IsSplit
compress_history_heuristic-IsSplit py [] n tokens e = (_, refl, refl)
compress_history_heuristic-IsSplit py (m ∷ ms) n tokens e = (
  compress_from (m ∷ ms) (or_else n 5) tokens,
  rw e refl,
  compress_from-IsSplit (m ∷ ms) (or_else n 5) tokens,
)
