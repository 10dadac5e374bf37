-- ===== src/Compaction.antt =====
-- The compaction of a chat (src/kimi_proxy/features/compaction/simple_compaction.py): the system
-- messages and the last exchanges are kept, and the others are replaced by a summary. A result is
-- none where the code raises `CompactionError`. The timestamp, and the ratio, which is computed from
-- the numbers of the result, are left out.

pub mod Kept
pub mod Counts
pub mod Reserved
use kimi_proxy.Base.{
  ℕ, zero, suc, ◌+◌, ◌-◌, ◌*◌, ℤ, pos, sub_ℕ, leb_ℤ, String, count, ◌<>◌, Bool, true, false, not,
  ◌&&◌, Option, none, some, or_else, List, [], ◌∷◌, ◌++◌, map, length, take, drop, keep_if, leb,
  ltb, ◌>>=◌, if◌then◌else◌,
}
use kimi_proxy.Base.Text.{take_chars, join, decimal, unbroken}
use kimi_proxy.Json.{Value, Fields, str, field, end, get, get_or, is_str}
use kimi_proxy.Python.{Python}
use kimi_proxy.Tokens.{count_tokens_tiktoken}

pub record CompactionConfig : Type 0 where
  pub max_preserved_messages : ℕ
  pub preserve_system_messages : Bool
  pub create_summary : Bool
  pub summary_max_length : ℕ
  pub min_messages_to_compact : ℕ
  pub min_tokens_to_compact : ℕ

pub record CompactionResult : Type 0 where
  pub compacted : Bool
  pub session_id : ℕ
  pub original_tokens : ℕ
  pub compacted_tokens : ℕ
  pub tokens_saved : ℤ
  pub messages_before : ℕ
  pub messages_after : ℕ
  pub system_preserved : ℕ
  pub recent_preserved : ℕ
  pub summarized_count : ℕ
  pub summary_text : Option String
  pub reason : Option String

abbrev pub is_system : Fields → Bool
is_system m = is_str "system" (get "role" m)

abbrev pub systems : List Fields → List Fields
systems = keep_if is_system

abbrev pub non_systems : List Fields → List Fields
non_systems = keep_if (λ m. not (is_system m))

-- `xs[-n:]`, where -0 is 0
unfoldable pub last_of {ℓ} : {A : Type ℓ} → ℕ → List A → List A
last_of zero xs = xs
last_of (suc n) xs = drop (length xs - suc n) xs

-- `xs[:-n]`, where -0 is 0
unfoldable pub all_but_last {ℓ} : {A : Type ℓ} → ℕ → List A → List A
all_but_last zero xs = []
all_but_last (suc n) xs = take (length xs - suc n) xs

tokens_or_count : Python → List Fields → Option ℕ → Option ℕ
tokens_or_count py messages none = count_tokens_tiktoken py messages
tokens_or_count py messages (some n) = some n

enough : CompactionConfig → List Fields → ℕ → Bool × String
enough config messages tokens =
    if ltb tokens config.min_tokens_to_compact
    then (false, "insufficient_tokens")
    else if leb (length (non_systems messages)) (config.max_preserved_messages * 2)
    then (false, "not_enough_messages_to_summarize")
    else (true, "threshold_reached")

unfoldable pub should_compact :
    Python → CompactionConfig → List Fields → Option ℕ → Option (Bool × String)
unfolding tokens_or_count enough
should_compact py config [] current_tokens = some (false, "no_messages")
should_compact py config (m ∷ ms) current_tokens =
    if ltb (length (m ∷ ms)) config.min_messages_to_compact
    then some (false, "insufficient_messages")
    else do
      tokens ← tokens_or_count py (m ∷ ms) current_tokens
      some (enough config (m ∷ ms) tokens)

-- one line of the summary, for a message whose content is a text
exchange : String → Value → List String
exchange role (str content) =
    let preview = unbroken (take_chars 100 content) in
    (role <> ": " <> (if ltb 100 (count content) then preview <> "..." else preview)) ∷ []
exchange role _ = []

exchanges : Python → List Fields → List String
exchanges py [] = []
exchanges py (m ∷ ms) =
    exchange (py.text (get_or "role" (str "unknown") m)) (get_or "content" (str "") m)
    ++ exchanges py ms

-- `summary[:max_length - 3] + "..."`, if it is longer; a negative end counts from the end
limited : ℕ → String → String
limited max_length summary =
    if ltb max_length (count summary)
    then take_chars (if ltb max_length 3 then count summary + max_length - 3 else max_length - 3)
        summary
      <> "..."
    else summary

create_summary_text : Python → CompactionConfig → List Fields → Option String
create_summary_text py config [] = some "Aucun message précédent."
create_summary_text py config (m ∷ ms) = do
  total ← count_tokens_tiktoken py (m ∷ ms)
  some (
      limited config.summary_max_length (
        join "\n" (
          ("Historique de conversation (" <> decimal (length (m ∷ ms)) <> " messages précédents):")
            ∷ map (λ e. "- " <> e) (last_of 5 (exchanges py (m ∷ ms)))
          ++ ("\n[Total: ~" <> decimal total <> " tokens dans l'historique résumé]") ∷ [])))

summary_content : String → String
summary_content text = "[Contexte précédent résumé]\n" <> text

-- the content of the summary, if one is made
unfoldable pub summarize : Python → CompactionConfig → List Fields → Option (Option String)
unfolding create_summary_text summary_content limited exchanges exchange
summarize py config [] = some none
summarize py config (m ∷ ms) =
    if config.create_summary
    then create_summary_text py config (m ∷ ms) >>= (λ text. some (some (summary_content text)))
    else some none

pub summary_messages : Option String → List Fields
summary_messages none = []
summary_messages (some content) =
    field "role" (str "system") (field "content" (str content) end) ∷ []

-- `compacted_messages`
unfoldable pub compacted_messages : CompactionConfig → List Fields → Option String → List Fields
unfolding summary_messages
compacted_messages config messages summary =
    (if config.preserve_system_messages then systems messages else [])
    ++ (summary_messages summary
        ++ last_of (config.max_preserved_messages * 2) (non_systems messages))

unchanged : ℕ → ℕ → List Fields → String → CompactionResult
unchanged session_id tokens messages reason = record {
  compacted = false;
  session_id = session_id;
  original_tokens = tokens;
  compacted_tokens = tokens;
  tokens_saved = pos 0;
  messages_before = length messages;
  messages_after = length messages;
  system_preserved = 0;
  recent_preserved = 0;
  summarized_count = 0;
  summary_text = none;
  reason = some reason;
}

shortened : CompactionConfig → ℕ → ℕ → List Fields → Option String → ℕ → CompactionResult
shortened config session_id tokens messages summary compacted_tokens =
    let preserve_count = config.max_preserved_messages * 2 in
    record {
      compacted = true;
      session_id = session_id;
      original_tokens = tokens;
      compacted_tokens = compacted_tokens;
      tokens_saved = sub_ℕ tokens compacted_tokens;
      messages_before = length messages;
      messages_after = length (compacted_messages config messages summary);
      system_preserved = length (systems messages);
      recent_preserved = length (last_of preserve_count (non_systems messages));
      summarized_count = length (all_but_last preserve_count (non_systems messages));
      summary_text = summary;
      reason = none;
    }

-- the rest of `compact`, once the tokens are known
shorten : Python → CompactionConfig → List Fields → ℕ → ℕ → Option CompactionResult
shorten py config messages session_id tokens =
    let preserve_count = config.max_preserved_messages * 2 in
    if leb (length (non_systems messages)) preserve_count
    then some (unchanged session_id tokens messages "not_enough_messages_to_preserve")
    else do
      summary ← summarize py config (all_but_last preserve_count (non_systems messages))
      compacted_tokens ← count_tokens_tiktoken py (compacted_messages config messages summary)
      some (shortened config session_id tokens messages summary compacted_tokens)

follow : Python → CompactionConfig → List Fields → ℕ → ℕ → Bool × String → Option CompactionResult
follow py config messages session_id tokens (true, reason) =
    shorten py config messages session_id tokens
follow py config messages session_id tokens (false, reason) =
    some (unchanged session_id tokens messages reason)

unfoldable pub compact :
    Python → CompactionConfig → List Fields → ℕ → Option ℕ → Option CompactionResult
unfolding follow shorten shortened unchanged should_compact tokens_or_count
compact py config messages session_id current_tokens = do
  verdict ← should_compact py config messages current_tokens
  tokens ← tokens_or_count py messages current_tokens
  follow py config messages session_id tokens verdict

-- the metadata that `get_context_with_reserved` returns
pub data Advice : Type 0 where
  fits_in_context : ℕ → ℤ → ℕ → Advice
  not_compacted : Option String → ℕ → ℤ → Advice
  compact_and_retry : CompactionResult → Advice

advise : ℕ → ℤ → CompactionResult → Advice
advise tokens available r =
    if r.compacted then compact_and_retry r else not_compacted r.reason tokens available

unfoldable pub get_context_with_reserved :
    Python → CompactionConfig → List Fields → ℕ → ℕ → Option (List Fields × Advice)
unfolding advise
get_context_with_reserved py config messages max_context_size reserved_tokens = do
  current_tokens ← count_tokens_tiktoken py messages
  let available = sub_ℕ max_context_size reserved_tokens
  if leb_ℤ (pos current_tokens) available
      then some (messages, fits_in_context current_tokens available reserved_tokens)
      else do
        result ← compact py config messages 0 none
        some (messages, advise current_tokens available result)
