-- ===== src/Sanitizer/Mask.antt =====
-- The masking of long texts in a chat (features/sanitizer/masking.py). The number of tokens of a text
-- is that of the encoding, a parameter.
pub mod Masked
use kimi_proxy.Base.{
  ℕ, suc, ◌+◌, ◌*◌, ℤ, pos, negsuc, sub_ℕ, ◌+ℤ◌, String, count, ◌<>◌, Bool, true, false, not, ◌||◌,
  ◌&&◌, Option, none, some, List, [], ◌∷◌, ◌++◌, Dict, ltb, ◌=ₛ◌, if◌then◌else◌,
}
use kimi_proxy.Base.Text.{strip, begins, contains, take_chars, join, decimal}
use kimi_proxy.Json.{Value, Fields, str, int, bool, end, as_str, get, get_or, put, is_str}
use kimi_proxy.Sanitizer.Store.{MaskedRow, Outside, save_masked_content, extract_tags_from_content}

pub record ContentMasker : Type 0 where
  pub threshold_tokens : ℕ
  pub preview_length : ℕ
  pub enabled : Bool

abbrev pub default_masker : ContentMasker
default_masker = record { threshold_tokens = 1000; preview_length = 200; enabled = true }

-- whether to mask, the reason, and the number of tokens
abbrev pub Verdict : Type 0
Verdict = Bool × (String × ℕ)

-- `role in ["tool", "function"]`
is_tool : Value → Bool
is_tool role = is_str "tool" role || is_str "function" role

unfoldable pub judge : ContentMasker → Value → String → ℕ → Verdict
unfolding is_tool
judge m role content tokens =
    let long = ltb m.threshold_tokens tokens in
    if is_tool role && long
    then (true, ("tool_output", tokens))
    else if (contains "@file" content || contains "@codebase" content) && long
    then (true, ("file_context", tokens))
    else if (contains "@console" content
          || contains "@output" content
          || contains "stdout" (take_chars 100 content))
        && long
    then (true, ("console_output", tokens))
    else if ltb (m.threshold_tokens * 2) tokens
        && (begins (strip content) "{" || begins (strip content) "[")
    then (true, ("large_json", tokens))
    else (false, ("", tokens))

judge_text : Outside → ContentMasker → Fields → Option String → Verdict
unfolding judge
judge_text o m message none = (false, ("", 0))
judge_text o m message (some content) =
    judge m (get_or "role" (str "") message) content (o.encoded content)

unfoldable pub should_mask : Outside → ContentMasker → Fields → Verdict
unfolding judge_text
should_mask o m message =
    if not m.enabled
    then (false, ("", 0))
    else judge_text o m message (as_str (get_or "content" (str "") message))

pub record Metadata : Type 0 where
  pub hash : String
  pub reason : String
  pub original_tokens : ℕ
  pub preview_tokens : ℕ
  pub tokens_saved : ℤ

-- `str(i)`
int_text : ℤ → String
int_text (pos n) = decimal n
int_text (negsuc n) = "-" <> decimal (suc n)

unfoldable pub replacement : String → String → String → String → ℤ → String
unfolding int_text
replacement reason preview content_hash tags tokens_saved =
    "[Contenu masqué - "
    <> (reason
        <> ("]\n"
            <> (preview
                <> ("\n\n[RÉFÉRENCE: "
                    <> (content_hash
                        <> ("]\n[Tags: "
                            <> (tags
                                <> ("]\n[Tokens économisés: ~"
                                    <> (int_text tokens_saved
                                        <> ("]\n\nUtilisez GET /api/mask/"
                                            <> (content_hash
                                                <> " pour récupérer le contenu complet.")))))))))))

-- the message with the reference
unfoldable pub masked_message : Fields → String → String → String → ℕ → Fields
masked_message message text content_hash reason original_tokens =
    put "_original_tokens" (int (pos original_tokens)) (
      put "_mask_reason" (str reason) (
        put "_original_hash" (str content_hash)
          (put "_masked" (bool true) (put "content" (str text) message))))

-- the text of a message, empty where there is none
pub text_of : Option String → String
text_of none = ""
text_of (some content) = content

-- the table, the message, and what is said of the masking
abbrev pub Step : Type 0
Step = Dict MaskedRow × (Fields × Option Metadata)

mask_with : Outside → ContentMasker → Fields → String → String → ℕ → Dict MaskedRow → Step
unfolding replacement masked_message
mask_with o m message content reason original_tokens table =
    let tags = extract_tags_from_content o content in
    let (table', (content_hash, (preview, _))) =
      save_masked_content o content tags m.preview_length table in
    let preview_tokens = o.encoded preview in
    let tokens_saved = sub_ℕ original_tokens preview_tokens in
    (
      table',
      (
        masked_message message
            (replacement reason preview content_hash (join "," tags) tokens_saved) content_hash
            reason original_tokens,
        some (record {
          hash = content_hash;
          reason = reason;
          original_tokens = original_tokens;
          preview_tokens = preview_tokens;
          tokens_saved = tokens_saved;
        }),
      ),
    )

mask_judged : Outside → ContentMasker → Fields → Verdict → Dict MaskedRow → Step
unfolding mask_with text_of
mask_judged o m message (false, _) table = (table, (message, none))
mask_judged o m message (true, (reason, tokens)) table =
    mask_with o m message (text_of (as_str (get_or "content" (str "") message))) reason tokens table

unfoldable pub mask_message : Outside → ContentMasker → Fields → Dict MaskedRow → Step
unfolding mask_judged should_mask
mask_message o m message table = mask_judged o m message (should_mask o m message) table

-- an entry of `details`
pub record Detail : Type 0 where
  pub index : ℕ
  pub role : Value
  pub metadata : Metadata

pub record Report : Type 0 where
  pub masked_count : ℕ
  pub tokens_saved : ℤ
  pub details : List Detail
  pub threshold_used : Option ℕ

note : ℕ → Fields → Option Metadata → Report → Report
note idx message none r = r
note idx message (some d) r = record r {
  masked_count = suc r.masked_count;
  tokens_saved = r.tokens_saved +ℤ d.tokens_saved;
  details =
      r.details ++ record { index = idx; role = get_or "role" (str "") message; metadata = d } ∷ [];
}

-- what the loop returns: the table, the messages and the report
abbrev pub Sanitized : Type 0
Sanitized = Dict MaskedRow × (List Fields × Report)

mask_all : Outside → ContentMasker → ℕ → List Fields → Dict MaskedRow → Report → Sanitized
unfolding note
mask_all o m idx [] table r = (table, ([], r))
mask_all o m idx (message ∷ messages) table r =
    let (table', (masked, d)) = mask_message o m message table in
    let (table'', (rest, r')) = mask_all o m (suc idx) messages table' (note idx message d r) in
    (table'', (masked ∷ rest, r'))

abbrev pub no_report : Report
no_report = record { masked_count = 0; tokens_saved = pos 0; details = []; threshold_used = none }

unfoldable pub sanitize_messages :
    Outside → ContentMasker → List Fields → Dict MaskedRow → Sanitized
unfolding mask_all
sanitize_messages o m messages table =
    if not m.enabled
    then (table, (messages, no_report))
    else mask_all o m 0 messages table
        (record no_report { threshold_used = some m.threshold_tokens })
