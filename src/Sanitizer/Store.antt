-- ===== src/Sanitizer/Store.antt =====
-- The store of the masked texts (features/sanitizer/storage.py): a row of the table `masked_content`
-- for each hash. The hash, the order of a Python set of tags, the path of the file and the calls of
-- Crypto are parameters; texts hold no special token of the encoding, at which tiktoken raises. The file beside the table, which nothing reads, is not modelled.
pub mod Kept
use kimi_proxy.Base.{
  ℕ, ◌+◌, ◌*◌, String, count, ◌<>◌, Bool, true, false, ◌||◌, ◌&&◌, Option, none, some, or_else,
  List, [], ◌∷◌, ◌++◌, Dict, lookup, assign, ltb, leb, add, ◌=ₛ◌, if◌then◌else◌,
}
use kimi_proxy.Base.Text.{strip, contains, take_chars, join}
use kimi_proxy.Sanitizer.Cipher.{Crypto, encrypt_content, decrypt_content}

pub record MaskedRow : Type 0 where
  pub original_content : Option String
  pub preview : String
  pub file_path : String
  pub tags : String
  pub token_count : ℕ
  pub created_at : ℕ

-- what the store calls; `secret` is the stripped KIMI_SANITIZER_SECRET_KEY, and `store_original` the
-- setting store_original_content
pub record Outside : Type 0 where
  pub crypto : Crypto
  pub hash : String → String
  pub set_order : List String → List String
  pub encoded : String → ℕ
  pub salt : List ℕ
  pub file_path : String → String
  pub secret : String
  pub store_original : Bool
  pub now : ℕ
  -- whether the write to the database succeeds; if not, the code goes on
  pub writes : Bool

tag_in : String → String → Bool
tag_in content tag =
    contains tag content
    || contains ("<" <> (tag <> ">")) content
    || contains ("[" <> (tag <> "]")) content

tags_in : String → List String → List String
unfolding tag_in
tags_in content [] = []
tags_in content (tag ∷ tags) =
    let rest = tags_in content tags in if tag_in content tag then tag ∷ rest else rest

abbrev known_tags : List String
known_tags = "@file" ∷ "@codebase" ∷ "@tool" ∷ "@console" ∷ "@output" ∷ []

when : Bool → String → List String
when true tag = tag ∷ []
when false tag = []

-- `set(found_tags)`
distinct_tags : List String → List String
distinct_tags [] = []
distinct_tags (tag ∷ tags) = add tag (distinct_tags tags)

unfoldable pub extract_tags_from_content : Outside → String → List String
unfolding tags_in when distinct_tags
extract_tags_from_content o content = o.set_order (
    distinct_tags (
      tags_in content known_tags
      ++ when (contains "\"path\"" content || contains "\"file\"" content) "@file"
      ++ when (contains "stdout" content || contains "stderr" content) "@console"
      ++ when (ltb 5000 (count content) && (contains "{" content || contains "[" content))
          "@json_large"))

-- `s.rfind('\n')`, or none
last_newline : String → Option ℕ
last_newline String.[] = none
last_newline (String.◌∷◌ c s) = after_newline (last_newline s)
  where
    after_newline : Option ℕ → Option ℕ
    after_newline (some n) = some (n + 1)
    after_newline none = if (String.◌∷◌ c "") =ₛ "\n" then some 0 else none

-- cut at a line break behind 70 % of the text
cut_line : ℕ → String → Option ℕ → String
cut_line max_length preview none = preview
cut_line max_length preview (some n) =
    if ltb (max_length * 7) (n * 10) then take_chars n preview else preview

unfoldable pub create_preview : String → ℕ → String
unfolding last_newline cut_line
create_preview content max_length =
    if leb (count content) max_length
    then content
    else let preview = take_chars max_length content in
      strip (cut_line max_length preview (last_newline preview))
      <> "\n\n[... Contenu masqué - utilisez le hash pour récupérer la version complète ...]"

stored_content : Outside → String → Option String
stored_content o content =
    if o.store_original
    then if o.secret =ₛ "" then none else some (encrypt_content o.crypto o.salt content o.secret)
    else none

path_of : Outside → String → Option String → String
path_of o content_hash none = ""
path_of o content_hash (some stored) = o.file_path content_hash

-- `tags or extract_tags_from_content(content)`
tags_or_found : Outside → String → List String → List String
tags_or_found o content [] = extract_tags_from_content o content
tags_or_found o content (tag ∷ tags) = tag ∷ tags

-- the hash, the preview and the number of tokens
unfoldable pub save_masked_content :
    Outside → String → List String → ℕ → Dict MaskedRow → Dict MaskedRow × (String × (String × ℕ))
unfolding stored_content path_of tags_or_found
save_masked_content o content tags preview_length table =
    let content_hash = o.hash content in
    let stored = stored_content o content in
    let preview = create_preview content preview_length in
    let row : MaskedRow = record {
      original_content = stored;
      preview = preview;
      file_path = path_of o content_hash stored;
      tags = join "," (tags_or_found o content tags);
      token_count = o.encoded content;
      created_at = o.now;
    } in
    (
      (if o.writes then assign content_hash row table else table),
      (content_hash, (preview, o.encoded content)),
    )

deciphered_or_error : Option String → String
deciphered_or_error none = "[Erreur de déchiffrement : clé invalide]"
deciphered_or_error (some content) = content

original_of : Outside → Option String → String
unfolding deciphered_or_error
original_of o none = "[Non stocké selon la politique de sécurité]"
original_of o (some encrypted) =
    if encrypted =ₛ ""
    then "[Non stocké selon la politique de sécurité]"
    else if o.secret =ₛ ""
    then "[Contenu chiffré - KIMI_SANITIZER_SECRET_KEY non fournie]"
    else deciphered_or_error (decrypt_content o.crypto encrypted o.secret)

found : Outside → Option MaskedRow → Option MaskedRow
unfolding original_of
found o none = none
found o (some row) =
    some (record row { original_content = some (original_of o row.original_content) })

-- the row with its text in clear
unfoldable pub get_masked_content : Outside → String → Dict MaskedRow → Option MaskedRow
unfolding found
get_masked_content o content_hash table = found o (lookup content_hash table)
