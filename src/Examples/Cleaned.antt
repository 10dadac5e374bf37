-- ===== src/Examples/Cleaned.antt =====
-- The sanitizer with a cipher and codecs that can be followed: a character is written as its number
-- in zeros before a one, a byte in letters a before a b, and a block is a byte 32 times.
use Prim.Native.Nat.{Ordering, compare}
use Prim.Native.Char.{Char, char, code, IsLt}
use kimi_proxy.Base.{
  ℕ, zero, suc, ◌+◌, ◌<◌, ◌≡◌, refl, ap, ◌∙◌, String, count, true, Option, none, some, List, [],
  ◌∷◌, ◌++◌, arith, ◌==◌, if◌then◌else◌,
}
use kimi_proxy.Json.{Fields}
use kimi_proxy.Sanitizer.Cipher.{Crypto, encrypt_content, decrypt_content}
use kimi_proxy.Sanitizer.Cipher.Deciphered.{AreBytes, Promises, decrypt_content-encrypt_content}
use kimi_proxy.Sanitizer.Store.{Outside, save_masked_content, get_masked_content}
use kimi_proxy.Sanitizer.Store.Kept.{original, is_stored, get_masked_content-save_masked_content}
use kimi_proxy.Sanitizer.Mask.{ContentMasker, should_mask, sanitize_messages}
use kimi_proxy.Sanitizer.Mask.Masked.{AreMaskedFrom, sanitize_messages-AreMaskedFrom}
use kimi_proxy.Examples.{message, tool_result}

-- the characters of numbers, as `Char` lays them out
abbrev Both : Ordering → Ordering → Type 0
Both Ordering.lt o = IsLt o
Both Ordering.eq o = ⊥
Both Ordering.gt o = ⊥

abbrev Scalar : Ordering → Ordering → Ordering → Type 0
Scalar Ordering.lt o p = Unit
Scalar Ordering.eq o p = Both o p
Scalar Ordering.gt o p = Both o p

abbrev made_high : (o p : Ordering) → (Both o p → Char) → Option Char
made_high Ordering.lt Ordering.lt f = some (f tt)
made_high o p f = none

abbrev made : (o p q : Ordering) → (Scalar o p q → Char) → Option Char
made Ordering.lt p q f = some (f tt)
made Ordering.eq p q f = made_high p q f
made Ordering.gt p q f = made_high p q f

made_high-some :
    (o p : Ordering) (f : Both o p → Char) (x : Both o p) → made_high o p f ≡ some (f x)
made_high-some Ordering.lt Ordering.lt f x = refl
made_high-some Ordering.lt Ordering.eq f x = absurd x
made_high-some Ordering.lt Ordering.gt f x = absurd x
made_high-some Ordering.eq p f x = absurd x
made_high-some Ordering.gt p f x = absurd x

made-some :
    (o p q : Ordering) (f : Scalar o p q → Char) (x : Scalar o p q) → made o p q f ≡ some (f x)
made-some Ordering.lt p q f x = refl
made-some Ordering.eq p q f x = made_high-some p q f x
made-some Ordering.gt p q f x = made_high-some p q f x

abbrev of_code : ℕ → Option Char
of_code n = made (compare n 55296) (compare 57343 n) (compare n 1114112) (char n)

of_code_lem : (c : Char) → of_code (code c) ≡ some c
of_code_lem (char n x) =
    made-some (compare n 55296) (compare 57343 n) (compare n 1114112) (char n) x

abbrev spell : ℕ → List ℕ → List ℕ
spell zero bs = 1 ∷ bs
spell (suc n) bs = 0 ∷ spell n bs

abbrev spelled : String → List ℕ
spelled String.[] = []
spelled (String.◌∷◌ c s) = spell (code c) (spelled s)

abbrev attach : Option Char → Option String → Option String
attach (some c) (some s) = some (String.◌∷◌ c s)
attach (some c) none = none
attach none s = none

abbrev read_from : ℕ → List ℕ → Option String
read_from n [] = some ""
read_from n (zero ∷ bs) = read_from (suc n) bs
read_from n (suc b ∷ bs) = attach (of_code n) (read_from 0 bs)

read_from-spell :
    (m n : ℕ) (bs : List ℕ) → read_from n (spell m bs) ≡ attach (of_code (m + n)) (read_from 0 bs)
read_from-spell zero n bs =
    let e : n ≡ 0 + n = omega arith in ap (λ k. attach (of_code k) (read_from 0 bs)) e
read_from-spell (suc m) n bs =
    let e : m + suc n ≡ suc m + n = omega arith in
    read_from-spell m (suc n) bs ∙ ap (λ k. attach (of_code k) (read_from 0 bs)) e

read_from-spelled : (s : String) → read_from 0 (spelled s) ≡ some s
read_from-spelled String.[] = refl
read_from-spelled (String.◌∷◌ c s) =
    let e : code c + 0 ≡ code c = omega arith in
    read_from-spell (code c) 0 (spelled s)
    ∙ (ap (λ k. attach (of_code k) (read_from 0 (spelled s))) e
        ∙ (ap (λ d. attach d (read_from 0 (spelled s))) (of_code_lem c)
            ∙ ap (attach (some c)) (read_from-spelled s)))

spell-AreBytes : (n : ℕ) (bs : List ℕ) → AreBytes bs → AreBytes (spell n bs)
spell-AreBytes zero bs h = (omega arith, h)
spell-AreBytes (suc n) bs h = (omega arith, spell-AreBytes n bs h)

spelled-AreBytes : (s : String) → AreBytes (spelled s)
spelled-AreBytes String.[] = tt
spelled-AreBytes (String.◌∷◌ c s) = spell-AreBytes (code c) (spelled s) (spelled-AreBytes s)

abbrev tally : ℕ → String → String
tally zero s = String.◌∷◌ (char 98 tt) s
tally (suc n) s = String.◌∷◌ (char 97 tt) (tally n s)

abbrev tallied : List ℕ → String
tallied [] = ""
tallied (b ∷ bs) = tally b (tallied bs)

abbrev count_from : ℕ → String → List ℕ
count_from n String.[] = []
count_from n (String.◌∷◌ c s) =
    let rest = count_from 0 s in
    let more = count_from (suc n) s in if code c == 98 then n ∷ rest else more

count_from-tally : (m n : ℕ) (s : String) → count_from n (tally m s) ≡ (m + n) ∷ count_from 0 s
count_from-tally zero n s = let e : n ≡ 0 + n = omega arith in ap (λ k. k ∷ count_from 0 s) e
count_from-tally (suc m) n s =
    let e : m + suc n ≡ suc m + n = omega arith in
    count_from-tally m (suc n) s ∙ ap (λ k. k ∷ count_from 0 s) e

count_from-tallied : (bs : List ℕ) → count_from 0 (tallied bs) ≡ bs
count_from-tallied [] = refl
count_from-tallied (b ∷ bs) =
    let e : b + 0 ≡ b = omega arith in
    count_from-tally b 0 (tallied bs)
    ∙ (ap (λ k. k ∷ count_from 0 (tallied bs)) e ∙ ap (◌∷◌ b) (count_from-tallied bs))

abbrev repeated : ℕ → ℕ → List ℕ
repeated zero x = []
repeated (suc n) x = x ∷ repeated n x

repeated-AreBytes : (n x : ℕ) → x < 256 → AreBytes (repeated n x)
repeated-AreBytes zero x h = tt
repeated-AreBytes (suc n) x h = (h, repeated-AreBytes n x h)

abbrev crypto : Crypto
crypto = record {
  encode = spelled;
  decode = read_from 0;
  pbkdf2_hmac = λ key salt. key ++ salt;
  block = λ key counter. repeated 32 165;
  b64encode = tallied;
  b64decode = λ s. some (count_from 0 s);
}

crypto-Promises : Promises crypto
crypto-Promises = record {
  decode-encode = read_from-spelled;
  encode-AreBytes = spelled-AreBytes;
  b64decode-b64encode = λ bs. ap some (count_from-tallied bs);
  b64decode_empty = refl;
  length-block = λ key counter. refl;
  block-AreBytes = λ key counter. repeated-AreBytes 32 165 (omega arith);
}

decrypt_content-encrypt_content_example :
    decrypt_content crypto (encrypt_content crypto (repeated 16 7) "an answer" "secret") "secret"
    ≡ some "an answer"
decrypt_content-encrypt_content_example =
    decrypt_content-encrypt_content crypto crypto-Promises (repeated 16 7) "an answer" "secret" refl

abbrev outside : Outside
outside = record {
  crypto = crypto;
  hash = λ s. s;
  set_order = λ tags. tags;
  encoded = count;
  salt = repeated 16 7;
  file_path = λ h. h;
  secret = "secret";
  store_original = true;
  now = 5;
  writes = true;
}

abbrev masker : ContentMasker
masker = record { threshold_tokens = 5; preview_length = 4; enabled = true }

should_mask_long :
    should_mask outside masker (tool_result "c1" "the text of a") ≡ (true, ("tool_output", 13))
unfolding should_mask kimi_proxy.Json.get_or
should_mask_long = refl

abbrev long_chat : List Fields
long_chat = message "user" "hi" ∷ tool_result "c1" "the text of a" ∷ []

get_masked_content-save_masked_content_example :
    let (table', (hash, _)) = save_masked_content outside "the text of a" [] 4 [] in
    (original (get_masked_content outside hash table') ≡ (
      if outside.writes
      then some (
          if is_stored outside
          then "the text of a"
          else "[Non stocké selon la politique de sécurité]")
      else original (get_masked_content outside hash [])))
    × (get_masked_content outside "another" table' ≡ get_masked_content outside "another" [])
get_masked_content-save_masked_content_example =
    get_masked_content-save_masked_content outside crypto-Promises refl "the text of a" "another" []
      4 [] refl

sanitize_messages-AreMaskedFrom_example :
    let (table', (outs, _)) = sanitize_messages outside masker long_chat [] in
    AreMaskedFrom outside table' long_chat outs
sanitize_messages-AreMaskedFrom_example =
    sanitize_messages-AreMaskedFrom outside crypto-Promises refl refl (λ x. Unit) (λ a b ka kb h. h)
      masker long_chat [] (tt, (tt, tt))
