-- ===== src/Sanitizer/Mask/Masked.antt =====
-- What becomes of the messages of a chat that is masked, and of their texts.
use kimi_proxy.Base.{
  Bool, ℕ, pos, suc, ◌≡◌, refl, ap, subst, ◌∙◌, ◌⊎◌, inl, inr, String, true, false, some, List, [],
  ◌∷◌, All, Dict, length, elem, arith, Bool-cases, ◌=ₛ◌, eq_iff, if◌then◌else◌,
}
use kimi_proxy.Json.{Fields, str, int, bool, as_str, get, get_or, put, get-put}
use kimi_proxy.Sanitizer.Cipher.Deciphered.{Promises}
use kimi_proxy.Sanitizer.Store.{
  MaskedRow, Outside, save_masked_content, get_masked_content, extract_tags_from_content,
}
use kimi_proxy.Sanitizer.Store.Kept.{
  original, is_stored, saved_original, get_masked_content-save_masked_content,
}
use kimi_proxy.Sanitizer.Mask
use kimi_proxy.Sanitizer.Mask.{
  ContentMasker, Verdict, should_mask, masked_message, mask_message, Report, Sanitized,
  sanitize_messages,
}

-- the keys that the masking writes
abbrev pub written : List String
written = "content" ∷ "_masked" ∷ "_original_hash" ∷ "_mask_reason" ∷ "_original_tokens" ∷ []

abbrev pub text_in : Fields → String
text_in message = Mask.text_of (as_str (get_or "content" (str "") message))

module _ (o : Outside) where
  -- the store gives the text back, or says that it is not stored
  abbrev pub IsRestored : String → Dict MaskedRow → Type 0
  IsRestored content table =
      original (get_masked_content o (o.hash content) table)
      ≡ some (if is_stored o then content else "[Non stocké selon la politique de sécurité]")

  -- a message that is as it was, or is masked with its text in the store
  abbrev pub IsMaskedFrom : Dict MaskedRow → Fields → Fields → Type 0
  IsMaskedFrom table message out =
      (out ≡ message)
      ⊎ ((get "_original_hash" out ≡ str (o.hash (text_in message)))
          × IsRestored (text_in message) table
          × ((k : String) → elem k written ≡ false → get k out ≡ get k message))

  abbrev pub AreMaskedFrom : Dict MaskedRow → List Fields → List Fields → Type 0
  AreMaskedFrom table (message ∷ messages) (out ∷ outs) =
      IsMaskedFrom table message out × AreMaskedFrom table messages outs
  AreMaskedFrom table [] [] = Unit
  AreMaskedFrom table messages outs = ⊥

  get-masked_message :
      (message : Fields) (text content_hash reason : String) (n : ℕ) (k : String)
      → elem k written ≡ false
      → get k (masked_message message text content_hash reason n) ≡ get k message
  unfolding masked_message elem
  get-masked_message message text content_hash reason n k h = ground (
    arith,
    get-put "_original_tokens" k (int (pos n)) (
        put "_mask_reason" (str reason) (
          put "_original_hash" (str content_hash)
            (put "_masked" (bool true) (put "content" (str text) message)))),
    get-put "_mask_reason" k (str reason) (
        put "_original_hash" (str content_hash)
          (put "_masked" (bool true) (put "content" (str text) message))),
    get-put "_original_hash" k (str content_hash)
        (put "_masked" (bool true) (put "content" (str text) message)),
    get-put "_masked" k (bool true) (put "content" (str text) message),
    get-put "content" k (str text) message,
  )

  get_hash-masked_message :
      (message : Fields) (text content_hash reason : String) (n : ℕ)
      → get "_original_hash" (masked_message message text content_hash reason n) ≡ str content_hash
  unfolding masked_message
  get_hash-masked_message message text content_hash reason n =
      let d =
        put "_original_hash" (str content_hash)
          (put "_masked" (bool true) (put "content" (str text) message)) in
      get-put "_original_tokens" "_original_hash" (int (pos n)) (put "_mask_reason" (str reason) d)
      ∙ (get-put "_mask_reason" "_original_hash" (str reason) d
          ∙ get-put "_original_hash" "_original_hash" (str content_hash)
              (put "_masked" (bool true) (put "content" (str text) message)))

  -- `Known` are the messages among which the hash has no collision
  module _ (P : Promises o.crypto) (salted : length o.salt ≡ 16) (written : o.writes ≡ true)
      (Known : Fields → Type 0)
      (distinct : (a b : Fields)
        → Known a
        → Known b
        → o.hash (text_in a) ≡ o.hash (text_in b)
        → text_in a ≡ text_in b) where
    restored :
        (a : Fields) (tags : List String) (n : ℕ) (table : Dict MaskedRow)
        → IsRestored (text_in a) (save_masked_content o (text_in a) tags n table).0
    restored a tags n table =
        saved_original o P salted (text_in a) tags n table
        ∙ ap
            (λ (b : Bool).
              if b
              then some
                  (if is_stored o then text_in a else "[Non stocké selon la politique de sécurité]")
              else original (get_masked_content o (o.hash (text_in a)) table))
            written

    save_keeps :
        (a b : Fields) (tags : List String) (n : ℕ) (table : Dict MaskedRow)
        → Known a
        → Known b
        → IsRestored (text_in b) table
        → IsRestored (text_in b) (save_masked_content o (text_in a) tags n table).0
    save_keeps a b tags n table ka kb h =
        let table' = (save_masked_content o (text_in a) tags n table).0 in
        elim (Bool-cases (o.hash (text_in a) =ₛ o.hash (text_in b))) [
          | inl p ↦
              subst (λ c. IsRestored c table')
                (distinct a b ka kb ((eq_iff (o.hash (text_in a)) (o.hash (text_in b))).0 p))
                (restored a tags n table)
          | inr p ↦
              ap original
                (get_masked_content-save_masked_content o P salted (text_in a) (o.hash (text_in b))
                  tags n table p).1
              ∙ h
        ]

    mask_judged_keeps :
        (m : ContentMasker) (a : Fields) (v : Verdict) (b : Fields) (table : Dict MaskedRow)
        → Known a
        → Known b
        → IsRestored (text_in b) table
        → IsRestored (text_in b) (Mask.mask_judged o m a v table).0
    unfolding Mask.mask_judged Mask.mask_with
    mask_judged_keeps m a (false, _) b table ka kb h = h
    mask_judged_keeps m a (true, (reason, tokens)) b table ka kb h =
        save_keeps a b (extract_tags_from_content o (text_in a)) m.preview_length table ka kb h

    mask_all_keeps :
        (m : ContentMasker) (idx : ℕ) (messages : List Fields) (b : Fields) (table : Dict MaskedRow)
        (r : Report)
        → All Known messages
        → Known b
        → IsRestored (text_in b) table
        → IsRestored (text_in b) (Mask.mask_all o m idx messages table r).0
    unfolding Mask.mask_all mask_message
    mask_all_keeps m idx [] b table r ks kb h = h
    mask_all_keeps m idx (message ∷ messages) b table r ks kb h =
        mask_all_keeps m (suc idx) messages b _ _ ks.1 kb
          (mask_judged_keeps m message (should_mask o m message) b table ks.0 kb h)

    mask_judged-IsMaskedFrom :
        (m : ContentMasker) (message : Fields) (v : Verdict) (table later : Dict MaskedRow)
        → (IsRestored (text_in message) (Mask.mask_judged o m message v table).0
            → IsRestored (text_in message) later)
        → IsMaskedFrom later message (Mask.mask_judged o m message v table).1.0
    unfolding Mask.mask_judged Mask.mask_with get put save_masked_content
    mask_judged-IsMaskedFrom m message (false, _) table later keep = inl refl
    mask_judged-IsMaskedFrom m message (true, (reason, tokens)) table later keep = inr (
      get_hash-masked_message message _ (o.hash (text_in message)) reason tokens,
      keep
          (restored message (extract_tags_from_content o (text_in message)) m.preview_length table),
      λ k e. get-masked_message message _ (o.hash (text_in message)) reason tokens k e,
    )

    mask_all-AreMaskedFrom :
        (m : ContentMasker) (idx : ℕ) (messages : List Fields) (table : Dict MaskedRow) (r : Report)
        → All Known messages
        → let (table', (outs, _)) = Mask.mask_all o m idx messages table r in
          AreMaskedFrom table' messages outs
    unfolding Mask.mask_all mask_message
    mask_all-AreMaskedFrom m idx [] table r ks = tt
    mask_all-AreMaskedFrom m idx (message ∷ messages) table r ks = (
      mask_judged-IsMaskedFrom m message (should_mask o m message) table _
          (λ h. mask_all_keeps m (suc idx) messages message _ _ ks.1 ks.0 h),
      mask_all-AreMaskedFrom m (suc idx) messages _ _ ks.1,
    )

    unmasked :
        (table : Dict MaskedRow) (messages : List Fields) → AreMaskedFrom table messages messages
    unmasked table [] = tt
    unmasked table (message ∷ messages) = (inl refl, unmasked table messages)

    -- Where the database can be written and the hash tells the texts of a chat apart, each message
    -- stays as it is, or has a reference by which the store gives back its text if the settings let it
    -- be stored, and otherwise a note, even after the rest of the chat is masked; its other fields
    -- stay as they are.
    pub sanitize_messages-AreMaskedFrom :
        (m : ContentMasker) (messages : List Fields) (table : Dict MaskedRow)
        → All Known messages
        → let (table', (outs, _)) = sanitize_messages o m messages table in
          AreMaskedFrom table' messages outs
    unfolding sanitize_messages
    sanitize_messages-AreMaskedFrom m messages table ks = elim (Bool-cases m.enabled) [
      | inl p ↦ rw p (mask_all-AreMaskedFrom (record m { enabled = true }) 0 messages table _ ks)
      | inr p ↦ rw p (unmasked table messages)
    ]
