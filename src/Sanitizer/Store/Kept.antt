-- ===== src/Sanitizer/Store/Kept.antt =====
-- What the store gives back of a masked text.
use kimi_proxy.Base.{
  ℕ, ◌≡◌, refl, ap, inl, inr, String, Bool, false, not, ◌&&◌, Option, none, some, List, Dict,
  lookup-assign, length, Bool-cases, ◌=ₛ◌, eq_refl, if◌then◌else◌,
}
use kimi_proxy.Sanitizer.Cipher.Deciphered.{
  Promises, decrypt_content-encrypt_content, encrypt_content_nonempty,
}
use kimi_proxy.Sanitizer.Store
use kimi_proxy.Sanitizer.Store.{
  MaskedRow, Outside, save_masked_content, get_masked_content, create_preview,
}

-- the text that the row of a hash gives, none without a row
abbrev pub original : Option MaskedRow → Option String
original none = none
original (some row) = row.original_content

abbrev pub is_stored : Outside → Bool
is_stored o = o.store_original && not (o.secret =ₛ "")

module _ (o : Outside) (P : Promises o.crypto) (salted : length o.salt ≡ 16) where
  stored_original :
      (content : String)
      → Store.original_of o (Store.stored_content o content)
        ≡ (if is_stored o then content else "[Non stocké selon la politique de sécurité]")
  unfolding Store.original_of Store.stored_content
  stored_original content = elim (Bool-cases o.store_original) [
    | inl p ↦ elim (Bool-cases (o.secret =ₛ "")) [
      | inl q ↦ rw (p, q) refl
      | inr q ↦
          rw
            (
              p,
              q,
              encrypt_content_nonempty o.crypto P o.salt content o.secret salted,
              q,
              decrypt_content-encrypt_content o.crypto P o.salt content o.secret salted,
            )
            refl
    ]
    | inr p ↦ rw p refl
  ]

  pub saved_original :
      (content : String) (tags : List String) (preview_length : ℕ) (table : Dict MaskedRow)
      → original (
          get_masked_content o
            (o.hash content)
            (save_masked_content o content tags preview_length table).0)
        ≡ (if o.writes
            then some
                (if is_stored o then content else "[Non stocké selon la politique de sécurité]")
            else original (get_masked_content o (o.hash content) table))
  unfolding get_masked_content save_masked_content Store.found
  saved_original content tags preview_length table = elim (Bool-cases o.writes) [
    | inl p ↦
        rw (p, lookup-assign (o.hash content) (o.hash content) _ table, eq_refl (o.hash content))
          (ap some (stored_original content))
    | inr p ↦ rw p refl
  ]

  -- If the row of a text was written, it gives back the text, where the setting and the key allow to
  -- store it, and otherwise a note; if it was not written, what was there before is read. The rows
  -- of other hashes stay as they are.
  pub get_masked_content-save_masked_content :
      (content k : String) (tags : List String) (preview_length : ℕ) (table : Dict MaskedRow)
      → (o.hash content =ₛ k) ≡ false
      → let (table', (hash, _)) = save_masked_content o content tags preview_length table in
        (original (get_masked_content o hash table') ≡ (
          if o.writes
          then some (if is_stored o then content else "[Non stocké selon la politique de sécurité]")
          else original (get_masked_content o hash table)))
        × (get_masked_content o k table' ≡ get_masked_content o k table)
  unfolding get_masked_content save_masked_content
  get_masked_content-save_masked_content content k tags preview_length table other = (
    saved_original content tags preview_length table,
    elim (Bool-cases o.writes) [
      | inl p ↦ rw (p, lookup-assign (o.hash content) k _ table, other) refl
      | inr p ↦ rw p refl
    ],
  )
