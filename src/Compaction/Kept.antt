-- ===== src/Compaction/Kept.antt =====
-- What a compaction keeps of a chat.
use kimi_proxy.Base.{
  ℕ, zero, suc, ◌+◌, ◌-◌, ◌*◌, String, ◌≡◌, refl, ap, ◌∙◌, Bool, true, false, not, Option, none,
  some, List, [], ◌∷◌, ◌++◌, length, drop, keep_if, take-append-drop, arith, All, Bool-cases, inl,
  inr, if◌then◌else◌,
}
use kimi_proxy.Json.{Fields, get}
use kimi_proxy.Compaction
use kimi_proxy.Compaction.{
  CompactionConfig, is_system, systems, non_systems, last_of, all_but_last, compacted_messages,
}

module _ {ℓ} {A : Type ℓ} (p : A → Bool) where
  pub keep_if-append : (xs ys : List A) → keep_if p (xs ++ ys) ≡ keep_if p xs ++ keep_if p ys
  keep_if-append [] ys = refl
  keep_if-append (x ∷ xs) ys = elim (Bool-cases (p x)) [
    | inl h ↦ rw h (ap (◌∷◌ x) (keep_if-append xs ys))
    | inr h ↦ rw h (keep_if-append xs ys)
  ]

  pub keep_if-All : (xs : List A) → All (λ x. p x ≡ true) xs → keep_if p xs ≡ xs
  keep_if-All [] h = refl
  keep_if-All (x ∷ xs) h = rw h.0 (ap (◌∷◌ x) (keep_if-All xs h.1))

  keep_if-none : (xs : List A) → All (λ x. p x ≡ false) xs → keep_if p xs ≡ []
  keep_if-none [] h = refl
  keep_if-none (x ∷ xs) h = rw h.0 (keep_if-none xs h.1)

module _ {ℓ} {A : Type ℓ} where
  pub All-keep_if :
      (p q : A → Bool) (b : Bool)
      → ((x : A) → p x ≡ true → q x ≡ b)
      → (xs : List A) → All (λ x. q x ≡ b) (keep_if p xs)
  All-keep_if p q b f [] = tt
  All-keep_if p q b f (x ∷ xs) = elim (Bool-cases (p x)) [
    | inl h ↦ rw h (f x h, All-keep_if p q b f xs)
    | inr h ↦ rw h (All-keep_if p q b f xs)
  ]

  All-drop :
      (q : A → Bool) (b : Bool) (n : ℕ) (xs : List A)
      → All (λ x. q x ≡ b) xs
      → All (λ x. q x ≡ b) (drop n xs)
  All-drop q b zero xs h = h
  All-drop q b (suc n) [] h = tt
  All-drop q b (suc n) (x ∷ xs) h = All-drop q b n xs h.1

  pub All-last_of :
      (q : A → Bool) (b : Bool) (n : ℕ) (xs : List A)
      → All (λ x. q x ≡ b) xs
      → All (λ x. q x ≡ b) (last_of n xs)
  unfolding last_of
  All-last_of q b zero xs h = h
  All-last_of q b (suc n) xs h = All-drop q b (length xs - suc n) xs h

  -- Whatever the number of messages that are kept at the end, also for 0, those that are summarised
  -- and those that are kept make up the whole, in order.
  pub all_but_last-append-last_of : (n : ℕ) (xs : List A) → all_but_last n xs ++ last_of n xs ≡ xs
  unfolding all_but_last last_of
  all_but_last-append-last_of zero xs = refl
  all_but_last-append-last_of (suc n) xs = take-append-drop (length xs - suc n) xs

append-nil {ℓ} : {A : Type ℓ} (xs : List A) → xs ++ [] ≡ xs
append-nil [] = refl
append-nil (x ∷ xs) = ap (◌∷◌ x) (append-nil xs)

pub length-split : (xs : List Fields) → length (systems xs) + length (non_systems xs) ≡ length xs
length-split [] = refl
length-split (x ∷ xs) = elim (Bool-cases (is_system x)) [
  | inl h ↦ rw h (omega (arith, length-split xs))
  | inr h ↦ rw h (omega (arith, length-split xs))
]

pub systems-none : (xs : List Fields) → non_systems (systems xs) ≡ []
systems-none xs =
    keep_if-none (λ m. not (is_system m)) (systems xs)
      (All-keep_if is_system (λ m. not (is_system m)) false (λ m h. ground arith) xs)

systems-again : (xs : List Fields) → systems (systems xs) ≡ systems xs
systems-again xs =
    keep_if-All is_system (systems xs) (All-keep_if is_system is_system true (λ m h. h) xs)

non_systems-front : (b : Bool) (xs : List Fields) → non_systems (if b then systems xs else []) ≡ []
non_systems-front false xs = refl
non_systems-front true xs = systems-none xs

non_systems-summary : (s : Option String) → non_systems (Compaction.summary_messages s) ≡ []
unfolding Compaction.summary_messages get
non_systems-summary none = refl
non_systems-summary (some c) = refl

systems-summary :
    (s : Option String) → systems (Compaction.summary_messages s) ≡ Compaction.summary_messages s
unfolding Compaction.summary_messages get
systems-summary none = refl
systems-summary (some c) = refl

module _ (config : CompactionConfig) (messages : List Fields) (summary : Option String) where
  recent : List Fields
  recent = last_of (config.max_preserved_messages * 2) (non_systems messages)

  recent-none : All (λ m. is_system m ≡ false) recent
  unfolding recent
  recent-none =
      All-last_of is_system false (config.max_preserved_messages * 2) (non_systems messages)
        (All-keep_if (λ m. not (is_system m)) is_system false (λ m h. ground arith) messages)

  recent-others : All (λ m. not (is_system m) ≡ true) recent
  unfolding recent
  recent-others =
      All-last_of (λ m. not (is_system m)) true (config.max_preserved_messages * 2)
        (non_systems messages)
        (All-keep_if (λ m. not (is_system m)) (λ m. not (is_system m)) true (λ m h. h) messages)

  -- The messages that are not from the system are, after a compaction, the last exchanges of the
  -- chat, unchanged and in order.
  pub non_systems-compacted_messages :
      non_systems (compacted_messages config messages summary)
      ≡ last_of (config.max_preserved_messages * 2) (non_systems messages)
  unfolding compacted_messages recent
  non_systems-compacted_messages =
      let other = λ (m : Fields). not (is_system m) in
      let made = Compaction.summary_messages summary in
      keep_if-append other (if config.preserve_system_messages then systems messages else [])
        (made ++ recent)
      ∙ ap (λ l. l ++ non_systems (made ++ recent))
          (non_systems-front config.preserve_system_messages messages)
      ∙ keep_if-append other made recent
      ∙ ap (λ l. l ++ non_systems recent) (non_systems-summary summary)
      ∙ keep_if-All other recent recent-others

  -- Where system messages are preserved, those of the compacted chat are those of the chat, then
  -- the summary, if there is one.
  pub systems-compacted_messages :
      config.preserve_system_messages ≡ true
      → systems (compacted_messages config messages summary)
        ≡ systems messages ++ Compaction.summary_messages summary
  unfolding compacted_messages recent
  systems-compacted_messages h =
      let made = Compaction.summary_messages summary in
      ap (λ b. systems ((if b then systems messages else []) ++ (made ++ recent))) h
      ∙ keep_if-append is_system (systems messages) (made ++ recent)
      ∙ ap (λ l. l ++ systems (made ++ recent)) (systems-again messages)
      ∙ ap (λ l. systems messages ++ l)
          (keep_if-append is_system made recent
            ∙ ap (λ l. l ++ systems recent) (systems-summary summary)
            ∙ ap (λ l. made ++ l) (keep_if-none is_system recent recent-none)
            ∙ append-nil made)
