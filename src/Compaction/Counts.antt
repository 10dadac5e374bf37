-- ===== src/Compaction/Counts.antt =====
-- The numbers that a compaction reports.
use kimi_proxy.Base.{
  bind-some, ℕ, zero, suc, ◌+◌, ◌-◌, ◌*◌, ◌≤◌, ◌<◌, sub_ℕ, String, ◌≡◌, refl, sym, ap, subst, ◌∙◌,
  Bool, true, false, Option, none, some, List, [], ◌∷◌, ◌++◌, length, length-append, length-drop,
  arith, is_some, if◌then◌else◌, ◌>>=◌, Bool-cases, inl, inr, ltb, leb,
}
use kimi_proxy.Json.{Fields}
use kimi_proxy.Python.{Python}
use kimi_proxy.Tokens.{count_tokens_tiktoken}
use kimi_proxy.Compaction
use kimi_proxy.Compaction.{
  CompactionConfig, CompactionResult, systems, non_systems, last_of, all_but_last, compact,
  should_compact, compacted_messages,
}
use kimi_proxy.Compaction.Kept.{all_but_last-append-last_of, length-split}

length-last_of : (n : ℕ) (xs : List Fields) → 0 < n → n ≤ length xs → length (last_of n xs) ≡ n
unfolding last_of
length-last_of zero xs h k = omega arith
length-last_of (suc n) xs h k = omega (arith, length-drop (length xs - suc n) xs)

length-summary_messages :
    (s : Option String) → length (Compaction.summary_messages s) ≡ (if is_some s then 1 else 0)
unfolding Compaction.summary_messages
length-summary_messages none = refl
length-summary_messages (some c) = refl

-- what the numbers of a result say, if it says that it has compacted
pub record Compacted (config : CompactionConfig) (messages : List Fields) (r : CompactionResult)
    : Type 0 where
  pub before : r.messages_before ≡ length messages
  -- each message is from the system, kept or summarised
  pub split : r.system_preserved + r.recent_preserved + r.summarized_count ≡ r.messages_before
  pub after :
      r.messages_after
      ≡ (if config.preserve_system_messages then r.system_preserved else 0)
        + (if is_some r.summary_text then 1 else 0)
        + r.recent_preserved
  pub recent :
      0 < config.max_preserved_messages
      → (r.recent_preserved ≡ config.max_preserved_messages * 2) × (0 < r.summarized_count)
  pub systems_kept : r.system_preserved ≡ length (systems messages)
  pub all_recent :
      config.max_preserved_messages ≡ 0 → r.recent_preserved ≡ length (non_systems messages)
  pub saved : r.tokens_saved ≡ sub_ℕ r.original_tokens r.compacted_tokens

-- what it says, if not
pub record Untouched (messages : List Fields) (r : CompactionResult) : Type 0 where
  pub counted : (r.messages_before ≡ length messages) × (r.messages_after ≡ length messages)
  pub tokens : r.compacted_tokens ≡ r.original_tokens
  pub reason : is_some r.reason ≡ true

module _ (config : CompactionConfig) (messages : List Fields) (id tokens : ℕ) where
  length-compacted_messages :
      (s : Option String)
      → length (compacted_messages config messages s)
        ≡ (if config.preserve_system_messages then length (systems messages) else 0)
          + (if is_some s then 1 else 0)
          + length (last_of (config.max_preserved_messages * 2) (non_systems messages))
  unfolding compacted_messages
  length-compacted_messages s =
      let front = if config.preserve_system_messages then systems messages else [] in
      let recent = last_of (config.max_preserved_messages * 2) (non_systems messages) in
      ground (
        arith,
        length-append front (Compaction.summary_messages s ++ recent),
        length-append (Compaction.summary_messages s) recent,
        length-summary_messages s,
      )

  shortened-Compacted :
      (s : Option String) (saved : ℕ)
      → config.max_preserved_messages * 2 < length (non_systems messages)
      → Compacted config messages (Compaction.shortened config id tokens messages s saved)
  unfolding Compaction.shortened last_of
  shortened-Compacted s saved h =
      let n = config.max_preserved_messages * 2 in
      let others = non_systems messages in
      let whole =
        sym (length-append (all_but_last n others) (last_of n others))
        ∙ ap length (all_but_last-append-last_of n others) in
      record {
        before = refl;
        split = omega (arith, whole, length-split messages);
        after = length-compacted_messages s;
        recent = λ p.
            let e = length-last_of n others (omega arith) (omega arith) in
            (e, omega (arith, whole, e));
        systems_kept = refl;
        all_recent = λ z. ap (λ k. length (last_of (k * 2) others)) z;
        saved = refl;
      }

if-false {ℓ} :
    {A : Type ℓ} {r : A} (b : Bool) (x y : A) → b ≡ false → (if b then x else y) ≡ r → y ≡ r
if-false b x y p e = ground arith

module _ (py : Python) (config : CompactionConfig) (messages : List Fields) where
  enough-true :
      (ms : List Fields) (tokens : ℕ) (reason : String)
      → some (Compaction.enough config ms tokens) ≡ some (true, reason)
      → config.max_preserved_messages * 2 < length (non_systems ms)
  unfolding Compaction.enough
  enough-true ms tokens reason h = ground arith

  should_compact-enough :
      (current : Option ℕ) (reason : String)
      → should_compact py config messages current ≡ some (true, reason)
      → config.max_preserved_messages * 2 < length (non_systems messages)
  unfolding should_compact Compaction.enough
  should_compact-enough current reason h = go messages h
    where
      go :
          (ms : List Fields)
          → should_compact py config ms current ≡ some (true, reason)
          → config.max_preserved_messages * 2 < length (non_systems ms)
      go [] e = ground arith
      go (m ∷ ms) e = elim (Bool-cases (ltb (length (m ∷ ms)) config.min_messages_to_compact)) [
        | inl p ↦ ground arith
        | inr p ↦
            let (tokens, _, k) =
              bind-some (Compaction.tokens_or_count py (m ∷ ms) current)
                (λ tokens. some (Compaction.enough config (m ∷ ms) tokens)) (true, reason)
                (if-false _ _ _ p e) in
            enough-true (m ∷ ms) tokens reason k
      ]

  shorten-shortened :
      (id tokens : ℕ) (r : CompactionResult)
      → config.max_preserved_messages * 2 < length (non_systems messages)
      → Compaction.shorten py config messages id tokens ≡ some r
      → (s : Option String) × (saved : ℕ) × (r
          ≡ Compaction.shortened config id tokens messages s saved)
  unfolding Compaction.shorten
  shorten-shortened id tokens r h e =
      let verdict = leb (length (non_systems messages)) (config.max_preserved_messages * 2) in
      let few : verdict ≡ false = ground arith in
      let left = all_but_last (config.max_preserved_messages * 2) (non_systems messages) in
      let report = λ (summary : Option String).
        count_tokens_tiktoken py (compacted_messages config messages summary)
        >>= (λ saved. some (Compaction.shortened config id tokens messages summary saved)) in
      let (summary, _, k) =
        bind-some (Compaction.summarize py config left) report r (if-false verdict _ _ few e) in
      let (saved, _, j) =
        bind-some (count_tokens_tiktoken py (compacted_messages config messages summary))
          (λ saved. some (Compaction.shortened config id tokens messages summary saved)) r k in
      (summary, saved, ground arith)

  -- the verdict of `should_compact` is followed, and the numbers are those of its case
  abbrev pub Reported : Option ℕ → CompactionResult → Type 0
  Reported current r =
      ((reason : String) × (should_compact py config messages current ≡ some (r.compacted, reason)))
      × (r.compacted ≡ true → Compacted config messages r)
      × (r.compacted ≡ false → Untouched messages r)

  unchanged-Reported :
      (id tokens : ℕ) (current : Option ℕ) (reason : String)
      → should_compact py config messages current ≡ some (false, reason)
      → Reported current (Compaction.unchanged id tokens messages reason)
  unfolding Compaction.unchanged
  unchanged-Reported id tokens current reason v = (
    (reason, v),
    (λ h. ground arith),
    λ h. record { counted = (refl, refl); tokens = refl; reason = refl },
  )

  shortened-Reported :
      (id tokens saved : ℕ) (s : Option String) (current : Option ℕ) (reason : String)
      → should_compact py config messages current ≡ some (true, reason)
      → Reported current (Compaction.shortened config id tokens messages s saved)
  unfolding Compaction.shortened
  shortened-Reported id tokens saved s current reason v = (
    (reason, v),
    (λ h.
        shortened-Compacted config messages id tokens s saved
          (should_compact-enough current reason v)),
    (λ h. ground arith),
  )

  follow-Reported :
      (id tokens : ℕ) (current : Option ℕ) (verdict : Bool) (reason : String) (r : CompactionResult)
      → should_compact py config messages current ≡ some (verdict, reason)
      → Compaction.follow py config messages id tokens (verdict, reason) ≡ some r
      → Reported current r
  unfolding Compaction.follow
  follow-Reported id tokens current true reason r v j =
      let (s, saved, e) =
        shorten-shortened id tokens r (should_compact-enough current reason v) j in
      subst (Reported current) (sym e) (shortened-Reported id tokens saved s current reason v)
  follow-Reported id tokens current false reason r v j =
      subst (Reported current) (ground arith) (unchanged-Reported id tokens current reason v)

  -- What a compaction reports where it does not raise: it says that it has compacted if and only if
  -- `should_compact` says so. If it does, each message is counted as a system message, as kept
  -- or as summarised, the messages after it are the kept ones with the summary, and the tokens
  -- saved are the difference; if not, the numbers before and after are the same.
  pub compact-Reported :
      (id : ℕ) (current : Option ℕ) (r : CompactionResult)
      → compact py config messages id current ≡ some r
      → Reported current r
  unfolding compact
  compact-Reported id current r h =
      let ((verdict, reason), v, k) = bind-some _ _ _ h in
      let (tokens, _, j) =
        bind-some (Compaction.tokens_or_count py messages current)
          (λ t. Compaction.follow py config messages id t (verdict, reason)) r k in
      follow-Reported id tokens current verdict reason r v j

  -- Where no message is to be preserved, a compaction that preserves the system messages and
  -- reports that it has compacted summarises no message, and leaves no fewer messages than
  -- before.
  pub compact_keeps_all :
      (id : ℕ) (current : Option ℕ) (r : CompactionResult)
      → config.max_preserved_messages ≡ 0
      → config.preserve_system_messages ≡ true
      → compact py config messages id current ≡ some r
      → r.compacted ≡ true
      → (r.summarized_count ≡ 0) × (r.messages_before ≤ r.messages_after)
  compact_keeps_all id current r z p h c =
      let f = (compact-Reported id current r h).1 c in
      let e : (if config.preserve_system_messages then r.system_preserved else 0)
          ≡ r.system_preserved =
        rw p refl in
      (
        omega (arith, f.split, f.before, f.systems_kept, f.all_recent z, length-split messages),
        omega (
          arith,
          f.split,
          f.before,
          f.systems_kept,
          f.all_recent z,
          length-split messages,
          f.after,
          e,
        ),
      )
