-- ===== src/AutoTrigger/Guards.antt =====
-- When the automatic compaction starts, and what it leaves behind.
use mathlib.Core.Option.{map}
use kimi_proxy.Base.{
  ℕ, ◌+◌, ◌*◌, ◌≤◌, ◌<◌, ◌≡◌, refl, sym, ap, ◌∙◌, subst, true, false, not, ◌&&◌, Option, none, some,
  List, [], ◌∷◌, length, ◌==◌, is_some, arith, Bool-cases, Option-cases, inl, inr, if◌then◌else◌,
}
use kimi_proxy.Base.Sorting.{elem_ℕ}
use kimi_proxy.Base.Tables.{find, find-set, find-update}
use kimi_proxy.Json.{Fields}
use kimi_proxy.Compaction.{CompactionResult}
use kimi_proxy.AutoTrigger
use kimi_proxy.AutoTrigger.{
  Thresholds, Outside, AutoTriggerConfig, SessionRow, World, Outcome, raised, returned,
  get_session_compaction_state, passes, check_and_trigger, execute_auto_compaction, one_more,
  zeroed, increment_consecutive_auto_compactions, reset_consecutive_auto_compactions,
}

module _ (th : Thresholds) where
  -- the number of automatic compactions of a session since the last reset
  abbrev pub consecutive : ℕ → World th → ℕ
  consecutive id w = (get_session_compaction_state th (find id w.sessions)).consecutive

  abbrev counted : Option (SessionRow th) → ℕ
  counted o = (get_session_compaction_state th o).consecutive

  consecutive-increment :
      (id j : ℕ) (w : World th) (row : SessionRow th)
      → find id w.sessions ≡ some row
      → consecutive j (increment_consecutive_auto_compactions th id w)
        ≡ (if id == j then consecutive j w + 1 else consecutive j w)
  unfolding increment_consecutive_auto_compactions one_more get_session_compaction_state
  consecutive-increment id j w row h =
      ap counted (find-update id j (one_more th) w.sessions) ∙ elim (Bool-cases (id == j)) [
        | inl p ↦
            let e : find j w.sessions ≡ some row =
              subst (λ k. find k w.sessions ≡ some row) (ground arith) h in
            rw p (counted-one_more (find j w.sessions) (ap is_some e))
        | inr p ↦ rw p refl
      ]
    where
      counted-one_more :
          (o : Option (SessionRow th))
          → is_some o ≡ true
          → counted (map (one_more th) o) ≡ counted o + 1
      counted-one_more none h = ground arith
      counted-one_more (some row) h = refl

  consecutive-reset :
      (id j : ℕ) (w : World th)
      → consecutive j (reset_consecutive_auto_compactions th id w)
        ≡ (if id == j then 0 else consecutive j w)
  unfolding reset_consecutive_auto_compactions zeroed get_session_compaction_state
  consecutive-reset id j w =
      ap counted (find-update id j (zeroed th) w.sessions) ∙ elim (Bool-cases (id == j)) [
        | inl p ↦ rw p (counted-zeroed (find j w.sessions))
        | inr p ↦ rw p refl
      ]
    where
      counted-zeroed : (o : Option (SessionRow th)) → counted (map (zeroed th) o) ≡ 0
      counted-zeroed none = refl
      counted-zeroed (some row) = refl

  -- what the guards have found
  pub record Guarded (config : AutoTriggerConfig th) (now id tokens max_context : ℕ)
      (messages : List Fields) (w : World th) : Type 0 where
    pub on : config.enabled ≡ true
    pub not_pending : elem_ℕ id w.pending ≡ false
    pub known : is_some (find id w.sessions) ≡ true
    pub allowed : (get_session_compaction_state th (find id w.sessions)).auto_enabled ≡ true
    pub reached :
        th.below tokens max_context
          (get_session_compaction_state th (find id w.sessions)).auto_threshold
        ≡ false
    pub below_max : consecutive id w < config.max_consecutive
    pub cooled : (until : ℕ) → find id w.cooldown_until ≡ some until → until ≤ now
    pub enough_messages : config.min_messages ≤ length messages
    pub enough_tokens : config.min_tokens ≤ tokens

  passes-Guarded :
      (config : AutoTriggerConfig th) (now id tokens max_context : ℕ) (messages : List Fields)
      (w : World th)
      → passes th config now id tokens max_context messages w ≡ true
      → Guarded config now id tokens max_context messages w
  unfolding passes AutoTrigger.cools
  passes-Guarded config now id tokens max_context messages w h = record {
    on = ground arith;
    not_pending = ground arith;
    known = ground arith;
    allowed = ground arith;
    reached = ground arith;
    below_max = ground arith;
    cooled = λ until e. ground arith;
    enough_messages = ground arith;
    enough_tokens = ground arith;
  }

  -- what a session is left with after a compaction
  pub record Triggered (config : AutoTriggerConfig th) (now id : ℕ) (w w' : World th) : Type 0 where
    pub cools_until : find id w'.cooldown_until ≡ some (now + config.cooldown_minutes * 60)
    pub one_more : consecutive id w' ≡ consecutive id w + 1
    pub others : (j : ℕ) → (id == j) ≡ false → consecutive j w' ≡ consecutive j w

  module _ (out : Outside) (config : AutoTriggerConfig th) (now id tokens max_context : ℕ)
      (messages : List Fields) (w : World th) where
    marked : World th
    marked = record w { pending = id ∷ w.pending }

    conclude-bounded :
        (o : Option (Option CompactionResult))
        → Guarded config now id tokens max_context messages w
        → (j : ℕ) → consecutive j w ≤ config.max_consecutive
        → consecutive j (AutoTrigger.conclude th out config now id marked o).0
          ≤ config.max_consecutive
    unfolding AutoTrigger.conclude AutoTrigger.cool marked
    conclude-bounded none g j b = b
    conclude-bounded (some none) g j b = ground (arith, consecutive-reset id j marked)
    conclude-bounded (some (some r)) g j b = elim (Option-cases (find id w.sessions)) [
      | inl e ↦ ground arith
      | inr (row, e) ↦
          let more = consecutive-increment id j (AutoTrigger.cool th config now id marked) row e in
          elim (Bool-cases (id == j)) [
            | inl p ↦
                let few : consecutive j w < config.max_consecutive =
                  subst (λ k. consecutive k w < config.max_consecutive) (ground arith)
                    g.below_max in
                ground (arith, more, few)
            | inr p ↦ ground (arith, more)
          ]
    ]

    triggered-bounded :
        Guarded config now id tokens max_context messages w
        → (j : ℕ) → consecutive j w ≤ config.max_consecutive
        → consecutive j (AutoTrigger.triggered th out config now id messages w).0
          ≤ config.max_consecutive
    unfolding AutoTrigger.triggered AutoTrigger.release marked
    triggered-bounded g j b =
        conclude-bounded (execute_auto_compaction th out config id messages) g j b

    -- A check keeps the count of consecutive automatic compactions of every session at most
    -- `max_consecutive`, if it was.
    pub check_and_trigger_bounded :
        (j : ℕ)
        → consecutive j w ≤ config.max_consecutive
        → consecutive j (check_and_trigger th out config now id tokens max_context messages w).0
          ≤ config.max_consecutive
    unfolding check_and_trigger
    check_and_trigger_bounded j b =
        elim (Bool-cases (passes th config now id tokens max_context messages w)) [
          | inl p ↦
              rw p (
                triggered-bounded (passes-Guarded config now id tokens max_context messages w p) j
                  b)
          | inr p ↦ rw p b
        ]

    elem_ℕ-remove :
        (j : ℕ) (xs : List ℕ)
        → elem_ℕ j (AutoTrigger.remove th id xs) ≡ (not (id == j) && elem_ℕ j xs)
    unfolding AutoTrigger.remove elem_ℕ
    elem_ℕ-remove j [] = ground arith
    elem_ℕ-remove j (x ∷ xs) = ground (arith, elem_ℕ-remove j xs)

    conclude-pending :
        (o : Option (Option CompactionResult))
        → (AutoTrigger.conclude th out config now id marked o).0.pending ≡ id ∷ w.pending
    unfolding AutoTrigger.conclude AutoTrigger.cool increment_consecutive_auto_compactions
        reset_consecutive_auto_compactions marked
    conclude-pending none = refl
    conclude-pending (some none) = refl
    conclude-pending (some (some r)) = refl

    triggered-pending :
        elem_ℕ id w.pending ≡ false
        → (j : ℕ)
        → elem_ℕ j (AutoTrigger.triggered th out config now id messages w).0.pending
          ≡ elem_ℕ j w.pending
    unfolding AutoTrigger.triggered AutoTrigger.release marked elem_ℕ
    triggered-pending h j =
        ap (λ l. elem_ℕ j (AutoTrigger.remove th id l))
          (conclude-pending (execute_auto_compaction th out config id messages))
        ∙ elem_ℕ-remove j (id ∷ w.pending)
        ∙ elim (Bool-cases (id == j)) [
          | inl p ↦ rw p (sym (subst (λ k. elem_ℕ k w.pending ≡ false) (ground arith) h))
          | inr p ↦ rw p refl
        ]

    -- Whether the compaction succeeds, is not needed or raises, after a check the same
    -- sessions are marked as being compacted as before.
    pub check_and_trigger-pending :
        (j : ℕ)
        → elem_ℕ j (check_and_trigger th out config now id tokens max_context messages w).0.pending
          ≡ elem_ℕ j w.pending
    unfolding check_and_trigger
    check_and_trigger-pending j =
        elim (Bool-cases (passes th config now id tokens max_context messages w)) [
          | inl p ↦ rw p (
              triggered-pending
                (passes-Guarded config now id tokens max_context messages w p).not_pending j)
          | inr p ↦ rw p refl
        ]

    -- The check of a session that has had `max_consecutive` automatic compactions in a row
    -- returns None and changes nothing, so that it never resets the count.
    check_and_trigger_stuck :
        config.max_consecutive ≤ consecutive id w
        → check_and_trigger th out config now id tokens max_context messages w ≡ (w, returned none)
    unfolding check_and_trigger
    check_and_trigger_stuck h =
        elim (Bool-cases (passes th config now id tokens max_context messages w)) [
          | inl p ↦
              let g = passes-Guarded config now id tokens max_context messages w p in
              ground (arith, g.below_max)
          | inr p ↦ rw p refl
        ]

    conclude-Triggered :
        (o : Option (Option CompactionResult)) (r : CompactionResult)
        → is_some (find id w.sessions) ≡ true
        → (AutoTrigger.conclude th out config now id marked o).1 ≡ returned (some r)
        → Triggered config now id w
            (AutoTrigger.release th id (AutoTrigger.conclude th out config now id marked o).0)
    unfolding AutoTrigger.conclude AutoTrigger.cool AutoTrigger.release marked
        increment_consecutive_auto_compactions
    conclude-Triggered none r k h = ground arith
    conclude-Triggered (some none) r k h = ground arith
    conclude-Triggered (some (some s)) r k h =
        let v = AutoTrigger.cool th config now id marked in
        elim (Option-cases (find id w.sessions)) [
          | inl e ↦ ground arith
          | inr (row, e) ↦ record {
            cools_until =
                find-set id id (now + config.cooldown_minutes * 60) w.cooldown_until ∙ ground arith;
            one_more = consecutive-increment id id v row e ∙ ground arith;
            others = λ j p. consecutive-increment id j v row e ∙ rw p refl;
          }
        ]

    -- An automatic compaction that returns a result has found all guards satisfied: automatic
    -- compaction on, for the session too, the session known and not marked, its threshold
    -- reached, its cooldown over, its count below the maximum, and messages and tokens
    -- enough. Its cooldown then ends `cooldown_minutes` from now, its count has gone up by
    -- one, and the other counts are as before.
    pub check_and_trigger-Triggered :
        (w' : World th) (r : CompactionResult)
        → check_and_trigger th out config now id tokens max_context messages w
          ≡ (w', returned (some r))
        → Guarded config now id tokens max_context messages w × Triggered config now id w w'
    unfolding check_and_trigger AutoTrigger.triggered marked
    check_and_trigger-Triggered w' r h =
        elim (Bool-cases (passes th config now id tokens max_context messages w)) [
          | inl p ↦
              let g = passes-Guarded config now id tokens max_context messages w p in
              let e : AutoTrigger.triggered th out config now id messages w
                  ≡ (w', returned (some r)) =
                sym (rw p refl) ∙ h in
              (
                g,
                subst (Triggered config now id w) (ap (λ x. x.0) e) (
                    conclude-Triggered (execute_auto_compaction th out config id messages) r g.known
                      (ap (λ x. x.1) e)),
              )
          | inr p ↦
              let e : ◌≡◌ {A = World th × Outcome th} (w, returned none) (w', returned (some r)) =
                sym (rw p refl) ∙ h in
              ground arith
        ]
