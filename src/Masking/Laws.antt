-- ===== src/Masking/Laws.antt =====
-- What masking leaves alone, and exactly which messages it rewrites.
use mathlib.Core.List.{map-id}
use kimi_proxy.Base.{
  ◌-◌, ℤ, pos, pos_part, leb_ℤ, String, count, ◌≡◌, ◌≢◌, refl, sym, ap, fun_ext, ◌∙◌, Bool, true,
  false, not, ◌&&◌, Option, none, some, or_else, List, [], ◌∷◌, map, length, drop, lookup, elem,
  elem-union, is_some, arith, eq_iff, Bool-cases, inl, inr, if◌then◌else◌,
}
use kimi_proxy.Json.{Fields, str, get, has, put, as_str, is_str, get-put, has-put}
use kimi_proxy.Python.{Python}
use kimi_proxy.Masking
use kimi_proxy.Masking.{MaskPolicy, ToolTurnExtraction}
use kimi_proxy.Masking.Latest.{among_last_k, elem-compute_keep_ids_by_last_k_per_tool}
use kimi_proxy.Masking.Turns.{
  tool_turns, called_in, called_in-tool_turns, indexed_iff_called, kept_iff_recent,
}

-- `b` is `a` but for the content of a tool result
pub record SameButContent (a b : Fields) : Type 0 where
  pub values : (k : String) → k ≢ "content" → get k b ≡ get k a
  pub keys : (k : String) → k ≢ "content" → has k b ≡ has k a
  pub others : is_str "tool" (get "role" a) ≡ false → b ≡ a

abbrev pub Pairwise : (Fields → Fields → Type 0) → List Fields → List Fields → Type 0
Pairwise R [] [] = Unit
Pairwise R (x ∷ xs) (y ∷ ys) = R x y × Pairwise R xs ys
Pairwise R _ _ = ⊥

SameButContent-refl : (a : Fields) → SameButContent a a
SameButContent-refl a = record { values = λ k n. refl; keys = λ k n. refl; others = λ h. refl }

Pairwise-map :
    (R : Fields → Fields → Type 0) (f : Fields → Fields)
    → ((a : Fields) → R a (f a))
    → (xs : List Fields) → Pairwise R xs (map f xs)
Pairwise-map R f h [] = tt
Pairwise-map R f h (x ∷ xs) = (h x, Pairwise-map R f h xs)

Pairwise-refl :
    (R : Fields → Fields → Type 0) → ((a : Fields) → R a a) → (xs : List Fields) → Pairwise R xs xs
Pairwise-refl R h [] = tt
Pairwise-refl R h (x ∷ xs) = (h x, Pairwise-refl R h xs)

SameButContent-put :
    (a : Fields) (s : String)
    → is_str "tool" (get "role" a) ≡ true
    → SameButContent a (put "content" (str s) a)
SameButContent-put a s tool = record {
  values = λ k n. ground (arith, get-put "content" k (str s) a, eq_iff "content" k);
  keys = λ k n. ground (arith, has-put "content" k (str s) a, eq_iff "content" k);
  others = λ h. cc;
}

module _ (py : Python) where
  module _ (policy : MaskPolicy) (keep : List String) (e : ToolTurnExtraction) where
    mask_text-SameButContent :
        (msg : Fields) (tc_id : String) (o : Option String)
        → is_str "tool" (get "role" msg) ≡ true
        → SameButContent msg (Masking.mask_text py policy keep e msg tc_id o)
    unfolding Masking.mask_text
    mask_text-SameButContent msg tc_id none tool = SameButContent-refl msg
    mask_text-SameButContent msg tc_id (some s) tool = SameButContent-put msg _ tool

    mask_result-SameButContent :
        (msg : Fields) (o : Option String)
        → is_str "tool" (get "role" msg) ≡ true
        → SameButContent msg (Masking.mask_result py policy keep e msg o)
    unfolding Masking.mask_result
    mask_result-SameButContent msg none tool = SameButContent-refl msg
    mask_result-SameButContent msg (some tc_id) tool =
        elim (Bool-cases (is_some (lookup tc_id e.id_to_turn_index))) [
          | inr p ↦ rw p (SameButContent-refl msg)
          | inl p ↦ elim (Bool-cases (elem tc_id keep)) [
            | inl q ↦ rw (p, q) (SameButContent-refl msg)
            | inr q ↦
                elim (Bool-cases (
                  policy.keep_errors
                  && Masking.looks_like_error_tool_content py (get "content" msg))) [
                    | inl r ↦ rw (p, q, r) (SameButContent-refl msg)
                    | inr r ↦ rw (p, q, r) (mask_text-SameButContent msg tc_id _ tool)
                  ]
          ]
        ]

    mask_message-SameButContent :
        (msg : Fields) → SameButContent msg (Masking.mask_message py policy keep e msg)
    unfolding Masking.mask_message
    mask_message-SameButContent msg = elim (Bool-cases (is_str "tool" (get "role" msg))) [
      | inl p ↦ rw p (mask_result-SameButContent msg _ p)
      | inr p ↦ rw p (SameButContent-refl msg)
    ]

  mask_turns-SameButContent :
      (policy : MaskPolicy) (messages : List Fields) (e : ToolTurnExtraction)
      (ts : List (List String))
      → Pairwise SameButContent messages (Masking.mask_turns py policy messages e ts)
  unfolding Masking.mask_turns
  mask_turns-SameButContent policy messages e [] =
      Pairwise-refl SameButContent SameButContent-refl messages
  mask_turns-SameButContent policy messages e (_ ∷ _) =
      Pairwise-map SameButContent _ (mask_message-SameButContent policy _ e) messages

  -- Masking keeps the length and the order of the conversation. A message that is no tool result
  -- comes out as it was, and of a tool result only the value of "content" can change.
  pub mask_old_tool_results-SameButContent :
      (messages : List Fields) (policy : MaskPolicy)
      → Pairwise SameButContent messages (Masking.mask_old_tool_results py messages policy)
  unfolding Masking.mask_old_tool_results
  mask_old_tool_results-SameButContent messages policy = elim (Bool-cases policy.enabled) [
    | inr p ↦ simp p (Pairwise-refl SameButContent SameButContent-refl messages)
    | inl p ↦ elim (Bool-cases (leb_ℤ policy.window_turns (pos 0))) [
      | inl q ↦ simp (p, q) (Pairwise-refl SameButContent SameButContent-refl messages)
      | inr q ↦
          simp (p, q)
            (mask_turns-SameButContent policy messages (Masking.extract_tool_turns messages) _)
    ]
  ]

  module _ (policy : MaskPolicy) (messages : List Fields) where
    -- the id belongs to one of the last k results of its tool, where the policy exempts those
    is_exempt : String → Option ℤ → Bool
    is_exempt tc_id none = false
    is_exempt tc_id (some k) =
        if leb_ℤ k (pos 0)
        then false
        else among_last_k (Masking.extract_tool_turns messages).id_to_tool_name (pos_part k) tc_id
            messages

    elem-last_k_ids :
        (tc_id : String) (o : Option ℤ)
        → elem tc_id (Masking.last_k_ids o messages (Masking.extract_tool_turns messages))
          ≡ is_exempt tc_id o
    unfolding Masking.last_k_ids is_exempt elem
    elem-last_k_ids tc_id none = refl
    elem-last_k_ids tc_id (some k) =
        let e = Masking.extract_tool_turns messages in
        ground (
          arith,
          elem-compute_keep_ids_by_last_k_per_tool e.id_to_tool_name messages (pos_part k) tc_id,
        )

    -- a tool result is due for masking: a turn calls its id, none of the last `window_turns` does,
    -- it is none of the last k of its tool, and it is no error to be kept
    abbrev is_due : Fields → String → Bool
    is_due msg tc_id =
        let turns = tool_turns messages in
        called_in tc_id turns
        && not (called_in tc_id (drop (length turns - pos_part policy.window_turns) turns))
        && not (is_exempt tc_id policy.keep_last_k_per_tool)
        && not (policy.keep_errors && Masking.looks_like_error_tool_content py (get "content" msg))

    -- the masked text of a content, with the name of the tool if a call gave one
    placeholder : Fields → String → Option String → Fields
    placeholder msg tc_id none = msg
    placeholder msg tc_id (some content) =
        put "content"
          (str (
            Masking.render_placeholder py policy.placeholder_template tc_id
              (or_else (lookup tc_id (Masking.extract_tool_turns messages).id_to_tool_name)
                "inconnu")
              (count content)))
          msg

    expected_result : Fields → Option String → Fields
    expected_result msg none = msg
    expected_result msg (some tc_id) =
        if is_due msg tc_id then placeholder msg tc_id (as_str (get "content" msg)) else msg

    -- what the policy asks for, message by message
    pub expected : Fields → Fields
    unfolding placeholder expected_result
    expected msg =
        if is_str "tool" (get "role" msg)
        then expected_result msg (Masking.nonempty_str (get "tool_call_id" msg))
        else msg

    module _ (on : leb_ℤ policy.window_turns (pos 0) ≡ false) where
      mask_result-expected_result :
          (msg : Fields) (o : Option String)
          → Masking.mask_result py policy
              (Masking.keep_ids policy messages (Masking.extract_tool_turns messages))
              (Masking.extract_tool_turns messages)
              msg
              o
            ≡ expected_result msg o
      unfolding Masking.mask_result Masking.mask_text Masking.keep_ids expected_result placeholder
      mask_result-expected_result msg none = refl
      mask_result-expected_result msg (some tc_id) =
          let e = Masking.extract_tool_turns messages in
          ground (
            arith,
            indexed_iff_called messages tc_id,
            elem-last_k_ids tc_id policy.keep_last_k_per_tool,
            kept_iff_recent messages policy.window_turns tc_id,
            elem-union tc_id (Masking.compute_keep_ids_by_window e.turns policy.window_turns)
                (Masking.last_k_ids policy.keep_last_k_per_tool messages e),
          )

      mask_message-expected :
          (msg : Fields)
          → Masking.mask_message py policy
              (Masking.keep_ids policy messages (Masking.extract_tool_turns messages))
              (Masking.extract_tool_turns messages)
              msg
            ≡ expected msg
      unfolding Masking.mask_message expected
      mask_message-expected msg =
          simp (mask_result-expected_result msg (Masking.nonempty_str (get "tool_call_id" msg)))

      expected_result_without_turns :
          (msg : Fields) (o : Option String)
          → (Masking.extract_tool_turns messages).turns ≡ []
          → expected_result msg o ≡ msg
      unfolding expected_result
      expected_result_without_turns msg none h = refl
      expected_result_without_turns msg (some tc_id) h =
          let never = sym (called_in-tool_turns messages tc_id) ∙ ap (called_in tc_id) h in
          ground arith

      expected_without_turns :
          (msg : Fields) → (Masking.extract_tool_turns messages).turns ≡ [] → expected msg ≡ msg
      unfolding expected
      expected_without_turns msg h = ground (
        arith,
        expected_result_without_turns msg (Masking.nonempty_str (get "tool_call_id" msg)) h,
      )

      mask_turns-expected :
          (ts : List (List String))
          → (Masking.extract_tool_turns messages).turns ≡ ts
          → Masking.mask_turns py policy messages (Masking.extract_tool_turns messages) ts
            ≡ map expected messages
      unfolding Masking.mask_turns
      mask_turns-expected [] h = sym (
          ap (λ f. map f messages) (fun_ext (λ msg. expected_without_turns msg h))
          ∙ map-id messages)
      mask_turns-expected (t ∷ ts) h = ap (λ f. map f messages) (fun_ext mask_message-expected)

      -- With masking enabled and a window of at least one turn, the result is the conversation in
      -- which exactly the tool results that are due have their content replaced.
      pub mask_old_tool_results-eq-expected :
          policy.enabled ≡ true
          → Masking.mask_old_tool_results py messages policy ≡ map expected messages
      unfolding Masking.mask_old_tool_results
      mask_old_tool_results-eq-expected enabled = simp (enabled, on) (mask_turns-expected _ refl)
