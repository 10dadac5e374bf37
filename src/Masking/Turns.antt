-- ===== src/Masking/Turns.antt =====
-- `_extract_tool_turns` and `_compute_keep_ids_by_window` against an independent reading of the
-- conversation: the list of its tool turns.
use mathlib.Core.List.{append-nil, append_assoc}
use kimi_proxy.Base.{
  ℕ, zero, suc, ◌-◌, ℤ, pos, pos_part, leb_ℤ, String, ◌≡◌, refl, ◌∙◌, ap, sym, Bool, false, ◌||◌,
  Option, none, some, List, [], ◌∷◌, ◌++◌, length, drop, any, any-append, Dict, lookup, assign,
  lookup-assign, elem, union, elem-add, elem-union, is_some, arith, eq_refl, Option-cases,
  Bool-cases, inl, inr, if◌then◌else◌,
}
use kimi_proxy.Json.{
  Items, Fields, null, bool, int, real, str, arr, obj, nil, cons, get, as_arr, is_str,
}
use kimi_proxy.Masking

cons_id : Option String → List String → List String
cons_id none ids = ids
cons_id (some i) ids = i ∷ ids

-- the ids of the calls in a `tool_calls` list
pub ids_of_calls : Items → List String
unfolding cons_id
ids_of_calls nil = []
ids_of_calls (cons (obj tc) rest) = cons_id (Masking.nonempty_str (get "id" tc)) (ids_of_calls rest)
ids_of_calls (cons _ rest) = ids_of_calls rest

ids_of_list : Option Items → List String
unfolding ids_of_calls
ids_of_list none = []
ids_of_list (some tcs) = ids_of_calls tcs

-- the ids that a message calls
pub message_ids : Fields → List String
unfolding ids_of_list
message_ids msg =
    if is_str "assistant" (get "role" msg) then ids_of_list (as_arr (get "tool_calls" msg)) else []

cons_turn : List String → List (List String) → List (List String)
cons_turn [] ts = ts
cons_turn (k ∷ ks) ts = (k ∷ ks) ∷ ts

-- the tool turns of a conversation: the messages that call something
pub tool_turns : List Fields → List (List String)
unfolding cons_turn
tool_turns [] = []
tool_turns (msg ∷ rest) = cons_turn (message_ids msg) (tool_turns rest)

abbrev pub called_in : String → List (List String) → Bool
called_in j = any (elem j)

abbrev SameSet : List String → List String → Type 0
SameSet s t = (j : String) → elem j s ≡ elem j t

abbrev SameSets : List (List String) → List (List String) → Type 0
SameSets [] [] = Unit
SameSets (s ∷ ss) (t ∷ ts) = SameSet s t × SameSets ss ts
SameSets _ _ = ⊥

SameSets-append :
    (a b c d : List (List String)) → SameSets a b → SameSets c d → SameSets (a ++ c) (b ++ d)
SameSets-append [] [] c d h k = k
SameSets-append [] (t ∷ b) c d h k = elim h [ ]
SameSets-append (s ∷ a) [] c d h k = elim h [ ]
SameSets-append (s ∷ a) (t ∷ b) c d h k = (h.0, SameSets-append a b c d h.1 k)

SameSets-length : (a b : List (List String)) → SameSets a b → length a ≡ length b
SameSets-length [] [] h = refl
SameSets-length [] (t ∷ b) h = elim h [ ]
SameSets-length (s ∷ a) [] h = elim h [ ]
SameSets-length (s ∷ a) (t ∷ b) h = ap suc (SameSets-length a b h.1)

SameSets-drop : (n : ℕ) (a b : List (List String)) → SameSets a b → SameSets (drop n a) (drop n b)
SameSets-drop zero a b h = h
SameSets-drop (suc n) [] [] h = tt
SameSets-drop (suc n) [] (t ∷ b) h = elim h [ ]
SameSets-drop (suc n) (s ∷ a) [] h = elim h [ ]
SameSets-drop (suc n) (s ∷ a) (t ∷ b) h = SameSets-drop n a b h.1

called_in-SameSets :
    (j : String) (a b : List (List String)) → SameSets a b → called_in j a ≡ called_in j b
called_in-SameSets j [] [] h = refl
called_in-SameSets j [] (t ∷ b) h = elim h [ ]
called_in-SameSets j (s ∷ a) [] h = elim h [ ]
called_in-SameSets j (s ∷ a) (t ∷ b) h = cc (h.0 j, called_in-SameSets j a b h.1)

elem-scan_calls :
    (j : String) (xs : Items) (c : Masking.Calls)
    → elem j (Masking.scan_calls xs c).call_ids ≡ (elem j (ids_of_calls xs) || elem j c.call_ids)
unfolding Masking.scan_calls ids_of_calls elem
elem-scan_calls j nil c = refl
elem-scan_calls j (cons (obj tc) rest) c =
    elim (Option-cases (Masking.nonempty_str (get "id" tc))) [
      | inl e ↦ ground (arith, elem-scan_calls j rest c)
      | inr (i, e) ↦
          ground (
            arith,
            elem-scan_calls j rest (Masking.note_call tc (some i) c),
            elem-add j i c.call_ids,
          )
    ]
elem-scan_calls j (cons null rest) c = elem-scan_calls j rest c
elem-scan_calls j (cons (bool b) rest) c = elem-scan_calls j rest c
elem-scan_calls j (cons (int i) rest) c = elem-scan_calls j rest c
elem-scan_calls j (cons (real i) rest) c = elem-scan_calls j rest c
elem-scan_calls j (cons (str i) rest) c = elem-scan_calls j rest c
elem-scan_calls j (cons (arr i) rest) c = elem-scan_calls j rest c

elem-union_all :
    (j : String) (ts : List (List String)) (keep : List String)
    → elem j (Masking.union_all ts keep) ≡ (elem j keep || called_in j ts)
unfolding Masking.union_all
elem-union_all j [] keep = ground arith
elem-union_all j (t ∷ ts) keep =
    ground (arith, elem-union_all j ts (union keep t), elem-union j keep t)

-- The ids that the window keeps are those that one of the last `w` turns calls.
elem-compute_keep_ids_by_window :
    (j : String) (ts : List (List String)) (w : ℤ)
    → elem j (Masking.compute_keep_ids_by_window ts w)
      ≡ (if leb_ℤ w (pos 0) then false else called_in j (drop (length ts - pos_part w) ts))
unfolding Masking.compute_keep_ids_by_window elem
elem-compute_keep_ids_by_window j ts w =
    ground (arith, elem-union_all j (drop (length ts - pos_part w) ts) [])

indexed-index_all :
    (j : String) (ks : List String) (i : ℕ) (d : Dict ℕ)
    → is_some (lookup j (Masking.index_all ks i d)) ≡ (elem j ks || is_some (lookup j d))
unfolding Masking.index_all elem
indexed-index_all j [] i d = refl
indexed-index_all j (k ∷ ks) i d =
    ground (arith, indexed-index_all j ks i (assign k i d), lookup-assign k j i d)

-- every id of a turn has an index, and no other id has one
abbrev IsIndexed : Masking.ToolTurnExtraction → Type 0
IsIndexed e = (j : String) → is_some (lookup j e.id_to_turn_index) ≡ called_in j e.turns

add_turn-IsIndexed :
    (ks : List String) (names : Dict String) (e : Masking.ToolTurnExtraction)
    → IsIndexed e
    → IsIndexed (Masking.add_turn ks names e)
unfolding Masking.add_turn
add_turn-IsIndexed [] names e h = h
add_turn-IsIndexed (k ∷ ks) names e h = λ j. ground (
  arith,
  h j,
  indexed-index_all j (k ∷ ks) (length e.turns) e.id_to_turn_index,
  any-append (elem j) e.turns ((k ∷ ks) ∷ []),
)

extract_calls-IsIndexed :
    (o : Option Items) (e : Masking.ToolTurnExtraction)
    → IsIndexed e
    → IsIndexed (Masking.extract_calls o e)
unfolding Masking.extract_calls
extract_calls-IsIndexed none e h = h
extract_calls-IsIndexed (some tcs) e h = add_turn-IsIndexed _ _ e h

extract_message-IsIndexed :
    (msg : Fields) (e : Masking.ToolTurnExtraction)
    → IsIndexed e
    → IsIndexed (Masking.extract_message msg e)
unfolding Masking.extract_message
extract_message-IsIndexed msg e h = elim (Bool-cases (is_str "assistant" (get "role" msg))) [
  | inl p ↦ rw p (extract_calls-IsIndexed _ e h)
  | inr p ↦ rw p h
]

extract_from-IsIndexed :
    (messages : List Fields) (e : Masking.ToolTurnExtraction)
    → IsIndexed e
    → IsIndexed (Masking.extract_from messages e)
unfolding Masking.extract_from
extract_from-IsIndexed [] e h = h
extract_from-IsIndexed (msg ∷ rest) e h =
    extract_from-IsIndexed rest (Masking.extract_message msg e) (extract_message-IsIndexed msg e h)

SameSets-refl : (a : List (List String)) → SameSets a a
SameSets-refl [] = tt
SameSets-refl (s ∷ a) = ((λ j. refl), SameSets-refl a)

SameSets-trans : (a b c : List (List String)) → SameSets a b → SameSets b c → SameSets a c
SameSets-trans [] [] [] h k = tt
SameSets-trans [] [] (u ∷ c) h k = elim k [ ]
SameSets-trans [] (t ∷ b) c h k = elim h [ ]
SameSets-trans (s ∷ a) [] c h k = elim h [ ]
SameSets-trans (s ∷ a) (t ∷ b) [] h k = elim k [ ]
SameSets-trans (s ∷ a) (t ∷ b) (u ∷ c) h k = ((λ j. h.0 j ∙ k.0 j), SameSets-trans a b c h.1 k.1)

-- two turns with the same ids are both left out, or both kept
SameSets-cons_turn : (s t : List String) → SameSet s t → SameSets (cons_turn s []) (cons_turn t [])
unfolding cons_turn elem
SameSets-cons_turn [] [] h = tt
SameSets-cons_turn [] (k ∷ t) h = absurd (ground (arith, h k, eq_refl k))
SameSets-cons_turn (k ∷ s) [] h = absurd (ground (arith, h k, eq_refl k))
SameSets-cons_turn (k ∷ s) (i ∷ t) h = (h, tt)

turns-add_turn :
    (ks : List String) (names : Dict String) (e : Masking.ToolTurnExtraction)
    → (Masking.add_turn ks names e).turns ≡ e.turns ++ cons_turn ks []
unfolding Masking.add_turn cons_turn
turns-add_turn [] names e = sym (append-nil e.turns)
turns-add_turn (k ∷ ks) names e = refl

SameSet-scan_calls :
    (tcs : Items) (names : Dict String)
    → SameSet
        (Masking.scan_calls tcs (record { call_ids = []; names = names })).call_ids
        (ids_of_calls tcs)
unfolding elem
SameSet-scan_calls tcs names j =
    ground (arith, elem-scan_calls j tcs (record { call_ids = []; names = names }))

turns-extract_calls :
    (o : Option Items) (e : Masking.ToolTurnExtraction)
    → SameSets (Masking.extract_calls o e).turns (e.turns ++ cons_turn (ids_of_list o) [])
unfolding Masking.extract_calls ids_of_list
turns-extract_calls none e = unfold cons_turn in rw append-nil (SameSets-refl e.turns)
turns-extract_calls (some tcs) e =
    let c = Masking.scan_calls tcs (record { call_ids = []; names = e.id_to_tool_name }) in
    rw turns-add_turn (
      SameSets-append e.turns e.turns _ _ (SameSets-refl e.turns) (
        SameSets-cons_turn c.call_ids (ids_of_calls tcs)
          (SameSet-scan_calls tcs e.id_to_tool_name)))

turns-extract_message :
    (msg : Fields) (e : Masking.ToolTurnExtraction)
    → SameSets (Masking.extract_message msg e).turns (e.turns ++ cons_turn (message_ids msg) [])
unfolding Masking.extract_message message_ids
turns-extract_message msg e = elim (Bool-cases (is_str "assistant" (get "role" msg))) [
  | inl p ↦ rw p (turns-extract_calls _ e)
  | inr p ↦ rw p (unfold cons_turn in rw append-nil (SameSets-refl e.turns))
]

cons_turn-append :
    (ks : List String) (ts : List (List String)) → cons_turn ks [] ++ ts ≡ cons_turn ks ts
unfolding cons_turn
cons_turn-append [] ts = refl
cons_turn-append (k ∷ ks) ts = refl

turns-extract_from :
    (messages : List Fields) (e : Masking.ToolTurnExtraction)
    → SameSets (Masking.extract_from messages e).turns (e.turns ++ tool_turns messages)
unfolding Masking.extract_from tool_turns
turns-extract_from [] e = rw append-nil (SameSets-refl e.turns)
turns-extract_from (msg ∷ rest) e =
    let e' = Masking.extract_message msg e in
    rw (← cons_turn-append (message_ids msg) (tool_turns rest), ← append_assoc)
      (SameSets-trans _ _ _ (turns-extract_from rest e') (
        SameSets-append e'.turns _ _ _ (turns-extract_message msg e)
          (SameSets-refl (tool_turns rest))))

module _ (messages : List Fields) where
  turns-extract_tool_turns :
      SameSets (Masking.extract_tool_turns messages).turns (tool_turns messages)
  unfolding Masking.extract_tool_turns
  turns-extract_tool_turns =
      turns-extract_from messages
        (record { turns = []; id_to_turn_index = []; id_to_tool_name = [] })

  pub called_in-tool_turns :
      (j : String)
      → called_in j (Masking.extract_tool_turns messages).turns ≡ called_in j (tool_turns messages)
  called_in-tool_turns j = called_in-SameSets j _ _ turns-extract_tool_turns

  -- An id has a turn index exactly if some turn of the conversation calls it.
  pub indexed_iff_called :
      (j : String)
      → is_some (lookup j (Masking.extract_tool_turns messages).id_to_turn_index)
        ≡ called_in j (tool_turns messages)
  unfolding Masking.extract_tool_turns
  indexed_iff_called j =
      extract_from-IsIndexed messages
        (record { turns = []; id_to_turn_index = []; id_to_tool_name = [] })
        (λ i. unfold lookup in refl) j
      ∙ called_in-tool_turns j

  -- The window keeps the ids of the last `w` tool turns, and no others.
  pub kept_iff_recent :
      (w : ℤ) (j : String)
      → elem j (Masking.compute_keep_ids_by_window (Masking.extract_tool_turns messages).turns w)
        ≡ (if leb_ℤ w (pos 0)
            then false
            else called_in j
                (drop (length (tool_turns messages) - pos_part w) (tool_turns messages)))
  kept_iff_recent w j =
      let ts = (Masking.extract_tool_turns messages).turns in
      let n = length (tool_turns messages) - pos_part w in
      rw (
        elem-compute_keep_ids_by_window j ts w,
        SameSets-length ts (tool_turns messages) turns-extract_tool_turns,
        called_in-SameSets j (drop n ts) (drop n (tool_turns messages))
            (SameSets-drop n ts (tool_turns messages) turns-extract_tool_turns),
      )
