-- ===== src/Gateway/Observe/Masked.antt =====
-- The laws of the masking: which parts of an answer change, and how long a cut text is.
use kimi_proxy.Base.{
  ◌+◌, ◌-◌, ◌<◌, ◌≡◌, refl, sym, subst, ◌⊎◌, inl, inr, pos, String, count, ◌<>◌, Bool, true, false,
  none, leb_ℤ, arith, not, ◌&&◌, ◌||◌, or_else, ℤ, negsuc, pos_part, ltb_ℤ, ap, ◌∙◌, if◌then◌else◌,
  Bool-cases, ◌=ₛ◌, eq_iff,
}
use Prim.Native.String.{String as Text}
use text.Mathlib.TextLemmas.{length-append, length-cons}
use kimi_proxy.Base.Text.{take_chars, drop_chars, count-take_chars, count-drop_chars}
use kimi_proxy.Json.{
  Value, Items, Fields, null, bool, int, real, str, arr, obj, nil, cons, end, field, as_obj, get,
  has, put, get-put, has-put, has-get_obj,
}
use kimi_proxy.Gateway.Observe
use kimi_proxy.Gateway.Observe.{
  ObservationMaskingConfig, default_masking, head, tail, marker, mask_string, mask_object,
  mask_items, mask_fields, apply_observation_masking, mask_response,
}

-- the first and the last characters of a text, none for a number that is not positive
abbrev pub first_chars : ℤ → String → String
first_chars n s = take_chars (pos_part n) s

abbrev pub last_chars : ℤ → String → String
last_chars n s = drop_chars (count s - pos_part n) s

-- there is a limit, and the text is above it
abbrev pub above : ObservationMaskingConfig → String → Bool
above cfg s = not (leb_ℤ cfg.max_chars (pos 0)) && not (leb_ℤ (pos (count s)) cfg.max_chars)

-- a text above the limit is replaced by its two ends around a marker, every other is kept
abbrev pub IsCut : ObservationMaskingConfig → String → String → Type 0
IsCut cfg s t =
    ((above cfg s ≡ false) × (t ≡ s))
    ⊎ ((above cfg s ≡ true)
        × (t
            ≡ first_chars cfg.head_chars s
              <> (marker (count s) (count (first_chars cfg.head_chars s))
                    (count (last_chars cfg.tail_chars s))
                  <> last_chars cfg.tail_chars s)))

take_none : (s : String) → take_chars 0 s ≡ ""
unfolding take_chars
take_none s = refl

count_none : (s : String) → count s ≡ 0 → s ≡ ""
count_none Text.[] h = refl
count_none (Text.◌∷◌ c s) h = absurd (omega (arith, h, length-cons c s))

drop_all : (s : String) → drop_chars (count s) s ≡ ""
drop_all s = count_none (drop_chars (count s) s) (omega (arith, count-drop_chars (count s) s))

not_positive : (n : ℤ) → ltb_ℤ (pos 0) n ≡ false → pos_part n ≡ 0
not_positive (pos n) h = ground arith
not_positive (negsuc n) h = refl

head-first_chars : (n : ℤ) (s : String) → head n s ≡ first_chars n s
unfolding head
head-first_chars n s = elim (Bool-cases (ltb_ℤ (pos 0) n)) [
  | inl p ↦ rw p refl
  | inr p ↦
      let e : pos_part n ≡ 0 = not_positive n p in
      rw p (sym (ap (λ m. take_chars m s) e ∙ take_none s))
]

tail-last_chars : (n : ℤ) (s : String) → tail n s ≡ last_chars n s
unfolding tail
tail-last_chars n s = elim (Bool-cases (ltb_ℤ (pos 0) n)) [
  | inl p ↦ rw p refl
  | inr p ↦
      let e : count s - pos_part n ≡ count s = omega (arith, not_positive n p) in
      rw p (sym (ap (λ m. drop_chars m s) e ∙ drop_all s))
]

abbrev mutual
  -- the same value but for its texts, which are cut
  pub IsMasked : ObservationMaskingConfig → Value → Value → Type 0
  IsMasked cfg (str s) (str t) = IsCut cfg s t
  IsMasked cfg (arr xs) (arr ys) = AreMasked cfg xs ys
  IsMasked cfg (obj d) (obj e) = HasMasked cfg d e
  IsMasked cfg v w = v ≡ w

  pub AreMasked : ObservationMaskingConfig → Items → Items → Type 0
  AreMasked cfg (cons v xs) (cons w ys) = IsMasked cfg v w × AreMasked cfg xs ys
  AreMasked cfg xs ys = xs ≡ ys

  pub HasMasked : ObservationMaskingConfig → Fields → Fields → Type 0
  HasMasked cfg (field k v d) (field j w e) = (k ≡ j) × IsMasked cfg v w × HasMasked cfg d e
  HasMasked cfg d e = d ≡ e

mask_string-IsCut : (cfg : ObservationMaskingConfig) (s : String) → IsCut cfg s (mask_string cfg s)
unfolding mask_string
mask_string-IsCut cfg s = elim (Bool-cases (leb_ℤ cfg.max_chars (pos 0))) [
  | inl p ↦ rw p (inl (refl, refl))
  | inr p ↦ elim (Bool-cases (leb_ℤ (pos (count s)) cfg.max_chars)) [
    | inl q ↦ rw (p, q) (inl (refl, refl))
    | inr q ↦ rw (p, q, head-first_chars, tail-last_chars) (inr (refl, refl))
  ]
]

mutual
  unfolding mask_object mask_items mask_fields

  mask_object-IsMasked :
      (cfg : ObservationMaskingConfig) (v : Value) → IsMasked cfg v (mask_object cfg v)
  mask_object-IsMasked cfg (str s) = mask_string-IsCut cfg s
  mask_object-IsMasked cfg (arr xs) = mask_items-AreMasked cfg xs
  mask_object-IsMasked cfg (obj d) = mask_fields-HasMasked cfg d
  mask_object-IsMasked cfg null = refl
  mask_object-IsMasked cfg (bool b) = refl
  mask_object-IsMasked cfg (int i) = refl
  mask_object-IsMasked cfg (real x) = refl

  mask_items-AreMasked :
      (cfg : ObservationMaskingConfig) (xs : Items) → AreMasked cfg xs (mask_items cfg xs)
  mask_items-AreMasked cfg nil = refl
  mask_items-AreMasked cfg (cons v xs) = (mask_object-IsMasked cfg v, mask_items-AreMasked cfg xs)

  mask_fields-HasMasked :
      (cfg : ObservationMaskingConfig) (d : Fields) → HasMasked cfg d (mask_fields cfg d)
  mask_fields-HasMasked cfg end = refl
  mask_fields-HasMasked cfg (field k v d) =
      (refl, mask_object-IsMasked cfg v, mask_fields-HasMasked cfg d)

abbrev has_data : Value → Bool
has_data v = has "data" (or_else (as_obj v) end)

-- the keys whose values are masked: the result, and without a result an error with data
abbrev pub masks : Fields → String → Bool
masks d k =
    ("result" =ₛ k && has "result" d)
    || ("error" =ₛ k && not (has "result" d) && has_data (get "error" d))

-- what becomes of the value of a key of an answer
abbrev pub Answers : ObservationMaskingConfig → Fields → String → Value → Type 0
Answers cfg d k w =
    ((masks d k ≡ false) × (w ≡ get k d))
    ⊎ (((k ≡ "result") × (has k d ≡ true) × IsMasked cfg (get k d) w)
        ⊎ ((k ≡ "error")
            × (has "result" d ≡ false)
            × ((error : Fields) × ((data' : Value) × (get k d ≡ obj error)
                  × (w ≡ obj (put "data" data' error))
                  × IsMasked cfg (get "data" error) data'))))

module _ (cfg : ObservationMaskingConfig) where
  has-put_old :
      (d : Fields) (j k : String) (v : Value) → has j d ≡ true → has k (put j v d) ≡ has k d
  has-put_old d j k v h = rw (has-put j k v d) (ground (arith, eq_iff j k))

  applied-IsMasked : (v : Value) → IsMasked cfg v (apply_observation_masking cfg v none none none)
  unfolding apply_observation_masking
  applied-IsMasked v = mask_object-IsMasked cfg v

  put_result :
      (d : Fields) (k : String) (w : Value)
      → has "result" d ≡ true
      → IsMasked cfg (get "result" d) w
      → Answers cfg d k (get k (put "result" w d))
  put_result d k w there h = elim (Bool-cases ("result" =ₛ k)) [
    | inl p ↦ inr (
        inl (
          sym ((eq_iff "result" k).0 p),
          subst (λ x. has x d ≡ true) ((eq_iff "result" k).0 p) there,
          subst (λ x. IsMasked cfg (get x d) (get x (put "result" w d))) ((eq_iff "result" k).0 p)
              (rw (get-put "result" "result" w d) h),
        ))
    | inr p ↦ inl (ground arith, rw (get-put "result" k w d, p) refl)
  ]

  put_error :
      (d error : Fields) (k : String) (w : Value)
      → has "result" d ≡ false
      → get "error" d ≡ obj error
      → IsMasked cfg (get "data" error) w
      → Answers cfg d k (get k (put "error" (obj (put "data" w error)) d))
  put_error d error k w none_there e h = elim (Bool-cases ("error" =ₛ k)) [
    | inl p ↦ inr (
        inr (
          sym ((eq_iff "error" k).0 p),
          none_there,
          (
            error,
            (
              w,
              subst (λ x. get x d ≡ obj error) ((eq_iff "error" k).0 p) e,
              rw (get-put "error" k (obj (put "data" w error)) d, p) refl,
              h,
            ),
          ),
        ))
    | inr p ↦ inl (ground arith, rw (get-put "error" k (obj (put "data" w error)) d, p) refl)
  ]

  no_data :
      (d : Fields) (k : String) (v : Value)
      → has "result" d ≡ false
      → get "error" d ≡ v
      → has_data v ≡ false
      → masks d k ≡ false
  no_data d k v h e n = rw (h, e, n) (ground arith)

  mask_error-Answers :
      (d : Fields) (k : String)
      → has "result" d ≡ false
      → (v : Value) → get "error" d ≡ v
      → (has k (Observe.mask_error cfg d (as_obj v)) ≡ has k d)
        × Answers cfg d k (get k (Observe.mask_error cfg d (as_obj v)))
  unfolding Observe.mask_error has
  mask_error-Answers d k h (obj error) e = elim (Bool-cases (has "data" error)) [
    | inl p ↦ rw p (
      has-put_old d "error" k _ (has-get_obj "error" d error e),
      put_error d error k _ h e (applied-IsMasked (get "data" error)),
    )
    | inr p ↦ rw p (refl, inl (no_data d k (obj error) h e p, refl))
  ]
  mask_error-Answers d k h (arr xs) e = (refl, inl (no_data d k (arr xs) h e refl, refl))
  mask_error-Answers d k h (str s) e = (refl, inl (no_data d k (str s) h e refl, refl))
  mask_error-Answers d k h (real x) e = (refl, inl (no_data d k (real x) h e refl, refl))
  mask_error-Answers d k h (int i) e = (refl, inl (no_data d k (int i) h e refl, refl))
  mask_error-Answers d k h (bool b) e = (refl, inl (no_data d k (bool b) h e refl, refl))
  mask_error-Answers d k h null e = (refl, inl (no_data d k null h e refl, refl))

  answered-Answers :
      (d : Fields) (k : String) (b : Bool)
      → has "result" d ≡ b
      → let e =
          if b
          then put "result" (apply_observation_masking cfg (get "result" d) none none none) d
          else Observe.mask_error cfg d (as_obj (get "error" d)) in
        (has k e ≡ has k d) × Answers cfg d k (get k e)
  answered-Answers d k true h =
      (has-put_old d "result" k _ h, put_result d k _ h (applied-IsMasked (get "result" d)))
  answered-Answers d k false h = mask_error-Answers d k h (get "error" d) refl

  -- An answer keeps its keys, and each of them its value, with two exceptions: a result is masked, and
  -- without a result the data of an error. What is masked is the same value but for its texts above
  -- the limit, each of which is replaced by its two ends around a marker.
  pub mask_response-Answers :
      (d : Fields) (k : String)
      → (has k (mask_response cfg d) ≡ has k d) × Answers cfg d k (get k (mask_response cfg d))
  unfolding mask_response
  mask_response-Answers d k = answered-Answers d k (has "result" d) refl

-- A text above the limit becomes as long as its two ends and the marker, so under the default
-- limits a cut text is longer than the limit.
pub count-mask_string_default :
    (s : String)
    → 4000 < count s
    → count (mask_string default_masking s) ≡ 4000 + count (marker (count s) 2000 2000)
unfolding mask_string head tail
count-mask_string_default s h =
    let a : count (take_chars 2000 s) ≡ 2000 = omega (arith, count-take_chars 2000 s) in
    let b : count (drop_chars (count s - 2000) s) ≡ 2000 =
      omega (arith, count-drop_chars (count s - 2000) s) in
    ground (
      arith,
      a,
      b,
      length-append (take_chars 2000 s)
          (marker (count s) 2000 2000 <> drop_chars (count s - 2000) s),
      length-append (marker (count s) 2000 2000) (drop_chars (count s - 2000) s),
    )
