-- ===== src/Json.antt =====
-- JSON values as Python holds them: what `json.loads` returns, chat messages, JSON-RPC objects.
use kimi_proxy.Base.{
  ℕ, ℤ, String, ◌≡◌, refl, Bool, true, false, Option, none, some, arith, ◌=ₛ◌, eq_iff,
  if◌then◌else◌,
}

-- `real` holds the 64 bits of a float. A list and a dict are types of the block.
mutual
  pub data Fields : Type 0 where
    field : String → Value → Fields → Fields
    end : Fields

  pub data Value : Type 0 where
    obj : Fields → Value
    arr : Items → Value
    str : String → Value
    real : ℕ → Value
    int : ℤ → Value
    bool : Bool → Value
    null : Value

  pub data Items : Type 0 where
    cons : Value → Items → Items
    nil : Items

-- `d.get(k)`; a missing key gives None, which is not told apart from a null
unfoldable pub get : String → Fields → Value
get k end = null
get k (field j v d) = if j =ₛ k then v else get k d

-- `k in d`
unfoldable pub has : String → Fields → Bool
has k end = false
has k (field j v d) = if j =ₛ k then true else has k d

-- `d.get(k, v)`
unfoldable pub get_or : String → Value → Fields → Value
unfolding get has
get_or k v d = if has k d then get k d else v

-- `d[k] = v`, on a copy
unfoldable pub put : String → Value → Fields → Fields
put k v end = field k v end
put k v (field j w d) = if j =ₛ k then field j v d else field j w (put k v d)

pub get-put :
    (k j : String) (v : Value) (d : Fields) → get j (put k v d) ≡ (if k =ₛ j then v else get j d)
unfolding get put
get-put k j v end = refl
get-put k j v (field i w d) = ground (arith, eq_iff k j, eq_iff i k, eq_iff i j, get-put k j v d)

pub has-put :
    (k j : String) (v : Value) (d : Fields) → has j (put k v d) ≡ (if k =ₛ j then true else has j d)
unfolding has put
has-put k j v end = refl
has-put k j v (field i w d) = ground (arith, eq_iff k j, eq_iff i k, eq_iff i j, has-put k j v d)

-- a key with a value that is not null is there
pub has-get_obj : (k : String) (d e : Fields) → get k d ≡ obj e → has k d ≡ true
unfolding get has
has-get_obj k end e h = ground arith
has-get_obj k (field j v d) e h = ground (arith, has-get_obj k d e)

-- `isinstance(v, str)` and the like, with the value
abbrev pub as_str : Value → Option String
as_str (str s) = some s
as_str _ = none

abbrev pub as_obj : Value → Option Fields
as_obj (obj d) = some d
as_obj _ = none

abbrev pub as_arr : Value → Option Items
as_arr (arr xs) = some xs
as_arr _ = none

abbrev pub as_bool : Value → Option Bool
as_bool (bool b) = some b
as_bool _ = none

-- an int that is no bool
abbrev pub as_int : Value → Option ℤ
as_int (int i) = some i
as_int _ = none

-- `v == s`, for a text `s`
abbrev pub is_str : String → Value → Bool
is_str t (str s) = s =ₛ t
is_str t _ = false
