-- ===== src/Base/Text.antt =====
-- Python texts over the native `String`: slices and tests by code points, decimal printing.
use Prim.Native.Nat.{ℕ, zero, suc, ◌/◌, ◌%◌, ◌-◌, min}
use Prim.Native.Char.{Char, code}
use Prim.Native.String.{String, count, ◌++◌}
use mathlib.Core.Bool.{Bool, true, false, ◌&&◌, ◌||◌}
use mathlib.Core.List.{List, [], ◌∷◌}
use mathlib.Core.Path.{◌≡◌, refl}
use mathlib.Core.Logic.{inl, inr}
use mathlib.Core.Option.{Option, none, some}
use native.Mathlib.Omega.{arith}
use text.Mathlib.Text.{◌==◌}
use text.Mathlib.TextLemmas.{length-nil, length-cons}
use kimi_proxy.Base.Tests.{leb, ◌==◌ as ◌=ₙ◌, if◌then◌else◌, Bool-cases}

-- `s[:n]`
unfoldable pub take_chars : ℕ → String → String
take_chars zero s = ""
take_chars (suc n) String.[] = ""
take_chars (suc n) (String.◌∷◌ c s) = String.◌∷◌ c (take_chars n s)

-- `s[n:]`
unfoldable pub drop_chars : ℕ → String → String
drop_chars zero s = s
drop_chars (suc n) String.[] = ""
drop_chars (suc n) (String.◌∷◌ c s) = drop_chars n s

pub count-take_chars : (n : ℕ) (s : String) → count (take_chars n s) ≡ min n (count s)
unfolding take_chars
count-take_chars zero s = omega (arith, length-nil)
count-take_chars (suc n) String.[] = omega (arith, length-nil)
count-take_chars (suc n) (String.◌∷◌ c s) =
    omega (arith, length-cons c (take_chars n s), length-cons c s, count-take_chars n s)

pub count-drop_chars : (n : ℕ) (s : String) → count (drop_chars n s) ≡ count s - n
unfolding drop_chars
count-drop_chars zero s = omega arith
count-drop_chars (suc n) String.[] = omega (arith, length-nil)
count-drop_chars (suc n) (String.◌∷◌ c s) = omega (arith, length-cons c s, count-drop_chars n s)

-- `str.isspace` of a code point
is_space : ℕ → Bool
is_space c =
    (leb 9 c && leb c 13)
    || (leb 28 c && leb c 32)
    || (c =ₙ 133)
    || (c =ₙ 160)
    || (c =ₙ 5760)
    || (leb 8192 c && leb c 8202)
    || (c =ₙ 8232)
    || (c =ₙ 8233)
    || (c =ₙ 8239)
    || (c =ₙ 8287)
    || (c =ₙ 12288)

-- `s.lstrip()`
unfoldable pub lstrip : String → String
unfolding is_space
lstrip String.[] = ""
lstrip (String.◌∷◌ c s) = if is_space (code c) then lstrip s else String.◌∷◌ c s

reverse_onto : String → String → String
reverse_onto String.[] acc = acc
reverse_onto (String.◌∷◌ c s) acc = reverse_onto s (String.◌∷◌ c acc)

-- `s.strip()`
unfoldable pub strip : String → String
unfolding lstrip reverse_onto
strip s = reverse_onto (lstrip (reverse_onto (lstrip s) "")) ""

-- `s.startswith(t)`
unfoldable pub begins : String → String → Bool
begins s String.[] = true
begins String.[] (String.◌∷◌ d t) = false
begins (String.◌∷◌ c s) (String.◌∷◌ d t) = (code c =ₙ code d) && begins s t

-- `t in s`
unfoldable pub contains : String → String → Bool
unfolding begins
contains t String.[] = t == ""
contains t (String.◌∷◌ c s) = begins (String.◌∷◌ c s) t || contains t s

-- `sep.join(parts)`
unfoldable pub join : String → List String → String
join sep [] = ""
join sep (s ∷ []) = s
join sep (s ∷ t ∷ r) = s ++ (sep ++ join sep (t ∷ r))

digit : ℕ → String
digit n =
    if n =ₙ 0
    then "0"
    else if n =ₙ 1
    then "1"
    else if n =ₙ 2
    then "2"
    else if n =ₙ 3
    then "3"
    else if n =ₙ 4
    then "4"
    else if n =ₙ 5
    then "5"
    else if n =ₙ 6
    then "6"
    else if n =ₙ 7
    then "7"
    else if n =ₙ 8
    then "8"
    else "9"

-- a number has fewer digits than its successor, so the fuel does not run out
decimal_onto : ℕ → ℕ → String → String
decimal_onto zero n acc = acc
decimal_onto (suc f) n acc =
    let rest = decimal_onto f (n / 10) (digit (n % 10) ++ acc) in
    if leb n 9 then digit n ++ acc else rest

-- `str(n)`
unfoldable pub decimal : ℕ → String
unfolding decimal_onto digit
decimal n = decimal_onto (suc n) n ""

cons_unless : Char → String → String
cons_unless c String.[] = if code c =ₙ b'/' then "" else String.◌∷◌ c ""
cons_unless c (String.◌∷◌ d s) = String.◌∷◌ c (String.◌∷◌ d s)

-- `s.rstrip("/")`
unfoldable pub rstrip_slash : String → String
unfolding cons_unless
rstrip_slash String.[] = ""
rstrip_slash (String.◌∷◌ c s) = cons_unless c (rstrip_slash s)

-- `s.split("/", 1)[1]`, where there is a slash
unfoldable pub after_slash : String → Option String
after_slash String.[] = none
after_slash (String.◌∷◌ c s) = let rest = after_slash s in if code c =ₙ b'/' then some s else rest

begins-rstrip_slash : (s t : String) → begins s t ≡ false → begins (rstrip_slash s) t ≡ false
unfolding begins rstrip_slash
begins-rstrip_slash s String.[] h = cc
begins-rstrip_slash String.[] (String.◌∷◌ d t) h = refl
begins-rstrip_slash (String.◌∷◌ c s) (String.◌∷◌ d t) h =
    begins-cons_unless c (rstrip_slash s) (ground (arith, begins-rstrip_slash s t))
  where
    begins-cons_unless :
        (c : Char) (r : String)
        → ((code c =ₙ code d) && begins r t) ≡ false
        → begins (cons_unless c r) (String.◌∷◌ d t) ≡ false
    begins-cons_unless c String.[] k = elim (Bool-cases (code c =ₙ b'/')) [
      | inl p ↦ rw p refl
      | inr p ↦ rw p k
    ]
    begins-cons_unless c (String.◌∷◌ e r) k = k

begins-cons :
    (c : Char) (s t : String)
    → begins (String.◌∷◌ c s) t ≡ false
    → begins (String.◌∷◌ c (rstrip_slash s)) t ≡ false
unfolding begins
begins-cons c s String.[] h = cc
begins-cons c s (String.◌∷◌ d t) h = ground (arith, begins-rstrip_slash s t)

contains-cons_unless :
    (t : String) (c : Char) (r : String)
    → begins (String.◌∷◌ c r) t ≡ false
    → contains t r ≡ false
    → contains t (cons_unless c r) ≡ false
unfolding contains cons_unless
contains-cons_unless t c String.[] h k = elim (Bool-cases (code c =ₙ b'/')) [
  | inl p ↦ rw p k
  | inr p ↦ rw (p, h) k
]
contains-cons_unless t c (String.◌∷◌ d r) h k = ground arith

-- What a text does not contain, it does not contain when slashes are cut at its end.
pub contains-rstrip_slash :
    (t s : String) → contains t s ≡ false → contains t (rstrip_slash s) ≡ false
unfolding contains rstrip_slash
contains-rstrip_slash t String.[] h = h
contains-rstrip_slash t (String.◌∷◌ c s) h =
    contains-cons_unless t c (rstrip_slash s) (begins-cons c s t (ground arith))
      (contains-rstrip_slash t s (ground arith))

-- `s.replace("\n", " ")`
unfoldable pub unbroken : String → String
unbroken String.[] = ""
unbroken (String.◌∷◌ c s) =
    let rest = unbroken s in if code c =ₙ b'\n' then String.◌∷◌ " " rest else String.◌∷◌ c rest
