-- ===== src/Base/Words.antt =====
-- Python texts cut at a character: `endswith`, `split`, `replace` of one character.
use Prim.Native.Nat.{ℕ, zero, suc, ◌-◌}
use Prim.Native.Char.{Char, code}
use Prim.Native.String.{String, count, ◌++◌}
use mathlib.Core.Bool.{Bool, false, ◌||◌}
use mathlib.Core.List.{List, [], ◌∷◌}
use text.Mathlib.Text.{◌==◌}
use kimi_proxy.Base.Text.{begins}
use kimi_proxy.Base.Tests.{◌==◌ as ◌=ₙ◌, if◌then◌else◌}

-- `s.endswith(t)`
unfoldable pub ends : String → String → Bool
ends String.[] t = t == ""
ends (String.◌∷◌ c s) t = (t == String.◌∷◌ c s) || ends s t

-- `s.endswith((t, …))`
unfoldable pub ends_any : String → List String → Bool
unfolding ends
ends_any s [] = false
ends_any s (t ∷ ts) = ends s t || ends_any s ts

onto_first : Char → List String → List String
onto_first c [] = String.◌∷◌ c "" ∷ []
onto_first c (w ∷ ws) = String.◌∷◌ c w ∷ ws

-- `s.split(d)`, for a text `d` of the one character with this code
unfoldable pub split : ℕ → String → List String
unfolding onto_first
split d String.[] = "" ∷ []
split d (String.◌∷◌ c s) =
    let rest = split d s in if code c =ₙ d then "" ∷ rest else onto_first c rest

-- `s.replace("\\", "/")`
unfoldable pub forward : String → String
forward String.[] = ""
forward (String.◌∷◌ c s) =
    let rest = forward s in if code c =ₙ 92 then String.◌∷◌ "/" rest else String.◌∷◌ c rest

after : Bool → Char → String → String
after slash c s = if code c =ₙ b'/' then (if slash then s else String.◌∷◌ c s) else String.◌∷◌ c s

squeeze_from : Bool → String → String
unfolding after
squeeze_from slash String.[] = ""
squeeze_from slash (String.◌∷◌ c s) = after slash c (squeeze_from (code c =ₙ b'/') s)

-- `re.sub(r"/{2,}", "/", s)`
unfoldable pub squeeze : String → String
unfolding squeeze_from
squeeze s = squeeze_from false s

-- the text after `skip` characters, replaced
replace_from : String → String → ℕ → String → String
replace_from old new skip String.[] = ""
replace_from old new (suc skip) (String.◌∷◌ c s) = replace_from old new skip s
replace_from old new zero (String.◌∷◌ c s) =
    let hit = begins (String.◌∷◌ c s) old in
    let rest = replace_from old new (if hit then count old - 1 else 0) s in
    if hit then new ++ rest else String.◌∷◌ c rest

-- `s.replace(old, new)`, for an `old` that is not empty
unfoldable pub replace : String → String → String → String
unfolding replace_from
replace old new s = replace_from old new 0 s
