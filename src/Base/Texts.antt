-- ===== src/Base/Texts.antt =====
-- Go strings as native texts: the tests of package strings that the program uses.
use Prim.Native.Nat.{ℕ, zero, suc}
use Prim.Native.Char.{Char, code}
use Prim.Native.String.{String}
use mathlib.Core.Bool.{Bool, true, false}
use logryph.Base.Tests.{nat_eq, if◌then◌else◌}

-- `s != ""`
abbrev pub is_set : String → Bool
is_set String.[] = false
is_set (String.◌∷◌ c s) = true

-- `strings.Count(s, sub)` for a text `sub` of one character, whose code is given
unfoldable pub count_char : ℕ → String → ℕ
count_char k String.[] = 0
count_char k (String.◌∷◌ c s) =
    let rest = count_char k s in if nat_eq (code c) k then suc rest else rest

-- `strings.HasPrefix`
unfoldable pub has_prefix : String → String → Bool
has_prefix s String.[] = true
has_prefix String.[] (String.◌∷◌ p ps) = false
has_prefix (String.◌∷◌ c s) (String.◌∷◌ p ps) =
    let rest = has_prefix s ps in if nat_eq (code c) (code p) then rest else false

-- `strings.Repeat` of one character
abbrev pub repeat : ℕ → Char → String
repeat zero c = ""
repeat (suc n) c = String.◌∷◌ c (repeat n c)
