-- ===== src/Base/Strings.antt =====
-- What the code uses of Go's `strings` on names and keys, over the native strings: ToLower (of ASCII
-- letters) and TrimSpace.
use Prim.Native.Nat.{ℕ, ◌-◌}
use Prim.Native.Char.{Char, code}
use Prim.Native.String.{String, char_at}
use mathlib.Core.Bool.{Bool, true, false, ◌&&◌, ◌||◌}
use mathlib.Core.List.{List, [], ◌∷◌}
use text.Mathlib.Text.{◌==◌ as str_eq}
use llms_proxy.Base.Tests.{leb, ◌==◌, if◌then◌else◌}

abbrev pub lower_char : Char → Char
lower_char c =
    if leb b'A' (code c) && leb (code c) b'Z'
    then char_at "abcdefghijklmnopqrstuvwxyz" (code c - b'A')
    else c

-- strings.ToLower
unfoldable pub lower_string : String → String
lower_string String.[] = ""
lower_string (String.◌∷◌ c s) = String.◌∷◌ (lower_char c) (lower_string s)

-- `unicode.IsSpace` on the number of a rune
abbrev pub is_space : ℕ → Bool
is_space n =
    (leb 9 n && leb n 13)
    || (n == 32)
    || (n == 0x85)
    || (n == 0xa0)
    || (n == 0x1680)
    || (leb 0x2000 n && leb n 0x200a)
    || (n == 0x2028)
    || (n == 0x2029)
    || (n == 0x202f)
    || (n == 0x205f)
    || (n == 0x3000)

abbrev pub is_blank : String → Bool
is_blank s = str_eq s ""

unfoldable pub trim_left : String → String
trim_left String.[] = ""
trim_left (String.◌∷◌ c s) =
    let rest = trim_left s in if is_space (code c) then rest else String.◌∷◌ c s

unfoldable pub trim_right : String → String
trim_right String.[] = ""
trim_right (String.◌∷◌ c s) =
    let rest = trim_right s in if is_blank rest && is_space (code c) then "" else String.◌∷◌ c rest

-- strings.TrimSpace
unfoldable pub trim_string : String → String
trim_string s = trim_right (trim_left s)

-- A set of strings as the list of its members.
unfoldable pub member : String → List String → Bool
member x [] = false
member x (y ∷ ys) = if str_eq y x then true else member x ys
