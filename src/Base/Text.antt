-- ===== src/Base/Text.antt =====
-- Byte strings, and what the code uses of Go's `strings` and `strconv`: TrimSpace, HasPrefix,
-- ToLower (of ASCII letters) and Atoi.
use Prim.Native.Nat.{ℕ, zero, suc, ◌+◌, ◌-◌, ◌*◌, ◌^◌}
use Prim.Native.Char.{code}
use Prim.Native.String.{String}
use mathlib.Core.Bool.{Bool, true, false, ◌&&◌}
use mathlib.Core.Option.{Option, none, some}
use mathlib.Core.List.{List, [], ◌∷◌, map, reverse}
use llms_proxy.Base.Tests.{ltb, leb, ◌==◌, if◌then◌else◌}
use llms_proxy.Base.Lists.{length}
use llms_proxy.Base.Int.{ℤ, pos, negsuc}

abbrev pub Bytes : Type 0
Bytes = List ℕ

-- The bytes of an ASCII literal.
abbrev pub bytes : String → Bytes
bytes String.[] = []
bytes (String.◌∷◌ c s) = code c ∷ bytes s

abbrev pub bytes_eq : Bytes → Bytes → Bool
bytes_eq [] [] = true
bytes_eq (a ∷ s) (b ∷ t) = (a == b) && bytes_eq s t
bytes_eq _ _ = false

abbrev pub is_empty : Bytes → Bool
is_empty [] = true
is_empty (c ∷ s) = false

-- What follows the prefix, if the text has it.
unfoldable pub cut_prefix : Bytes → Bytes → Option Bytes
cut_prefix [] s = some s
cut_prefix (p ∷ ps) [] = none
cut_prefix (p ∷ ps) (c ∷ s) = let rest = cut_prefix ps s in if p == c then rest else none

-- The white space of `unicode.IsSpace`, each rune in UTF-8.
abbrev space_runes : List Bytes
space_runes =
    (32 ∷ [])
    ∷ (9 ∷ [])
    ∷ (10 ∷ [])
    ∷ (11 ∷ [])
    ∷ (12 ∷ [])
    ∷ (13 ∷ [])
    ∷ (0xc2 ∷ 0x85 ∷ [])
    ∷ (0xc2 ∷ 0xa0 ∷ [])
    ∷ (0xe1 ∷ 0x9a ∷ 0x80 ∷ [])
    ∷ (0xe2 ∷ 0x80 ∷ 0x80 ∷ [])
    ∷ (0xe2 ∷ 0x80 ∷ 0x81 ∷ [])
    ∷ (0xe2 ∷ 0x80 ∷ 0x82 ∷ [])
    ∷ (0xe2 ∷ 0x80 ∷ 0x83 ∷ [])
    ∷ (0xe2 ∷ 0x80 ∷ 0x84 ∷ [])
    ∷ (0xe2 ∷ 0x80 ∷ 0x85 ∷ [])
    ∷ (0xe2 ∷ 0x80 ∷ 0x86 ∷ [])
    ∷ (0xe2 ∷ 0x80 ∷ 0x87 ∷ [])
    ∷ (0xe2 ∷ 0x80 ∷ 0x88 ∷ [])
    ∷ (0xe2 ∷ 0x80 ∷ 0x89 ∷ [])
    ∷ (0xe2 ∷ 0x80 ∷ 0x8a ∷ [])
    ∷ (0xe2 ∷ 0x80 ∷ 0xa8 ∷ [])
    ∷ (0xe2 ∷ 0x80 ∷ 0xa9 ∷ [])
    ∷ (0xe2 ∷ 0x80 ∷ 0xaf ∷ [])
    ∷ (0xe2 ∷ 0x81 ∷ 0x9f ∷ [])
    ∷ (0xe3 ∷ 0x80 ∷ 0x80 ∷ [])
    ∷ []

cut_any : List Bytes → Bytes → Option Bytes
unfolding cut_prefix
cut_any [] s = none
cut_any (p ∷ ps) s = elim (cut_prefix p s) [ some rest ↦ some rest | none ↦ cut_any ps s ]

trim_front : ℕ → List Bytes → Bytes → Bytes
unfolding cut_any
trim_front zero spaces s = s
trim_front (suc fuel) spaces s = elim (cut_any spaces s) [
  | some rest ↦ trim_front fuel spaces rest
  | none ↦ s
]

-- strings.TrimSpace; each round takes a byte at least, so the length is enough fuel.
unfoldable pub trim_space : Bytes → Bytes
unfolding trim_front
trim_space s =
    let t = trim_front (length s) space_runes s in
    reverse (trim_front (length t) (map reverse space_runes) (reverse t))

unfoldable pub to_lower : ℕ → ℕ
to_lower c = if leb b'A' c && leb c b'Z' then c + 32 else c

abbrev pub digit? : ℕ → Option ℕ
digit? c = if leb b'0' c && leb c b'9' then some (c - b'0') else none

-- The decimal number that the text spells; `none` at any other byte.
unfoldable pub decimal : ℕ → Bytes → Option ℕ
decimal acc [] = some acc
decimal acc (c ∷ s) = elim (digit? c) [ some d ↦ decimal (acc * 10 + d) s | none ↦ none ]

atoi_digits : Bytes → Option ℕ
unfolding decimal
atoi_digits [] = none
atoi_digits (c ∷ s) = decimal 0 (c ∷ s)

in_range : ℕ → (ℕ → ℤ) → Option ℕ → Option ℤ
in_range bound f none = none
in_range bound f (some n) = if ltb n bound then some (f n) else none

negate : ℕ → ℤ
negate zero = pos 0
negate (suc n) = negsuc n

-- strconv.Atoi with a 64-bit int; `none` is an error.
unfoldable pub atoi : Bytes → Option ℤ
unfolding atoi_digits in_range negate
atoi [] = none
atoi (c ∷ s) =
    if c == b'-'
    then in_range (2 ^ 63 + 1) negate (atoi_digits s)
    else if c == b'+'
    then in_range (2 ^ 63) pos (atoi_digits s)
    else in_range (2 ^ 63) pos (atoi_digits (c ∷ s))
