-- ===== src/Common/Text.antt =====
-- What the sources use of JavaScript strings: `trim`, and the 16-bit units that `length` and `slice`
-- count. `toLowerCase` follows the Unicode tables of the host and is a parameter where it is used.
use Prim.Native.Nat.{ℕ, ◌+◌, ◌-◌, ◌/◌, ◌%◌}
use Prim.Native.Char.{Char, code}
use Prim.Native.String.{String}
use mathlib.Core.Bool.{Bool, true, false, ◌&&◌, ◌||◌}
use mathlib.Core.List.{List, [], ◌∷◌}
use letschat.Common.Tests.{◌==◌, if◌then◌else◌, nat_eq, ltb, leb, string_eq}

-- The white space and line ends that `trim` and `\s` take.
unfoldable pub is_space : ℕ → Bool
is_space c =
    (leb 9 c && leb c 13)
    || (c == 32
        || (c == 0xa0
            || (c == 0x1680
                || ((leb 0x2000 c && leb c 0x200a)
                    || (c == 0x2028
                        || (c == 0x2029
                            || (c == 0x202f || (c == 0x205f || (c == 0x3000 || c == 0xfeff)))))))))

trim_start : String → String
unfolding is_space
trim_start String.[] = String.[]
trim_start (String.◌∷◌ c s) =
    let rest = trim_start s in if is_space (code c) then rest else String.◌∷◌ c s

-- A character in front of a text that is trimmed at its end.
put_trimmed : Char → String → String
unfolding is_space
put_trimmed c String.[] = if is_space (code c) then String.[] else String.◌∷◌ c String.[]
put_trimmed c s = String.◌∷◌ c s

trim_end : String → String
unfolding put_trimmed
trim_end String.[] = String.[]
trim_end (String.◌∷◌ c s) = put_trimmed c (trim_end s)

unfoldable pub trim : String → String
unfolding trim_start trim_end
trim s = trim_end (trim_start s)

-- `value.trim().toLowerCase()`
unfoldable pub normalize_identity : (String → String) → String → String
unfolding trim
normalize_identity to_lower value = to_lower (trim value)

abbrev pub is_empty : String → Bool
is_empty String.[] = true
is_empty (String.◌∷◌ c s) = false

-- The UTF-16 units of a text.
abbrev pub units : String → List ℕ
units String.[] = []
units (String.◌∷◌ c s) =
    if ltb (code c) 0x10000
    then code c ∷ units s
    else (0xd800 + (code c - 0x10000) / 0x400) ∷ (0xdc00 + (code c - 0x10000) % 0x400) ∷ units s
