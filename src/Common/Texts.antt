-- ===== src/Common/Texts.antt =====
-- `trim` and `join` on texts of UTF-16 units.
use mathlib.Core.Bool.{Bool, true, false, ◌&&◌, ◌||◌}
use mathlib.Core.List.{List, [], ◌∷◌, ◌++◌}
use Prim.Native.Nat.{ℕ}
use splitsaathi.Common.Tests.{if◌then◌else◌, leb, nat_beq}
use splitsaathi.Common.Lists.{any, is_empty}
use splitsaathi.Common.Keys.{Text, text_eq}

-- White space of `trim`: the white space and the line ends of the language.
abbrev pub is_space : ℕ → Bool
is_space c =
    leb 9 c && leb c 13
    || any (nat_beq c) (32 ∷ 160 ∷ 5760 ∷ 8232 ∷ 8233 ∷ 8239 ∷ 8287 ∷ 12288 ∷ 65279 ∷ [])
    || leb 8192 c && leb c 8202

unfoldable pub trim_start : Text → Text
trim_start [] = []
trim_start (c ∷ cs) = if is_space c then trim_start cs else c ∷ cs

unfoldable pub trim_end : Text → Text
trim_end [] = []
trim_end (c ∷ cs) = let rest = trim_end cs in if is_space c && is_empty rest then [] else c ∷ rest

-- `text.trim()`
unfoldable pub trim : Text → Text
unfolding trim_start trim_end
trim text = trim_end (trim_start text)

-- `texts.join(separator)`
unfoldable pub join : Text → List Text → Text
join separator [] = []
join separator (text ∷ []) = text
join separator (text ∷ next ∷ texts) = text ++ separator ++ join separator (next ∷ texts)

-- `value.startsWith(part)` and `value.includes(part)`
unfoldable pub starts_with : Text → Text → Bool
starts_with [] value = true
starts_with (c ∷ part) [] = false
starts_with (c ∷ part) (d ∷ value) = nat_beq c d && starts_with part value

unfoldable pub includes : Text → Text → Bool
unfolding starts_with
includes part [] = is_empty part
includes part (c ∷ value) = starts_with part (c ∷ value) || includes part value
