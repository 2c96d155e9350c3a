-- ===== src/Common/Text.antt =====
-- Text: whole strings are compared, and the code points of a string are walked as a list.
use Prim.Native.Char.{code}
use Prim.Native.Nat.{ℕ}
use Prim.Native.String.{String}
use mathlib.Core.Bool.{Bool, false, not, ◌&&◌, ◌||◌}
use mathlib.Core.List.{List, [], ◌∷◌, reverse}
use mathlib.Core.Option.{Option, none, some}
use text.Mathlib.Text.{◌==◌}
use terra_server.Common.Tests.{leb, if◌then◌else◌}
use terra_server.Common.Tests.{◌==◌ as nat_eq}

abbrev pub str_eq : String → String → Bool
str_eq a b = a == b

abbrev pub codes : String → List ℕ
codes String.[] = []
codes (String.◌∷◌ c s) = code c ∷ codes s

-- `x or d` on an optional text: an empty one counts as missing
abbrev pub text_or : Option String → String → String
text_or none d = d
text_or (some s) d = if s == "" then d else s

-- `bool(x)` on an optional text
abbrev pub is_text : Option String → Bool
is_text none = false
is_text (some s) = not (s == "")

-- What `str.strip` takes for white space.
unfoldable pub is_space : ℕ → Bool
is_space c =
    (leb 9 c && leb c 13)
    || (leb 28 c && leb c 32)
    || nat_eq c 133
    || nat_eq c 160
    || nat_eq c 5760
    || (leb 8192 c && leb c 8202)
    || nat_eq c 8232
    || nat_eq c 8233
    || nat_eq c 8239
    || nat_eq c 8287
    || nat_eq c 12288

unfoldable pub lstrip : List ℕ → List ℕ
lstrip [] = []
lstrip (c ∷ cs) = let rest = lstrip cs in if is_space c then rest else c ∷ cs

unfoldable pub strip : List ℕ → List ℕ
unfolding lstrip is_space
strip cs = reverse (lstrip (reverse (lstrip cs)))
