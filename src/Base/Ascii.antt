-- ===== src/Base/Ascii.antt =====
-- `str` operations of the standard library on texts of ASCII bytes.
use Prim.Native.Nat.{ℕ, zero, suc, ◌+◌, ◌/◌, ◌%◌}
use mathlib.Core.Bool.{Bool, true, false, ◌&&◌, ◌||◌}
use mathlib.Core.List.{[], ◌∷◌, ◌++◌, map, reverse}
use mnemo.Base.Lists.{length, take}
use mnemo.Base.Tests.{leb, ltb, ◌==◌, if◌then◌else◌}
use mnemo.Base.Order.{Text, text_ord, eqb}

-- `char::is_whitespace`
abbrev pub is_whitespace : ℕ → Bool
is_whitespace c = (leb 9 c && leb c 13) || c == 32

-- `char::is_control`
abbrev pub is_control : ℕ → Bool
is_control c = ltb c 32 || c == 127

-- `char::is_ascii_alphanumeric`
abbrev pub is_alphanumeric : ℕ → Bool
is_alphanumeric c =
    (leb b'0' c && leb c b'9') || (leb b'A' c && leb c b'Z') || (leb b'a' c && leb c b'z')

unfoldable pub trim_start : Text → Text
trim_start [] = []
trim_start (c ∷ s) = let rest = trim_start s in if is_whitespace c then rest else c ∷ s

-- `str::trim`
unfoldable pub trim : Text → Text
unfolding trim_start
trim s = reverse (trim_start (reverse (trim_start s)))

abbrev pub lower : ℕ → ℕ
lower c = if leb b'A' c && leb c b'Z' then c + 32 else c

-- `to_lowercase`, `to_ascii_lowercase`
abbrev pub to_lowercase : Text → Text
to_lowercase = map lower

-- `eq_ignore_ascii_case`
abbrev pub eq_ignore_case : Text → Text → Bool
eq_ignore_case s t = eqb (to_lowercase s) (to_lowercase t)

-- `str::contains`
unfoldable pub contains : Text → Text → Bool
contains [] token = eqb [] token
contains (c ∷ s) token =
    let rest = contains s token in if eqb (take (length token) (c ∷ s)) token then true else rest

-- `str::contains` of two bytes in a row.
unfoldable pub contains_pair : ℕ → ℕ → Text → Bool
contains_pair a b [] = false
contains_pair a b (c ∷ []) = false
contains_pair a b (c ∷ d ∷ s) = (c == a && d == b) || contains_pair a b (d ∷ s)

-- `to_string` of a number, the last digit taken off first; the number itself is enough fuel.
unfoldable pub digits : ℕ → ℕ → Text
digits zero n = (b'0' + n % 10) ∷ []
digits (suc fuel) n =
    let front = digits fuel (n / 10) in
    if ltb n 10 then (b'0' + n) ∷ [] else front ++ (b'0' + n % 10) ∷ []

unfoldable pub decimal : ℕ → Text
unfolding digits
decimal n = digits n n
