-- ===== src/Text.antt =====
-- Go strings as their bytes, and what the sources use of the packages strings and filepath.
-- Letters are folded as in ASCII; white space is that of ASCII.
mod Equality
mod Sets
unfoldable pub use Equality.*
unfoldable pub use Sets.*
use Prim.Native.Char.{code}
use Prim.Native.String.{String}
use know_your_repo.Prelude.{
  ℕ, zero, suc, ◌+◌, ◌-◌, ◌/◌, ◌%◌, Bool, true, false, ◌&&◌, ◌||◌, List, [], ◌∷◌, ◌++◌, map,
  if◌then◌else◌, ltb, leb, ◌==◌, length, drop, take,
}

-- The bytes of an ASCII text.
abbrev pub codes : String → Text
codes String.[] = []
codes (String.◌∷◌ c s) = code c ∷ codes s

-- `s == ""`
unfoldable pub is_empty : Text → Bool
is_empty [] = true
is_empty (_ ∷ _) = false

-- strings.HasPrefix(s, prefix)
unfoldable pub has_prefix : Text → Text → Bool
has_prefix s [] = true
has_prefix [] (p ∷ ps) = false
has_prefix (c ∷ s) (p ∷ ps) = (c == p) && has_prefix s ps

-- strings.Contains(s, part)
unfoldable pub contains : Text → Text → Bool
contains [] part = is_empty part
contains (c ∷ s) part = has_prefix (c ∷ s) part || contains s part

-- strings.HasSuffix(s, suffix)
unfoldable pub has_suffix : Text → Text → Bool
has_suffix [] suffix = is_empty suffix
has_suffix (c ∷ s) suffix = same (c ∷ s) suffix || has_suffix s suffix

unfoldable pub lower_byte : ℕ → ℕ
lower_byte c = if leb b'A' c && leb c b'Z' then c + 32 else c

-- strings.ToLower(s)
unfoldable pub to_lower : Text → Text
to_lower = map lower_byte

-- strings.EqualFold(s, t)
unfoldable pub equal_fold : Text → Text → Bool
equal_fold s t = same (to_lower s) (to_lower t)

unfoldable pub is_space : ℕ → Bool
is_space c = (c == 32) || (leb 9 c && leb c 13)

unfoldable pub trim_left : Text → Text
trim_left [] = []
trim_left (c ∷ s) = if is_space c then trim_left s else c ∷ s

unfoldable pub trim_right : Text → Text
trim_right [] = []
trim_right (c ∷ s) = let rest = trim_right s in if is_space c && is_empty rest then [] else c ∷ rest

-- strings.TrimSpace(s)
unfoldable pub trim_space : Text → Text
trim_space s = trim_right (trim_left s)

-- A text put in front of the first of the pieces.
unfoldable pub push_front : ℕ → List Text → List Text
push_front c [] = (c ∷ []) ∷ []
push_front c (piece ∷ pieces) = (c ∷ piece) ∷ pieces

-- strings.Split(s, sep) at a separator of one byte.
unfoldable pub split : ℕ → Text → List Text
split sep [] = [] ∷ []
split sep (c ∷ s) = let rest = split sep s in if c == sep then [] ∷ rest else push_front c rest

-- strings.Join(pieces, sep) at a separator of one byte.
unfoldable pub join : ℕ → List Text → Text
join sep [] = []
join sep (piece ∷ []) = piece
join sep (piece ∷ next ∷ rest) = piece ++ (sep ∷ join sep (next ∷ rest))

unfoldable pub any_contained : Text → List Text → Bool
any_contained s [] = false
any_contained s (w ∷ ws) = contains s w || any_contained s ws

-- `fmt.Sprintf("%d", n)`: the digits before those given, with fuel.
unfoldable pub digits : ℕ → ℕ → Text → Text
digits zero n rest = rest
digits (suc fuel) n rest =
    let more = digits fuel (n / 10) ((b'0' + n % 10) ∷ rest) in
    if ltb n 10 then (b'0' + n) ∷ rest else more

unfoldable pub decimal : ℕ → Text
unfolding digits
decimal n = digits (suc n) n []

-- The order of strings: `a < b`.
unfoldable pub text_less : Text → Text → Bool
text_less [] [] = false
text_less [] (d ∷ t) = true
text_less (c ∷ s) [] = false
text_less (c ∷ s) (d ∷ t) = ltb c d || ((c == d) && text_less s t)
