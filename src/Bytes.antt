-- ===== src/Bytes.antt =====
-- Go strings as lists of bytes, with the functions of package strings that the engine calls.
-- Letter case and white space are those of ASCII.
pub mod Cut
pub mod Prefix
pub mod Replace
pub mod Sort
pub mod Utf8
unfoldable pub use Prefix.{cut_prefix, is_some, has_prefix}
use Prim.Native.Char.{code}
use Prim.Native.String.{String}
use oma_seal.Prelude.{
  ℕ, ◌+◌, ◌-◌, Bool, true, false, ◌&&◌, ◌||◌, List, [], ◌∷◌, map, Option, none, some, leb, ◌==◌,
  nat_eq, bytes_eq, if◌then◌else◌, any,
}

abbrev pub Bytes : Type 0
Bytes = List ℕ

-- The bytes of an ASCII literal.
abbrev pub codes : String → Bytes
codes String.[] = []
codes (String.◌∷◌ c s) = code c ∷ codes s

-- strings.Contains and strings.IndexByte for one byte
unfoldable pub contains_byte : Bytes → ℕ → Bool
unfolding any
contains_byte s b = any (λ c. c == b) s

abbrev pub lower : ℕ → ℕ
lower c = if leb b'A' c && leb c b'Z' then c + 32 else c

abbrev pub upper : ℕ → ℕ
upper c = if leb b'a' c && leb c b'z' then c - 32 else c

unfoldable pub to_lower : Bytes → Bytes
to_lower s = map lower s

unfoldable pub to_upper : Bytes → Bytes
to_upper s = map upper s

unfoldable pub equal_fold : Bytes → Bytes → Bool
unfolding to_lower
equal_fold s t = to_lower s == to_lower t

-- unicode.IsSpace on ASCII
abbrev pub is_space : ℕ → Bool
is_space c = c == 32 || leb 9 c && leb c 13

-- strings.TrimLeftFunc(s, unicode.IsSpace)
unfoldable pub trim_left : Bytes → Bytes
trim_left [] = []
trim_left (c ∷ s) = let rest = trim_left s in if is_space c then rest else c ∷ s

-- strings.TrimRightFunc(s, unicode.IsSpace)
unfoldable pub trim_right : Bytes → Bytes
trim_right [] = []
trim_right (c ∷ s) = let rest = trim_right s in if rest == [] && is_space c then [] else c ∷ rest

-- strings.TrimSpace
unfoldable pub trim_space : Bytes → Bytes
unfolding trim_left trim_right
trim_space s = trim_right (trim_left s)
