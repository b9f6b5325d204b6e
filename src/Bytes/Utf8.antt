-- ===== src/Bytes/Utf8.antt =====
-- Text through encoding/json: what Marshal and Unmarshal together make of a Go string. Each byte that
-- begins no UTF-8 sequence comes back as U+FFFD; all else comes back as it is.
use oma_seal.Prelude.{
  ℕ, zero, suc, ◌-◌, ◌≡◌, refl, ap, Bool, true, false, ◌&&◌, [], ◌∷◌, arith, leb, ◌==◌, nat_eq,
  if◌then◌else◌, Bool-cases, inl, inr,
}
use oma_seal.Bytes.{Bytes}

abbrev within : ℕ → ℕ → ℕ → Bool
within low high b = leb low b && leb b high

abbrev is_continuation : ℕ → Bool
is_continuation b = within 128 191 b

abbrev two_bytes : Bytes → ℕ
two_bytes [] = 0
two_bytes (b ∷ _) = if is_continuation b then 2 else 0

-- The second byte is bounded, so that no rune is overlong, a surrogate, or too large.
abbrev three_bytes : ℕ → ℕ → Bytes → ℕ
three_bytes low high [] = 0
three_bytes low high (b ∷ []) = 0
three_bytes low high (b ∷ c ∷ _) = if within low high b && is_continuation c then 3 else 0

abbrev four_bytes : ℕ → ℕ → Bytes → ℕ
four_bytes low high [] = 0
four_bytes low high (b ∷ []) = 0
four_bytes low high (b ∷ c ∷ []) = 0
four_bytes low high (b ∷ c ∷ d ∷ _) =
    if within low high b && is_continuation c && is_continuation d then 4 else 0

-- the width that utf8.DecodeRune gives to what begins with byte `a`, and 0 for an invalid byte
unfoldable pub rune_width : ℕ → Bytes → ℕ
rune_width a s =
    if leb a 127
    then 1
    else if within 194 223 a
    then two_bytes s
    else if a == 224
    then three_bytes 160 191 s
    else if a == 237
    then three_bytes 128 159 s
    else if within 225 239 a
    then three_bytes 128 191 s
    else if a == 240
    then four_bytes 144 191 s
    else if a == 244
    then four_bytes 128 143 s
    else if within 241 243 a
    then four_bytes 128 191 s
    else 0

-- `n` bytes of a rune are still to be copied.
unfoldable pub json_text_from : ℕ → Bytes → Bytes
unfolding rune_width
json_text_from n [] = []
json_text_from (suc n) (a ∷ s) = a ∷ json_text_from n s
json_text_from zero (a ∷ s) =
    let n = rune_width a s in
    let rest = json_text_from (n - 1) s in if n == 0 then 239 ∷ 191 ∷ 189 ∷ rest else a ∷ rest

abbrev pub json_text : Bytes → Bytes
json_text s = json_text_from 0 s

unfoldable pub valid_utf8_from : ℕ → Bytes → Bool
unfolding rune_width
valid_utf8_from n [] = true
valid_utf8_from (suc n) (a ∷ s) = valid_utf8_from n s
valid_utf8_from zero (a ∷ s) =
    let n = rune_width a s in let rest = valid_utf8_from (n - 1) s in if n == 0 then false else rest

-- utf8.ValidString
abbrev pub valid_utf8 : Bytes → Bool
valid_utf8 s = valid_utf8_from 0 s

kept_from : (n : ℕ) (s : Bytes) → valid_utf8_from n s ≡ true → json_text_from n s ≡ s
unfolding valid_utf8_from json_text_from
kept_from n [] h = refl
kept_from (suc n) (a ∷ s) h = ap (λ t. a ∷ t) (kept_from n s h)
kept_from zero (a ∷ s) h = elim (Bool-cases (rune_width a s == 0)) [
  | inl e ↦ ground arith
  | inr e ↦ ground (arith, kept_from (rune_width a s - 1) s)
]

pub json_text-valid : (s : Bytes) → valid_utf8 s ≡ true → json_text s ≡ s
json_text-valid s h = kept_from 0 s h
