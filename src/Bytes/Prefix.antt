-- ===== src/Bytes/Prefix.antt =====
-- strings.CutPrefix and strings.HasPrefix.
use oma_seal.Prelude.{
  ℕ, Bool, true, false, List, [], ◌∷◌, Option, none, some, ◌==◌, nat_eq, if◌then◌else◌,
}

-- strings.CutPrefix; strings.HasPrefix is whether it finds the prefix
unfoldable pub cut_prefix : List ℕ → List ℕ → Option (List ℕ)
cut_prefix [] s = some s
cut_prefix (p ∷ ps) [] = none
cut_prefix (p ∷ ps) (c ∷ s) = if p == c then cut_prefix ps s else none

abbrev pub is_some {ℓ} : {A : Type ℓ} → Option A → Bool
is_some none = false
is_some (some a) = true

unfoldable pub has_prefix : List ℕ → List ℕ → Bool
unfolding cut_prefix
has_prefix s p = is_some (cut_prefix p s)
