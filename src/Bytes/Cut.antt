-- ===== src/Bytes/Cut.antt =====
-- strings.Cut at one byte.
use oma_seal.Prelude.{
  ℕ, ◌≡◌, refl, ◌≢◌, Bool, true, false, List, [], ◌∷◌, ◌++◌, arith, ◌==◌, nat_eq, bytes_eq,
  if◌then◌else◌, All, ◌⊎◌, inl, inr, Bool-cases, ap,
}

-- (before, after, found)
unfoldable pub cut : List ℕ → ℕ → List ℕ × List ℕ × Bool
cut [] sep = ([], [], false)
cut (c ∷ s) sep =
    let (before, after, found) = cut s sep in
    if c == sep then ([], s, true) else (c ∷ before, after, found)

abbrev pub Lacks : ℕ → List ℕ → Type 0
Lacks b = All (λ c. c ≢ b)

pub cut-append : (s t : List ℕ) (sep : ℕ) → Lacks sep s → cut (s ++ sep ∷ t) sep ≡ (s, t, true)
unfolding cut
cut-append [] t sep h = ground arith
cut-append (c ∷ s) t sep h = ground (arith, cut-append s t sep h.1)

pub cut_lacking : (s : List ℕ) (sep : ℕ) → Lacks sep s → cut s sep ≡ (s, [], false)
unfolding cut
cut_lacking [] sep h = refl
cut_lacking (c ∷ s) sep h = ground (arith, cut_lacking s sep h.1)

-- Every string lacks the byte, or splits at its first occurrence.
pub Lacks-cases :
    (s : List ℕ) (sep : ℕ)
    → Lacks sep s
      ⊎ ((before : List ℕ) × (after : List ℕ) × (s ≡ before ++ sep ∷ after) × Lacks sep before)
Lacks-cases [] sep = inl tt
Lacks-cases (c ∷ s) sep = elim (Bool-cases (c == sep)) [
  | inl e ↦ inr ([], s, ground arith, tt)
  | inr n ↦ elim (Lacks-cases s sep) [
    | inl h ↦ inl (ground arith, h)
    | inr (before, after, e, h) ↦ inr (c ∷ before, after, ap (λ t. c ∷ t) e, (ground arith, h))
  ]
]
