-- ===== src/Daemon/Counts.antt =====
-- How the operations on the daemon's maps change the numbers of their entries.
use oma_seal.Prelude.{
  Bool-cases, inl, inr, ◌<◌, ℕ, suc, ◌+◌, ◌≤◌, ◌≡◌, refl, Bool, true, false, none, some, [], ◌∷◌,
  arith, if◌then◌else◌, ◌==◌, eq_iff, nat_eq, bytes_eq, length, Map, lookup, remove, insert,
}
use oma_seal.Bytes.{Bytes}
use oma_seal.Daemon.{tally, keys_where, drop_where}

-- how often a key stands in a map
unfoldable pub hits {ℓ} : {V : Type ℓ} → Bytes → Map Bytes V → ℕ
hits k [] = 0
hits k ((j, _) ∷ m) = let rest = hits k m in if j == k then suc rest else rest

abbrev pub one_if : Bool → ℕ
one_if true = 1
one_if false = 0

module _ {ℓ} {V : Type ℓ} where
  pub tally-insert :
      (p : V → Bool) (k : Bytes) (v : V) (m : Map Bytes V)
      → lookup k m ≡ none
      → tally p (insert k v m) ≡ one_if (p v) + tally p m
  unfolding tally insert lookup
  tally-insert p k v [] h = ground arith
  tally-insert p k v ((j, u) ∷ m) h = ground (arith, tally-insert p k v m)

  -- An entry that a bound leaves room for.
  pub tally_room :
      (p : V → Bool) (k : Bytes) (v : V) (m : Map Bytes V) (n : ℕ)
      → lookup k m ≡ none
      → (p v ≡ true → tally p m < n)
      → tally p m ≤ n
      → tally p (insert k v m) ≤ n
  unfolding tally insert lookup
  tally_room p k v m n fresh room h = elim (Bool-cases (p v)) [
    | inl e ↦ let few = room e in rw (tally-insert p k v m fresh, e) (omega arith)
    | inr e ↦ rw (tally-insert p k v m fresh, e) (omega arith)
  ]

  pub tally_replaced :
      (p : V → Bool) (k : Bytes) (v u : V) (m : Map Bytes V)
      → lookup k m ≡ some u
      → p v ≡ p u
      → tally p (insert k v m) ≡ tally p m
  unfolding tally insert lookup
  tally_replaced p k v u [] h e = cc
  tally_replaced p k v u ((j, x) ∷ m) h e = ground (arith, tally_replaced p k v u m)

  pub tally-remove : (p : V → Bool) (k : Bytes) (m : Map Bytes V) → tally p (remove k m) ≤ tally p m
  unfolding tally remove
  tally-remove p k [] = omega arith
  tally-remove p k ((j, u) ∷ m) = ground (arith, tally-remove p k m)

  pub tally-drop_where : (p q : V → Bool) (m : Map Bytes V) → tally p (drop_where q m) ≤ tally p m
  unfolding tally drop_where
  tally-drop_where p q [] = omega arith
  tally-drop_where p q ((j, u) ∷ m) = ground (arith, tally-drop_where p q m)

  pub tally_none : (p : V → Bool) (m : Map Bytes V) → keys_where p m ≡ [] → tally p m ≡ 0
  unfolding tally keys_where
  tally_none p [] h = refl
  tally_none p ((j, u) ∷ m) h = ground (arith, tally_none p m)

  pub length-insert :
      (k : Bytes) (v : V) (m : Map Bytes V)
      → lookup k m ≡ none
      → length (insert k v m) ≡ suc (length m)
  unfolding insert lookup
  length-insert k v [] h = refl
  length-insert k v ((j, u) ∷ m) h = ground (arith, length-insert k v m)

  pub length_replaced :
      (k : Bytes) (v u : V) (m : Map Bytes V)
      → lookup k m ≡ some u
      → length (insert k v m) ≡ length m
  unfolding insert lookup
  length_replaced k v u [] h = cc
  length_replaced k v u ((j, x) ∷ m) h = ground (arith, length_replaced k v u m)

  pub length-remove : (k : Bytes) (m : Map Bytes V) → length (remove k m) ≤ length m
  unfolding remove
  length-remove k [] = omega arith
  length-remove k ((j, u) ∷ m) = ground (arith, length-remove k m)

  pub hits_absent : (k : Bytes) (m : Map Bytes V) → lookup k m ≡ none → hits k m ≡ 0
  unfolding hits lookup
  hits_absent k [] h = refl
  hits_absent k ((j, u) ∷ m) h = ground (arith, hits_absent k m)

  pub hits_found : (k : Bytes) (u : V) (m : Map Bytes V) → lookup k m ≡ some u → 1 ≤ hits k m
  unfolding hits lookup
  hits_found k u [] h = cc
  hits_found k u ((j, x) ∷ m) h = ground (arith, hits_found k u m)

  pub hits-insert :
      (i k : Bytes) (v : V) (m : Map Bytes V)
      → lookup k m ≡ none
      → hits i (insert k v m) ≡ one_if (k == i) + hits i m
  unfolding hits insert lookup
  hits-insert i k v [] h = ground arith
  hits-insert i k v ((j, u) ∷ m) h = ground (arith, hits-insert i k v m)

  pub hits_replaced :
      (i k : Bytes) (v u : V) (m : Map Bytes V)
      → lookup k m ≡ some u
      → hits i (insert k v m) ≡ hits i m
  unfolding hits insert lookup
  hits_replaced i k v u [] h = cc
  hits_replaced i k v u ((j, x) ∷ m) h = ground (arith, hits_replaced i k v u m, eq_iff j k)

  pub hits-remove :
      (i k : Bytes) (m : Map Bytes V) → hits i (remove k m) ≡ (if k == i then 0 else hits i m)
  unfolding hits remove
  hits-remove i k [] = ground arith
  hits-remove i k ((j, u) ∷ m) =
      ground (arith, hits-remove i k m, eq_iff j k, eq_iff j i, eq_iff k i)
