-- ===== src/Bytes/Sort.antt =====
-- sort.Strings, and the keys of a Go map.
use oma_seal.Prelude.{
  Bool, true, false, ◌&&◌, ◌||◌, List, [], ◌∷◌, map, ltb, ◌==◌, nat_eq, if◌then◌else◌, Map,
}
use oma_seal.Bytes.{Bytes}

-- the order of strings by bytes
unfoldable pub bytes_leb : Bytes → Bytes → Bool
bytes_leb [] t = true
bytes_leb (c ∷ s) [] = false
bytes_leb (c ∷ s) (d ∷ t) = ltb c d || c == d && bytes_leb s t

unfoldable pub insert_sorted : Bytes → List Bytes → List Bytes
unfolding bytes_leb
insert_sorted s [] = s ∷ []
insert_sorted s (t ∷ ts) = if bytes_leb s t then s ∷ t ∷ ts else t ∷ insert_sorted s ts

-- sort.Strings
unfoldable pub sort_strings : List Bytes → List Bytes
unfolding insert_sorted
sort_strings [] = []
sort_strings (s ∷ ss) = insert_sorted s (sort_strings ss)

abbrev pub map_keys {ℓ} : {V : Type ℓ} → Map Bytes V → List Bytes
map_keys m = map (λ e. e.0) m
