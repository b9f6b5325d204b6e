-- ===== src/Bytes/Replace.antt =====
-- strings.ReplaceAll for a non-empty `old`.
use oma_seal.Prelude.{
  ℕ, zero, suc, ◌-◌, List, [], ◌∷◌, ◌++◌, if◌then◌else◌, nat_eq, bytes_eq, length,
}
use oma_seal.Bytes.Prefix.{has_prefix}

-- `skip` bytes of the last match are still to be passed over.
unfoldable pub replace_from : List ℕ → List ℕ → ℕ → List ℕ → List ℕ
unfolding has_prefix
replace_from old new skip [] = []
replace_from old new (suc skip) (c ∷ s) = replace_from old new skip s
replace_from old new zero (c ∷ s) =
    let matched = new ++ replace_from old new (length old - 1) s in
    let copied = c ∷ replace_from old new zero s in
    if has_prefix (c ∷ s) old then matched else copied

unfoldable pub replace_all : List ℕ → List ℕ → List ℕ → List ℕ
unfolding replace_from
replace_all s old new = replace_from old new 0 s
