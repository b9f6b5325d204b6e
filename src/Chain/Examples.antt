-- ===== src/Chain/Examples.antt =====
-- A digest function for tests, and concrete logs (engine/chain_test.go has such cases).
use oma_seal.Prelude.{
  ◌++◌, ℕ, zero, suc, ◌%◌, ◌≡◌, refl, ◌⊎◌, inl, inr, List, [], ◌∷◌, bytes_beq, if◌then◌else◌,
  Bool-cases, ◌==◌, nat_eq, bytes_eq, length, any,
}
use oma_seal.Bytes.{Bytes, codes}
use oma_seal.Errors.{Result, ok, err}
use oma_seal.Chain.{Walk, start, chained_line, verify_log_chain, chain_write, scanned, scans_whole}
use oma_seal.Chain.Sealed.{contents, Collision, sealed_history}
use oma_seal.Chain.ReadBack.{IsDigest, log_stays_verified}

abbrev zeros : ℕ → Bytes
zeros zero = []
zeros (suc n) = b'0' ∷ zeros n

-- the digest starts with an 'a' if the string's length is odd
abbrev toy_sha : Bytes → Bytes
toy_sha s = if length s % 2 == 1 then b'a' ∷ zeros 63 else zeros 64

toy_sha-IsDigest : (s : Bytes) → IsDigest (toy_sha s)
unfolding any
toy_sha-IsDigest s = elim (Bool-cases (length s % 2 == 1)) [
  | inl e ↦ rw e (record { whole = refl; hexadecimal = refl })
  | inr e ↦ rw e (record { whole = refl; hexadecimal = refl })
]

abbrev old_line : Bytes
old_line = codes "set by an old version"

abbrev log : List Bytes
log = old_line ∷ (chain_write toy_sha [] (codes "get a/b" ∷ codes "set c/d" ∷ [])).0

-- what a verification finds, or nothing on an error
abbrev walk_of : Result Walk → Walk
walk_of (err _) = start
walk_of (ok w) = w

-- A line that ends in a space does not read back, so the verification stops at it.
trailing_space :
    (walk_of (
      verify_log_chain toy_sha
        (chain_write toy_sha [] (codes "one" ∷ codes "set a/b " ∷ [])).0)).divergence
    ≡ 2
unfolding verify_log_chain chain_write bytes_beq scanned
trailing_space = refl

log_stays_verified_example :
    let (after, head) = chain_write toy_sha log (codes "delete a/b" ∷ []) in
    (v : Walk) × (verify_log_chain toy_sha after ≡ ok v)
    × (v.divergence ≡ 0)
    × (v.prev_chained ≡ head)
unfolding verify_log_chain chain_write scanned scans_whole bytes_beq
log_stays_verified_example =
    log_stays_verified toy_sha toy_sha-IsDigest log (codes "delete a/b") []
      (walk_of (verify_log_chain toy_sha log)) (refl, tt) (refl, tt) refl refl

abbrev first_line : Bytes
first_line =
    chained_line toy_sha (codes "get a/b")
      (toy_sha (toy_sha (codes "omaseal-log-genesis-v1") ++ codes "|get a/b"))

abbrev first_walk : Walk
first_walk = walk_of (verify_log_chain toy_sha (first_line ∷ []))

sealed_history_example :
    (contents (first_line ∷ []) ≡ contents (first_line ∷ [])) ⊎ Collision toy_sha
unfolding verify_log_chain chain_write scanned scans_whole bytes_beq
sealed_history_example =
    sealed_history toy_sha (λ s. (toy_sha-IsDigest s).whole) first_line first_line [] [] first_walk
      first_walk (refl, tt) (refl, tt) refl refl refl refl refl refl refl
