-- ===== src/Manifest/Review.antt =====
-- engine/manifestapply.go, handleManifestApply: which changes of a proposal reach the file.
use oma_seal.Prelude.{
  or-eq-false, ℕ, zero, suc, ◌+◌, subst, Option, ◌≡◌, refl, ◌∙◌, ◌⊎◌, inl, inr, Bool, true, false,
  not, ◌&&◌, ◌||◌, none, some, List, [], ◌∷◌, ◌++◌, arith, if◌then◌else◌, Bool-cases, Option-cases,
  and-eq-true, ◌==◌, nat_eq, bytes_eq, keep, All, All-append, if-true, if-false, if_cases,
}
use oma_seal.Bytes.{Bytes}
use oma_seal.Presence.{Desktop, Err, require_presence_strict}
use oma_seal.Presence.Chain.{presence_checks_iff}
use oma_seal.Presence.Prompters.{Confirmed}
use oma_seal.Manifest.{ManifestRule, ProposalChange, acceptable, is_expansion_change, Option, subst}
use oma_seal.Manifest.Lines.{scan_fails, scan_manifest_rules, apply_changes}

-- the version, the hash that binds it to the manifest, and the changes
pub record Proposal : Type 0 where
  pub version : ℕ
  pub manifest_sha256 : Bytes
  pub changes : List ProposalChange

-- What one call finds: `--yes`, a terminal, the lock, the hash of the file, the user's answers to
-- the question of each expansion and to the one of the rest, the desktop, and whether the file is
-- written.
pub record Review : Type 0 where
  pub yes : Bool
  pub tty : Bool
  pub locks : Bool
  pub file_sha256 : Bytes
  pub confirms : ℕ → Bool
  pub confirms_rest : Bool
  pub desktop : Desktop
  pub write_ok : Bool

abbrev pub all_acceptable : List ManifestRule → List ProposalChange → Bool
all_acceptable rules [] = true
all_acceptable rules (c ∷ changes) = acceptable rules c && all_acceptable rules changes

-- the changes that expand nothing
unfoldable pub plain_changes : List ManifestRule → List ProposalChange → List ProposalChange
unfolding keep
plain_changes rules changes = keep (λ c. not (is_expansion_change rules c)) changes

-- the expansions that the user confirms, from the change of this index on
unfoldable pub confirmed_expansions :
    List ManifestRule → (ℕ → Bool) → ℕ → List ProposalChange → List ProposalChange
confirmed_expansions rules confirms i [] = []
confirmed_expansions rules confirms i (c ∷ changes) =
    let rest = confirmed_expansions rules confirms (suc i) changes in
    if is_expansion_change rules c && confirms i then c ∷ rest else rest

-- Confirmed expansions still need proof that the user is there.
abbrev pub with_presence_proof : Err → List ProposalChange → List ProposalChange
with_presence_proof none expansions = expansions
with_presence_proof (some e) expansions = []

abbrev pub with_expansions :
    Review → List ProposalChange → List ProposalChange → List ProposalChange
with_expansions r accepted [] = accepted
with_expansions r accepted (c ∷ expansions) =
    accepted ++ with_presence_proof (require_presence_strict r.desktop) (c ∷ expansions)

unfoldable pub accepted_changes :
    Review → List ManifestRule → List ProposalChange → List ProposalChange
unfolding plain_changes confirmed_expansions
accepted_changes r rules changes =
    if r.yes || not r.tty
    then plain_changes rules changes
    else with_expansions r (if r.confirms_rest then plain_changes rules changes else [])
        (confirmed_expansions rules r.confirms 0 changes)

-- What is written must scan.
abbrev pub write_changes : Review → List Bytes → List ProposalChange → List Bytes
write_changes r lines [] = lines
write_changes r lines (c ∷ accepted) =
    let out = apply_changes lines (c ∷ accepted) in
    if not (scan_fails out) && r.write_ok then out else lines

-- the early exits
abbrev pub refused : Review → Proposal → List ManifestRule → Bool
refused r p rules =
    not (p.version == 1)
    || not r.locks
    || not (r.file_sha256 == p.manifest_sha256)
    || not (all_acceptable rules p.changes)
    || not (r.tty || r.yes)

-- the file's lines afterwards
unfoldable pub apply_proposal : Review → Proposal → List Bytes → List Bytes
apply_proposal r p lines =
    let rules = scan_manifest_rules lines in
    if scan_fails lines || refused r p rules
    then lines
    else write_changes r lines (accepted_changes r rules p.changes)

-- the change of this index
unfoldable pub change_at : ℕ → List ProposalChange → Option ProposalChange
change_at n [] = none
change_at zero (c ∷ changes) = some c
change_at (suc n) (c ∷ changes) = change_at n changes

-- Why a change may reach the file: it is one of the proposal, it passes every check, and the user has
-- agreed to it: to an expansion by the answer to its own question, and then by proof of presence,
-- and to any other, unless `--yes` is given, by the answer to the question of the rest.
pub record Allowed (r : Review) (p : Proposal) (rules : List ManifestRule) (c : ProposalChange)
    : Type 0 where
  pub is_acceptable : acceptable rules c ≡ true
  pub index : ℕ
  pub proposed : change_at index p.changes ≡ some c
  pub by_user :
      is_expansion_change rules c ≡ true
      → (r.tty ≡ true) × (r.yes ≡ false) × (r.confirms index ≡ true) × Confirmed r.desktop
  pub rest_by_user : is_expansion_change rules c ≡ false → r.yes ≡ false → r.confirms_rest ≡ true

-- `changes` are those of the proposal from the index `i` on.
abbrev Tail : Proposal → ℕ → List ProposalChange → Type 0
Tail p i changes =
    (j : ℕ) (c : ProposalChange)
    → change_at j changes ≡ some c
    → change_at (i + j) p.changes ≡ some c

module _ (r : Review) (p : Proposal) (rules : List ManifestRule) where
  Tail-head :
      (i : ℕ) (c : ProposalChange) (changes : List ProposalChange)
      → Tail p i (c ∷ changes)
      → change_at i p.changes ≡ some c
  unfolding change_at
  Tail-head i c changes t = subst (λ n. change_at n p.changes ≡ some c) (omega arith) (t 0 c refl)

  Tail-next :
      (i : ℕ) (c : ProposalChange) (changes : List ProposalChange)
      → Tail p i (c ∷ changes)
      → Tail p (suc i) changes
  unfolding change_at
  Tail-next i c changes t j x h =
      subst (λ n. change_at n p.changes ≡ some x) (omega arith) (t (suc j) x h)

  All-plain :
      (i : ℕ) (changes : List ProposalChange)
      → Tail p i changes
      → all_acceptable rules changes ≡ true
      → (r.yes ≡ false → r.confirms_rest ≡ true)
      → All (Allowed r p rules) (plain_changes rules changes)
  unfolding plain_changes
  All-plain i [] t h u = tt
  All-plain i (c ∷ changes) t h u =
      let (ha, hs) = and-eq-true (acceptable rules c) (all_acceptable rules changes) h in
      let rest = All-plain (suc i) changes (Tail-next i c changes t) hs u in
      elim (Bool-cases (is_expansion_change rules c)) [
        | inl e ↦ rw e rest
        | inr n ↦ rw n (
          record {
            is_acceptable = ha;
            index = i;
            proposed = Tail-head i c changes t;
            by_user = λ e. cc (e, n);
            rest_by_user = λ _. u;
          },
          rest,
        )
      ]

  All-Confirmed :
      (i : ℕ) (changes : List ProposalChange)
      → Tail p i changes
      → all_acceptable rules changes ≡ true
      → (r.tty ≡ true) × (r.yes ≡ false) × Confirmed r.desktop
      → All (Allowed r p rules) (confirmed_expansions rules r.confirms i changes)
  unfolding confirmed_expansions
  All-Confirmed i [] t h u = tt
  All-Confirmed i (c ∷ changes) t h (tty, attended, present) =
      let (ha, hs) = and-eq-true (acceptable rules c) (all_acceptable rules changes) h in
      let rest =
        All-Confirmed (suc i) changes (Tail-next i c changes t) hs (tty, attended, present) in
      elim (Bool-cases (is_expansion_change rules c && r.confirms i)) [
        | inl e ↦
            let (expands, answered) = and-eq-true (is_expansion_change rules c) (r.confirms i) e in
            rw e (
              record {
                is_acceptable = ha;
                index = i;
                proposed = Tail-head i c changes t;
                by_user = λ _. (tty, attended, answered, present);
                rest_by_user = λ n. cc (n, expands);
              },
              rest,
            )
        | inr n ↦ rw n rest
      ]

  -- the two parts together, when the user has answered at a terminal
  with_expansions-All :
      (accepted expansions : List ProposalChange)
      → All (Allowed r p rules) accepted
      → ((r.tty ≡ true) × (r.yes ≡ false) × Confirmed r.desktop
          → All (Allowed r p rules) expansions)
      → (r.yes || not r.tty) ≡ false
      → All (Allowed r p rules) (with_expansions r accepted expansions)
  with_expansions-All accepted [] h f s = h
  with_expansions-All accepted (c ∷ expansions) h f s =
      elim (Option-cases (require_presence_strict r.desktop)) [
        | inl e ↦ rw e (
            All-append _ accepted (c ∷ expansions) h
              (f (ground arith, ground arith, (presence_checks_iff r.desktop true).0.0 e)))
        | inr (x, e) ↦ rw e (All-append _ accepted [] h tt)
      ]

  plain-All :
      (i : ℕ) (changes : List ProposalChange)
      → Tail p i changes
      → all_acceptable rules changes ≡ true
      → All (Allowed r p rules) (if r.confirms_rest then plain_changes rules changes else [])
  plain-All i changes t h =
      if_cases (All (Allowed r p rules)) r.confirms_rest _ _ (λ e. All-plain i changes t h (λ _. e))
        (λ _. tt)

  accepted-All :
      all_acceptable rules p.changes ≡ true
      → (r.tty || r.yes) ≡ true
      → All (Allowed r p rules) (accepted_changes r rules p.changes)
  unfolding accepted_changes
  accepted-All h there =
      let whole : Tail p 0 p.changes =
        λ j c e. subst (λ n. change_at n p.changes ≡ some c) (omega arith) e in
      elim (Bool-cases (r.yes || not r.tty)) [
        | inl e ↦ rw e (All-plain 0 p.changes whole h (λ n. ground arith))
        | inr e ↦ rw e (
            with_expansions-All (if r.confirms_rest then plain_changes rules p.changes else [])
              (confirmed_expansions rules r.confirms 0 p.changes) (plain-All 0 p.changes whole h)
              (All-Confirmed 0 p.changes whole h) e)
      ]

  not_refused :
      refused r p rules ≡ false
      → (all_acceptable rules p.changes ≡ true) × ((r.tty || r.yes) ≡ true)
  not_refused h = (ground arith, ground arith)

written-cases :
    (r : Review) (lines : List Bytes) (accepted : List ProposalChange)
    → (write_changes r lines accepted ≡ lines)
      ⊎ ((write_changes r lines accepted ≡ apply_changes lines accepted)
          × (scan_fails (apply_changes lines accepted) ≡ false))
written-cases r lines [] = inl refl
written-cases r lines (c ∷ accepted) =
    elim (Bool-cases (not (scan_fails (apply_changes lines (c ∷ accepted))) && r.write_ok)) [
      | inl e ↦ inr (if-true lines e, ground arith)
      | inr e ↦ inl (if-false _ e)
    ]

-- `manifest apply` writes only what it may: the file is as it was, or it scans without an error and is
-- the result of changes of the proposal that each passed every check and to which the user agreed. Each that expands access
-- was confirmed by the answer to its own question at a terminal, without `--yes`, by a user who then
-- proved to be present; each other was confirmed by the answer for the rest, unless `--yes` was given.
pub apply_proposal_guarded :
    (r : Review) (p : Proposal) (lines : List Bytes)
    → (apply_proposal r p lines ≡ lines)
      ⊎ ((accepted : List ProposalChange) × (apply_proposal r p lines
            ≡ apply_changes lines accepted)
          × (scan_fails (apply_changes lines accepted) ≡ false)
          × All (Allowed r p (scan_manifest_rules lines)) accepted)
unfolding apply_proposal
apply_proposal_guarded r p lines =
    let rules = scan_manifest_rules lines in
    let accepted = accepted_changes r rules p.changes in
    elim (Bool-cases (scan_fails lines || refused r p rules)) [
      | inl e ↦ inl (if-true _ e)
      | inr e ↦
          let (fine, there) = not_refused r p rules (or-eq-false _ _ e).1 in
          elim (written-cases r lines accepted) [
            | inl w ↦ inl (if-false lines e ∙ w)
            | inr (w, scans) ↦
                inr (accepted, if-false lines e ∙ w, scans, accepted-All r p rules fine there)
          ]
    ]
