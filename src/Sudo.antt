-- ===== src/Sudo.antt =====
-- engine/sudorate.go and engine/sudo.go: the rate limit and the gated core of `omaseal sudo`.
pub mod Counts
pub mod Budget
pub mod Feed
mod Examples
use oma_seal.Prelude.{
  ℕ, zero, suc, ◌+◌, ◌-◌, ◌*◌, ◌/◌, ◌%◌, ◌^◌, ◌≤◌, ◌<◌, ◌≡◌, refl, sym, ap, ◌∙◌, subst, fun_ext,
  ◌≢◌, ◌↔◌, ◌⊎◌, inl, inr, Bool, true, false, not, ◌&&◌, ◌||◌, Option, none, some, List, [], ◌∷◌,
  ◌++◌, map, append-nil, append_assoc, arith, ltb, leb, ltb→lt, lt→ltb, leb→le, bytes_beq,
  if◌then◌else◌, Bool-cases, Option-cases, and-eq-true, or-eq-false, Eq, ◌==◌, eq_iff, eq_refl,
  nat_eq, bytes_eq, length, length-append, keep, any, All, All-append, take, drop, Map, lookup,
  remove, insert, lookup-insert, lookup-remove,
}
use oma_seal.Errors.{Result, ok, err, plain}
use oma_seal.Files.{File, absent, unreadable, corrupt, holds, second, unix, at_unix, before}

abbrev pub sudo_rate_window : ℕ
sudo_rate_window = 600 * second

abbrev pub sudo_rate_max : ℕ
sudo_rate_max = 5

abbrev pub sudo_rate_min_interval : ℕ
sudo_rate_min_interval = 10 * second

-- sudo.lock, and sudo-rate.json with the Unix times of the attempts
pub record Rate : Type 0 where
  pub pending : Bool
  pub file : File (List ℕ)

-- What the file system does during one call.
pub record Disk : Type 0 where
  pub dir_ok : Bool
  pub lock_opens : Bool
  pub write_ok : Bool

-- A missing file is an empty budget; a corrupt or unreadable one fails closed.
abbrev pub attempts_of : File (List ℕ) → Option (List ℕ)
attempts_of absent = some []
attempts_of unreadable = none
attempts_of corrupt = none
attempts_of (holds attempts) = some attempts

-- the attempts that are not older than the window
unfoldable pub recent : ℕ → List ℕ → List ℕ
unfolding keep
recent now attempts = let cutoff = unix (now - sudo_rate_window) in keep (leb cutoff) attempts

-- kept[len(kept)-1]
abbrev pub last_of : List ℕ → Option ℕ
last_of [] = none
last_of (x ∷ []) = some x
last_of (x ∷ y ∷ xs) = last_of (y ∷ xs)

abbrev pub too_soon : ℕ → Option ℕ → Bool
too_soon now none = false
too_soon now (some last) = before now (at_unix last + sudo_rate_min_interval)

-- The new record of attempts, or a refusal.
unfoldable pub admit : ℕ → List ℕ → Result (List ℕ)
unfolding recent
admit now attempts =
    let kept = recent now attempts in
    if leb sudo_rate_max (length kept)
    then err plain
    else if too_soon now (last_of kept)
    then err plain
    else ok (kept ++ unix now ∷ [])

abbrev pub admit_file : ℕ → Option (List ℕ) → Result (List ℕ)
admit_file now none = err plain
admit_file now (some attempts) = admit now attempts

-- A failed write is logged, and the attempt goes on.
abbrev pub record_attempt : Disk → Rate → Result (List ℕ) → Result (Unit {0}) × Rate
record_attempt disk s (err e) = (err e, s)
record_attempt disk s (ok attempts) =
    (ok tt, record s { pending = true; file = if disk.write_ok then holds attempts else s.file })

-- The lock is held from a success until the caller's `unlock`, and given back on every refusal.
unfoldable pub check_sudo_rate : Disk → ℕ → Rate → Result (Unit {0}) × Rate
unfolding admit
check_sudo_rate disk now s =
    if not disk.dir_ok
    then (err plain, s)
    else if not disk.lock_opens
    then (err plain, s)
    else if s.pending
    then (err plain, s)
    else record_attempt disk s (admit_file now (attempts_of s.file))

abbrev pub unlock : Rate → Rate
unlock s = record s { pending = false }
