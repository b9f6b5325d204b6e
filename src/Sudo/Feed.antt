-- ===== src/Sudo/Feed.antt =====
-- engine/sudo.go: `sudoFeed`, its effects in order, and what must come before each.
use oma_seal.Prelude.{
  ℕ, ◌≡◌, refl, ap, ◌≢◌, inl, inr, Bool, true, false, ◌||◌, none, some, List, [], ◌∷◌, ◌++◌, arith,
  if◌then◌else◌, nat_eq, bytes_eq,
}
use oma_seal.Errors.{
  Error, Result, ok, err, Code, Cause, not_found, keyring_not_found, code_from_error,
}
use oma_seal.Files.{holds, unix}
use oma_seal.Bytes.{Bytes}
use oma_seal.Presence.{Desktop, Err, require_presence_strict}
use oma_seal.Presence.Chain.{presence_checks_iff}
use oma_seal.Presence.Prompters.{Confirmed}
use oma_seal.Sudo.{Rate, Disk, check_sudo_rate, unlock, recent}
use oma_seal.Sudo.Counts.{admitted_lem}
use oma_seal.Sudo.Budget.{check_cases}

pub data Exit : Type 0 where
  success : Exit
  exited : ℕ → Exit
  not_spawned : Exit

-- The environment of one call. The two commands are `sudo -v -S`, which gets its input from the
-- engine, and `sudo -n`, which keeps the caller's streams.
pub record Machine : Type 0 where
  pub desktop : Desktop
  pub disk : Disk
  pub stored_secret : Result Bytes
  pub sudo_found : Bool
  pub authenticate : Bytes → Exit
  pub command : Exit

pub data Action : Type 0 where
  ask_presence read_secret : Action
  feed_auth : Bytes → Action
  run_command : Action

abbrev pub exit_code : Exit → ℕ
exit_code success = 0
exit_code (exited n) = n
exit_code not_spawned = 1

abbrev pub is_not_found : Code → Bool
is_not_found not_found = true
is_not_found _ = false

abbrev pub is_missing_item : Cause → Bool
is_missing_item keyring_not_found = true
is_missing_item _ = false

-- 127 for a genuine miss, 1 for a locked or unavailable keyring
abbrev pub miss_code : Error → ℕ
miss_code e = if is_missing_item e.cause || is_not_found (code_from_error e) then 127 else 1

abbrev pub after_auth : Machine → Bytes → Exit → ℕ × List Action
after_auth m input success =
    (exit_code m.command, ask_presence ∷ read_secret ∷ feed_auth input ∷ run_command ∷ [])
after_auth m input failed = (exit_code failed, ask_presence ∷ read_secret ∷ feed_auth input ∷ [])

abbrev pub with_secret : Machine → Result Bytes → ℕ × List Action
with_secret m (err e) = (miss_code e, ask_presence ∷ read_secret ∷ [])
with_secret m (ok secret) =
    let input = secret ++ b'\n' ∷ [] in
    if m.sudo_found
    then after_auth m input (m.authenticate input)
    else (1, ask_presence ∷ read_secret ∷ [])

abbrev pub with_presence : Machine → Err → ℕ × List Action
with_presence m (some e) = (1, ask_presence ∷ [])
with_presence m none = with_secret m m.stored_secret

-- The exit code, the effects, and the rate state when the function has returned (its deferred
-- `unlock` has run).
abbrev pub after_rate : Machine → Result (Unit {0}) × Rate → ℕ × List Action × Rate
after_rate m (err e, s) = (1, [], s)
after_rate m (ok _, s) =
    let (code, actions) = with_presence m (require_presence_strict m.desktop) in
    (code, actions, unlock s)

unfoldable pub sudo_feed : Machine → ℕ → Rate → ℕ × List Action × Rate
sudo_feed m now s = after_rate m (check_sudo_rate m.disk now s)

abbrev pub is_secret : Action → Bool
is_secret read_secret = true
is_secret (feed_auth _) = true
is_secret run_command = true
is_secret ask_presence = false

abbrev pub touches_secret : List Action → Bool
touches_secret [] = false
touches_secret (a ∷ actions) = is_secret a || touches_secret actions

-- the inputs that `sudo -v` was given
abbrev pub fed : List Action → List Bytes
fed [] = []
fed (feed_auth input ∷ actions) = input ∷ fed actions
fed (ask_presence ∷ actions) = fed actions
fed (read_secret ∷ actions) = fed actions
fed (run_command ∷ actions) = fed actions

with_presence_touch :
    (m : Machine) (e : Err) → touches_secret (with_presence m e).1 ≡ true → e ≡ none
with_presence_touch m none h = refl
with_presence_touch m (some e) h = cc

sudo_feed_refused :
    (m : Machine) (now : ℕ) (s : Rate) (e : Error)
    → check_sudo_rate m.disk now s ≡ (err e, s)
    → sudo_feed m now s ≡ (1, [], s)
unfolding sudo_feed
sudo_feed_refused m now s e p = rw p

sudo_feed_admitted :
    (m : Machine) (now : ℕ) (s s' : Rate)
    → check_sudo_rate m.disk now s ≡ (ok tt, s')
    → sudo_feed m now s ≡ (
      (with_presence m (require_presence_strict m.desktop)).0,
      (with_presence m (require_presence_strict m.desktop)).1,
      unlock s',
    )
unfolding sudo_feed
sudo_feed_admitted m now s s' p = rw p

module _ (m : Machine) (now : ℕ) (s : Rate) where
  abbrev outcome : ℕ × List Action
  outcome = with_presence m (require_presence_strict m.desktop)

  Confirmed-touch : touches_secret outcome.1 ≡ true → Confirmed m.desktop
  Confirmed-touch t =
      (presence_checks_iff m.desktop false).0.0
        (with_presence_touch m (require_presence_strict m.desktop) t)

  touch_gated : touches_secret (sudo_feed m now s).1 ≡ true → Confirmed m.desktop
  touch_gated t = elim (check_cases m.disk now s) [
    | inl (e, p) ↦ cc (rw (sudo_feed_refused m now s e p) at t)
    | inr (attempts, admitted, _, _, p) ↦ Confirmed-touch (rw (sudo_feed_admitted m now s _ p) at t)
  ]

  attempt_recorded :
      (sudo_feed m now s).1 ≢ []
      → m.disk.write_ok ≡ true
      → (kept : List ℕ) × ((sudo_feed m now s).2.file ≡ holds (kept ++ unix now ∷ []))
  attempt_recorded n w = elim (check_cases m.disk now s) [
    | inl (e, p) ↦ absurd (n (rw (sudo_feed_refused m now s e p)))
    | inr (attempts, admitted, _, new, p) ↦ (
      recent now attempts,
      rw (sudo_feed_admitted m now s _ p, w) (ap holds (admitted_lem now attempts admitted new)),
    )
  ]

-- The stored password is read, and any command is started, only in a call that the user confirmed.
-- A call that gets as far as the presence check leaves its attempt as the last of the rate record,
-- also when presence was refused, if the rate file can be written.
pub sudo_feed_gated :
    (m : Machine) (now : ℕ) (s : Rate)
    → (touches_secret (sudo_feed m now s).1 ≡ true → Confirmed m.desktop)
      × ((sudo_feed m now s).1 ≢ []
          → m.disk.write_ok ≡ true
          → (kept : List ℕ) × ((sudo_feed m now s).2.file ≡ holds (kept ++ unix now ∷ [])))
sudo_feed_gated m now s = (touch_gated m now s, attempt_recorded m now s)

abbrev Fed : Machine → List Action → Type 0
Fed m actions =
    (secret : Bytes) × (m.stored_secret ≡ ok secret) × (fed actions ≡ (secret ++ b'\n' ∷ []) ∷ [])

fed-after_auth :
    (m : Machine) (input : Bytes) (x : Exit) → fed (after_auth m input x).1 ≡ input ∷ []
fed-after_auth m input success = refl
fed-after_auth m input (exited n) = refl
fed-after_auth m input not_spawned = refl

Fed-with_secret :
    (m : Machine) (r : Result Bytes)
    → m.stored_secret ≡ r
    → (with_secret m r).0 ≡ 0
    → Fed m (with_secret m r).1
Fed-with_secret m (err e) p h = absurd (ground arith)
Fed-with_secret m (ok secret) p h = (
  secret,
  p,
  ground (arith, fed-after_auth m (secret ++ b'\n' ∷ []) (m.authenticate (secret ++ b'\n' ∷ []))),
)

Fed-with_presence :
    (m : Machine) (e : Err) → (with_presence m e).0 ≡ 0 → (e ≡ none) × Fed m (with_presence m e).1
Fed-with_presence m (some e) h = absurd (ground arith)
Fed-with_presence m none h = (refl, Fed-with_secret m m.stored_secret refl h)

-- A call that exits with 0 was confirmed by the user, and gave `sudo -v` the stored password with a
-- newline, and nothing else.
pub sudo_feed_success :
    (m : Machine) (now : ℕ) (s : Rate)
    → (sudo_feed m now s).0 ≡ 0
    → Confirmed m.desktop
      × ((secret : Bytes) × (m.stored_secret ≡ ok secret)
          × (fed (sudo_feed m now s).1 ≡ (secret ++ b'\n' ∷ []) ∷ []))
sudo_feed_success m now s h = elim (check_cases m.disk now s) [
  | inl (e, p) ↦ absurd (ground (arith, sudo_feed_refused m now s e p))
  | inr (attempts, admitted, _, _, p) ↦
      let (strict, given) =
        Fed-with_presence m (require_presence_strict m.desktop)
          (rw (sudo_feed_admitted m now s _ p) at h) in
      ((presence_checks_iff m.desktop false).0.0 strict, rw (sudo_feed_admitted m now s _ p) given)
]
