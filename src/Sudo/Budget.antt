-- ===== src/Sudo/Budget.antt =====
-- The budget over every sequence of attempts.
use oma_seal.Prelude.{
  ℕ, ◌-◌, ◌≤◌, ◌≡◌, refl, ap, ◌∙◌, subst, ◌⊎◌, inl, inr, true, false, Option, none, some, List, [],
  ◌∷◌, arith, leb, if◌then◌else◌, nat_eq, bytes_eq, length, keep,
}
use oma_seal.Errors.{Error, Result, ok, err, plain}
use oma_seal.Files.{absent, unix, holds}
use oma_seal.Sudo.{
  unlock, attempts_of, record_attempt, admit_file, check_sudo_rate, Disk, Rate, sudo_rate_window,
  sudo_rate_max, Rate, Disk, attempts_of, recent, admit, check_sudo_rate, unlock,
}
use oma_seal.Sudo.Counts.{
  count_since, IsSpaced, Latest, kept-room, admitted_lem, kept-not_soon, last-append, spaced,
  counts-admitted, count_now,
}

pub data Event : Type 0 where
  attempt : Disk → ℕ → Event
  release : Event

abbrev pub fresh : Rate
fresh = record { pending = false; file = absent }

abbrev pub noted : ℕ → List ℕ → Result (Unit {0}) → List ℕ
noted now history (ok _) = now ∷ history
noted now history (err _) = history

-- The instants of the admitted attempts, the latest first.
unfoldable pub run : Rate → List ℕ → List Event → List ℕ
run s history [] = history
run s history (attempt disk now ∷ events) =
    let (result, s') = check_sudo_rate disk now s in run s' (noted now history result) events
run s history (release ∷ events) = run (unlock s) history events

-- The clock does not go back, and the writes succeed.
abbrev pub IsWellTimed : ℕ → List Event → Type 0
IsWellTimed clock [] = Unit
IsWellTimed clock (attempt disk now ∷ events) =
    (clock ≤ now) × (disk.write_ok ≡ true) × IsWellTimed now events
IsWellTimed clock (release ∷ events) = IsWellTimed clock events

-- At each admitted attempt at most five lie in the window that ends there, itself included, and
-- it comes ten seconds at least after the start of the second in which the one before it fell, so
-- more than nine seconds after that one.
abbrev pub WithinBudget : List ℕ → Type 0
WithinBudget [] = Unit
WithinBudget (now ∷ history) =
    (count_since (unix (now - sudo_rate_window)) (now ∷ history) ≤ sudo_rate_max)
    × IsSpaced now history
    × WithinBudget history

record Agrees (clock : ℕ) (s : Rate) (history : List ℕ) : Type 0 where
  attempts : List ℕ
  stored : attempts_of s.file ≡ some attempts
  from : ℕ
  from_old : from ≤ unix (clock - sudo_rate_window)
  counts : (c : ℕ) → from ≤ c → length (keep (leb c) attempts) ≡ count_since c history
  latest : Latest attempts history

abbrev Refused : Disk → ℕ → Rate → Type 0
Refused disk now s = (e : Error) × (check_sudo_rate disk now s ≡ (err e, s))

abbrev Admitted : Disk → ℕ → Rate → Type 0
Admitted disk now s =
    (attempts : List ℕ) × (admitted : List ℕ) × (attempts_of s.file ≡ some attempts)
    × (admit now attempts ≡ ok admitted)
    × (check_sudo_rate disk now s ≡ (
      ok tt,
      record s { pending = true; file = if disk.write_ok then holds admitted else s.file },
    ))

admission :
    (disk : Disk) (now : ℕ) (s : Rate) (stored : Option (List ℕ))
    → attempts_of s.file ≡ stored
    → check_sudo_rate disk now s ≡ record_attempt disk s (admit_file now stored)
    → Refused disk now s ⊎ Admitted disk now s
admission disk now s none e h = inl (plain, h)
admission disk now s (some attempts) e h = by_admit (admit now attempts) refl
  where
    by_admit :
        (r : Result (List ℕ)) → admit now attempts ≡ r → Refused disk now s ⊎ Admitted disk now s
    by_admit (err x) a = inl (x, h ∙ ap (record_attempt disk s) a)
    by_admit (ok admitted) a = inr (attempts, admitted, e, a, h ∙ ap (record_attempt disk s) a)

check_lem :
    (disk : Disk) (now : ℕ) (s : Rate)
    → (check_sudo_rate disk now s ≡ (err plain, s))
      ⊎ (check_sudo_rate disk now s ≡ record_attempt disk s (admit_file now (attempts_of s.file)))
unfolding check_sudo_rate
check_lem disk now s = ground arith

pub check_cases : (disk : Disk) (now : ℕ) (s : Rate) → Refused disk now s ⊎ Admitted disk now s
check_cases disk now s = elim (check_lem disk now s) [
  | inl e ↦ inl (plain, e)
  | inr e ↦ admission disk now s (attempts_of s.file) refl e
]

window_mono :
    (clock now : ℕ) → clock ≤ now → unix (clock - sudo_rate_window) ≤ unix (now - sudo_rate_window)
window_mono clock now h = omega arith

-- A refusal leaves the agreement as it is, at a later clock too.
later :
    {clock : ℕ} {s : Rate} {history : List ℕ} (now : ℕ)
    → clock ≤ now
    → Agrees clock s history
    → Agrees now s history
later {clock} now h a = record {
  attempts = a.attempts;
  stored = a.stored;
  from = a.from;
  from_old = omega (arith, window_mono clock now h, a.from_old);
  counts = a.counts;
  latest = a.latest;
}

module _ {clock : ℕ} {s : Rate} {history : List ℕ} (a : Agrees clock s history) (now : ℕ)
    (h : clock ≤ now) (attempts admitted : List ℕ) (stored : attempts_of s.file ≡ some attempts)
    (new : admit now attempts ≡ ok admitted) where
  same_attempts : a.attempts ≡ attempts
  same_attempts = ground (arith, a.stored)

  counts_here :
      (c : ℕ)
      → unix (now - sudo_rate_window) ≤ c
      → length (keep (leb c) attempts) ≡ count_since c history
  counts_here c k =
      subst (λ xs. length (keep (leb c) xs) ≡ count_since c history) same_attempts
        (a.counts c (omega (arith, window_mono clock now h, a.from_old)))

  after : Agrees now (record s { pending = true; file = holds admitted }) (now ∷ history)
  after = record {
    attempts = admitted;
    stored = refl;
    from = unix (now - sudo_rate_window);
    from_old = omega arith;
    counts = λ c k.
        rw (admitted_lem now attempts admitted new)
          (counts-admitted now c attempts history k (counts_here c k));
    latest =
        rw (admitted_lem now attempts admitted new) (last-append (unix now) (recent now attempts));
  }

  within : WithinBudget history → WithinBudget (now ∷ history)
  within w = (
    count_now now attempts history (kept-room now attempts admitted new)
        (counts_here (unix (now - sudo_rate_window)) (omega arith)),
    spaced now attempts history (kept-not_soon now attempts admitted new)
        (subst (λ xs. Latest xs history) same_attempts a.latest),
    w,
  )

run_within :
    (clock : ℕ) (s : Rate) (history : List ℕ) (events : List Event)
    → IsWellTimed clock events
    → Agrees clock s history
    → WithinBudget history
    → WithinBudget (run s history events)
unfolding run
run_within clock s history [] t a w = w
run_within clock s history (release ∷ events) t a w =
    run_within clock (unlock s) history events t
      (record {
        attempts = a.attempts;
        stored = a.stored;
        from = a.from;
        from_old = a.from_old;
        counts = a.counts;
        latest = a.latest;
      })
      w
run_within clock s history (attempt disk now ∷ events) (h, ok_write, t) a w =
    elim (check_cases disk now s) [
      | inl (e, p) ↦ rw p (run_within now s history events t (later now h a) w)
      | inr (attempts, admitted, stored, new, p) ↦
          rw (p, ok_write)
            (run_within now (record s { pending = true; file = holds admitted }) (now ∷ history)
              events t (after a now h attempts admitted stored new)
              (within a now h attempts admitted stored new w))
    ]

-- From a fresh state, whatever calls come and whenever locks are given back, if the clock does not go
-- back and the rate file can be written: of the attempts that `checkSudoRate` admits, at most five
-- fall, in whole seconds as they are recorded, into the ten minutes that end at an admitted one, and
-- each comes ten seconds at least after the start of the second of the one before.
pub sudo_rate_budget :
    (events : List Event) → IsWellTimed 0 events → WithinBudget (run fresh [] events)
sudo_rate_budget events t =
    run_within 0 fresh [] events t
      (record {
        attempts = [];
        stored = refl;
        from = 0;
        from_old = omega arith;
        counts = λ c k. unfold keep in refl;
        latest = tt;
      })
      tt
