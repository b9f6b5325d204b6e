-- ===== src/Sudo/Counts.antt =====
-- One admitted attempt: the times that stay in the record, counted and spaced.
use oma_seal.Prelude.{
  ℕ, suc, ◌+◌, ◌-◌, ◌≤◌, ◌<◌, ◌≡◌, refl, inl, inr, Bool, true, false, some, List, [], ◌∷◌, ◌++◌,
  arith, leb, if◌then◌else◌, Bool-cases, nat_eq, bytes_eq, length, keep,
}
use oma_seal.Errors.{ok}
use oma_seal.Files.{unix, at_unix}
use oma_seal.Sudo.{
  sudo_rate_window, sudo_rate_max, sudo_rate_min_interval, recent, last_of, too_soon, admit,
}

-- how many attempts of a history are not older than the Unix time `cutoff`
abbrev pub count_since : ℕ → List ℕ → ℕ
count_since cutoff [] = 0
count_since cutoff (t ∷ history) =
    let rest = count_since cutoff history in if leb cutoff (unix t) then suc rest else rest

abbrev pub IsSpaced : ℕ → List ℕ → Type 0
IsSpaced now [] = Unit
IsSpaced now (t ∷ _) = at_unix (unix t) + sudo_rate_min_interval ≤ now

-- how the file and the history agree
abbrev pub Latest : List ℕ → List ℕ → Type 0
Latest attempts [] = Unit
Latest attempts (t ∷ _) = last_of attempts ≡ some (unix t)

keep-keep :
    (c d : ℕ) (xs : List ℕ)
    → c ≤ d
    → length (keep (leb d) (keep (leb c) xs)) ≡ length (keep (leb d) xs)
unfolding keep
keep-keep c d [] h = refl
keep-keep c d (x ∷ xs) h = ground (arith, keep-keep c d xs)

keep-append :
    (c x : ℕ) (xs : List ℕ)
    → length (keep (leb c) (xs ++ x ∷ [])) ≡ length (keep (leb c) xs) + (if leb c x then 1 else 0)
unfolding keep
keep-append c x [] = ground arith
keep-append c x (y ∷ xs) = ground (arith, keep-append c x xs)

pub last-append : (x : ℕ) (xs : List ℕ) → last_of (xs ++ x ∷ []) ≡ some x
last-append x [] = refl
last-append x (y ∷ []) = refl
last-append x (y ∷ z ∷ xs) = last-append x (z ∷ xs)

last-cons : (y x : ℕ) (l : List ℕ) → last_of l ≡ some x → last_of (y ∷ l) ≡ some x
last-cons y x [] h = cc
last-cons y x (z ∷ l) h = h

last-if :
    (b : Bool) (y x : ℕ) (l : List ℕ)
    → last_of l ≡ some x
    → last_of (if b then y ∷ l else l) ≡ some x
last-if true y x l h = last-cons y x l h
last-if false y x l h = h

-- the latest attempt, if it is recent, is the latest that is kept
last-keep :
    (c x : ℕ) (xs : List ℕ) → last_of xs ≡ some x → c ≤ x → last_of (keep (leb c) xs) ≡ some x
unfolding keep
last-keep c x [] h k = cc
last-keep c x (y ∷ []) h k = ground arith
last-keep c x (y ∷ z ∷ xs) h k =
    last-if (leb c y) y x (keep (leb c) (z ∷ xs)) (last-keep c x (z ∷ xs) h k)

-- one admitted attempt
module _ (now : ℕ) (attempts : List ℕ) (admitted : List ℕ)
    (h : admit now attempts ≡ ok admitted) where
  pub kept-room : length (recent now attempts) < sudo_rate_max
  unfolding admit
  kept-room = ground arith

  pub admitted_lem : admitted ≡ recent now attempts ++ unix now ∷ []
  unfolding admit
  admitted_lem = ground arith

  pub kept-not_soon : too_soon now (last_of (recent now attempts)) ≡ false
  unfolding admit
  kept-not_soon = ground arith

unix_late :
    (t now : ℕ) → t < unix (now - sudo_rate_window) → at_unix t + sudo_rate_min_interval ≤ now
unix_late t now h = omega arith

pub spaced :
    (now : ℕ) (attempts history : List ℕ)
    → too_soon now (last_of (recent now attempts)) ≡ false
    → Latest attempts history
    → IsSpaced now history
unfolding recent
spaced now attempts [] h l = tt
spaced now attempts (t ∷ history) h l =
    elim (Bool-cases (leb (unix (now - sudo_rate_window)) (unix t))) [
      | inl new ↦ ground (arith, last-keep (unix (now - sudo_rate_window)) (unix t) attempts l)
      | inr old ↦ unix_late (unix t) now (ground arith)
    ]

pub counts-admitted :
    (now c : ℕ) (attempts history : List ℕ)
    → unix (now - sudo_rate_window) ≤ c
    → length (keep (leb c) attempts) ≡ count_since c history
    → length (keep (leb c) (recent now attempts ++ unix now ∷ [])) ≡ count_since c (now ∷ history)
unfolding recent
counts-admitted now c attempts history h e = ground (
  arith,
  keep-append c (unix now) (recent now attempts),
  keep-keep (unix (now - sudo_rate_window)) c attempts h,
)

pub count_now :
    (now : ℕ) (attempts history : List ℕ)
    → length (recent now attempts) < sudo_rate_max
    → length (keep (leb (unix (now - sudo_rate_window))) attempts)
      ≡ count_since (unix (now - sudo_rate_window)) history
    → count_since (unix (now - sudo_rate_window)) (now ∷ history) ≤ sudo_rate_max
unfolding recent
count_now now attempts history h e = ground arith
