-- ===== src/Sudo/Examples.antt =====
-- Concrete attempts (engine/sudo_test.go has such cases).
use oma_seal.Prelude.{
  ℕ, zero, suc, ◌+◌, ◌*◌, ◌≡◌, refl, ◌≢◌, true, false, List, [], ◌∷◌, ◌++◌, arith, nat_eq, bytes_eq,
  length, keep,
}
use oma_seal.Errors.{ok}
use oma_seal.Files.{holds, unix, second}
use oma_seal.Bytes.{codes}
use oma_seal.Presence.{Desktop, allow, require_presence_strict}
use oma_seal.Presence.Prompters.{Confirmed}
use oma_seal.Sudo.{Rate, Disk, check_sudo_rate}
use oma_seal.Sudo.Feed.{Machine, success, sudo_feed, touches_secret, sudo_feed_gated}
use oma_seal.Sudo.Budget.{Event, attempt, release, fresh, run, WithinBudget, sudo_rate_budget}

abbrev disk : Disk
disk = record { dir_ok = true; lock_opens = true; write_ok = true }

abbrev start : ℕ
start = 1000000 * second

-- six attempts, eleven seconds apart, with a lock that is given back each time
abbrev burst : ℕ → ℕ → List Event
burst zero now = []
burst (suc n) now = attempt disk now ∷ release ∷ burst n (now + 11 * second)

sixth_refused : length (run fresh [] (burst 6 start)) ≡ 5
unfolding run check_sudo_rate keep
sixth_refused = refl

-- At 0.9 s past a second, and 9.1 s later: both are admitted.
nine_seconds :
    length (
      run fresh []
        (attempt disk (start + 900000000) ∷ release ∷ attempt disk (start + 10 * second) ∷ []))
    ≡ 2
unfolding run check_sudo_rate keep
nine_seconds = refl

single_flight :
    length (run fresh [] (attempt disk start ∷ attempt disk (start + 20 * second) ∷ [])) ≡ 1
unfolding run check_sudo_rate keep
single_flight = refl

sudo_rate_budget_example : WithinBudget (run fresh [] (burst 6 start))
sudo_rate_budget_example = sudo_rate_budget (burst 6 start) (ground arith)

abbrev desktop : Desktop
desktop = record {
  fprintd_usable = false;
  fprintd_verified = false;
  graphical_session = true;
  gui_setting = [];
  available = λ k. true;
  confirm = λ k. allow;
}

abbrev machine : Machine
machine = record {
  desktop = desktop;
  disk = disk;
  stored_secret = ok (codes "hunter2");
  sudo_found = true;
  authenticate = λ input. success;
  command = success;
}

abbrev empty : Rate
empty = fresh

exits_with_0 : (sudo_feed machine start empty).0 ≡ 0
unfolding sudo_feed check_sudo_rate keep require_presence_strict
exits_with_0 = refl

sudo_feed_gated_example :
    (touches_secret (sudo_feed machine start empty).1 ≡ true → Confirmed desktop)
    × ((sudo_feed machine start empty).1 ≢ []
        → disk.write_ok ≡ true
        → (kept : List ℕ) × ((sudo_feed machine start empty).2.file
            ≡ holds (kept ++ unix start ∷ [])))
sudo_feed_gated_example = sudo_feed_gated machine start empty
