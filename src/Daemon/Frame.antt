-- ===== src/Daemon/Frame.antt =====
-- What locking and unlocking leave alone: sessions, prompts and the signals sent.
use oma_seal.Prelude.{
  ℕ, ◌≡◌, refl, not, ◌&&◌, ◌||◌, Option, none, some, [], ◌∷◌, ltb, nat_eq, bytes_eq, if_cases,
}
use oma_seal.Bytes.{Bytes}
use oma_seal.Errors.{Error, ok, err}
use oma_seal.Native.Crypto.{Age}
use oma_seal.Native.Store.{Outcome, unwrap_identity_pass}
use oma_seal.Daemon.{Op, SvcDaemon, SvcWorld}
use oma_seal.Daemon.Lock.{
  lock_daemon, locked, refreshed, has_identity, relock_for_suspend, check_prompt_identity,
  unwrap_op, unwrap_answer, keep_unwrapped, commit_op, commit_unwrapped, publish,
}

-- Of the two daemons, the second has the clients of the first.
pub record Same {age : Age} (d e : SvcDaemon age) : Type 0 where
  pub same_sessions : e.sessions ≡ d.sessions
  pub same_prompts : e.prompts ≡ d.prompts
  pub same_completed : e.completed ≡ d.completed

module _ {age : Age} where
  abbrev pub same : (d : SvcDaemon age) → Same d d
  same d = record { same_sessions = refl; same_prompts = refl; same_completed = refl }

  pub lock-Same : (w : SvcWorld age) (d : SvcDaemon age) → Same d (lock_daemon w d)
  unfolding lock_daemon
  lock-Same w d = record { same_sessions = refl; same_prompts = refl; same_completed = refl }

  check-Same : (w : SvcWorld age) (d : SvcDaemon age) → Same d (check_prompt_identity w d)
  unfolding check_prompt_identity
  check-Same w d =
      if_cases (Same d) (not d.prompt_identity || not (has_identity d)) _ _ (λ _. same d)
        (λ _.
          if_cases (Same d) (ltb d.prompt_expiry w.native.now) _ _ (λ _. lock-Same w d)
            (λ _. if_cases (Same d) (not d.marker) _ _ (λ _. lock-Same w d) (λ _. same d)))

  refreshed-Same :
      (o : Option age.Identity) (w : SvcWorld age) (d : SvcDaemon age) → Same d (refreshed o w d)
  unfolding check_prompt_identity
  refreshed-Same none w d = record {
    same_sessions = refl;
    same_prompts = refl;
    same_completed = refl;
  }
  refreshed-Same (some i) w d =
      if_cases (Same d) d.prompt_identity _ _ (λ _. check-Same w d)
        (λ _. record { same_sessions = refl; same_prompts = refl; same_completed = refl })

  pub locked-Same : (w : SvcWorld age) (d : SvcDaemon age) → Same d (locked w d).1
  unfolding locked
  locked-Same w d = refreshed-Same d.store.identity w d

  pub suspend-Same : (w : SvcWorld age) (d : SvcDaemon age) → Same d (relock_for_suspend w d)
  unfolding relock_for_suspend
  suspend-Same w d =
      if_cases (Same d) (not (has_identity d) && not d.prompt_identity) _ _ (λ _. same d)
        (λ _. lock-Same w d)

  kept-Same :
      (w : SvcWorld age) (path : Bytes) (o : Op age) (r : Outcome age.Identity age)
      (d : SvcDaemon age)
      → Same d (keep_unwrapped w path o r d).1
  kept-Same w path o (err e, s) d = record {
    same_sessions = refl;
    same_prompts = refl;
    same_completed = refl;
  }
  kept-Same w path o (ok i, s) d = record {
    same_sessions = refl;
    same_prompts = refl;
    same_completed = refl;
  }

  answer-Same :
      (w : SvcWorld age) (path : Bytes) (o : Op age) (answer : Option Bytes) (d : SvcDaemon age)
      → Same d (unwrap_answer w path o answer d).1
  unfolding unwrap_identity_pass
  answer-Same w path o none d = same d
  answer-Same w path o (some []) d = same d
  answer-Same w path o (some (c ∷ pass)) d =
      kept-Same w path o (unwrap_identity_pass (c ∷ pass) d.store) d

  pub unwrap-Same :
      (w : SvcWorld age) (path : Bytes) (o : Op age) (answer : Option Bytes) (d : SvcDaemon age)
      → Same d (unwrap_op w path o answer d).1
  unfolding unwrap_op
  unwrap-Same w path o answer d = answer-Same w path o answer d

  publish-Same :
      (w : SvcWorld age) (i : age.Identity) (expiry : ℕ) (d : SvcDaemon age)
      → Same d (publish w i expiry d).1
  publish-Same w i expiry d =
      if_cases (λ (r : Option Error × SvcDaemon age). Same d r.1) w.marker_writes _ _
        (λ _. record { same_sessions = refl; same_prompts = refl; same_completed = refl })
        (λ _. record { same_sessions = refl; same_prompts = refl; same_completed = refl })

  commit_unwrapped-Same :
      (w : SvcWorld age) (o : Op age) (u : Option (age.Identity × ℕ)) (d : SvcDaemon age)
      → Same d (commit_unwrapped w o u d).1
  commit_unwrapped-Same w o none d = same d
  commit_unwrapped-Same w o (some (i, expiry)) d =
      if_cases (λ (r : Option Error × SvcDaemon age). Same d r.1) o.cancelled _ _ (λ _. same d)
        (λ _. publish-Same w i expiry d)

  pub commit-Same : (w : SvcWorld age) (o : Op age) (d : SvcDaemon age) → Same d (commit_op w o d).1
  unfolding commit_op
  commit-Same w o d = commit_unwrapped-Same w o o.unwrapped d
