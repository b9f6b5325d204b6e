-- ===== src/Daemon/Once.antt =====
-- Every prompt is completed at most once.
use oma_seal.Prelude.{
  ℕ, ◌≤◌, ◌≡◌, refl, ◌∙◌, ◌⊎◌, inl, inr, Bool, true, not, Option, none, some, List, [], ◌∷◌, arith,
  leb, ◌==◌, eq_refl, nat_eq, bytes_eq, Map, lookup, remove, insert, if_cases,
}
use oma_seal.Bytes.{Bytes}
use oma_seal.Native.Crypto.{Age}
use oma_seal.Native.Store.{NativeStore}
use oma_seal.Errors.{Error}
use oma_seal.Daemon.{
  Codec, Session, Prompt, SvcItem, SvcDaemon, SvcWorld, keys_where, prompt_of, tally,
}
use oma_seal.Daemon.Prompts.{
  Driven, mint_prompt, mint_unless, drive_prompt, dismiss_prompt, dismiss_found, finish_prompt,
  finish_found, cancel_running,
}
use oma_seal.Daemon.Counts.{hits, hits_found}
use oma_seal.Daemon.Calls.{Call}
use oma_seal.Daemon.Rows.{Answer}
use oma_seal.Daemon.Methods.{Host, add_session, close_found}
use oma_seal.Daemon.Frame.{lock-Same, suspend-Same, locked-Same, unwrap-Same, commit-Same}
use oma_seal.Daemon.Lock.{end_op}
use oma_seal.Daemon.Steps.{
  DaemonStep, DaemonSteps, Fresh, did_open, did_close, did_mint, did_drive, did_dismiss, did_reap,
  did_lock, did_suspend, did_check, did_unwrap, did_commit, did_end, did_store, did_index,
  did_elsewhere, no_steps, then_step, started,
}
use oma_seal.Daemon.Signals.{
  signals, signals_next, Once, Same-Once, finish-Once, reap-Once, drive_found-Once, mint_new-Once,
}

module _ {age : Age} where
  mint-Once :
      (sender : Bytes) (uid : ℕ) (asked objects : List Bytes) (path : Bytes) (d : SvcDaemon age)
      (found : List Bytes)
      → Fresh path d
      → Once d
      → Once (mint_unless found sender uid asked objects path d).1
  unfolding tally insert
  mint-Once sender uid asked objects path d (other ∷ _) fresh o = o
  mint-Once sender uid asked objects path d [] fresh o =
      mint_new-Once sender uid asked objects path d fresh o

  dismiss_found-Once :
      (found : Option Prompt) (path sender : Bytes) (d : SvcDaemon age)
      → Once d
      → Once (dismiss_found found path sender d).1
  unfolding finish_prompt Once
  dismiss_found-Once none path sender d o = λ other. o other
  dismiss_found-Once (some p) path sender d o =
      if_cases (λ (r : Driven × SvcDaemon age). Once r.1) (not (p.owner == sender)) _ _ (λ _. o)
        (λ _.
          finish-Once path true none (cancel_running p path d)
            (if_cases Once p.running _ _ (λ _. o) (λ _. o)))

  open-Once :
      (h : Host) (codec : Codec) (c : Call) (uid : ℕ) (path : Bytes) (w : SvcWorld age)
      (d : SvcDaemon age)
      → Once d
      → Once (add_session h codec c uid path w d).1
  unfolding tally insert Once
  open-Once h codec c uid path w d o =
      if_cases (λ (r : Answer Bytes age). Once r.1) (leb 64 _) _ _ (λ _. o) (λ _. o)

  close-Once :
      (found : Option Session) (c : Call) (d : SvcDaemon age)
      → Once d
      → Once (close_found found c d).1
  unfolding remove Once
  close-Once none c d o = λ other. o other
  close-Once (some s) c d o =
      if_cases (λ (r : Answer (Unit {0}) age). Once r.1) (s.owner == c.sender) _ _ (λ _. o) (λ _. o)

  step-Once : (h : Host) (d e : SvcDaemon age) → DaemonStep h d e → Once d → Once e
  unfolding mint_prompt drive_prompt dismiss_prompt end_op Once
  step-Once h d _ (did_open codec c uid path w _ fresh) o = open-Once h codec c uid path w d o
  step-Once h d _ (did_close c _) o = close-Once (lookup c.path d.sessions) c d o
  step-Once h d _ (did_mint sender uid asked objects path _ fresh) o =
      mint-Once sender uid asked objects path d (keys_where (prompt_of sender) d.prompts) fresh o
  step-Once h d _ (did_drive path sender _) o =
      drive_found-Once (lookup path d.prompts) path sender d refl o
  step-Once h d _ (did_dismiss path sender _) o =
      dismiss_found-Once (lookup path d.prompts) path sender d o
  step-Once h d _ (did_reap name _) o = reap-Once name d o
  step-Once h d _ (did_lock w _) o = Same-Once d _ (lock-Same w d) o
  step-Once h d _ (did_suspend w _) o = Same-Once d _ (suspend-Same w d) o
  step-Once h d _ (did_check w _) o = Same-Once d _ (locked-Same w d) o
  step-Once h d _ (did_unwrap w path op answer _ _) o =
      Same-Once d _ (unwrap-Same w path op answer d) o
  step-Once h d _ (did_commit w path op _ _) o = Same-Once d _ (commit-Same w op d) o
  step-Once h d _ (did_end path failure unlocked _) o = finish-Once path _ _ _ o
  step-Once h d _ (did_store call w _) o = o
  step-Once h d _ (did_index index _) o = o
  step-Once h d _ (did_elsewhere s marker _ _) o = o

  run-Once : (h : Host) (d e : SvcDaemon age) → DaemonSteps h d e → Once d → Once e
  run-Once h d _ (no_steps _) o = o
  run-Once h d f (then_step _ e _ before s) o = step-Once h e f s (run-Once h d e before o)

  started-Once :
      (s : NativeStore age) (index : Map Bytes SvcItem) (marker : Bool)
      → Once (started s index marker)
  unfolding started Once hits signals
  started-Once s index marker path = omega arith

  at_most_one : (d : SvcDaemon age) (path : Bytes) → Once d → signals path d.completed ≤ 1
  unfolding Once
  at_most_one d path o = omega (arith, o path)

  -- the end of a prompt that is there
  ended :
      (found : Option Prompt) (path : Bytes) (dismissed : Bool) (unlocked : Option (List Bytes))
      (d : SvcDaemon age)
      → lookup path d.prompts ≡ found
      → Once d
      → (found ≡ none)
        ⊎ ((signals path d.completed ≡ 0)
            × (signals path (finish_found found path dismissed unlocked d).completed ≡ 1))
  unfolding Once remove
  ended none path dismissed unlocked d at o = inl refl
  ended (some p) path dismissed unlocked d at o =
      let unsignalled : signals path d.completed ≡ 0 =
        omega (arith, o path, hits_found path p d.prompts at) in
      inr (
        unsignalled,
        signals_next path path dismissed unlocked p d.completed
            ∙ rw (eq_refl path) (omega (arith, unsignalled)),
      )

  ended_op :
      (path : Bytes) (failure : Option Error) (unlocked : List Bytes) (d : SvcDaemon age)
      → Once d
      → (lookup path d.prompts ≡ none)
        ⊎ ((signals path d.completed ≡ 0)
            × (signals path (end_op path failure unlocked d).completed ≡ 1))
  unfolding end_op finish_prompt Once
  ended_op path failure unlocked d o =
      ended (lookup path d.prompts) path _ _ (record d { running_ops = remove path d.running_ops })
        refl o

  -- However the critical sections interleave, if ids are fresh: no prompt is completed twice, and the
  -- end of a goroutine completes its prompt, which was not completed before, unless the prompt is
  -- already gone.
  pub completed_once :
      (h : Host) (s : NativeStore age) (index : Map Bytes SvcItem) (marker : Bool)
      (d : SvcDaemon age) (path : Bytes) (failure : Option Error) (unlocked : List Bytes)
      → DaemonSteps h (started s index marker) d
      → (signals path d.completed ≤ 1)
        × ((lookup path d.prompts ≡ none)
            ⊎ ((signals path d.completed ≡ 0)
                × (signals path (end_op path failure unlocked d).completed ≡ 1)))
  completed_once h s index marker d path failure unlocked run =
      let o = run-Once h (started s index marker) d run (started-Once s index marker) in
      (at_most_one d path o, ended_op path failure unlocked d o)
