-- ===== src/Daemon/Registry.antt =====
-- engine/svcprompt.go: every goroutine is that of a prompt, as long as no client leaves while its prompt
-- is shown.
use oma_seal.Prelude.{
  ℕ, ◌≡◌, refl, sym, ap, ◌∙◌, subst, ◌⊎◌, inl, inr, Bool, true, false, not, ◌&&◌, ◌||◌, Option,
  none, some, List, [], ◌∷◌, ltb, leb, Bool-cases, some_injective, true_not_false, found_absent,
  ◌==◌, eq_iff, eq_refl, nat_eq, bytes_eq, length, All, Map, lookup, remove, insert, lookup-insert,
  lookup-remove, if-true, if-false, if_cases, lookup-insert_other, lookup-remove_other,
}
use oma_seal.Bytes.{Bytes}
use oma_seal.Errors.{Error, ok, err}
use oma_seal.Native.Crypto.{Age}
use oma_seal.Native.Store.{Outcome, load_session, unwrap_identity_pass}
use oma_seal.Daemon.{
  svc_max_prompts_global, svc_max_prompts_per_uid, Prompt, Op, SvcDaemon, SvcWorld, keys_where,
  prompt_of, prompt_of_uid, tally,
}
use oma_seal.Daemon.Prompts.{
  Driven, start_op, mint_unless, drive_found, dismiss_found, finish_prompt, finish_found,
  finish_all, cancel_found, reap_sender,
}
use oma_seal.Daemon.Lock.{
  lock_daemon, refreshed, has_identity, relock_for_suspend, check_prompt_identity, unwrap_answer,
  keep_unwrapped, commit_unwrapped, end_op,
}
use oma_seal.Daemon.Cancelled.{
  live, op_live, Registered, cancel_all_quiet, cancel_all_running, live-cancel_found,
}

module _ {age : Age} where
  abbrev Listed : Map Bytes (Op age) → Map Bytes Prompt → Bytes → Type 0
  Listed ops prompts path =
      (live path ops ≡ false) ⊎ ((p : Prompt) × (lookup path prompts ≡ some p) × (p.running ≡ true))

  carried :
      (ops ops' : Map Bytes (Op age)) (prompts prompts' : Map Bytes Prompt) (path : Bytes)
      → live path ops' ≡ live path ops
      → lookup path prompts' ≡ lookup path prompts
      → Listed ops prompts path
      → Listed ops' prompts' path
  carried ops ops' prompts prompts' path l same (inl quiet) = inl (l ∙ quiet)
  carried ops ops' prompts prompts' path l same (inr (p, at, runs)) = inr (p, same ∙ at, runs)

  finish-Registered :
      (found : Option Prompt) (path : Bytes) (dismissed : Bool) (unlocked : Option (List Bytes))
      (d : SvcDaemon age)
      → live path d.running_ops ≡ false
      → Registered d
      → Registered (finish_found found path dismissed unlocked d)
  unfolding Registered remove
  finish-Registered none path dismissed unlocked d quiet reg = reg
  finish-Registered (some p) path dismissed unlocked d quiet reg = λ i.
      elim (Bool-cases (path == i)) [
        | inl e ↦ inl (subst (λ j. live j d.running_ops ≡ false) ((eq_iff path i).0 e) quiet)
        | inr e ↦ carried _ _ d.prompts _ i refl (lookup-remove_other i path d.prompts e) (reg i)
      ]

  finish_found-ops :
      (found : Option Prompt) (path : Bytes) (dismissed : Bool) (unlocked : Option (List Bytes))
      (d : SvcDaemon age)
      → (finish_found found path dismissed unlocked d).running_ops ≡ d.running_ops
  unfolding remove
  finish_found-ops none path dismissed unlocked d = refl
  finish_found-ops (some p) path dismissed unlocked d = refl

  finish_all-Registered :
      (paths : List Bytes) (d : SvcDaemon age)
      → All (λ path. live path d.running_ops ≡ false) paths
      → Registered d
      → Registered (finish_all paths d)
  unfolding finish_prompt
  finish_all-Registered [] d quiet reg = reg
  finish_all-Registered (path ∷ paths) d (q, quiet) reg =
      let found = lookup path d.prompts in
      finish_all-Registered paths (finish_found found path true none d)
        (subst (λ ops. All (λ p. live p ops ≡ false) paths)
          (sym (finish_found-ops found path true none d)) quiet)
        (finish-Registered found path true none d q reg)

  pub reap-Registered :
      (name : Bytes) (d : SvcDaemon age)
      → All (λ path. live path d.running_ops ≡ false) (keys_where (prompt_of name) d.prompts)
      → Registered d
      → Registered (reap_sender name d)
  unfolding reap_sender Registered
  reap-Registered name d quiet reg =
      finish_all-Registered (keys_where (prompt_of name) d.prompts) _ quiet reg

  pub lock-Registered :
      (w : SvcWorld age) (d : SvcDaemon age) → Registered d → Registered (lock_daemon w d)
  unfolding lock_daemon Registered
  lock-Registered w d reg path = elim (reg path) [
    | inl quiet ↦ inl (cancel_all_quiet path d.prompts d.running_ops quiet)
    | inr (p, at, runs) ↦ inl (cancel_all_running path p d.prompts d.running_ops at runs)
  ]

  pub suspend-Registered :
      (w : SvcWorld age) (d : SvcDaemon age) → Registered d → Registered (relock_for_suspend w d)
  unfolding relock_for_suspend
  suspend-Registered w d reg =
      if_cases Registered (not (has_identity d) && not d.prompt_identity) _ _ (λ _. reg)
        (λ _. lock-Registered w d reg)

  check-Registered :
      (w : SvcWorld age) (d : SvcDaemon age) → Registered d → Registered (check_prompt_identity w d)
  unfolding check_prompt_identity
  check-Registered w d reg =
      if_cases Registered (not d.prompt_identity || not (has_identity d)) _ _ (λ _. reg)
        (λ _.
          if_cases Registered (ltb d.prompt_expiry w.native.now) _ _ (λ _. lock-Registered w d reg)
            (λ _. if_cases Registered (not d.marker) _ _ (λ _. lock-Registered w d reg) (λ _. reg)))

  pub refreshed-Registered :
      (o : Option age.Identity) (w : SvcWorld age) (d : SvcDaemon age)
      → Registered d
      → Registered (refreshed o w d)
  unfolding Registered load_session
  refreshed-Registered none w d reg = reg
  refreshed-Registered (some _) w d reg =
      if_cases Registered d.prompt_identity _ _ (λ _. check-Registered w d reg) (λ _. reg)

  pub mint-Registered :
      (mine : List Bytes) (sender : Bytes) (uid : ℕ) (asked objects : List Bytes) (fresh : Bytes)
      (d : SvcDaemon age)
      → lookup fresh d.prompts ≡ none
      → Registered d
      → Registered (mint_unless mine sender uid asked objects fresh d).1
  unfolding Registered tally insert
  mint-Registered (path ∷ _) sender uid asked objects fresh d gone reg = reg
  mint-Registered [] sender uid asked objects fresh d gone reg =
      if_cases (λ (r : Option Bytes × SvcDaemon age). Registered r.1)
        (leb svc_max_prompts_global (length d.prompts)) _ _ (λ _. reg)
        (λ _.
          if_cases (λ (r : Option Bytes × SvcDaemon age). Registered r.1)
            (leb svc_max_prompts_per_uid (tally (prompt_of_uid uid) d.prompts)) _ _ (λ _. reg)
            (λ _ i. elim (Bool-cases (fresh == i)) [
              | inl e ↦ inl (
                  subst (λ j. live j d.running_ops ≡ false) ((eq_iff fresh i).0 e)
                    (elim (reg fresh) [
                      | inl quiet ↦ quiet
                      | inr (p, at, runs) ↦ absurd (found_absent p (sym gone ∙ at))
                    ]))
              | inr e ↦
                  carried _ _ d.prompts _ i refl (lookup-insert_other i fresh _ d.prompts e) (reg i)
            ]))

  pub drive-Registered :
      (found : Option Prompt) (path sender : Bytes) (d : SvcDaemon age)
      → Registered d
      → Registered (drive_found found path sender d).1
  unfolding Registered insert
  drive-Registered none path sender d reg = reg
  drive-Registered (some p) path sender d reg =
      if_cases (λ (r : Driven × SvcDaemon age). Registered r.1) (not (p.owner == sender)) _ _
        (λ _. reg)
        (λ _.
          if_cases (λ (r : Driven × SvcDaemon age). Registered r.1) p.running _ _ (λ _. reg)
            (λ _ i. elim (Bool-cases (path == i)) [
              | inl e ↦ inr (
                record p { running = true },
                lookup-insert i path _ d.prompts ∙ if-true _ e,
                refl,
              )
              | inr e ↦
                  carried d.running_ops _ d.prompts _ i
                    (ap op_live (lookup-insert_other i path (start_op p) d.running_ops e))
                    (lookup-insert_other i path _ d.prompts e) (reg i)
            ]))

  cancelled-Registered :
      (p : Prompt) (path : Bytes) (d : SvcDaemon age)
      → Registered d
      → Registered
          (record d { running_ops = cancel_found (lookup path d.running_ops) path d.running_ops })
  unfolding Registered lookup insert
  cancelled-Registered p path d reg i =
      let l = live-cancel_found i path d.running_ops (lookup path d.running_ops) refl in
      elim (Bool-cases (path == i)) [
        | inl e ↦ inl (l ∙ if-true _ e)
        | inr e ↦ carried d.running_ops _ d.prompts d.prompts i (l ∙ if-false _ e) refl (reg i)
      ]

  -- the goroutine of a prompt that is not shown
  idle_quiet :
      (p : Prompt) (path : Bytes) (d : SvcDaemon age)
      → lookup path d.prompts ≡ some p
      → p.running ≡ false
      → Registered d
      → live path d.running_ops ≡ false
  unfolding Registered
  idle_quiet p path d at idle reg = elim (reg path) [
    | inl quiet ↦ quiet
    | inr (q, there, runs) ↦
        let same = some_injective q p (sym there ∙ at) in
        absurd (true_not_false (sym runs ∙ ap (λ (x : Prompt). x.running) same ∙ idle))
  ]

  pub dismiss-Registered :
      (found : Option Prompt) (path sender : Bytes) (d : SvcDaemon age)
      → lookup path d.prompts ≡ found
      → Registered d
      → Registered (dismiss_found found path sender d).1
  unfolding finish_prompt
  dismiss-Registered none path sender d at reg = reg
  dismiss-Registered (some p) path sender d at reg =
      if_cases (λ (r : Driven × SvcDaemon age). Registered r.1) (not (p.owner == sender)) _ _
        (λ _. reg)
        (λ _.
          if_cases (λ (e : SvcDaemon age). Registered (finish_prompt path true none e)) p.running _
            _
            (λ _.
              finish-Registered (lookup path d.prompts) path true none _
                (live-cancel_found path path d.running_ops (lookup path d.running_ops) refl
                  ∙ if-true _ (eq_refl path))
                (cancelled-Registered p path d reg))
            (λ idle.
              finish-Registered (lookup path d.prompts) path true none d
                (idle_quiet p path d at idle reg) reg))

  pub end-Registered :
      (path : Bytes) (failure : Option Error) (unlocked : List Bytes) (d : SvcDaemon age)
      → Registered d
      → Registered (end_op path failure unlocked d)
  unfolding end_op finish_prompt Registered
  end-Registered path failure unlocked d reg =
      let ended = record d { running_ops = remove path d.running_ops } in
      finish-Registered (lookup path d.prompts) path _ _ ended
        (ap op_live (lookup-remove path path d.running_ops ∙ if-true _ (eq_refl path)))
        (λ i. elim (Bool-cases (path == i)) [
          | inl e ↦ inl (ap op_live (lookup-remove i path d.running_ops ∙ if-true _ e))
          | inr e ↦
              carried d.running_ops _ d.prompts d.prompts i
                (ap op_live (lookup-remove_other i path d.running_ops e)) refl (reg i)
        ])

  unwrapped-Registered :
      (w : SvcWorld age) (path : Bytes) (o : Op age) (r : Outcome age.Identity age)
      (d : SvcDaemon age)
      → lookup path d.running_ops ≡ some o
      → Registered d
      → Registered (keep_unwrapped w path o r d).1
  unfolding Registered insert
  unwrapped-Registered w path o (err e, s) d at reg = reg
  unwrapped-Registered w path o (ok j, s) d at reg = λ i.
      carried d.running_ops _ d.prompts d.prompts i
        (ap op_live (lookup-insert i path _ d.running_ops) ∙ elim (Bool-cases (path == i)) [
          | inl e ↦
              ap op_live (if-true _ e)
              ∙ ap op_live (sym at)
              ∙ ap (λ k. live k d.running_ops) ((eq_iff path i).0 e)
          | inr e ↦ ap op_live (if-false _ e)
        ])
        refl (reg i)

  pub answer-Registered :
      (w : SvcWorld age) (path : Bytes) (o : Op age) (answer : Option Bytes) (d : SvcDaemon age)
      → lookup path d.running_ops ≡ some o
      → Registered d
      → Registered (unwrap_answer w path o answer d).1
  unfolding unwrap_identity_pass
  answer-Registered w path o none d at reg = reg
  answer-Registered w path o (some []) d at reg = reg
  answer-Registered w path o (some (c ∷ pass)) d at reg =
      unwrapped-Registered w path o (unwrap_identity_pass (c ∷ pass) d.store) d at reg

  pub commit-Registered :
      (w : SvcWorld age) (o : Op age) (u : Option (age.Identity × ℕ)) (d : SvcDaemon age)
      → Registered d
      → Registered (commit_unwrapped w o u d).1
  unfolding Registered
  commit-Registered w o none d reg = reg
  commit-Registered w o (some (i, expiry)) d reg =
      if_cases (λ (r : Option Error × SvcDaemon age). Registered r.1) o.cancelled _ _ (λ _. reg)
        (λ _.
          if_cases (λ (r : Option Error × SvcDaemon age). Registered r.1) w.marker_writes _ _
            (λ _. reg) (λ _. reg))
