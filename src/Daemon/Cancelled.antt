-- ===== src/Daemon/Cancelled.antt =====
-- engine/svcprompt.go: what lockDaemonLocked leaves, and how the ends of prompts keep it.
use oma_seal.Prelude.{
  ◌≡◌, refl, sym, ap, ◌∙◌, subst, ◌⊎◌, inl, inr, Bool, true, false, not, ◌&&◌, Option, none, some,
  List, [], ◌∷◌, arith, if◌then◌else◌, Bool-cases, ◌==◌, eq_iff, nat_eq, bytes_eq, Map, lookup,
  remove, insert, lookup-insert, if_cases,
}
use oma_seal.Bytes.{Bytes}
use oma_seal.Files.{absent}
use oma_seal.Native.Crypto.{Age}
use oma_seal.Native.Store.{session_json_target}
use oma_seal.Native.Closed.{clear-Closed, reclear-Closed}
use oma_seal.Native.Unprompted.{Closed, Unattended}
use oma_seal.Daemon.{Prompt, Op, SvcDaemon, SvcWorld, keys_where, prompt_of}
use oma_seal.Daemon.Prompts.{
  Driven, dismiss_found, finish_prompt, finish_found, finish_all, cancel_running, cancel_found,
  cancel_op, reap_sender,
}
use oma_seal.Daemon.Lock.{cancel_all, lock_daemon, has_identity, relock_for_suspend}
use oma_seal.Daemon.Methods.{Host}
use oma_seal.Daemon.Steps.{DaemonStep, did_drive, did_store, did_elsewhere}

abbrev pub op_live : {age : Age} → Option (Op age) → Bool
op_live none = false
op_live (some o) = not o.cancelled

-- whether the goroutine of a prompt runs with a context that is not cancelled
abbrev pub live : {age : Age} → Bytes → Map Bytes (Op age) → Bool
live path ops = op_live (lookup path ops)

module _ {age : Age} where
  pub live-cancel_found :
      (i k : Bytes) (ops : Map Bytes (Op age)) (o : Option (Op age))
      → lookup k ops ≡ o
      → live i (cancel_found o k ops) ≡ (if k == i then false else live i ops)
  unfolding lookup insert
  live-cancel_found i k ops none at = elim (Bool-cases (k == i)) [
    | inl e ↦ rw e (ap op_live (subst (λ j. lookup j ops ≡ none) ((eq_iff k i).0 e) at))
    | inr e ↦ rw e refl
  ]
  live-cancel_found i k ops (some o) at = elim (Bool-cases (k == i)) [
    | inl e ↦ rw (lookup-insert i k (cancel_op o) ops, e) refl
    | inr e ↦ rw (lookup-insert i k (cancel_op o) ops, e) refl
  ]

  cancel_next : Prompt → Bytes → Map Bytes (Op age) → Map Bytes (Op age)
  unfolding lookup insert
  cancel_next p k ops = if p.running then cancel_found (lookup k ops) k ops else ops

  live-cancel_next :
      (i k : Bytes) (p : Prompt) (ops : Map Bytes (Op age))
      → live i (cancel_next p k ops) ≡ (if k == i && p.running then false else live i ops)
  unfolding cancel_next lookup insert
  live-cancel_next i k p ops = elim (Bool-cases p.running) [
    | inl e ↦ rw (e, live-cancel_found i k ops (lookup k ops) refl) (ground arith)
    | inr e ↦ rw e (ground arith)
  ]

  pub cancel_all_quiet :
      (i : Bytes) (prompts : Map Bytes Prompt) (ops : Map Bytes (Op age))
      → live i ops ≡ false
      → live i (cancel_all prompts ops) ≡ false
  unfolding cancel_all cancel_next lookup insert
  cancel_all_quiet i [] ops h = h
  cancel_all_quiet i ((k, p) ∷ prompts) ops h = cancel_all_quiet i prompts (cancel_next p k ops) (
      live-cancel_next i k p ops
      ∙ if_cases (λ b. b ≡ false) (k == i && p.running) _ _ (λ _. refl) (λ _. h))

  pub cancel_all_running :
      (i : Bytes) (p : Prompt) (prompts : Map Bytes Prompt) (ops : Map Bytes (Op age))
      → lookup i prompts ≡ some p
      → p.running ≡ true
      → live i (cancel_all prompts ops) ≡ false
  unfolding cancel_all cancel_next lookup insert
  cancel_all_running i p [] ops at runs = cc
  cancel_all_running i p ((k, q) ∷ prompts) ops at runs = elim (Bool-cases (k == i)) [
    | inl e ↦
        let same : q ≡ p = ground arith in
        cancel_all_quiet i prompts (cancel_next q k ops)
          (live-cancel_next i k q ops ∙ rw (e, ap (λ (r : Prompt). r.running) same, runs) refl)
    | inr e ↦ cancel_all_running i p prompts (cancel_next q k ops) (ground arith) runs
  ]

  -- The store is closed, and every goroutine that still runs is cancelled.
  pub record Shut (d : SvcDaemon age) : Type 0 where
    pub closed : Closed d.store
    pub all_cancelled : (path : Bytes) → live path d.running_ops ≡ false

  -- Every goroutine that is not cancelled is that of a prompt that is there.
  unfoldable pub Registered : SvcDaemon age → Type 0
  Registered d =
      (path : Bytes)
      → (live path d.running_ops ≡ false)
        ⊎ ((p : Prompt) × (lookup path d.prompts ≡ some p) × (p.running ≡ true))

  pub lock-Shut :
      (w : SvcWorld age) (d : SvcDaemon age)
      → w.native.removes session_json_target ≡ true
      → Registered d
      → Shut (lock_daemon w d)
  unfolding lock_daemon Registered
  lock-Shut w d removes registered = record {
    closed = clear-Closed w.native d.store removes;
    all_cancelled = λ path. elim (registered path) [
      | inl quiet ↦ cancel_all_quiet path d.prompts d.running_ops quiet
      | inr (p, at, runs) ↦ cancel_all_running path p d.prompts d.running_ops at runs
    ];
  }

  -- Steps that neither start a goroutine, nor open a session, nor have somebody answer at the terminal.
  unfoldable pub Quiet : {h : Host} {d e : SvcDaemon age} → DaemonStep h d e → Type 0
  Quiet (did_drive path sender d) = ⊥
  Quiet (did_store call w d) = Unattended w.native
  Quiet (did_elsewhere s marker d same) = s.session_json ≡ absent
  Quiet _ = Unit

  -- the same store and the same goroutines
  abbrev kept_shut :
      (d e : SvcDaemon age) → e.store ≡ d.store → e.running_ops ≡ d.running_ops → Shut d → Shut e
  kept_shut d e store ops shut = record {
    closed = subst Closed (sym store) shut.closed;
    all_cancelled = λ path. ap (live path) ops ∙ shut.all_cancelled path;
  }

  pub finish-Shut :
      (path : Bytes) (dismissed : Bool) (unlocked : Option (List Bytes)) (d : SvcDaemon age)
      (found : Option Prompt)
      → Shut d
      → Shut (finish_found found path dismissed unlocked d)
  unfolding remove
  finish-Shut path dismissed unlocked d none shut = shut
  finish-Shut path dismissed unlocked d (some p) shut = record {
    closed = shut.closed;
    all_cancelled = shut.all_cancelled;
  }

  finish_all-Shut : (paths : List Bytes) (d : SvcDaemon age) → Shut d → Shut (finish_all paths d)
  unfolding finish_prompt
  finish_all-Shut [] d shut = shut
  finish_all-Shut (path ∷ paths) d shut =
      finish_all-Shut paths (finish_prompt path true none d)
        (finish-Shut path true none d (lookup path d.prompts) shut)

  pub reap-Shut : (name : Bytes) (d : SvcDaemon age) → Shut d → Shut (reap_sender name d)
  unfolding reap_sender
  reap-Shut name d shut =
      finish_all-Shut (keys_where (prompt_of name) d.prompts) _
        (record { closed = shut.closed; all_cancelled = shut.all_cancelled })

  cancelled-Shut :
      (p : Prompt) (path : Bytes) (d : SvcDaemon age) → Shut d → Shut (cancel_running p path d)
  unfolding lookup insert
  cancelled-Shut p path d shut =
      if_cases Shut p.running _ _
        (λ _. record {
          closed = shut.closed;
          all_cancelled = λ i.
              live-cancel_found i path d.running_ops (lookup path d.running_ops) refl
              ∙ if_cases (λ b. b ≡ false) (path == i) _ _ (λ _. refl) (λ _. shut.all_cancelled i);
        })
        (λ _. shut)

  pub dismiss-Shut :
      (found : Option Prompt) (path sender : Bytes) (d : SvcDaemon age)
      → Shut d
      → Shut (dismiss_found found path sender d).1
  unfolding finish_prompt
  dismiss-Shut none path sender d shut = shut
  dismiss-Shut (some p) path sender d shut =
      if_cases (λ (r : Driven × SvcDaemon age). Shut r.1) (not (p.owner == sender)) _ _ (λ _. shut)
        (λ _.
          finish-Shut path true none (cancel_running p path d)
            (lookup path (cancel_running p path d).prompts) (cancelled-Shut p path d shut))

  pub again-Shut : (w : SvcWorld age) (d : SvcDaemon age) → Shut d → Shut (lock_daemon w d)
  unfolding lock_daemon
  again-Shut w d shut = record {
    closed = reclear-Closed w.native d.store shut.closed;
    all_cancelled = λ path. cancel_all_quiet path d.prompts d.running_ops (shut.all_cancelled path);
  }

  pub suspend-Shut : (w : SvcWorld age) (d : SvcDaemon age) → Shut d → Shut (relock_for_suspend w d)
  unfolding relock_for_suspend
  suspend-Shut w d shut =
      if_cases Shut (not (has_identity d) && not d.prompt_identity) _ _ (λ _. shut)
        (λ _. again-Shut w d shut)
