-- ===== src/Daemon/Signals.antt =====
-- engine/svcprompt.go: how often a prompt is signalled.
use oma_seal.Prelude.{
  ℕ, suc, ◌+◌, ◌≤◌, ◌≡◌, refl, ap, ◌∙◌, subst, inl, inr, Bool, true, false, not, Option, none, some,
  List, [], ◌∷◌, arith, leb, if◌then◌else◌, Bool-cases, ◌==◌, eq_iff, nat_eq, bytes_eq, length, any,
  lookup, remove, insert, if_cases,
}
use oma_seal.Bytes.{Bytes}
use oma_seal.Native.Crypto.{Age}
use oma_seal.Daemon.{Prompt, Completed, SvcDaemon, keys_where, prompt_of, prompt_of_uid, tally}
use oma_seal.Daemon.Prompts.{
  Driven, mint_new, drive_found, finish_prompt, finish_found, finish_all, completion, reap_sender,
}
use oma_seal.Daemon.Counts.{
  hits, one_if, hits_absent, hits_found, hits-insert, hits_replaced, hits-remove,
}
use oma_seal.Daemon.Frame.{Same}
use oma_seal.Daemon.Steps.{Fresh}

-- how many signals have ended a prompt
unfoldable pub signals : Bytes → List Completed → ℕ
signals path [] = 0
signals path (c ∷ cs) = let rest = signals path cs in if c.prompt == path then suc rest else rest

signals_more :
    (path : Bytes) (c : Completed) (cs : List Completed)
    → signals path (c ∷ cs) ≡ one_if (c.prompt == path) + signals path cs
unfolding signals
signals_more path c cs = ground arith

completion_of :
    (path : Bytes) (dismissed : Bool) (unlocked : Option (List Bytes)) (p : Prompt)
    → (completion path dismissed unlocked p).prompt ≡ path
completion_of path true unlocked p = refl
completion_of path false (some objects) p = refl
completion_of path false none p = refl

pub signals_next :
    (path other : Bytes) (dismissed : Bool) (unlocked : Option (List Bytes)) (p : Prompt)
    (cs : List Completed)
    → signals other (completion path dismissed unlocked p ∷ cs)
      ≡ one_if (path == other) + signals other cs
unfolding signals
signals_next path other dismissed unlocked p cs =
    signals_more other (completion path dismissed unlocked p) cs
    ∙ ap (λ q. one_if (q == other) + signals other cs) (completion_of path dismissed unlocked p)

signals_never :
    (path : Bytes) (cs : List Completed)
    → any (λ c. c.prompt == path) cs ≡ false
    → signals path cs ≡ 0
unfolding signals any
signals_never path [] h = refl
signals_never path (c ∷ cs) h = ground (arith, signals_never path cs)

-- A prompt is there or has completed, not both, and not twice.
unfoldable pub Once : {age : Age} → SvcDaemon age → Type 0
Once d = (path : Bytes) → hits path d.prompts + signals path d.completed ≤ 1

module _ {age : Age} where
  pub Same-Once : (d e : SvcDaemon age) → Same d e → Once d → Once e
  unfolding Once
  Same-Once d e q o path = rw (q.same_prompts, q.same_completed) (o path)

  finish_found-Once :
      (found : Option Prompt) (path : Bytes) (dismissed : Bool) (unlocked : Option (List Bytes))
      (d : SvcDaemon age)
      → lookup path d.prompts ≡ found
      → Once d
      → Once (finish_found found path dismissed unlocked d)
  unfolding Once remove
  finish_found-Once none path dismissed unlocked d at o = λ other. o other
  finish_found-Once (some p) path dismissed unlocked d at o = λ other.
      rw
        (signals_next path other dismissed unlocked p d.completed, hits-remove other path d.prompts)
        (elim (Bool-cases (path == other)) [
          | inl e ↦
              let alone : signals other d.completed ≡ 0 =
                subst (λ q. signals q d.completed ≡ 0) ((eq_iff path other).0 e)
                  (omega (arith, o path, hits_found path p d.prompts at)) in
              rw e (omega (arith, alone))
          | inr e ↦ rw e (omega (arith, o other))
        ])

  pub finish-Once :
      (path : Bytes) (dismissed : Bool) (unlocked : Option (List Bytes)) (d : SvcDaemon age)
      → Once d
      → Once (finish_prompt path dismissed unlocked d)
  unfolding finish_prompt
  finish-Once path dismissed unlocked d o =
      finish_found-Once (lookup path d.prompts) path dismissed unlocked d refl o

  finish_all-Once : (paths : List Bytes) (d : SvcDaemon age) → Once d → Once (finish_all paths d)
  unfolding finish_prompt
  finish_all-Once [] d o = o
  finish_all-Once (path ∷ paths) d o =
      finish_all-Once paths (finish_prompt path true none d) (finish-Once path true none d o)

  pub reap-Once : (name : Bytes) (d : SvcDaemon age) → Once d → Once (reap_sender name d)
  unfolding reap_sender Once
  reap-Once name d o = finish_all-Once (keys_where (prompt_of name) d.prompts) _ o

  pub drive_found-Once :
      (found : Option Prompt) (path sender : Bytes) (d : SvcDaemon age)
      → lookup path d.prompts ≡ found
      → Once d
      → Once (drive_found found path sender d).1
  unfolding lookup insert Once
  drive_found-Once none path sender d at o = λ other. o other
  drive_found-Once (some p) path sender d at o =
      if_cases (λ (r : Driven × SvcDaemon age). Once r.1) (not (p.owner == sender)) _ _ (λ _. o)
        (λ _.
          if_cases (λ (r : Driven × SvcDaemon age). Once r.1) p.running _ _ (λ _. o)
            (λ _ other.
              rw (hits_replaced other path (record p { running = true }) p d.prompts at) (o other)))

  pub mint_new-Once :
      (sender : Bytes) (uid : ℕ) (asked objects : List Bytes) (path : Bytes) (d : SvcDaemon age)
      → Fresh path d
      → Once d
      → Once (mint_new sender uid asked objects path d).1
  unfolding tally insert Once
  mint_new-Once sender uid asked objects path d fresh o =
      if_cases (λ (r : Option Bytes × SvcDaemon age). Once r.1) (leb 256 (length d.prompts)) _ _
        (λ _. o)
        (λ _.
          if_cases (λ (r : Option Bytes × SvcDaemon age). Once r.1)
            (leb 16 (tally (prompt_of_uid uid) d.prompts)) _ _ (λ _. o)
            (λ _ other.
              rw (hits-insert other path _ d.prompts fresh.no_prompt_there)
                (elim (Bool-cases (path == other)) [
                  | inl e ↦
                      let unused : hits other d.prompts + signals other d.completed ≡ 0 =
                        subst (λ q. hits q d.prompts + signals q d.completed ≡ 0)
                          ((eq_iff path other).0 e)
                          (omega (
                            arith,
                            hits_absent path d.prompts fresh.no_prompt_there,
                            signals_never path d.completed fresh.never_completed,
                          )) in
                      rw e (omega (arith, unused))
                  | inr e ↦ rw e (omega (arith, o other))
                ])))
