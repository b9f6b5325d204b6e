-- ===== src/Daemon/Within.antt =====
-- engine/svcbus.go and engine/svcprompt.go: the budgets, and how the steps of a prompt keep them.
use oma_seal.Prelude.{
  if_cases, eq_iff, ℕ, ◌≤◌, ◌<◌, ◌≡◌, refl, subst, Bool, true, false, not, Option, none, some, List,
  [], ◌∷◌, arith, leb, ◌==◌, eq_iff, nat_eq, bytes_eq, length, lookup, remove, insert,
}
use oma_seal.Bytes.{Bytes}
use oma_seal.Native.Crypto.{Age}
use oma_seal.Daemon.{
  Prompt, SvcDaemon, tally, keys_where, prompt_of, prompt_of_uid, session_of_uid, session_of_owner,
}
use oma_seal.Daemon.Prompts.{
  mint_unless, mint_new, drive_found, finish_prompt, finish_found, finish_all, reap_sender, Driven,
}
use oma_seal.Daemon.Counts.{
  tally_room, tally_replaced, tally-remove, tally-drop_where, tally_none, length-insert,
  length_replaced, length-remove,
}
use oma_seal.Daemon.Frame.{Same}

-- At most 64 sessions of a user; at most 256 prompts, 16 of a user and one of a client.
pub record Budgets {age : Age} (d : SvcDaemon age) : Type 0 where
  pub sessions_per_uid : (uid : ℕ) → tally (session_of_uid uid) d.sessions ≤ 64
  pub prompts_in_all : length d.prompts ≤ 256
  pub prompts_per_uid : (uid : ℕ) → tally (prompt_of_uid uid) d.prompts ≤ 16
  pub prompts_per_owner : (owner : Bytes) → tally (prompt_of owner) d.prompts ≤ 1

abbrev new_prompt : Bytes → ℕ → List Bytes → List Bytes → Prompt
new_prompt sender uid asked objects = record {
  owner = sender;
  uid = uid;
  running = false;
  asked = asked;
  objects = objects;
}

module _ {age : Age} where
  pub Same-Budgets : (d e : SvcDaemon age) → Same d e → Budgets d → Budgets e
  Same-Budgets d e q b = record {
    sessions_per_uid = λ uid. rw q.same_sessions (b.sessions_per_uid uid);
    prompts_in_all = rw q.same_prompts b.prompts_in_all;
    prompts_per_uid = λ uid. rw q.same_prompts (b.prompts_per_uid uid);
    prompts_per_owner = λ owner. rw q.same_prompts (b.prompts_per_owner owner);
  }

  -- fewer prompts and sessions
  finish_found-Budgets :
      (o : Option Prompt) (path : Bytes) (dismissed : Bool) (unlocked : Option (List Bytes))
      (d : SvcDaemon age)
      → Budgets d
      → Budgets (finish_found o path dismissed unlocked d)
  unfolding remove
  finish_found-Budgets none path dismissed unlocked d b = b
  finish_found-Budgets (some p) path dismissed unlocked d b = record {
    sessions_per_uid = b.sessions_per_uid;
    prompts_in_all = omega (arith, length-remove path d.prompts, b.prompts_in_all);
    prompts_per_uid = λ uid.
        omega (arith, tally-remove (prompt_of_uid uid) path d.prompts, b.prompts_per_uid uid);
    prompts_per_owner = λ owner.
        omega (arith, tally-remove (prompt_of owner) path d.prompts, b.prompts_per_owner owner);
  }

  pub finish-Budgets :
      (path : Bytes) (dismissed : Bool) (unlocked : Option (List Bytes)) (d : SvcDaemon age)
      → Budgets d
      → Budgets (finish_prompt path dismissed unlocked d)
  unfolding finish_prompt
  finish-Budgets path dismissed unlocked d b =
      finish_found-Budgets (lookup path d.prompts) path dismissed unlocked d b

  finish_all-Budgets :
      (paths : List Bytes) (d : SvcDaemon age) → Budgets d → Budgets (finish_all paths d)
  unfolding finish_prompt
  finish_all-Budgets [] d b = b
  finish_all-Budgets (path ∷ paths) d b =
      finish_all-Budgets paths (finish_prompt path true none d) (finish-Budgets path true none d b)

  pub reap-Budgets : (name : Bytes) (d : SvcDaemon age) → Budgets d → Budgets (reap_sender name d)
  unfolding reap_sender
  reap-Budgets name d b = finish_all-Budgets (keys_where (prompt_of name) d.prompts) _ (record {
    sessions_per_uid = λ uid. omega (
      arith,
      tally-drop_where (session_of_uid uid) (session_of_owner name) d.sessions,
      b.sessions_per_uid uid,
    );
    prompts_in_all = b.prompts_in_all;
    prompts_per_uid = b.prompts_per_uid;
    prompts_per_owner = b.prompts_per_owner;
  })

  pub drive_found-Budgets :
      (o : Option Prompt) (path sender : Bytes) (d : SvcDaemon age)
      → lookup path d.prompts ≡ o
      → Budgets d
      → Budgets (drive_found o path sender d).1
  unfolding lookup insert
  drive_found-Budgets none path sender d at b = b
  drive_found-Budgets (some p) path sender d at b =
      if_cases (λ (r : Driven × SvcDaemon age). Budgets r.1) (not (p.owner == sender)) _ _ (λ _. b)
        (λ _.
          if_cases (λ (r : Driven × SvcDaemon age). Budgets r.1) p.running _ _ (λ _. b)
            (λ _. record {
              sessions_per_uid = b.sessions_per_uid;
              prompts_in_all = omega (
                arith,
                length_replaced path (record p { running = true }) p d.prompts at,
                b.prompts_in_all,
              );
              prompts_per_uid = λ uid. omega (
                arith,
                tally_replaced (prompt_of_uid uid) path (record p { running = true }) p d.prompts at
                    refl,
                b.prompts_per_uid uid,
              );
              prompts_per_owner = λ owner. omega (
                arith,
                tally_replaced (prompt_of owner) path (record p { running = true }) p d.prompts at
                    refl,
                b.prompts_per_owner owner,
              );
            }))

  mint_new-Budgets :
      (sender : Bytes) (uid : ℕ) (asked objects : List Bytes) (path : Bytes) (d : SvcDaemon age)
      → lookup path d.prompts ≡ none
      → keys_where (prompt_of sender) d.prompts ≡ []
      → Budgets d
      → Budgets (mint_new sender uid asked objects path d).1
  unfolding tally insert
  mint_new-Budgets sender uid asked objects path d fresh alone b =
      let p = new_prompt sender uid asked objects in
      if_cases (λ (r : Option Bytes × SvcDaemon age). Budgets r.1) (leb 256 (length d.prompts)) _ _
        (λ _. b)
        (λ few.
          if_cases (λ (r : Option Bytes × SvcDaemon age). Budgets r.1)
            (leb 16 (tally (prompt_of_uid uid) d.prompts)) _ _ (λ _. b)
            (λ room. record {
              sessions_per_uid = b.sessions_per_uid;
              prompts_in_all = ground (arith, length-insert path p d.prompts fresh);
              prompts_per_uid = λ other.
                  tally_room (prompt_of_uid other) path p d.prompts 16 fresh
                    (λ e.
                      subst (λ u. tally (prompt_of_uid u) d.prompts < 16) ((eq_iff uid other).0 e)
                        (ground arith))
                    (b.prompts_per_uid other);
              prompts_per_owner = λ owner.
                  tally_room (prompt_of owner) path p d.prompts 1 fresh
                    (λ e.
                      subst (λ u. tally (prompt_of u) d.prompts < 1) ((eq_iff sender owner).0 e)
                        (omega (arith, tally_none (prompt_of sender) d.prompts alone)))
                    (b.prompts_per_owner owner);
            }))

  pub mint-Budgets :
      (sender : Bytes) (uid : ℕ) (asked objects : List Bytes) (path : Bytes) (d : SvcDaemon age)
      (found : List Bytes)
      → lookup path d.prompts ≡ none
      → keys_where (prompt_of sender) d.prompts ≡ found
      → Budgets d
      → Budgets (mint_unless found sender uid asked objects path d).1
  unfolding tally insert
  mint-Budgets sender uid asked objects path d (other ∷ _) fresh at b = b
  mint-Budgets sender uid asked objects path d [] fresh at b =
      mint_new-Budgets sender uid asked objects path d fresh at b
