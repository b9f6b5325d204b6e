-- ===== src/Daemon/Prompts.antt =====
-- engine/svcprompt.go and reapSender of engine/svcbus.go: the prompts of the daemon.
use oma_seal.Prelude.{
  ℕ, Bool, true, false, not, Option, none, some, List, [], ◌∷◌, leb, if◌then◌else◌, ◌==◌, nat_eq,
  bytes_eq, length, Map, lookup, remove, insert,
}
use oma_seal.Bytes.{Bytes}
use oma_seal.Native.Crypto.{Age}
use oma_seal.Daemon.{
  Completed, Op, Prompt, SvcDaemon, drop_where, keys_where, prompt_of, prompt_of_uid,
  session_of_owner, svc_max_prompts_global, svc_max_prompts_per_uid, tally,
}

-- What a refused mint answers is an access-denied error; `fresh` is the random path.
abbrev pub mint_new :
    {age : Age}
    → Bytes
    → ℕ
    → List Bytes
    → List Bytes
    → Bytes
    → SvcDaemon age
    → Option Bytes × SvcDaemon age
mint_new sender uid asked objects fresh d =
    if leb svc_max_prompts_global (length d.prompts)
    then (none, d)
    else if leb svc_max_prompts_per_uid (tally (prompt_of_uid uid) d.prompts)
    then (none, d)
    else (
      some fresh,
      record d {
        prompts =
            insert fresh
              (record {
                owner = sender;
                uid = uid;
                running = false;
                asked = asked;
                objects = objects;
              })
              d.prompts;
      },
    )

abbrev pub mint_unless :
    {age : Age}
    → List Bytes
    → Bytes
    → ℕ
    → List Bytes
    → List Bytes
    → Bytes
    → SvcDaemon age
    → Option Bytes × SvcDaemon age
mint_unless (path ∷ _) sender uid asked objects fresh d = (some path, d)
mint_unless [] sender uid asked objects fresh d = mint_new sender uid asked objects fresh d

unfoldable pub mint_prompt :
    {age : Age}
    → Bytes
    → ℕ
    → List Bytes
    → List Bytes
    → Bytes
    → SvcDaemon age
    → Option Bytes × SvcDaemon age
unfolding keys_where tally insert
mint_prompt sender uid asked objects fresh d =
    mint_unless (keys_where (prompt_of sender) d.prompts) sender uid asked objects fresh d

-- `Prompt()`: no prompt, another client's, one that runs, or the start of its goroutine
pub data Driven : Type 0 where
  no_prompt not_owner already_running driven : Driven

abbrev pub start_op : {age : Age} → Prompt → Op age
start_op p = record { cancelled = false; asked = p.asked; unwrapped = none }

abbrev pub drive_found :
    {age : Age} → Option Prompt → Bytes → Bytes → SvcDaemon age → Driven × SvcDaemon age
drive_found none path sender d = (no_prompt, d)
drive_found (some p) path sender d =
    if not (p.owner == sender)
    then (not_owner, d)
    else if p.running
    then (already_running, d)
    else (
      driven,
      record d {
        prompts = insert path (record p { running = true }) d.prompts;
        running_ops = insert path (start_op p) d.running_ops;
      },
    )

unfoldable pub drive_prompt : {age : Age} → Bytes → Bytes → SvcDaemon age → Driven × SvcDaemon age
unfolding lookup insert
drive_prompt path sender d = drive_found (lookup path d.prompts) path sender d

-- Without an error, the result names what was unlocked.
abbrev pub completion : Bytes → Bool → Option (List Bytes) → Prompt → Completed
completion path true unlocked p = record { prompt = path; dismissed = true; result = [] }
completion path false (some unlocked) p = record {
  prompt = path;
  dismissed = false;
  result = unlocked;
}
completion path false none p = record { prompt = path; dismissed = false; result = p.objects }

abbrev pub finish_found :
    {age : Age} → Option Prompt → Bytes → Bool → Option (List Bytes) → SvcDaemon age → SvcDaemon age
finish_found none path dismissed unlocked d = d
finish_found (some p) path dismissed unlocked d = record d {
  prompts = remove path d.prompts;
  completed = completion path dismissed unlocked p ∷ d.completed;
}

-- `dismissed` stands for `dismissed || opErr != nil`.
unfoldable pub finish_prompt :
    {age : Age} → Bytes → Bool → Option (List Bytes) → SvcDaemon age → SvcDaemon age
unfolding lookup remove
finish_prompt path dismissed unlocked d =
    finish_found (lookup path d.prompts) path dismissed unlocked d

abbrev pub cancel_op : {age : Age} → Op age → Op age
cancel_op o = record o { cancelled = true }

abbrev pub cancel_found :
    {age : Age} → Option (Op age) → Bytes → Map Bytes (Op age) → Map Bytes (Op age)
cancel_found none path ops = ops
cancel_found (some o) path ops = insert path (cancel_op o) ops

-- `cancel` is nil unless the prompt runs.
abbrev pub cancel_running : {age : Age} → Prompt → Bytes → SvcDaemon age → SvcDaemon age
cancel_running p path d =
    if p.running
    then record d { running_ops = cancel_found (lookup path d.running_ops) path d.running_ops }
    else d

abbrev pub dismiss_found :
    {age : Age} → Option Prompt → Bytes → Bytes → SvcDaemon age → Driven × SvcDaemon age
dismiss_found none path sender d = (no_prompt, d)
dismiss_found (some p) path sender d =
    if not (p.owner == sender)
    then (not_owner, d)
    else (driven, finish_prompt path true none (cancel_running p path d))

unfoldable pub dismiss_prompt : {age : Age} → Bytes → Bytes → SvcDaemon age → Driven × SvcDaemon age
unfolding lookup insert finish_prompt
dismiss_prompt path sender d = dismiss_found (lookup path d.prompts) path sender d

-- A client has left the bus.
abbrev pub finish_all : {age : Age} → List Bytes → SvcDaemon age → SvcDaemon age
finish_all [] d = d
finish_all (path ∷ paths) d = finish_all paths (finish_prompt path true none d)

unfoldable pub reap_sender : {age : Age} → Bytes → SvcDaemon age → SvcDaemon age
unfolding drop_where keys_where finish_prompt
reap_sender name d =
    finish_all (keys_where (prompt_of name) d.prompts)
      (record d { sessions = drop_where (session_of_owner name) d.sessions })
