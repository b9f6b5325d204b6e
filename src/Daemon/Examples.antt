-- ===== src/Daemon/Examples.antt =====
-- Runs of a daemon with two clients, and what they show.
use oma_seal.Prelude.{
  ℕ, ◌+◌, ◌*◌, ◌≤◌, ◌≡◌, refl, sym, ap, ◌⊎◌, true, false, Option, none, some, [], ◌∷◌, bytes_beq,
  nat_eq, bytes_eq, length, any, lookup, insert,
}
use oma_seal.Bytes.{Bytes, codes}
use oma_seal.Native.Store.{clear_native_session, unwrap_identity_pass}
use oma_seal.Native.Items.{set}
use oma_seal.Daemon.{dh_codec, Prompt, Op, SvcDaemon, SvcWorld, keys_where, tally}
use oma_seal.Daemon.Prompts.{mint_prompt, drive_prompt, completion, reap_sender}
use oma_seal.Daemon.Lock.{as_slice, cancel_all, lock_daemon, locked, unwrap_op, commit_op, end_op}
use oma_seal.Daemon.Calls.{Call}
use oma_seal.Daemon.Rows.{svc_classify}
use oma_seal.Daemon.Methods.{Host, add_session}
use oma_seal.Daemon.Steps.{
  DaemonSteps, did_mint, did_drive, did_unwrap, did_commit, no_steps, then_step, started,
}
use oma_seal.Native.Toy.{toy, filled, agent_world, pass, secret}
use oma_seal.Svc.Examples.{clear_aes, clear_laws, key}
use oma_seal.Files.{second, add_minutes}
use oma_seal.Bytes.Utf8.{json_text_from}
use oma_seal.Daemon.Steps.{Fresh}
use oma_seal.Daemon.Served.{Served, get_secret-Served}
use oma_seal.Daemon.Calls.{SvcSecret}
use oma_seal.Daemon.Methods.{get_secret}
use oma_seal.Svc.{aes_block_size, pkcs7_pad, codec_encrypt}
use oma_seal.Daemon.Items.{bus_ok}
use oma_seal.Agent.{load_agent_policy}
use oma_seal.Daemon.Unlock.{resolvable_objects}
use oma_seal.Daemon.Shut.{QuietSteps, no_quiet_steps, then_quiet}
use oma_seal.Daemon.Cancelled.{Quiet}
use oma_seal.Daemon.Lasting.{
  Unhurried, UnhurriedSteps, no_unhurried_steps, then_unhurried, lock_lasts_in_runs,
}
use oma_seal.Daemon.Once.{completed_once}
use oma_seal.Daemon.Signals.{signals}
use oma_seal.Daemon.Within.{Budgets}
use oma_seal.Daemon.Budgets.{daemon_stays_within}

abbrev pub host : Host
host = record { own_uid = 1000; digest = λ bytes. codes "c0ffee"; aes = clear_aes }

abbrev pub client : Bytes
client = codes ":1.7"

abbrev pub quiet_world : SvcWorld toy
quiet_world = record {
  native = agent_world;
  marker_writes = true;
  marker_removes = true;
  index_writes = true;
}

abbrev first_prompt : Bytes
first_prompt = codes "/org/freedesktop/secrets/prompt/a1"

abbrev first_session : Bytes
first_session = codes "/org/freedesktop/secrets/session/b2"

abbrev collection : Bytes
collection = codes "/org/freedesktop/secrets/collection/login"

abbrev pub at_start : SvcDaemon toy
at_start = started filled [] false

abbrev asked_for : SvcDaemon toy
asked_for = (mint_prompt client 1000 (collection ∷ []) (collection ∷ []) first_prompt at_start).1

abbrev shown_prompt : SvcDaemon toy
shown_prompt = (drive_prompt first_prompt client asked_for).1

abbrev waiting : Op toy
waiting = record { cancelled = false; asked = collection ∷ []; unwrapped = none }

abbrev unwrapped_op : Op toy
unwrapped_op = record {
  cancelled = false;
  asked = collection ∷ [];
  unwrapped = some (3, agent_world.now + 900 * second);
}

abbrev answered : SvcDaemon toy
answered = (unwrap_op quiet_world first_prompt waiting (some pass) shown_prompt).1

at_start-Fresh : (path : Bytes) → Fresh path at_start
unfolding started lookup any
at_start-Fresh path = record {
  no_prompt_there = refl;
  no_session_there = refl;
  never_completed = refl;
}

run_to_prompt : DaemonSteps host at_start shown_prompt
unfolding started mint_prompt lookup
run_to_prompt =
    then_step at_start asked_for shown_prompt
      (then_step at_start at_start asked_for (no_steps at_start) (
        did_mint client 1000 (collection ∷ []) (collection ∷ []) first_prompt at_start
          (at_start-Fresh first_prompt)))
      (did_drive first_prompt client asked_for)

-- The goroutine of the prompt is there, and has unwrapped the identity once the passphrase is typed.
goroutine_waits : lookup first_prompt shown_prompt.running_ops ≡ some waiting
unfolding started mint_prompt drive_prompt lookup insert keys_where tally bytes_beq
goroutine_waits = refl

goroutine_unwrapped : lookup first_prompt answered.running_ops ≡ some unwrapped_op
unfolding started mint_prompt drive_prompt lookup insert keys_where tally bytes_beq unwrap_op
    unwrap_identity_pass load_agent_policy set add_minutes
goroutine_unwrapped = refl

run_to_answer : DaemonSteps host at_start answered
run_to_answer =
    then_step at_start shown_prompt answered run_to_prompt
      (did_unwrap quiet_world first_prompt waiting (some pass) shown_prompt goroutine_waits)

abbrev armed : SvcDaemon toy
armed = (commit_op quiet_world unwrapped_op answered).1

run_to_armed : DaemonSteps host at_start armed
run_to_armed =
    then_step at_start answered armed run_to_answer
      (did_commit quiet_world first_prompt unwrapped_op answered goroutine_unwrapped)

daemon_stays_within_example : Budgets armed
daemon_stays_within_example = daemon_stays_within host filled [] false armed run_to_armed

completed_once_example :
    (signals first_prompt armed.completed ≤ 1)
    × ((lookup first_prompt armed.prompts ≡ none)
        ⊎ ((signals first_prompt armed.completed ≡ 0)
            × (signals first_prompt (end_op first_prompt none (collection ∷ []) armed).completed
                ≡ 1)))
completed_once_example =
    completed_once host filled [] false armed first_prompt none (collection ∷ []) run_to_armed

unhurried_to_prompt : UnhurriedSteps host at_start shown_prompt
unfolding started mint_prompt lookup Unhurried
unhurried_to_prompt =
    then_unhurried at_start asked_for shown_prompt
      (then_unhurried at_start at_start asked_for (no_unhurried_steps at_start)
        (did_mint client 1000 (collection ∷ []) (collection ∷ []) first_prompt at_start
          (at_start-Fresh first_prompt))
        tt)
      (did_drive first_prompt client asked_for) tt

abbrev cut_off : Op toy
cut_off = record waiting { cancelled = true }

abbrev locked_up : SvcDaemon toy
locked_up = lock_daemon quiet_world shown_prompt

abbrev answered_late : SvcDaemon toy
answered_late = (unwrap_op quiet_world first_prompt cut_off (some pass) locked_up).1

abbrev vetoed : SvcDaemon toy
vetoed = (commit_op quiet_world (record unwrapped_op { cancelled = true }) answered_late).1

cut_off_waits : lookup first_prompt locked_up.running_ops ≡ some cut_off
unfolding started mint_prompt drive_prompt lookup insert keys_where tally bytes_beq lock_daemon
    cancel_all
cut_off_waits = refl

cut_off_unwrapped :
    lookup first_prompt answered_late.running_ops ≡ some (record unwrapped_op { cancelled = true })
unfolding started mint_prompt drive_prompt lookup insert keys_where tally bytes_beq lock_daemon
    cancel_all unwrap_op unwrap_identity_pass load_agent_policy set clear_native_session add_minutes
cut_off_unwrapped = refl

-- The passphrase is typed after the lock.
late_run : QuietSteps host locked_up vetoed
unfolding Quiet
late_run =
    then_quiet locked_up answered_late vetoed
      (then_quiet locked_up locked_up answered_late (no_quiet_steps locked_up)
        (did_unwrap quiet_world first_prompt cut_off (some pass) locked_up cut_off_waits) tt)
      (did_commit quiet_world first_prompt (record unwrapped_op { cancelled = true }) answered_late
        cut_off_unwrapped)
      tt

lock_lasts_in_runs_example : locked quiet_world vetoed ≡ (true, vetoed)
lock_lasts_in_runs_example =
    lock_lasts_in_runs host filled [] false quiet_world quiet_world shown_prompt vetoed
      unhurried_to_prompt refl late_run

abbrev pub item_call : Call
item_call = record {
  path = codes "/org/freedesktop/secrets/collection/login/c0ffee";
  sender = client;
  peer = some 1000;
}

abbrev serving : SvcDaemon toy
serving = (add_session host (dh_codec key) item_call 1000 first_session quiet_world armed).1

abbrev wire_secret : SvcSecret
wire_secret = record { session = first_session; params = key; value = pkcs7_pad secret 16 }

abbrev size_of : Option Bytes → ℕ
size_of none = 0
size_of (some v) = length v

key_block : (v : Bytes) → some key ≡ some v → length v ≡ aes_block_size
key_block v e = ap size_of (sym e)

served :
    (get_secret host quiet_world item_call (some key) first_session serving).0 ≡ bus_ok wire_secret
unfolding get_secret svc_classify bytes_beq tally commit_op unwrap_op drive_prompt mint_prompt
    started set codec_encrypt json_text_from
served = refl

get_secret-Served_example : Served host quiet_world item_call first_session serving wire_secret
get_secret-Served_example =
    get_secret-Served host clear_laws quiet_world item_call (some key) first_session serving
      wire_secret key_block served

-- The client has left the bus, and the daemon is locked: a passphrase that was typed before unlocks
-- the store all the same.
abbrev left_and_locked : SvcDaemon toy
left_and_locked = lock_daemon quiet_world (reap_sender client answered)

orphan_runs : lookup first_prompt left_and_locked.running_ops ≡ some unwrapped_op
unfolding lock_daemon reap_sender unwrap_op drive_prompt mint_prompt started bytes_beq set
    add_minutes
orphan_runs = refl

orphan_unlocks :
    (locked quiet_world (commit_op quiet_world unwrapped_op left_and_locked).1).0 ≡ false
unfolding lock_daemon reap_sender commit_op locked
orphan_unlocks = refl

-- An item that is gone when the prompt ends is still among what its signal names.
abbrev pub gone_item : Bytes
gone_item = codes "/org/freedesktop/secrets/collection/login/f00d"

gone_unresolved : (resolvable_objects host quiet_world (gone_item ∷ []) armed).0 ≡ []
unfolding resolvable_objects bytes_beq commit_op unwrap_op drive_prompt mint_prompt started set
gone_unresolved = refl

abbrev gone_prompt : Prompt
gone_prompt = record {
  owner = client;
  uid = 1000;
  running = true;
  asked = gone_item ∷ [];
  objects = gone_item ∷ [];
}

gone_signalled :
    completion first_prompt false (as_slice []) gone_prompt
    ≡ record { prompt = first_prompt; dismissed = false; result = gone_item ∷ [] }
gone_signalled = refl
