-- ===== src/Daemon/Unlock.antt =====
-- engine/svcobjects.go: Unlock and its prompts, SearchItems and GetSecrets. A method that enters the
-- mutex several times is written without what may come in between; the bus tells the same user each time.
use oma_seal.Prelude.{
  ℕ, Bool, true, false, not, Option, none, some, List, [], ◌∷◌, if◌then◌else◌, nat_eq, bytes_eq,
  any, Map,
}
use oma_seal.Bytes.{Bytes}
use oma_seal.Native.Crypto.{Age}
use oma_seal.Errors.{Error}
use oma_seal.Native.Key.{svc_split_key}
use oma_seal.Daemon.{SvcDaemon, SvcWorld, Session, Op}
use oma_seal.Daemon.Prompts.{
  Driven, no_prompt, not_owner, already_running, driven, mint_prompt, drive_prompt, dismiss_prompt,
}
use oma_seal.Daemon.Items.{
  BusResult, bus_err, bus_ok, is_locked, failed, no_such_object, access_denied, unknown_object,
}
use oma_seal.Daemon.Lock.{locked, end_op}
use oma_seal.Daemon.Rows.{
  PathClass, class_service, class_collection, class_item, class_prompt, svc_classify, Answer,
  item_at, search_items,
}
use oma_seal.Daemon.Calls.{
  Call, SvcSecret, svc_gate, session_for, is_service_class, guard, on_class, then_answer,
}
use oma_seal.Daemon.Methods.{Host, read_named}

abbrev pub unlockable : PathClass → Bool
unlockable class_collection = true
unlockable class_item = true
unlockable class_service = true
unlockable _ = false

abbrev pub all_unlockable : List Bytes → Bool
all_unlockable objects = not (any (λ o. not (unlockable (svc_classify o))) objects)

abbrev pub is_prompt_class : PathClass → Bool
is_prompt_class class_prompt = true
is_prompt_class _ = false

abbrev pub is_ok {ℓ} : {A : Type ℓ} → BusResult A → Bool
is_ok (bus_err e) = false
is_ok (bus_ok a) = true

abbrev pub keep_if : Bool → Bytes → List Bytes → List Bytes
keep_if true o os = o ∷ os
keep_if false o os = os

-- what `Unlock` answers: the objects that are unlocked already, or a prompt
pub data Unlocked : Type 0 where
  unlocked_now : List Bytes → Unlocked
  needs_prompt : Bytes → Unlocked

-- what `SearchItems` answers
pub record Found : Type 0 where
  pub unlocked : List Bytes
  pub locked_items : List Bytes

abbrev pub found_in : List Bytes → Bool → Found
found_in items true = record { unlocked = []; locked_items = items }
found_in items false = record { unlocked = items; locked_items = [] }

module _ (h : Host) {age : Age} where
  abbrev pub kept_object : SvcWorld age → PathClass → Bytes → SvcDaemon age → Bool × SvcDaemon age
  kept_object w class_collection o d = (true, d)
  kept_object w class_service o d = (true, d)
  kept_object w class_item o d = let (r, d') = item_at h.digest w o d in (is_ok r, d')
  kept_object w _ o d = (false, d)

  unfoldable pub resolvable_objects :
      SvcWorld age → List Bytes → SvcDaemon age → List Bytes × SvcDaemon age
  unfolding svc_classify item_at
  resolvable_objects w [] d = ([], d)
  resolvable_objects w (o ∷ objects) d =
      let (kept, d') = kept_object w (svc_classify o) o d in
      let (rest, d'') = resolvable_objects w objects d' in (keep_if kept o rest, d'')

  abbrev pub minted : Option Bytes × SvcDaemon age → Answer Unlocked age
  minted (none, d) = (bus_err access_denied, d)
  minted (some path, d) = (bus_ok (needs_prompt path), d)

  abbrev pub unlock_locked :
      Call → ℕ → List Bytes → List Bytes → Bytes → Bool × SvcDaemon age → Answer Unlocked age
  unlock_locked c uid objects resolved fresh (false, d) = (bus_ok (unlocked_now resolved), d)
  unlock_locked c uid objects resolved fresh (true, d) =
      minted (mint_prompt c.sender uid objects resolved fresh d)

  -- Service.Unlock
  unfoldable pub unlock_service :
      SvcWorld age → Call → List Bytes → Bytes → SvcDaemon age → Answer Unlocked age
  unfolding svc_classify svc_gate resolvable_objects locked mint_prompt any
  unlock_service w c objects fresh d =
      on_class (is_service_class (svc_classify c.path)) h.own_uid c d (λ uid.
        if not (all_unlockable objects)
        then (bus_err no_such_object, d)
        else let (resolved, d') = resolvable_objects w objects d in
          unlock_locked c uid objects resolved fresh (locked w d'))

  -- Service.SearchItems
  unfoldable pub search_service :
      SvcWorld age → Call → Map Bytes Bytes → SvcDaemon age → Answer Found age
  unfolding svc_classify svc_gate search_items locked
  search_service w c want d = on_class (is_service_class (svc_classify c.path)) h.own_uid c d (λ _.
      let (items, d') = search_items h.digest w want d in
      let (shut, d'') = locked w d' in (bus_ok (found_in items shut), d''))

  -- GetSecrets refuses a row whose key does not split.
  abbrev pub read_key :
      SvcWorld age
      → Option (Bytes × Bytes)
      → Session
      → Option Bytes
      → Bytes
      → SvcDaemon age
      → Answer SvcSecret age
  read_key w none s iv session d = (bus_err failed, d)
  read_key w (some names) s iv session d = read_named h w names s.codec iv session d

  -- the loop of GetSecrets: the answers so far are kept in order
  unfoldable pub read_items :
      SvcWorld age
      → Session
      → (Bytes → Option Bytes)
      → Bytes
      → List Bytes
      → SvcDaemon age
      → Answer (List (Bytes × SvcSecret)) age
  unfolding item_at svc_split_key
  read_items w s iv session [] d = (bus_ok [], d)
  read_items w s iv session (path ∷ paths) d = then_answer (item_at h.digest w path d) (λ row d'.
      then_answer (read_key w (svc_split_key row.key) s (iv path) session d') (λ secret d''.
        then_answer (read_items w s iv session paths d'')
          (λ rest d'''. (bus_ok ((path, secret) ∷ rest), d'''))))

  abbrev pub read_items_unlocked :
      SvcWorld age
      → Session
      → (Bytes → Option Bytes)
      → Bytes
      → List Bytes
      → Bool × SvcDaemon age
      → Answer (List (Bytes × SvcSecret)) age
  read_items_unlocked w s iv session paths (true, d) = (bus_err is_locked, d)
  read_items_unlocked w s iv session paths (false, d) = read_items w s iv session paths d

  -- Service.GetSecrets: the entries that its map is made of, with what the random source gives at each
  -- path
  unfoldable pub get_secrets :
      SvcWorld age
      → Call
      → (Bytes → Option Bytes)
      → Bytes
      → List Bytes
      → SvcDaemon age
      → Answer (List (Bytes × SvcSecret)) age
  unfolding svc_classify svc_gate session_for locked read_items
  get_secrets w c iv session paths d =
      on_class (is_service_class (svc_classify c.path)) h.own_uid c d (λ _.
        guard (session_for c session d.sessions)
          (λ s. read_items_unlocked w s iv session paths (locked w d)) d)

  -- The end of a goroutine that has unlocked: the objects are resolved again.
  abbrev pub end_unlocked :
      SvcWorld age → Bytes → Op age → Option Error × SvcDaemon age → SvcDaemon age
  end_unlocked w path o (some e, d) = end_op path (some e) [] d
  end_unlocked w path o (none, d) =
      let (unlocked, d') = resolvable_objects w o.asked d in end_op path none unlocked d'

  abbrev pub driven_answer : Driven × SvcDaemon age → Answer (Unit {0}) age
  driven_answer (no_prompt, d) = (bus_err no_such_object, d)
  driven_answer (not_owner, d) = (bus_err access_denied, d)
  driven_answer (already_running, d) = (bus_ok tt, d)
  driven_answer (driven, d) = (bus_ok tt, d)

  -- Prompt.Prompt and Prompt.Dismiss
  abbrev pub prompt_method : Call → SvcDaemon age → Answer (Unit {0}) age
  prompt_method c d =
      if is_prompt_class (svc_classify c.path)
      then driven_answer (drive_prompt c.path c.sender d)
      else (bus_err unknown_object, d)

  abbrev pub dismiss_method : Call → SvcDaemon age → Answer (Unit {0}) age
  dismiss_method c d =
      if is_prompt_class (svc_classify c.path)
      then driven_answer (dismiss_prompt c.path c.sender d)
      else (bus_err unknown_object, d)
