-- ===== src/Native/Identity.antt =====
-- The wrapped identity on disk (engine/nativestore.go): no operation replaces one that is there.
use oma_seal.Prelude.{ℕ, ◌≡◌, Bool, none, nat_eq, bytes_eq}
use oma_seal.Bytes.{Bytes}
use oma_seal.Files.{holds}
use oma_seal.Native.Crypto.{Age}
use oma_seal.Native.Store.{
  NativeStore, World, unlink_session_files, clear_native_session, unlock_identity,
}
use oma_seal.Native.Items.{get, set, delete, list}
use oma_seal.Native.Kept.{Kept, unlock-Kept, set-Kept, get-Kept, delete-Kept, list-Kept}

-- One call of the store, in any world.
pub data NativeStep {age : Age} : NativeStore age → NativeStore age → Type 0 where
  did_set :
      (w : World age) (service account secret : Bytes) (owned if_absent : Bool)
      (s : NativeStore age)
      → NativeStep s (set w service account secret owned if_absent s).1
  did_get :
      (w : World age) (service account : Bytes) (s : NativeStore age)
      → NativeStep s (get w service account s).1
  did_delete :
      (w : World age) (service account : Bytes) (s : NativeStore age)
      → NativeStep s (delete w service account s).1
  did_list :
      (w : World age) (service : Bytes) (s : NativeStore age) → NativeStep s (list w service s).1
  did_unlock :
      (w : World age) (pass : Bytes) (expires : ℕ) (s : NativeStore age)
      → NativeStep s (unlock_identity w pass expires s).1
  did_clear : (w : World age) (s : NativeStore age) → NativeStep s (clear_native_session w s).1
  -- the process ends, and the next has nothing in memory
  restarted :
      (s : NativeStore age)
      → NativeStep s (record s { pub_key = none; identity = none; identity_enc = none })

pub data NativeSteps {age : Age} : NativeStore age → NativeStore age → Type 0 where
  nothing : (s : NativeStore age) → NativeSteps s s
  one_more : {s t u : NativeStore age} → NativeSteps s t → NativeStep t u → NativeSteps s u

step-Kept :
    {age : Age} (blob : age.Cipher) {s t : NativeStore age}
    → NativeStep s t
    → Kept blob s
    → Kept blob t
unfolding clear_native_session unlink_session_files
step-Kept blob (did_set w service account secret owned if_absent s) h =
    set-Kept blob w service account secret owned if_absent s h
step-Kept blob (did_get w service account s) h = get-Kept blob w service account s h
step-Kept blob (did_delete w service account s) h = delete-Kept blob w service account s h
step-Kept blob (did_list w service s) h = list-Kept blob w service s h
step-Kept blob (did_unlock w pass expires s) h = unlock-Kept blob w pass expires s h
step-Kept blob (did_clear w s) h = h
step-Kept blob (restarted s) h = h

-- The store is never re-keyed: once `identity.age` holds a wrapped identity, no sequence of
-- operations, by any number of processes, with any answers and failures, replaces it.
pub identity_kept :
    {age : Age} (blob : age.Cipher) {s t : NativeStore age}
    → s.identity_file ≡ holds blob
    → NativeSteps s t
    → t.identity_file ≡ holds blob
identity_kept blob h (nothing s) = h
identity_kept blob h (one_more r st) = step-Kept blob st (identity_kept blob h r)
