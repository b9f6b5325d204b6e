-- ===== src/Flags/Marks.antt =====
-- What flagging and unflagging change.
use oma_seal.Prelude.{
  ◌⊎◌, inl, inr, ℕ, ◌≡◌, refl, sym, ap, ◌∙◌, subst, ◌≢◌, Bool, true, false, Option, none, some,
  List, [], ◌∷◌, arith, if◌then◌else◌, ◌==◌, eq_iff, nat_eq, bytes_eq, any, lookup, remove, insert,
  lookup-insert, lookup-remove,
}
use oma_seal.Errors.{Result, ok, err, plain}
use oma_seal.Bytes.{Bytes}
use oma_seal.Files.{File, absent, unreadable, corrupt, holds}
use oma_seal.Native.Items.{Item}
use oma_seal.Flags.{
  RotationFlag, Flags, Disk, stat_key, load_flags, save_flags, save_changed, update_flags, is_item,
  flagger, flag_listed, flag_rotation, unflag_rotation, flag_in, rotation_flag_for,
}

-- Either an update fails and leaves the file, or the flags that are read change as asked.
data Updated (d : Disk) (mut : Flags → Flags) (f : File Flags) (r : Result (Unit {0}) × File Flags)
    : Type 0 where
  failed : r.0 ≢ ok tt → r.1 ≡ f → Updated d mut f r
  updated :
      (flags : Flags)
      → load_flags d f ≡ ok flags
      → load_flags d r.1 ≡ ok (mut flags)
      → r.0 ≡ ok tt
      → Updated d mut f r

abbrev disk_with : Bool → Bool → Bool → Disk
disk_with path locks saves = record { path = path; locks = locks; saves = saves }

refused : (d : Disk) (mut : Flags → Flags) (f : File Flags) → Updated d mut f (err plain, f)
refused d mut f = failed (λ e. cc) refl

-- the replacement of a file that could be read
written :
    (saves : Bool) (mut : Flags → Flags) (f : File Flags) (flags : Flags)
    → load_flags (disk_with true true saves) f ≡ ok flags
    → Updated
        (disk_with true true saves)
        mut
        f
        (save_flags (disk_with true true saves) (mut flags) f)
unfolding load_flags save_flags
written true mut f flags h = updated flags h refl refl
written false mut f flags h = refused (disk_with true true false) mut f

first_written :
    (saves : Bool) (mut : Flags → Flags) (changed : Flags)
    → mut [] ≡ changed
    → Updated
        (disk_with true true saves)
        mut
        absent
        (save_changed (disk_with true true saves) changed absent)
unfolding load_flags save_flags
first_written saves mut [] h = updated [] refl (ap ok (sym h)) refl
first_written saves mut (x ∷ changed) h =
    subst
      (λ m.
        Updated (disk_with true true saves) mut absent
          (save_flags (disk_with true true saves) m absent))
      h (written saves mut absent [] refl)

later_written :
    (saves : Bool) (mut : Flags → Flags) (flags changed : Flags)
    → mut flags ≡ changed
    → Updated
        (disk_with true true saves)
        mut
        (holds flags)
        (save_changed (disk_with true true saves) changed (holds flags))
unfolding load_flags save_flags
later_written saves mut flags [] h =
    subst
      (λ m.
        Updated (disk_with true true saves) mut (holds flags)
          (save_flags (disk_with true true saves) m (holds flags)))
      h (written saves mut (holds flags) flags refl)
later_written saves mut flags (x ∷ changed) h =
    subst
      (λ m.
        Updated (disk_with true true saves) mut (holds flags)
          (save_flags (disk_with true true saves) m (holds flags)))
      h (written saves mut (holds flags) flags refl)

update_flags-Updated :
    (path locks saves : Bool) (mut : Flags → Flags) (f : File Flags)
    → Updated (disk_with path locks saves) mut f (update_flags (disk_with path locks saves) mut f)
unfolding update_flags load_flags save_flags
update_flags-Updated false locks saves mut f = refused (disk_with false locks saves) mut f
update_flags-Updated true false saves mut f = refused (disk_with true false saves) mut f
update_flags-Updated true true saves mut absent = first_written saves mut (mut []) refl
update_flags-Updated true true saves mut unreadable =
    refused (disk_with true true saves) mut unreadable
update_flags-Updated true true saves mut corrupt = refused (disk_with true true saves) mut corrupt
update_flags-Updated true true saves mut (holds flags) =
    later_written saves mut flags (mut flags) refl

-- Either a command fails and leaves the file, or it gives the credential's key this flag, and
-- leaves those of all other keys.
pub data Marks (d : Disk) (service account : Bytes) (mark : Option RotationFlag) (f : File Flags)
    (r : Result (Unit {0}) × File Flags) : Type 0 where
  fails : r.0 ≢ ok tt → r.1 ≡ f → Marks d service account mark f r
  marks :
      r.0 ≡ ok tt
      → rotation_flag_for d service account r.1 ≡ mark
      → ((s a : Bytes)
          → stat_key s a ≢ stat_key service account
          → rotation_flag_for d s a r.1 ≡ rotation_flag_for d s a f)
      → Marks d service account mark f r

other_key : (k j : Bytes) (x y : Option RotationFlag) → j ≢ k → (if k == j then x else y) ≡ y
other_key k j x y ne = ground (arith, eq_iff k j)

same_key : (k : Bytes) (x y : Option RotationFlag) → (if k == k then x else y) ≡ x
same_key k x y = ground (arith, eq_iff k k)

Updated-Marks :
    (d : Disk) (service account : Bytes) (mark : Option RotationFlag) (mut : Flags → Flags)
    (f : File Flags) (r : Result (Unit {0}) × File Flags)
    → ((j : Bytes) (m : Flags)
        → lookup j (mut m) ≡ (if stat_key service account == j then mark else lookup j m))
    → Updated d mut f r
    → Marks d service account mark f r
unfolding rotation_flag_for
Updated-Marks d service account mark mut f r at (failed refusal same) = fails refusal same
Updated-Marks d service account mark mut f r at (updated flags before after succeeds) =
    marks succeeds
      (ap (flag_in (stat_key service account)) after
        ∙ at (stat_key service account) flags
        ∙ same_key (stat_key service account) mark _)
      (λ s a ne.
        ap (flag_in (stat_key s a)) after
        ∙ at (stat_key s a) flags
        ∙ other_key (stat_key service account) (stat_key s a) mark _ ne
        ∙ sym (ap (flag_in (stat_key s a)) before))

module _ (d : Disk) (now : ℕ) (service account reason by : Bytes) (f : File Flags) where
  abbrev the_flag : RotationFlag
  the_flag = record { reason = reason; flagged_at = now; flagged_by = flagger by }

  found-Marks :
      (items : List Item) (b : Bool)
      → any (is_item service account) items ≡ b
      → Marks d service account
          (some the_flag)
          f
          (flag_listed d now (ok items) service account reason by f)
  unfolding any insert update_flags
  found-Marks items true h = rw h (
      Updated-Marks d service account (some the_flag) (insert (stat_key service account) the_flag) f
        _ (λ j m. lookup-insert j (stat_key service account) the_flag m)
        (update_flags-Updated d.path d.locks d.saves (insert (stat_key service account) the_flag)
          f))
  found-Marks items false h = rw h (fails (λ e. cc) refl)

  flagged-Marks :
      (items : Result (List Item))
      → Marks d service account
          (some the_flag)
          f
          (flag_listed d now items service account reason by f)
  flagged-Marks (err e) = fails (λ e. cc) refl
  flagged-Marks (ok items) = found-Marks items (any (is_item service account) items) refl

  known_items :
      (items : List Item) (b : Bool)
      → any (is_item service account) items ≡ b
      → ((flag_listed d now (ok items) service account reason by f).0 ≢ ok tt)
        ⊎ ((found : List Item) × (ok items ≡ ok found)
            × (any (is_item service account) found ≡ true))
  known_items items true h = inr (items, refl, h)
  known_items items false h = inl (rw h (λ e. cc))

  flagged_known :
      (items : Result (List Item))
      → ((flag_listed d now items service account reason by f).0 ≢ ok tt)
        ⊎ ((found : List Item) × (items ≡ ok found) × (any (is_item service account) found ≡ true))
  flagged_known (err e) = inl (λ e. cc)
  flagged_known (ok items) = known_items items (any (is_item service account) items) refl

-- `FlagRotation` and `UnflagRotation` either fail and leave the flags file, or give the credential's
-- key the new flag, or none, and leave the flags of all other keys; flagging succeeds only for a
-- credential that is listed.
pub flags_follow :
    (d : Disk) (now : ℕ) (items : Result (List Item)) (service account reason by : Bytes)
    (f : File Flags)
    → Marks d service account
        (some (record { reason = reason; flagged_at = now; flagged_by = flagger by }))
        f
        (flag_rotation d now items service account reason by f)
      × Marks d service account none f (unflag_rotation d service account f)
      × (((flag_rotation d now items service account reason by f).0 ≢ ok tt)
          ⊎ ((found : List Item) × (items ≡ ok found)
              × (any (is_item service account) found ≡ true)))
unfolding flag_rotation unflag_rotation
flags_follow d now items service account reason by f = (
  flagged-Marks d now service account reason by f items,
  Updated-Marks d service account none (remove (stat_key service account)) f _
      (λ j m. lookup-remove j (stat_key service account) m)
      (update_flags-Updated d.path d.locks d.saves (remove (stat_key service account)) f),
  flagged_known d now service account reason by f items,
)
