-- ===== src/Flags.antt =====
-- engine/flags.go: which secrets are flagged for rotation.
mod Examples
pub mod Marks
use oma_seal.Prelude.{
  ℕ, zero, suc, ◌+◌, ◌-◌, ◌*◌, ◌/◌, ◌%◌, ◌^◌, ◌≤◌, ◌<◌, ◌≡◌, refl, sym, ap, ◌∙◌, subst, fun_ext,
  ◌≢◌, ◌↔◌, ◌⊎◌, inl, inr, Bool, true, false, not, ◌&&◌, ◌||◌, Option, none, some, List, [], ◌∷◌,
  ◌++◌, map, append-nil, append_assoc, arith, ltb, leb, ltb→lt, lt→ltb, leb→le, bytes_beq,
  if◌then◌else◌, Bool-cases, Option-cases, and-eq-true, or-eq-true, or-eq-false, Eq, ◌==◌, eq_iff,
  eq_refl, nat_eq, bytes_eq, length, length-append, keep, any, All, All-append, All-left, All-right,
  take, drop, Map, lookup, remove, insert, lookup-insert, lookup-remove, if-true, if-false,
  not-true, lookup-insert_other, lookup-remove_other,
}
use oma_seal.Errors.{Result, ok, err, plain, new_error, not_found, message}
use oma_seal.Bytes.{Bytes, codes}
use oma_seal.Files.{File, absent, unreadable, corrupt, holds}
use oma_seal.Native.Items.{Item}

pub record RotationFlag : Type 0 where
  pub reason : Bytes
  pub flagged_at : ℕ
  pub flagged_by : Bytes

abbrev pub Flags : Type 0
Flags = Map Bytes RotationFlag

-- whether the state directory, the lock and a replacement of the file are to be had
pub record Disk : Type 0 where
  pub path : Bool
  pub locks : Bool
  pub saves : Bool

-- `statKey` of engine/analytics.go
abbrev pub stat_key : Bytes → Bytes → Bytes
stat_key service account = service ++ b'/' ∷ account

abbrev pub read_flags : File Flags → Result Flags
read_flags absent = ok []
read_flags unreadable = err plain
read_flags corrupt = err plain
read_flags (holds flags) = ok flags

unfoldable pub load_flags : Disk → File Flags → Result Flags
load_flags d f = if d.path then read_flags f else err plain

unfoldable pub save_flags : Disk → Flags → File Flags → Result (Unit {0}) × File Flags
save_flags d flags f = if d.path && d.saves then (ok tt, holds flags) else (err plain, f)

-- No empty file is created.
abbrev pub save_changed : Disk → Flags → File Flags → Result (Unit {0}) × File Flags
save_changed d [] absent = (ok tt, absent)
save_changed d flags f = save_flags d flags f

abbrev pub change_loaded :
    Disk → (Flags → Flags) → Result Flags → File Flags → Result (Unit {0}) × File Flags
change_loaded d mut (err e) f = (err e, f)
change_loaded d mut (ok flags) f = save_changed d (mut flags) f

unfoldable pub update_flags : Disk → (Flags → Flags) → File Flags → Result (Unit {0}) × File Flags
unfolding load_flags save_flags
update_flags d mut f =
    if d.path && d.locks then change_loaded d mut (load_flags d f) f else (err plain, f)

abbrev pub is_item : Bytes → Bytes → Item → Bool
is_item service account it = it.service == service && it.account == account

abbrev pub flagger : Bytes → Bytes
flagger [] = codes "cli"
flagger by = by

abbrev pub flag_listed :
    Disk
    → ℕ
    → Result (List Item)
    → Bytes
    → Bytes
    → Bytes
    → Bytes
    → File Flags
    → Result (Unit {0}) × File Flags
flag_listed d now (err e) service account reason by f = (err e, f)
flag_listed d now (ok items) service account reason by f =
    if any (is_item service account) items
    then update_flags d
        (insert (stat_key service account)
          (record { reason = reason; flagged_at = now; flagged_by = flagger by }))
        f
    else (err (new_error not_found message), f)

-- `items` is what `listItems` answers for the service.
unfoldable pub flag_rotation :
    Disk
    → ℕ
    → Result (List Item)
    → Bytes
    → Bytes
    → Bytes
    → Bytes
    → File Flags
    → Result (Unit {0}) × File Flags
unfolding any insert update_flags
flag_rotation d now items service account reason by f =
    flag_listed d now items service account reason by f

unfoldable pub unflag_rotation : Disk → Bytes → Bytes → File Flags → Result (Unit {0}) × File Flags
unfolding remove update_flags
unflag_rotation d service account f = update_flags d (remove (stat_key service account)) f

abbrev pub flag_in : Bytes → Result Flags → Option RotationFlag
flag_in key (err e) = none
flag_in key (ok flags) = lookup key flags

unfoldable pub rotation_flag_for : Disk → Bytes → Bytes → File Flags → Option RotationFlag
unfolding lookup load_flags
rotation_flag_for d service account f = flag_in (stat_key service account) (load_flags d f)
