-- ===== src/Flags/Examples.antt =====
-- A flag on a listed secret.
use oma_seal.Prelude.{◌≡◌, refl, ◌≢◌, ◌⊎◌, true, some, none, [], ◌∷◌, List, any, bytes_eq}
use oma_seal.Errors.{ok}
use oma_seal.Bytes.{codes}
use oma_seal.Files.{absent}
use oma_seal.Native.Items.{Item}
use oma_seal.Flags.{Disk, RotationFlag, is_item, flag_rotation, unflag_rotation, rotation_flag_for}
use oma_seal.Flags.Marks.{Marks, flags_follow}

abbrev disk : Disk
disk = record { path = true; locks = true; saves = true }

abbrev listed_items : List Item
listed_items =
    record {
      service = codes "stripe";
      account = codes "live";
      created_at = 1;
      updated_at = 2;
      owned = true;
    }
    ∷ []

abbrev leaked : RotationFlag
leaked = record { reason = codes "log"; flagged_at = 7; flagged_by = codes "cli" }

flag_read :
    rotation_flag_for disk
      (codes "stripe")
      (codes "live")
      (flag_rotation disk 7
        (ok listed_items)
        (codes "stripe")
        (codes "live")
        (codes "log")
        []
        absent).1
    ≡ some leaked
unfolding rotation_flag_for flag_rotation oma_seal.Prelude.bytes_beq
flag_read = refl

-- An account with a '/' of one service and a service with a '/' have the same key.
shared_key :
    rotation_flag_for disk
      (codes "stripe/live")
      (codes "eu")
      (flag_rotation disk 7
        (ok (
          record {
            service = codes "stripe";
            account = codes "live/eu";
            created_at = 1;
            updated_at = 2;
            owned = true;
          }
          ∷ []))
        (codes "stripe")
        (codes "live/eu")
        (codes "log")
        []
        absent).1
    ≡ some leaked
unfolding rotation_flag_for flag_rotation oma_seal.Prelude.bytes_beq
shared_key = refl

flags_follow_example :
    Marks disk (codes "stripe") (codes "live") (some leaked) absent (
      flag_rotation disk 7
        (ok listed_items)
        (codes "stripe")
        (codes "live")
        (codes "log")
        []
        absent)
    × Marks disk
        (codes "stripe")
        (codes "live")
        none
        absent
        (unflag_rotation disk (codes "stripe") (codes "live") absent)
    × (((flag_rotation disk 7
            (ok listed_items)
            (codes "stripe")
            (codes "live")
            (codes "log")
            []
            absent).0
          ≢ ok tt)
        ⊎ ((found : List Item) × (ok listed_items ≡ ok found)
            × (any (is_item (codes "stripe") (codes "live")) found ≡ true)))
flags_follow_example =
    flags_follow disk 7 (ok listed_items) (codes "stripe") (codes "live") (codes "log") [] absent
