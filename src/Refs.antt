-- ===== src/Refs.antt =====
-- engine/refs.go: service and account names, positional or as omaseal:// references.
pub mod Component
pub mod Uri
mod Examples
use oma_seal.Prelude.{
  ℕ, zero, suc, ◌+◌, ◌-◌, ◌*◌, ◌/◌, ◌%◌, ◌^◌, ◌≤◌, ◌<◌, ◌≡◌, refl, sym, ap, ◌∙◌, subst, fun_ext,
  ◌≢◌, ◌↔◌, ◌⊎◌, inl, inr, Bool, true, false, not, ◌&&◌, ◌||◌, Option, none, some, List, [], ◌∷◌,
  ◌++◌, map, append-nil, append_assoc, arith, ltb, leb, if◌then◌else◌, Bool-cases, Option-cases,
  and-eq-true, or-eq-false, Eq, ◌==◌, eq_iff, eq_refl, nat_eq, bytes_eq, length, length-append,
  keep, any, All, All-append, take, drop, Map, lookup, remove, insert, lookup-insert, lookup-remove,
}
use oma_seal.Errors.{Error, Result, ok, err, plain, new_error, invalid_name, message, ◌>>=◌, ◌>>◌}
use oma_seal.Bytes.{Bytes, codes, cut_prefix, equal_fold}
use oma_seal.Bytes.Cut.{cut}

abbrev pub max_component_len : ℕ
max_component_len = 256

unfoldable pub is_oma_seal_family : Bytes → Bool
unfolding equal_fold
is_oma_seal_family arg = ltb 8 (length arg) && equal_fold (take 8 arg) (codes "omaseal:")

abbrev pub byte_allowed : Bool → ℕ → Bool
byte_allowed allow_slash c =
    leb b'a' c && leb c b'z'
    || leb b'A' c && leb c b'Z'
    || leb b'0' c && leb c b'9'
    || c == b'.'
    || c == b'_'
    || c == b'~'
    || c == b'-'
    || allow_slash && c == b'/'

-- the loop of `validComponent`
unfoldable pub valid_bytes : Bool → Bytes → Result (Unit {0})
valid_bytes allow_slash [] = ok tt
valid_bytes allow_slash (c ∷ v) =
    if byte_allowed allow_slash c then valid_bytes allow_slash v else err plain

-- `kind` only names the field in messages.
unfoldable pub valid_component : Bytes → Bool → Result (Unit {0})
valid_component v allow_slash =
    if v == []
    then err plain
    else if ltb max_component_len (length v)
    then err plain
    else valid_bytes allow_slash v

-- the strict checks, where an empty account is left to the caller
unfoldable pub valid_ref : Bytes → Bytes → Result (Unit {0})
valid_ref service account = do
  valid_component service false
  if account == [] then ok tt else valid_component account true

unfoldable pub parse_ref : Bytes → Bool → Result (Bytes × Bytes)
unfolding cut_prefix cut
parse_ref arg strict =
    if not (is_oma_seal_family arg)
    then err plain
    else elim (cut_prefix (codes "://") (drop 7 arg)) [
      | none ↦ err plain
      | some rest ↦
          let (service, account, _) = cut rest b'/' in
          if service == []
          then err plain
          else if strict
          then (do valid_ref service account; ok (service, account))
          else ok (service, account)
    ]

-- `fail`: every failure carries the code that agents branch on
abbrev pub as_invalid_name {ℓ} : {A : Type ℓ} → Result A → Result A
as_invalid_name (ok a) = ok a
as_invalid_name (err e) = err (new_error invalid_name message)

abbrev pub need_account : Bytes × Bytes → Result (Bytes × Bytes)
need_account (service, account) = if account == [] then err plain else ok (service, account)

unfoldable pub ref_aware_credentials : Bytes → Bytes → Bool → Result (Bytes × Bytes)
ref_aware_credentials service account strict =
    if is_oma_seal_family service
    then if account == []
      then as_invalid_name (parse_ref service strict >>= need_account)
      else err (new_error invalid_name message)
    else if service == [] || account == []
    then err (new_error invalid_name message)
    else if strict
    then as_invalid_name
        (do valid_component service false; valid_component account true; ok (service, account))
    else ok (service, account)

abbrev pub service_only : Bytes × Bytes → Result Bytes
service_only (service, account) = if account == [] then ok service else err plain

unfoldable pub ref_aware_service : Bytes → Bool → Result Bytes
ref_aware_service service strict =
    if is_oma_seal_family service then parse_ref service strict >>= service_only else ok service

unfoldable pub positional : List Bytes → Bool → Result (Bytes × Bytes)
positional (service ∷ account ∷ []) strict =
    if strict
    then (do valid_component service false; valid_component account true; ok (service, account))
    else ok (service, account)
positional _ strict = err plain

abbrev pub mixed_args : List Bytes → Bool → Result (Bytes × Bytes)
mixed_args args strict = if any is_oma_seal_family args then err plain else positional args strict

unfoldable pub parse_credential_args : List Bytes → Bool → Result (Bytes × Bytes)
unfolding any positional
parse_credential_args (arg ∷ []) strict =
    if is_oma_seal_family arg
    then parse_ref arg strict >>= need_account
    else mixed_args (arg ∷ []) strict
parse_credential_args args strict = mixed_args args strict

abbrev pub arg_credentials : List Bytes → Result (Bytes × Bytes)
arg_credentials args = parse_credential_args args true

abbrev pub arg_credentials_loose : List Bytes → Result (Bytes × Bytes)
arg_credentials_loose args = parse_credential_args args false

unfoldable pub arg_service : List Bytes → Result Bytes
unfolding ref_aware_service
arg_service [] = ok []
arg_service (service ∷ []) = ref_aware_service service false
arg_service (_ ∷ _ ∷ _) = err plain
