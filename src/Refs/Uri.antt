-- ===== src/Refs/Uri.antt =====
-- The two ways to name a credential, as a reference and as separate fields.
use oma_seal.Prelude.{
  ℕ, zero, suc, ◌≡◌, refl, subst, ◌≢◌, inl, inr, Bool, true, false, [], ◌∷◌, ◌++◌, map, arith, ltb,
  lt→ltb, bytes_beq, Bool-cases, eq_iff, nat_eq, bytes_eq, length, take,
}
use oma_seal.Errors.{Result, ok, err, ◌>>=◌}
use oma_seal.Bytes.{Bytes, codes, to_lower, lower}
use oma_seal.Bytes.Cut.{Lacks, cut-append}
use oma_seal.Refs.{
  is_oma_seal_family, valid_component, valid_ref, parse_ref, need_account, as_invalid_name,
  ref_aware_credentials, parse_credential_args,
}
use oma_seal.Refs.Component.{
  IsComponent, valid_component_iff, valid_component-Lacks_slash, valid_component-Lacks_colon,
}

-- omaseal://<service>/<account>
abbrev pub uri : Bytes → Bytes → Bytes
uri service account = codes "omaseal://" ++ service ++ b'/' ∷ account

family-uri : (service account : Bytes) → is_oma_seal_family (uri service account) ≡ true
unfolding is_oma_seal_family bytes_beq
family-uri service account =
    let long : ltb 8 (length (uri service account)) ≡ true = lt→ltb 8 _ (omega arith) in rw long

parse_ref-uri_loose :
    (service account : Bytes)
    → service ≢ []
    → Lacks b'/' service
    → parse_ref (uri service account) false ≡ ok (service, account)
unfolding parse_ref
parse_ref-uri_loose service account h l =
    rw (family-uri service account, cut-append service account b'/' l)
      (ground (arith, eq_iff service []))

parse_ref-uri_strict :
    (service account : Bytes)
    → valid_component service false ≡ ok tt
    → valid_component account true ≡ ok tt
    → parse_ref (uri service account) true ≡ ok (service, account)
unfolding parse_ref valid_ref
parse_ref-uri_strict service account hs ha =
    let s = (valid_component_iff false service).0 hs in
    rw
      (
        family-uri service account,
        cut-append service account b'/' (valid_component-Lacks_slash service hs),
      )
      (ground (arith, eq_iff service [], eq_iff account [], s.nonempty))

-- A reference to valid names is read back as those names by `parseRef`, strict or not: the account
-- may itself hold slashes.
pub parse_ref-uri :
    (service account : Bytes) (strict : Bool)
    → IsComponent false service
    → IsComponent true account
    → parse_ref (uri service account) strict ≡ ok (service, account)
parse_ref-uri service account true hs ha =
    parse_ref-uri_strict service account ((valid_component_iff false service).1 hs)
      ((valid_component_iff true account).1 ha)
parse_ref-uri service account false hs ha =
    parse_ref-uri_loose service account hs.nonempty
      (valid_component-Lacks_slash service ((valid_component_iff false service).1 hs))

-- a name without ':' does not claim the scheme
lower-Lacks_colon : (v : Bytes) (n : ℕ) → Lacks b':' v → Lacks b':' (map lower (take n v))
lower-Lacks_colon v zero h = tt
lower-Lacks_colon [] (suc n) h = tt
lower-Lacks_colon (c ∷ v) (suc n) (h, hs) = (ground arith, lower-Lacks_colon v n hs)

scheme_has_colon : (w : Bytes) → Lacks b':' w → w ≢ codes "omaseal:"
scheme_has_colon w h e = (subst (Lacks b':') e h).1.1.1.1.1.1.1.0 refl

pub not_family-Lacks_colon : (v : Bytes) → Lacks b':' v → is_oma_seal_family v ≡ false
unfolding is_oma_seal_family to_lower
not_family-Lacks_colon v h = ground (
  arith,
  eq_iff (map lower (take 8 v)) (codes "omaseal:"),
  scheme_has_colon (map lower (take 8 v)) (lower-Lacks_colon v 8 h),
)

module _ (service account : Bytes) (strict : Bool) (hs : IsComponent false service)
    (ha : IsComponent true account) where
  valid_service : valid_component service false ≡ ok tt
  valid_service = (valid_component_iff false service).1 hs

  valid_account : valid_component account true ≡ ok tt
  valid_account = (valid_component_iff true account).1 ha

  not_family_service : is_oma_seal_family service ≡ false
  not_family_service =
      not_family-Lacks_colon service (valid_component-Lacks_colon false service valid_service)

  not_family_account : is_oma_seal_family account ≡ false
  not_family_account =
      not_family-Lacks_colon account (valid_component-Lacks_colon true account valid_account)

  as_reference : ref_aware_credentials (uri service account) [] strict ≡ ok (service, account)
  unfolding ref_aware_credentials
  as_reference =
      rw (family-uri service account, parse_ref-uri service account strict hs ha)
        (ground (arith, eq_iff {T = Bytes} [] [], eq_iff account [], ha.nonempty))

  as_fields : ref_aware_credentials service account strict ≡ ok (service, account)
  unfolding ref_aware_credentials
  as_fields = rw not_family_service (
      ground (
        arith,
        eq_iff service [],
        eq_iff account [],
        hs.nonempty,
        ha.nonempty,
        valid_service,
        valid_account,
      ))

  as_one_argument : parse_credential_args (uri service account ∷ []) strict ≡ ok (service, account)
  unfolding parse_credential_args
  as_one_argument =
      rw (family-uri service account, parse_ref-uri service account strict hs ha)
        (ground (arith, eq_iff account [], ha.nonempty))

  as_two_arguments : parse_credential_args (service ∷ account ∷ []) strict ≡ ok (service, account)
  unfolding parse_credential_args
  as_two_arguments =
      rw (not_family_service, not_family_account) (ground (arith, valid_service, valid_account))

-- Agents may pass valid names as separate fields or as one reference: `refAwareCredentials` gives
-- the same answer, and so does the command line's `parseCredentialArgs`.
pub ref_aware_credentials-uri :
    (service account : Bytes) (strict : Bool)
    → IsComponent false service
    → IsComponent true account
    → (ref_aware_credentials (uri service account) [] strict ≡ ok (service, account))
      × (ref_aware_credentials service account strict ≡ ok (service, account))
      × (parse_credential_args (uri service account ∷ []) strict ≡ ok (service, account))
      × (parse_credential_args (service ∷ account ∷ []) strict ≡ ok (service, account))
ref_aware_credentials-uri service account strict hs ha = (
  as_reference service account strict hs ha,
  as_fields service account strict hs ha,
  as_one_argument service account strict hs ha,
  as_two_arguments service account strict hs ha,
)

valid_ref_sound :
    (s a : Bytes)
    → valid_ref s a ≡ ok tt
    → a ≢ []
    → (valid_component s false ≡ ok tt) × (valid_component a true ≡ ok tt)
unfolding valid_ref
valid_ref_sound s a h n = ground (arith, eq_iff a [])

parse_ref_sound : (arg s a : Bytes) → parse_ref arg true ≡ ok (s, a) → valid_ref s a ≡ ok tt
unfolding parse_ref
parse_ref_sound arg s a h = ground arith

need_account_sound :
    (arg s a : Bytes)
    → (parse_ref arg true >>= need_account) ≡ ok (s, a)
    → (parse_ref arg true ≡ ok (s, a)) × (a ≢ [])
need_account_sound arg s a h = ground (arith, eq_iff a [])

as_invalid_name_ok {ℓ} : {A : Type ℓ} (m : Result A) {x : A} → as_invalid_name m ≡ ok x → m ≡ ok x
as_invalid_name_ok (ok a) h = h
as_invalid_name_ok (err e) h = cc

from_reference :
    (service account s a : Bytes)
    → is_oma_seal_family service ≡ true
    → ref_aware_credentials service account true ≡ ok (s, a)
    → (parse_ref service true >>= need_account) ≡ ok (s, a)
unfolding ref_aware_credentials
from_reference service account s a f h =
    ground (arith, as_invalid_name_ok (parse_ref service true >>= need_account) {x = (s, a)})

from_fields :
    (service account s a : Bytes)
    → is_oma_seal_family service ≡ false
    → ref_aware_credentials service account true ≡ ok (s, a)
    → (valid_component s false ≡ ok tt) × (valid_component a true ≡ ok tt)
unfolding ref_aware_credentials
from_fields service account s a f h = ground arith

-- Whatever strings an agent passes, a strict `refAwareCredentials` that succeeds returns a service
-- and an account of the shared alphabet.
pub ref_aware_credentials_strict :
    (service account s a : Bytes)
    → ref_aware_credentials service account true ≡ ok (s, a)
    → IsComponent false s × IsComponent true a
ref_aware_credentials_strict service account s a h =
    let (valid_s, valid_a) = valid_pair in
    ((valid_component_iff false s).0 valid_s, (valid_component_iff true a).0 valid_a)
  where
    valid_pair : (valid_component s false ≡ ok tt) × (valid_component a true ≡ ok tt)
    valid_pair = elim (Bool-cases (is_oma_seal_family service)) [
      | inl f ↦
          let (parsed, nonempty) =
            need_account_sound service s a (from_reference service account s a f h) in
          valid_ref_sound s a (parse_ref_sound service s a parsed) nonempty
      | inr f ↦ from_fields service account s a f h
    ]
