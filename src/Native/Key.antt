-- ===== src/Native/Key.antt =====
-- engine/nativestore.go: the key of a credential in store.json, and its decoding.
use oma_seal.Prelude.{
  ℕ, ◌≡◌, refl, sym, ap, ◌∙◌, true, Option, none, some, [], ◌∷◌, ◌++◌, arith, if◌then◌else◌, ◌==◌,
  nat_eq, bytes_eq, All-append,
}
use mathlib.Core.List.{flat_map}
use oma_seal.Bytes.{Bytes, codes}
use oma_seal.Bytes.Cut.{cut, Lacks, cut-append}
use oma_seal.Bytes.Replace.{replace_all, replace_from}

abbrev percent : ℕ
percent = b'%'

abbrev pub separator : ℕ
separator = b'/'

unfoldable pub esc_key_part : Bytes → Bytes
unfolding replace_all
esc_key_part s = replace_all (replace_all s (codes "%") (codes "%25")) (codes "/") (codes "%2F")

unfoldable pub unesc_key_part : Bytes → Bytes
unfolding replace_all
unesc_key_part s = replace_all (replace_all s (codes "%2F") (codes "/")) (codes "%25") (codes "%")

unfoldable pub native_key : Bytes → Bytes → Bytes
unfolding esc_key_part
native_key service account = esc_key_part service ++ separator ∷ esc_key_part account

-- engine/svcitems.go
unfoldable pub svc_split_key : Bytes → Option (Bytes × Bytes)
unfolding cut unesc_key_part
svc_split_key key =
    let (s, a, found) = cut key separator in
    if found then some (unesc_key_part s, unesc_key_part a) else none

-- what one byte becomes
esc_byte : ℕ → Bytes
esc_byte c = if c == percent then codes "%25" else if c == separator then codes "%2F" else c ∷ []

half_byte : ℕ → Bytes
half_byte c = if c == percent then codes "%25" else c ∷ []

first_pass : (s : Bytes) → replace_from (codes "%") (codes "%25") 0 s ≡ flat_map half_byte s
unfolding replace_from flat_map half_byte
first_pass [] = refl
first_pass (c ∷ s) = ground (arith, first_pass s)

second_byte :
    (c : ℕ) (rest : Bytes)
    → replace_from (codes "/") (codes "%2F") 0 (half_byte c ++ rest)
      ≡ esc_byte c ++ replace_from (codes "/") (codes "%2F") 0 rest
unfolding replace_from half_byte esc_byte
second_byte c rest = ground arith

second_pass :
    (s : Bytes)
    → replace_from (codes "/") (codes "%2F") 0 (flat_map half_byte s) ≡ flat_map esc_byte s
unfolding flat_map
second_pass [] = unfold replace_from in refl
second_pass (c ∷ s) = rw (second_byte c (flat_map half_byte s), second_pass s)

esc-flat_map : (s : Bytes) → esc_key_part s ≡ flat_map esc_byte s
unfolding esc_key_part
esc-flat_map s = rw (first_pass s) (second_pass s)

slash_byte :
    (c : ℕ) (rest : Bytes)
    → replace_from (codes "%2F") (codes "/") 0 (esc_byte c ++ rest)
      ≡ half_byte c ++ replace_from (codes "%2F") (codes "/") 0 rest
unfolding replace_from half_byte esc_byte
slash_byte c rest = ground arith

slash_pass :
    (s : Bytes)
    → replace_from (codes "%2F") (codes "/") 0 (flat_map esc_byte s) ≡ flat_map half_byte s
unfolding flat_map
slash_pass [] = unfold replace_from in refl
slash_pass (c ∷ s) = rw (slash_byte c (flat_map esc_byte s), slash_pass s)

percent_byte :
    (c : ℕ) (rest : Bytes)
    → replace_from (codes "%25") (codes "%") 0 (half_byte c ++ rest)
      ≡ c ∷ replace_from (codes "%25") (codes "%") 0 rest
unfolding replace_from half_byte
percent_byte c rest = ground arith

percent_pass : (s : Bytes) → replace_from (codes "%25") (codes "%") 0 (flat_map half_byte s) ≡ s
unfolding flat_map
percent_pass [] = unfold replace_from in refl
percent_pass (c ∷ s) = rw (percent_byte c (flat_map half_byte s), percent_pass s)

-- `unescKeyPart` undoes `escKeyPart` on every string.
pub unesc-esc : (s : Bytes) → unesc_key_part (esc_key_part s) ≡ s
unfolding unesc_key_part
unesc-esc s = rw (esc-flat_map s, slash_pass s) (percent_pass s)

esc_byte-Lacks : (c : ℕ) → Lacks separator (esc_byte c)
unfolding esc_byte
esc_byte-Lacks c = ground arith

flat_map-Lacks : (s : Bytes) → Lacks separator (flat_map esc_byte s)
unfolding flat_map
flat_map-Lacks [] = tt
flat_map-Lacks (c ∷ s) =
    All-append _ (esc_byte c) (flat_map esc_byte s) (esc_byte-Lacks c) (flat_map-Lacks s)

pub esc-Lacks : (s : Bytes) → Lacks separator (esc_key_part s)
esc-Lacks s = rw esc-flat_map (flat_map-Lacks s)

pub cut-native_key :
    (service account : Bytes)
    → cut (native_key service account) separator
      ≡ (esc_key_part service, esc_key_part account, true)
unfolding native_key
cut-native_key service account = cut-append _ _ separator (esc-Lacks service)

-- The daemon's `svcSplitKey` reads every store key back as the service and the account that it was
-- made of, whatever bytes they hold.
pub svc_split_key-native_key :
    (service account : Bytes) → svc_split_key (native_key service account) ≡ some (service, account)
unfolding svc_split_key
svc_split_key-native_key service account =
    rw (cut-native_key service account, unesc-esc service, unesc-esc account)

some-eq : (p q : Bytes × Bytes) → some p ≡ some q → p ≡ q
some-eq p q e = cc

-- Two credentials share a store key only if they are the same: no '/' or '%' in a name can make
-- one forge another's key.
pub native_key_injective : (s a t b : Bytes) → native_key s a ≡ native_key t b → (s ≡ t) × (a ≡ b)
native_key_injective s a t b e =
    let same =
      some-eq (s, a) (t, b)
        (sym (svc_split_key-native_key s a) ∙ ap svc_split_key e ∙ svc_split_key-native_key t b) in
    (ap (λ (p : Bytes × Bytes). p.0) same, ap (λ (p : Bytes × Bytes). p.1) same)
