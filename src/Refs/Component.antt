-- ===== src/Refs/Component.antt =====
-- What `validComponent` accepts: the shared alphabet, as an independent description.
use oma_seal.Prelude.{
  ℕ, ◌≤◌, ◌≡◌, refl, ◌≢◌, ◌↔◌, ◌⊎◌, inl, inr, Bool, true, false, [], ◌∷◌, arith, Bool-cases, eq_iff,
  nat_eq, bytes_eq, length, All,
}
use oma_seal.Errors.{ok}
use oma_seal.Bytes.{Bytes}
use oma_seal.Bytes.Cut.{Lacks}
use oma_seal.Refs.{valid_bytes, valid_component, max_component_len, byte_allowed}

-- unreserved characters, and '/' where it is allowed
pub data IsUnreserved : Bool → ℕ → Type 0 where
  small : {slash : Bool} {c : ℕ} → b'a' ≤ c → c ≤ b'z' → IsUnreserved slash c
  capital : {slash : Bool} {c : ℕ} → b'A' ≤ c → c ≤ b'Z' → IsUnreserved slash c
  digit : {slash : Bool} {c : ℕ} → b'0' ≤ c → c ≤ b'9' → IsUnreserved slash c
  dot : {slash : Bool} {c : ℕ} → c ≡ b'.' → IsUnreserved slash c
  underscore : {slash : Bool} {c : ℕ} → c ≡ b'_' → IsUnreserved slash c
  tilde : {slash : Bool} {c : ℕ} → c ≡ b'~' → IsUnreserved slash c
  dash : {slash : Bool} {c : ℕ} → c ≡ b'-' → IsUnreserved slash c
  slash_allowed : {slash : Bool} {c : ℕ} → slash ≡ true → c ≡ b'/' → IsUnreserved slash c

pub record IsComponent (slash : Bool) (v : Bytes) : Type 0 where
  pub nonempty : v ≢ []
  pub fits : length v ≤ max_component_len
  pub unreserved : All (IsUnreserved slash) v

byte_allowed_complete : (slash : Bool) (c : ℕ) → IsUnreserved slash c → byte_allowed slash c ≡ true
byte_allowed_complete slash c (small h k) = ground arith
byte_allowed_complete slash c (capital h k) = ground arith
byte_allowed_complete slash c (digit h k) = ground arith
byte_allowed_complete slash c (dot h) = ground arith
byte_allowed_complete slash c (underscore h) = ground arith
byte_allowed_complete slash c (tilde h) = ground arith
byte_allowed_complete slash c (dash h) = ground arith
byte_allowed_complete slash c (slash_allowed h k) = ground arith

abbrev Allowed : Bool → ℕ → Type 0
Allowed slash c =
    ((b'a' ≤ c) × (c ≤ b'z'))
    ⊎ ((b'A' ≤ c) × (c ≤ b'Z'))
    ⊎ ((b'0' ≤ c) × (c ≤ b'9'))
    ⊎ (c ≡ b'.')
    ⊎ (c ≡ b'_')
    ⊎ (c ≡ b'~')
    ⊎ (c ≡ b'-')
    ⊎ ((slash ≡ true) × (c ≡ b'/'))

byte_allowed_cases : (slash : Bool) (c : ℕ) → byte_allowed slash c ≡ true → Allowed slash c
byte_allowed_cases slash c h = ground arith

Allowed-IsUnreserved : (slash : Bool) (c : ℕ) → Allowed slash c → IsUnreserved slash c
Allowed-IsUnreserved slash c (inl (h, k)) = small h k
Allowed-IsUnreserved slash c (inr (inl (h, k))) = capital h k
Allowed-IsUnreserved slash c (inr (inr (inl (h, k)))) = digit h k
Allowed-IsUnreserved slash c (inr (inr (inr (inl h)))) = dot h
Allowed-IsUnreserved slash c (inr (inr (inr (inr (inl h))))) = underscore h
Allowed-IsUnreserved slash c (inr (inr (inr (inr (inr (inl h)))))) = tilde h
Allowed-IsUnreserved slash c (inr (inr (inr (inr (inr (inr (inl h))))))) = dash h
Allowed-IsUnreserved slash c (inr (inr (inr (inr (inr (inr (inr (h, k)))))))) = slash_allowed h k

byte_allowed_sound : (slash : Bool) (c : ℕ) → byte_allowed slash c ≡ true → IsUnreserved slash c
byte_allowed_sound slash c h = Allowed-IsUnreserved slash c (byte_allowed_cases slash c h)

valid_bytes_sound :
    (slash : Bool) (v : Bytes) → valid_bytes slash v ≡ ok tt → All (IsUnreserved slash) v
unfolding valid_bytes
valid_bytes_sound slash [] h = tt
valid_bytes_sound slash (c ∷ v) h = elim (Bool-cases (byte_allowed slash c)) [
  | inl good ↦ (byte_allowed_sound slash c good, valid_bytes_sound slash v (rw good at h))
  | inr bad ↦ cc (rw bad at h)
]

valid_bytes_complete :
    (slash : Bool) (v : Bytes) → All (IsUnreserved slash) v → valid_bytes slash v ≡ ok tt
unfolding valid_bytes
valid_bytes_complete slash [] h = refl
valid_bytes_complete slash (c ∷ v) (hc, hv) =
    rw (byte_allowed_complete slash c hc) (valid_bytes_complete slash v hv)

-- `validComponent` accepts exactly the non-empty names of at most 256 bytes whose bytes are all
-- ASCII letters, digits, '.', '_', '~' or '-', and '/' where slashes are allowed.
pub valid_component_iff :
    (slash : Bool) (v : Bytes) → (valid_component v slash ≡ ok tt) ↔ IsComponent slash v
unfolding valid_component
valid_component_iff slash v = (
  λ h. record {
    nonempty = ground (arith, eq_iff v []);
    fits = ground (arith, eq_iff v []);
    unreserved = valid_bytes_sound slash v (ground (arith, eq_iff v []));
  },
  λ c. ground (arith, eq_iff v [], valid_bytes_complete slash v c.unreserved, c.nonempty, c.fits),
)

-- A service name holds no '/', and no accepted name holds a ':'.
unreserved-Lacks_slash : (v : Bytes) → All (IsUnreserved false) v → Lacks b'/' v
unreserved-Lacks_slash [] h = tt
unreserved-Lacks_slash (c ∷ v) (h, hs) =
    (λ e. ground (arith, byte_allowed_complete false c h), unreserved-Lacks_slash v hs)

unreserved-Lacks_colon : (slash : Bool) (v : Bytes) → All (IsUnreserved slash) v → Lacks b':' v
unreserved-Lacks_colon slash [] h = tt
unreserved-Lacks_colon slash (c ∷ v) (h, hs) =
    (λ e. ground (arith, byte_allowed_complete slash c h), unreserved-Lacks_colon slash v hs)

pub valid_component-Lacks_slash : (v : Bytes) → valid_component v false ≡ ok tt → Lacks b'/' v
valid_component-Lacks_slash v h =
    unreserved-Lacks_slash v ((valid_component_iff false v).0 h).unreserved

pub valid_component-Lacks_colon :
    (slash : Bool) (v : Bytes) → valid_component v slash ≡ ok tt → Lacks b':' v
valid_component-Lacks_colon slash v h =
    unreserved-Lacks_colon slash v ((valid_component_iff slash v).0 h).unreserved
