-- ===== src/Native/Crypto.antt =====
-- What engine/nativestore.go uses of filippo.io/age, as an interface, and what it encrypts.
use oma_seal.Prelude.{ℕ, ◌≡◌, ◌≢◌, Option, none, some, nat_eq, bytes_eq}
use oma_seal.Bytes.{Bytes}
use oma_seal.Bytes.Utf8.{json_text}

-- What the JSON text of an envelope decodes to.
pub record Envelope : Type 0 where
  pub svc : Bytes
  pub acct : Bytes
  pub value : Bytes

-- json.Marshal of an envelope, as it is read back
abbrev pub marshal : Bytes → Bytes → Bytes → Envelope
marshal service account secret = record {
  svc = json_text service;
  acct = json_text account;
  value = json_text secret;
}

-- What a plaintext parses as: an envelope's JSON text, the text of an identity, or neither.
pub data Plaintext (I : Type 0) : Type 0 where
  envelope_text : Envelope → Plaintext I
  identity_text : I → Plaintext I
  other_text : Bytes → Plaintext I

-- X25519 identities, their recipients and ciphertexts. A ℕ stands for the random bytes that a call
-- draws; a ciphertext that is not for the identity or passphrase does not decrypt.
pub record Age : Type 1 where
  pub Identity : Type 0
  pub Recipient : Type 0
  pub Cipher : Type 0
  pub generate : ℕ → Identity
  pub recipient : Identity → Recipient
  pub encrypt : ℕ → Recipient → Plaintext Identity → Cipher
  pub decrypt : Identity → Cipher → Option (Plaintext Identity)
  pub wrap : ℕ → Bytes → Plaintext Identity → Cipher
  pub unwrap : Bytes → Cipher → Option (Plaintext Identity)

-- A ciphertext decrypts to what was encrypted, by the identity or the passphrase it is for, and a
-- passphrase it is not for does not open it.
pub record AgeLaws (age : Age) : Type 0 where
  pub decrypt-encrypt :
      (i : age.Identity) (n : ℕ) (m : Plaintext age.Identity)
      → age.decrypt i (age.encrypt n (age.recipient i) m) ≡ some m
  pub unwrap-wrap :
      (p : Bytes) (n : ℕ) (m : Plaintext age.Identity) → age.unwrap p (age.wrap n p m) ≡ some m
  pub unwrap-other :
      (p q : Bytes) (n : ℕ) (m : Plaintext age.Identity)
      → p ≢ q
      → age.unwrap q (age.wrap n p m) ≡ none
