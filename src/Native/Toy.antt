-- ===== src/Native/Toy.antt =====
-- A concrete cipher that keeps the laws of filippo.io/age, and concrete stores under it.
use oma_seal.Prelude.{
  ℕ, ◌+◌, ◌*◌, true, false, Option, none, some, arith, if◌then◌else◌, ◌==◌, eq_iff, eq_refl, nat_eq,
  bytes_eq, if-true,
}
use oma_seal.Bytes.{Bytes, codes}
use oma_seal.Files.{absent, holds, second}
use oma_seal.Agent.{Agent}
use oma_seal.Native.Crypto.{Age, AgeLaws, Plaintext, identity_text}
use oma_seal.Native.Store.{NativeStore, World}
use oma_seal.Native.Items.{set}

-- a ciphertext names its recipient or its passphrase
pub data ToyCipher : Type 0 where
  to_recipient : ℕ → Plaintext ℕ → ToyCipher
  to_passphrase : Bytes → Plaintext ℕ → ToyCipher

abbrev pub toy_decrypt : ℕ → ToyCipher → Option (Plaintext ℕ)
toy_decrypt i (to_recipient r m) = if r == i + 100 then some m else none
toy_decrypt i (to_passphrase p m) = none

abbrev pub toy_unwrap : Bytes → ToyCipher → Option (Plaintext ℕ)
toy_unwrap q (to_passphrase p m) = if p == q then some m else none
toy_unwrap q (to_recipient r m) = none

abbrev pub toy : Age
toy = record {
  Identity = ℕ;
  Recipient = ℕ;
  Cipher = ToyCipher;
  generate = λ n. n;
  recipient = λ i. i + 100;
  encrypt = λ n r m. to_recipient r m;
  decrypt = toy_decrypt;
  wrap = λ n p m. to_passphrase p m;
  unwrap = toy_unwrap;
}

pub toy_laws : AgeLaws toy
toy_laws = record {
  decrypt-encrypt = λ i n m. if-true none (eq_refl (i + 100));
  unwrap-wrap = λ p n m. if-true none (eq_refl p);
  unwrap-other = λ p q n m d. ground (arith, eq_iff p q);
}

abbrev pub no_agent : Agent
no_agent = record { policy_file = absent; session_file = absent }

abbrev pub empty_store : NativeStore toy
empty_store = record {
  identity_file = absent;
  pub_file = absent;
  store_file = absent;
  session_json = absent;
  session_age = absent;
  pub_key = none;
  identity = none;
  identity_enc = none;
  agent = no_agent;
}

abbrev pub hour : ℕ
hour = 3600 * second

-- a process without a terminal
abbrev pub agent_world : World toy
agent_world = record {
  now = 10 * hour;
  can_prompt = false;
  tty = false;
  first_answer = none;
  second_answer = none;
  draw = 7;
  locks = true;
  writes = λ f. true;
  removes = λ f. true;
  rival = none;
}

abbrev pub pass_rest : Bytes
pass_rest = codes "pen sesame"

abbrev pub pass : Bytes
pass = codes "open sesame"

abbrev pub user_world : World toy
user_world = record agent_world {
  can_prompt = true;
  tty = true;
  first_answer = some pass;
  second_answer = some pass;
}

abbrev pub ready : NativeStore toy
ready = record empty_store {
  identity_file = holds (to_passphrase pass (identity_text 3));
  pub_file = holds 103;
  pub_key = some 103;
  identity = some 3;
}

abbrev pub locked_store : NativeStore toy
locked_store = record ready { identity = none }

abbrev pub github : Bytes
github = codes "github"

abbrev pub token : Bytes
token = codes "https://api/%2F"

abbrev pub secret : Bytes
secret = codes "s3cret"

abbrev pub filled : NativeStore toy
filled = (set agent_world github token secret true false locked_store).1

abbrev pub opened : NativeStore toy
opened = record filled { identity = some 3 }
