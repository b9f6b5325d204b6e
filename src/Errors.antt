-- ===== src/Errors.antt =====
-- engine/errors.go: an error is a code for the user, if it is an `omasealError`, and the sentinel
-- that `errors.Is` finds in its chain. Messages and help lines are not modelled.
use oma_seal.Prelude.{Option, none, some}

-- The codes that the modelled parts of the engine give to `newError`, and `codeFromError`'s default.
pub data Code : Type 0 where
  unknown_error not_found keyring_timeout keyring_unavailable invalid_name : Code
  store_uninitialized unlock_denied locked tamper : Code
  agent_policy_read agent_locked agent_unauthorized : Code
  manifest_error manifest_denied rate_limited : Code

-- What `errors.Is` and `errors.As` distinguish. The last wraps both errPresenceDenied and
-- errNoPresenceMechanism.
pub data Cause : Type 0 where
  message not_exist keyring_not_found native_locked native_tamper item_exists : Cause
  presence_denied no_presence_mechanism prompt_cancelled no_gui_prompter gui_disabled : Cause
  denied_without_mechanism : Cause

pub record Error : Type 0 where
  pub code : Option Code
  pub cause : Cause

-- errors.New and fmt.Errorf without %w
abbrev pub plain : Error
plain = record { code = none; cause = message }

abbrev pub sentinel : Cause → Error
sentinel c = record { code = none; cause = c }

abbrev pub new_error : Code → Cause → Error
new_error code c = record { code = some code; cause = c }

abbrev pub code_or : Option Code → Code
code_or none = unknown_error
code_or (some c) = c

abbrev pub code_from_error : Error → Code
code_from_error e = code_or e.code

-- a Go pair of a value and an error, of which one is nil
pub data Result {ℓ} (V : Type ℓ) : Type ℓ where
  err : Error → Result V
  ok : V → Result V

infixl 5 ◌>>◌ ◌>>=◌
abbrev pub ◌>>=◌ {ℓ κ} : {V : Type ℓ} {W : Type κ} → Result V → (V → Result W) → Result W
err e >>= next = err e
ok v >>= next = next v

abbrev pub ◌>>◌ {ℓ} : {W : Type ℓ} → Result (Unit {0}) → Result W → Result W
err e >> next = err e
ok _ >> next = next
