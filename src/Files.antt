-- ===== src/Files.antt =====
-- What the engine sees of a file, and the clock.
use oma_seal.Prelude.{ℕ, ◌+◌, ◌-◌, ◌*◌, ◌/◌, ◌%◌, ◌^◌, Bool, ltb, if◌then◌else◌}

-- A file that is not there, that cannot be read, whose content does not parse, or that holds a value.
pub data File {ℓ} (A : Type ℓ) : Type ℓ where
  absent unreadable corrupt : File A
  holds : A → File A

-- An instant is a number of nanoseconds since 1970; a Unix time is a number of seconds.
abbrev pub second : ℕ
second = 1000000000

-- t.Unix()
abbrev pub unix : ℕ → ℕ
unix t = t / second

-- time.Unix(n, 0)
abbrev pub at_unix : ℕ → ℕ
at_unix n = n * second

-- t.Add(time.Duration(minutes) * time.Minute): the product is an int64 and wraps around. An instant
-- before 1970 stands as 1970.
unfoldable pub add_minutes : ℕ → ℕ → ℕ
add_minutes t minutes =
    let d = minutes * 60 * second % 2 ^ 64 in if ltb d (2 ^ 63) then t + d else t - (2 ^ 64 - d)

abbrev pub before : ℕ → ℕ → Bool
before a b = ltb a b
