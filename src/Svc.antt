-- ===== src/Svc.antt =====
-- engine/svccrypto.go: how the Secret Service daemon wraps the secrets of a session.
pub mod Codec
pub mod Examples
pub mod Padding
use oma_seal.Prelude.{
  ℕ, zero, suc, ◌+◌, ◌-◌, ◌*◌, ◌/◌, ◌%◌, ◌^◌, ◌≤◌, ◌<◌, ◌≡◌, refl, sym, ap, ◌∙◌, subst, fun_ext,
  ◌≢◌, ◌↔◌, ◌⊎◌, inl, inr, Bool, true, false, not, ◌&&◌, ◌||◌, Option, none, some, List, [], ◌∷◌,
  ◌++◌, map, append-nil, append_assoc, arith, ltb, leb, ltb→lt, lt→ltb, leb→le, bytes_beq,
  if◌then◌else◌, Bool-cases, Option-cases, and-eq-true, or-eq-true, or-eq-false, Eq, ◌==◌, eq_iff,
  eq_refl, nat_eq, bytes_eq, length, length-append, keep, any, All, All-append, All-left, All-right,
  take, drop, Map, lookup, remove, insert, lookup-insert, lookup-remove, if-true, if-false,
  not-true, lookup-insert_other, lookup-remove_other,
}
use oma_seal.Errors.{Result, ok, err, plain}
use oma_seal.Bytes.{Bytes}

abbrev pub aes_block_size : ℕ
aes_block_size = 16

-- bytes.Repeat of one byte
unfoldable pub repeat : ℕ → ℕ → Bytes
repeat c zero = []
repeat c (suc n) = c ∷ repeat c n

unfoldable pub last_or : ℕ → Bytes → ℕ
last_or c [] = c
last_or c (d ∷ s) = last_or d s

unfoldable pub pkcs7_pad : Bytes → ℕ → Bytes
pkcs7_pad text block_size =
    let n = block_size - length text % block_size in text ++ repeat (n % 256) n

abbrev pub strip_padding : Bytes → ℕ → ℕ → Result Bytes
strip_padding text block_size n =
    if n == 0 || ltb block_size n || ltb (length text) n
    then err plain
    else if drop (length text - n) text == repeat (n % 256) n
    then ok (take (length text - n) text)
    else err plain

unfoldable pub pkcs7_unpad : Bytes → ℕ → Result Bytes
unfolding last_or
pkcs7_unpad text block_size =
    if length text == 0 || not (length text % block_size == 0)
    then err plain
    else strip_padding text block_size (last_or 0 text)

-- What the codec uses of crypto/aes and crypto/cipher: the keys that a cipher takes, and CBC mode
-- for a key, an IV and whole blocks.
pub record Aes : Type 0 where
  pub new_cipher : Bytes → Bool
  pub encrypt_blocks : Bytes → Bytes → Bytes → Bytes
  pub decrypt_blocks : Bytes → Bytes → Bytes → Bytes

-- CBC mode keeps the length and is undone with the same key and IV.
pub record AesLaws (aes : Aes) : Type 0 where
  pub length-encrypt_blocks :
      (key iv text : Bytes)
      → length iv ≡ aes_block_size
      → length text % aes_block_size ≡ 0
      → length (aes.encrypt_blocks key iv text) ≡ length text
  pub decrypt_blocks-encrypt_blocks :
      (key iv text : Bytes)
      → length iv ≡ aes_block_size
      → length text % aes_block_size ≡ 0
      → aes.decrypt_blocks key iv (aes.encrypt_blocks key iv text) ≡ text

-- `drawn` is the IV that the random source gives, if it does.
unfoldable pub codec_encrypt : Aes → Bytes → Option Bytes → Bytes → Result (Bytes × Bytes)
codec_encrypt aes key none secret = err plain
codec_encrypt aes key (some iv) secret =
    if not (aes.new_cipher key)
    then err plain
    else ok (iv, aes.encrypt_blocks key iv (pkcs7_pad secret aes_block_size))

unfoldable pub codec_decrypt : Aes → Bytes → Bytes → Bytes → Result Bytes
unfolding pkcs7_unpad
codec_decrypt aes key params value =
    if not (aes.new_cipher key)
    then err plain
    else if not (length params == aes_block_size)
    then err plain
    else if length value == 0 || not (length value % aes_block_size == 0)
    then err plain
    else pkcs7_unpad (aes.decrypt_blocks key params value) aes_block_size
