-- ===== src/Svc/Codec.antt =====
-- What the codec of a session gives back.
use oma_seal.Prelude.{
  ◌%◌, ◌≡◌, sym, subst, true, false, not, ◌||◌, some, arith, ◌==◌, eq_iff, nat_eq, bytes_eq, length,
}
use oma_seal.Errors.{ok, ◌>>=◌}
use oma_seal.Bytes.{Bytes}
use oma_seal.Svc.{
  aes_block_size, pkcs7_pad, pkcs7_unpad, Aes, AesLaws, codec_encrypt, codec_decrypt,
}
use oma_seal.Svc.Padding.{length-padded, whole_blocks, unpadded}

-- a decryption that no test refuses
decrypted :
    (aes : Aes) (key iv value secret : Bytes)
    → aes.new_cipher key ≡ true
    → length iv ≡ 16
    → (length value == 0 || not (length value % 16 == 0)) ≡ false
    → pkcs7_unpad (aes.decrypt_blocks key iv value) 16 ≡ ok secret
    → codec_decrypt aes key iv value ≡ ok secret
unfolding codec_decrypt
decrypted aes key iv value secret takes block whole h =
    rw (takes, (eq_iff (length iv) 16).1 block, whole) h

-- Under the laws of CBC mode, what a session's codec encrypts with a key that AES takes and an IV of
-- one block, it decrypts to the same secret.
pub codec_decrypt-codec_encrypt :
    (aes : Aes) (laws : AesLaws aes) (key iv secret : Bytes)
    → aes.new_cipher key ≡ true
    → length iv ≡ aes_block_size
    → (codec_encrypt aes key (some iv) secret >>= λ (params, value).
        codec_decrypt aes key params value)
      ≡ ok secret
unfolding codec_encrypt
codec_decrypt-codec_encrypt aes laws key iv secret takes block =
    let p = pkcs7_pad secret 16 in
    let full : length p % 16 ≡ 0 = omega (arith, length-padded secret) in
    let same = laws.length-encrypt_blocks key iv p block full in
    rw takes (
      decrypted aes key iv (aes.encrypt_blocks key iv p) secret takes block
        ((whole_blocks (length (aes.encrypt_blocks key iv p))).1
          (omega (arith, same, length-padded secret), omega (arith, same, full)))
        (subst (λ t. pkcs7_unpad t 16 ≡ ok secret)
          (sym (laws.decrypt_blocks-encrypt_blocks key iv p block full)) (unpadded secret)))
