-- ===== src/Svc/Examples.antt =====
-- A session with a cipher that only keys can refuse.
use oma_seal.Prelude.{◌==◌, ◌≡◌, refl, some, length, nat_eq, bytes_eq}
use oma_seal.Errors.{ok, ◌>>=◌}
use oma_seal.Bytes.{codes, Bytes}
use oma_seal.Svc.{Aes, AesLaws, repeat, pkcs7_pad, codec_encrypt, codec_decrypt}
use oma_seal.Svc.Codec.{codec_decrypt-codec_encrypt}

abbrev pub clear_aes : Aes
clear_aes = record {
  new_cipher = λ key. length key == 16;
  encrypt_blocks = λ key iv text. text;
  decrypt_blocks = λ key iv text. text;
}

pub clear_laws : AesLaws clear_aes
clear_laws = record {
  length-encrypt_blocks = λ key iv text block whole. refl;
  decrypt_blocks-encrypt_blocks = λ key iv text block whole. refl;
}

abbrev pub key : Bytes
key = codes "0123456789abcdef"

full_block : length (pkcs7_pad key 16) ≡ 32
unfolding pkcs7_pad repeat
full_block = refl

codec_decrypt-codec_encrypt_example :
    (codec_encrypt clear_aes key (some key) (codes "token") >>= λ (params, value).
    codec_decrypt clear_aes key params value)
    ≡ ok (codes "token")
codec_decrypt-codec_encrypt_example =
    codec_decrypt-codec_encrypt clear_aes clear_laws key key (codes "token") refl refl
