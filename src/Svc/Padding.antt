-- ===== src/Svc/Padding.antt =====
-- What the padding and the wrapping of secrets give back.
use oma_seal.Prelude.{
  ℕ, zero, suc, ◌+◌, ◌-◌, ◌%◌, ◌≤◌, ◌≡◌, refl, sym, ap, ◌∙◌, subst, ◌↔◌, Bool, true, false, not,
  ◌||◌, [], ◌∷◌, ◌++◌, arith, if◌then◌else◌, ◌==◌, eq_iff, nat_eq, bytes_eq, length, length-append,
  take, drop,
}
use oma_seal.Errors.{Result, ok, err, plain}
use oma_seal.Bytes.{Bytes}
use oma_seal.Svc.{aes_block_size, repeat, last_or, pkcs7_pad, strip_padding, pkcs7_unpad}

length-repeat : (c n : ℕ) → length (repeat c n) ≡ n
unfolding repeat
length-repeat c zero = refl
length-repeat c (suc n) = ap suc (length-repeat c n)

last_repeat : (d c n : ℕ) → last_or d (repeat c (suc n)) ≡ c
unfolding last_or repeat
last_repeat d c zero = refl
last_repeat d c (suc n) = last_repeat c c n

last_append : (d c n : ℕ) (s : Bytes) → last_or d (s ++ repeat c (suc n)) ≡ c
unfolding last_or repeat
last_append d c n [] = last_repeat d c n
last_append d c n (x ∷ s) = last_append x c n s

take_exact : (s t : Bytes) → take (length s) (s ++ t) ≡ s
take_exact [] t = refl
take_exact (x ∷ s) t = ap (λ u. x ∷ u) (take_exact s t)

drop_exact : (s t : Bytes) → drop (length s) (s ++ t) ≡ t
drop_exact [] t = refl
drop_exact (x ∷ s) t = drop_exact s t

take-drop : (n : ℕ) (s : Bytes) → take n s ++ drop n s ≡ s
take-drop zero s = refl
take-drop (suc n) [] = refl
take-drop (suc n) (x ∷ s) = ap (λ u. x ∷ u) (take-drop n s)

length-take : (n : ℕ) (s : Bytes) → n ≤ length s → length (take n s) ≡ n
length-take zero s h = refl
length-take (suc n) [] h = omega arith
length-take (suc n) (x ∷ s) h = ap suc (length-take n s (omega arith))

-- the number of bytes that padding adds
abbrev missing : Bytes → ℕ
missing s = 16 - length s % 16

pub length-padded : (s : Bytes) → length (pkcs7_pad s 16) ≡ length s + missing s
unfolding pkcs7_pad
length-padded s =
    length-append s (repeat (missing s % 256) (missing s))
    ∙ ap (λ n. length s + n) (length-repeat (missing s % 256) (missing s))

padded_last : (s : Bytes) (n : ℕ) → suc n ≡ missing s → last_or 0 (pkcs7_pad s 16) ≡ missing s
unfolding pkcs7_pad
padded_last s n h =
    subst (λ m. last_or 0 (s ++ repeat (m % 256) m) ≡ m) h
      (last_append 0 (suc n % 256) n s ∙ omega (arith, h))

module _ (text : Bytes) (n : ℕ) (u : Bytes) where
  strip_padding-ok :
      1 ≤ n
      → n ≤ 16
      → n ≤ length text
      → drop (length text - n) text ≡ repeat (n % 256) n
      → take (length text - n) text ≡ u
      → strip_padding text 16 n ≡ ok u
  strip_padding-ok low high fits tail front =
      ground (arith, eq_iff (drop (length text - n) text) (repeat (n % 256) n))

  strip_padding_sound :
      strip_padding text 16 n ≡ ok u
      → (1 ≤ n)
        × (n ≤ 16)
        × (n ≤ length text)
        × (drop (length text - n) text ≡ repeat (n % 256) n)
        × (take (length text - n) text ≡ u)
  strip_padding_sound h = ground (arith, eq_iff (drop (length text - n) text) (repeat (n % 256) n))

stripped : (s : Bytes) → strip_padding (pkcs7_pad s 16) 16 (missing s) ≡ ok s
unfolding pkcs7_pad
stripped s =
    let r = repeat (missing s % 256) (missing s) in
    let e : length (s ++ r) - missing s ≡ length s = omega (arith, length-padded s) in
    strip_padding-ok (s ++ r) (missing s) s (omega arith) (omega arith)
      (omega (arith, length-padded s)) (subst (λ k. drop k (s ++ r) ≡ r) (sym e) (drop_exact s r))
      (subst (λ k. take k (s ++ r) ≡ s) (sym e) (take_exact s r))

pass_guard :
    (b : Bool) (r : Result Bytes) (s : Bytes)
    → ((if b then err plain else r) ≡ ok s) ↔ ((b ≡ false) × (r ≡ ok s))
pass_guard true r s = (λ e. cc, λ (e, _). cc)
pass_guard false r s = (λ e. (refl, e), λ (_, e). e)

-- a length that `pkcs7_unpad` accepts
pub whole_blocks : (k : ℕ) → ((k == 0 || not (k % 16 == 0)) ≡ false) ↔ ((1 ≤ k) × (k % 16 ≡ 0))
whole_blocks k = (λ h. ground arith, λ (low, whole). ground arith)

pub unpadded : (s : Bytes) → pkcs7_unpad (pkcs7_pad s 16) 16 ≡ ok s
unfolding pkcs7_unpad
unpadded s =
    let p = pkcs7_pad s 16 in
    (pass_guard _ (strip_padding p 16 (last_or 0 p)) s).1 (
      (whole_blocks (length p)).1 (omega (arith, length-padded s), omega (arith, length-padded s)),
      subst (λ n. strip_padding p 16 n ≡ ok s) (sym (padded_last s (missing s - 1) (omega arith)))
          (stripped s),
    )

repadded :
    (text s : Bytes) (n : ℕ)
    → 1 ≤ n
    → n ≤ 16
    → n ≤ length text
    → length text % 16 ≡ 0
    → drop (length text - n) text ≡ repeat (n % 256) n
    → take (length text - n) text ≡ s
    → text ≡ pkcs7_pad s 16
unfolding pkcs7_pad
repadded text s n low high fits whole tail front =
    let front_length = length-take (length text - n) text (omega arith) in
    let short : length s ≡ length text - n =
      subst (λ u. length u ≡ length text - n) front front_length in
    let e : n ≡ missing s = omega (arith, short) in
    sym (take-drop (length text - n) text)
    ∙ ap (λ u. u ++ drop (length text - n) text) front
    ∙ ap (λ u. s ++ u) tail
    ∙ ap (λ m. s ++ repeat (m % 256) m) e

sound : (text s : Bytes) → pkcs7_unpad text 16 ≡ ok s → text ≡ pkcs7_pad s 16
unfolding pkcs7_unpad
sound text s h =
    let (guard, strip) = (pass_guard _ _ s).0 h in
    let (_, whole) = (whole_blocks (length text)).0 guard in
    let (low, high, fits, tail, front) = strip_padding_sound text (last_or 0 text) s strip in
    repadded text s (last_or 0 text) low high fits whole tail front

-- With the block size of AES, `pkcs7Unpad` answers a text exactly if its argument is the padding of
-- that text.
pub pkcs7_unpad_iff :
    (text s : Bytes)
    → (pkcs7_unpad text aes_block_size ≡ ok s) ↔ (text ≡ pkcs7_pad s aes_block_size)
pkcs7_unpad_iff text s =
    (sound text s, λ e. subst (λ t. pkcs7_unpad t 16 ≡ ok s) (sym e) (unpadded s))
