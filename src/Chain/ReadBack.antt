-- ===== src/Chain/ReadBack.antt =====
-- A chained line is read back (engine/chain.go, chainTail), if the line does not end in white space.
use oma_seal.Prelude.{
  sym, subst, length-append, ℕ, zero, suc, ◌≤◌, ◌<◌, ◌≡◌, refl, ap, ◌∙◌, ◌≢◌, ◌⊎◌, inl, inr, Bool,
  true, false, not, ◌&&◌, none, some, List, [], ◌∷◌, ◌++◌, append_assoc, arith, ltb, ltb→lt,
  bytes_beq, if◌then◌else◌, Bool-cases, ◌==◌, eq_iff, nat_eq, bytes_eq, length, any, All, take,
  drop, if-true, if-false, ◌+◌,
}
use oma_seal.Bytes.{Bytes, codes, cut_prefix}
use oma_seal.Chain.{
  is_re_space, is_hex, skip_spaces, digest_at_end, after_label, chain_field, tail_from, chain_tail,
  verify_log_chain, chain_write, chain_lines, chain_next, chained_line, resume_lines, write_lines,
  verify_lines, Walk, scans_whole, fits, max_log_line,
}
use oma_seal.Errors.{ok}
use oma_seal.Chain.Scan.{verified_lines, verify_whole, write_whole, scans_whole-append}
use oma_seal.Chain.Append.{ReadsBack, write_lines-verifies}

-- the last byte, if there is one, is no white space
abbrev pub ends_in_text : Bytes → Bool
ends_in_text [] = true
ends_in_text (c ∷ []) = not (is_re_space c)
ends_in_text (c ∷ d ∷ s) = ends_in_text (d ∷ s)

-- what the hexadecimal form of a digest is like
pub record IsDigest (digest : Bytes) : Type 0 where
  pub whole : length digest ≡ 64
  pub hexadecimal : any (λ c. not (is_hex c)) digest ≡ false

take_all : (n : ℕ) (s : Bytes) → length s ≡ n → take n s ≡ s
take_all zero [] h = refl
take_all zero (c ∷ s) h = absurd (omega (arith, h))
take_all (suc n) [] h = refl
take_all (suc n) (c ∷ s) h = ap (λ t. c ∷ t) (take_all n s (omega (arith, h)))

drop_all : (n : ℕ) (s : Bytes) → length s ≡ n → drop n s ≡ []
drop_all zero [] h = refl
drop_all zero (c ∷ s) h = absurd (omega (arith, h))
drop_all (suc n) [] h = refl
drop_all (suc n) (c ∷ s) h = drop_all n s (omega (arith, h))

digest-read : (digest : Bytes) → IsDigest digest → digest_at_end digest ≡ some digest
unfolding digest_at_end
digest-read digest d =
    rw (take_all 64 digest d.whole, drop_all 64 digest d.whole, d.hexadecimal, d.whole)
      (unfold skip_spaces bytes_beq in refl)

-- what the writer puts behind a line
abbrev label : Bytes → Bytes
label digest = codes " chain=" ++ digest

label-read : (digest : Bytes) → IsDigest digest → chain_tail (label digest) ≡ ([], digest, true)
unfolding chain_tail chain_field skip_spaces cut_prefix
label-read digest d =
    ap (λ o. tail_from 32 (codes "chain=" ++ digest) o (chain_tail (codes "chain=" ++ digest)))
      (digest-read digest d)

skip_label : (v z : Bytes) → skip_spaces (v ++ 32 ∷ b'c' ∷ z) ≢ []
unfolding skip_spaces
skip_label [] z h = cc
skip_label (c ∷ v) z h = ground (arith, skip_label v z)

not_hex :
    (n : ℕ) (u z : Bytes) → length u < n → any (λ c. not (is_hex c)) (take n (u ++ 32 ∷ z)) ≡ true
unfolding any
not_hex zero u z h = absurd (omega (arith, h))
not_hex (suc n) [] z h = refl
not_hex (suc n) (c ∷ u) z h = ground (arith, not_hex n u z (omega (arith, h)))

drop-append : (n : ℕ) (u z : Bytes) → n ≤ length u → drop n (u ++ z) ≡ drop n u ++ z
drop-append zero u z h = refl
drop-append (suc n) [] z h = absurd (omega (arith, h))
drop-append (suc n) (c ∷ u) z h = drop-append n u z (omega (arith, h))

not_below : (a b : ℕ) → ltb a b ≡ false → b ≤ a
not_below a b h = ground arith

remainder : (u z : Bytes) → 64 ≤ length u → skip_spaces (drop 64 (u ++ 32 ∷ b'c' ∷ z)) ≢ []
remainder u z h = rw (drop-append 64 u (32 ∷ b'c' ∷ z) h) (skip_label (drop 64 u) z)

blocked_by_digit :
    (x y z : Bool) (d : Bytes) → y ≡ true → (if x && not y && z then some d else none) ≡ none
blocked_by_digit x y z d h = ground arith

blocked_by_rest :
    (x y : Bool) (rest d : Bytes)
    → rest ≢ []
    → (if x && y && rest == [] then some d else none) ≡ none
blocked_by_rest x y rest d h = ground (arith, eq_iff rest [])

-- A digest in the middle of a line is no chain field.
digest-not_at_end : (u z : Bytes) → digest_at_end (u ++ 32 ∷ b'c' ∷ z) ≡ none
unfolding digest_at_end
digest-not_at_end u z =
    let t = u ++ 32 ∷ b'c' ∷ z in
    let d = take 64 t in
    elim (Bool-cases (ltb (length u) 64)) [
      | inl e ↦
          blocked_by_digit (length d == 64) (any (λ c. not (is_hex c)) d)
            (skip_spaces (drop 64 t) == []) d (not_hex 64 u (b'c' ∷ z) (ltb→lt (length u) 64 e))
      | inr e ↦
          blocked_by_rest (length d == 64) (not (any (λ c. not (is_hex c)) d))
            (skip_spaces (drop 64 t)) d (remainder u z (not_below (length u) 64 e))
    ]

-- a label that is found in front of a space stands before it
label_inside :
    (p u z : Bytes)
    → All (λ c. c ≢ 32) p
    → (cut_prefix p (u ++ 32 ∷ z) ≡ none)
      ⊎ ((v : Bytes) × (cut_prefix p (u ++ 32 ∷ z) ≡ some (v ++ 32 ∷ z)))
unfolding cut_prefix
label_inside [] u z h = inr (u, refl)
label_inside (c ∷ p) [] z (hc, h) = inl (ground arith)
label_inside (c ∷ p) (d ∷ u) z (hc, h) = elim (Bool-cases (c == d)) [
  | inr e ↦ inl (if-false _ e)
  | inl e ↦ elim (label_inside p u z h) [
    | inl n ↦ inl (if-true none e ∙ n)
    | inr (v, f) ↦ inr (v, if-true none e ∙ f)
  ]
]

no_field : (u z : Bytes) → after_label (cut_prefix (codes "chain=") (u ++ 32 ∷ b'c' ∷ z)) ≡ none
no_field u z =
    elim (label_inside (codes "chain=") u (b'c' ∷ z) (
      ground arith,
      (ground arith, (ground arith, (ground arith, (ground arith, (ground arith, tt))))),
    )) [ inl n ↦ ap after_label n | inr (v, f) ↦ ap after_label f ∙ digest-not_at_end v z ]

-- White space before the rest of a line that ends in text
skip_text :
    (s z : Bytes) → s ≢ [] → ends_in_text s ≡ true → skip_spaces (s ++ z) ≡ skip_spaces s ++ z
unfolding skip_spaces
skip_text [] z n h = absurd (n refl)
skip_text (c ∷ []) z n h = ground arith
skip_text (c ∷ d ∷ s) z n h = ground (arith, skip_text (d ∷ s) z (λ e. cc) h)

-- No field starts inside the line.
no_field_inside :
    (c : ℕ) (s z : Bytes)
    → ends_in_text (c ∷ s) ≡ true
    → chain_field (c ∷ (s ++ 32 ∷ b'c' ∷ z)) ≡ none
unfolding chain_field
no_field_inside c [] z h = ground arith
no_field_inside c (d ∷ s) z h = elim (Bool-cases (is_re_space c)) [
  | inr e ↦ if-false _ e
  | inl e ↦
      if-true none e
      ∙ ap (λ t. after_label (cut_prefix (codes "chain=") t))
          (skip_text (d ∷ s) (32 ∷ b'c' ∷ z) (λ k. cc) h)
      ∙ no_field (skip_spaces (d ∷ s)) z
]

rest_in_text : (c : ℕ) (s : Bytes) → ends_in_text (c ∷ s) ≡ true → ends_in_text s ≡ true
rest_in_text c [] h = refl
rest_in_text c (d ∷ s) h = h

line-read :
    (line digest : Bytes)
    → ends_in_text line ≡ true
    → IsDigest digest
    → chain_tail (line ++ label digest) ≡ (line, digest, true)
unfolding chain_tail
line-read [] digest h d = label-read digest d
line-read (c ∷ s) digest h d =
    ap (λ o. tail_from c (s ++ label digest) o (chain_tail (s ++ label digest)))
      (no_field_inside c s (codes "hain=" ++ digest) h)
    ∙ ap (tail_from c (s ++ label digest) none) (line-read s digest (rest_in_text c s h) d)

reads_back :
    (sha : Bytes → Bytes)
    → ((text : Bytes) → IsDigest (sha text))
    → (lines : List Bytes) → All (λ line. ends_in_text line ≡ true) lines
    → All (ReadsBack sha) lines
reads_back sha d [] h = tt
reads_back sha d (line ∷ lines) (hl, h) = (
  λ text.
      ap chain_tail (append_assoc line (codes " chain=") (sha text))
      ∙ line-read line (sha text) hl (d text),
  reads_back sha d lines h,
)

-- how long a line may be for its chained form to fit
abbrev pub has_room : Bytes → Bool
has_room line = ltb (length line + 71) max_log_line

chained_line-fits :
    (sha : Bytes → Bytes) (line digest : Bytes)
    → has_room line ≡ true
    → IsDigest digest
    → fits (chained_line sha line digest) ≡ true
chained_line-fits sha line digest h d = ground (
  arith,
  length-append (line ++ codes " chain=") digest,
  length-append line (codes " chain="),
  d.whole,
)

batch-scans :
    (sha : Bytes → Bytes)
    → ((text : Bytes) → IsDigest (sha text))
    → (prev : Bytes) (lines : List Bytes) → All (λ line. has_room line ≡ true) lines
    → scans_whole (chain_lines sha prev lines).0 ≡ true
unfolding chain_lines chain_next scans_whole
batch-scans sha d prev [] r = refl
batch-scans sha d prev (line ∷ lines) (h, r) = ground (
  arith,
  chained_line-fits sha line (chain_next sha prev line) h (d (prev ++ b'|' ∷ line)),
  batch-scans sha d (chain_next sha prev line) lines r,
)

-- What the writer appends never reads as tampering: if a log verifies, without an error or a
-- divergence, so does the log with a batch of lines appended, and its head is the value that the
-- writer leaves in the sidecar. The lines must not end in white space, and leave room below 1 MiB for
-- their chain value. The log may hold lines of older writers without a chain value, at any place,
-- and may start in the middle of a chain.
pub log_stays_verified :
    (sha : Bytes → Bytes)
    → ((text : Bytes) → IsDigest (sha text))
    → (log : List Bytes) (line : Bytes) (lines : List Bytes) (w : Walk)
    → All (λ l. ends_in_text l ≡ true) (line ∷ lines)
    → All (λ l. has_room l ≡ true) (line ∷ lines)
    → verify_log_chain sha log ≡ ok w
    → w.divergence ≡ 0
    → let (after, head) = chain_write sha log (line ∷ lines) in
      (v : Walk) × (verify_log_chain sha after ≡ ok v)
      × (v.divergence ≡ 0)
      × (v.prev_chained ≡ head)
unfolding write_lines
log_stays_verified sha d log line lines w h r verified good =
    let (whole, same) = verified_lines sha log w verified good in
    let (clean, head) =
      write_lines-verifies sha log lines line (reads_back sha d (line ∷ lines) h)
        (ap (λ (v : Walk). v.divergence) same ∙ good) in
    let out = (chain_lines sha (resume_lines sha log) (line ∷ lines)).0 in
    let after =
      scans_whole-append log out whole
        (batch-scans sha d (resume_lines sha log) (line ∷ lines) r) in
    subst
      (λ (p : List Bytes × Bytes).
        (v : Walk) × (verify_log_chain sha p.0 ≡ ok v)
        × (v.divergence ≡ 0)
        × (v.prev_chained ≡ p.1))
      (sym (write_whole sha log (line ∷ lines) whole))
      (verify_lines sha (log ++ out), verify_whole sha (log ++ out) after, clean, head)
