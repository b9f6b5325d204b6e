-- ===== src/Manifest/Format.antt =====
-- engine/manifest.go: a rule line that `formatRuleLine` writes is read back by `parseRuleLine`.
use oma_seal.Prelude.{
  ℕ, zero, suc, ◌-◌, ◌≡◌, refl, ap, ◌∙◌, subst, ◌≢◌, true, false, none, some, [], ◌∷◌, ◌++◌,
  append_assoc, arith, bytes_beq, ◌==◌, eq_iff, nat_eq, bytes_eq, any, All, if-true, if-false,
}
use oma_seal.Bytes.{
  Bytes, is_space, trim_left, trim_right, contains_byte, to_upper, trim_space, has_prefix,
}
use oma_seal.Manifest.{RulePolicy, policy_of, is_known}
use oma_seal.Manifest.Lines.{
  parse_trimmed, parse_fields, cut_pattern, described, rune_count, cut_field, spaces, quote,
  format_rule_line, parse_rule_line, pad, rune_count,
}

abbrev pub NoSpace : Bytes → Type 0
NoSpace = All (λ c. is_space c ≡ false)

append-not_empty : (x y : Bytes) → x ++ y ≡ [] → y ≡ []
append-not_empty [] y e = e
append-not_empty (c ∷ x) y e = cc

trim_right-append : (x y : Bytes) → trim_right y ≢ [] → trim_right (x ++ y) ≡ x ++ trim_right y
unfolding trim_right
trim_right-append [] y h = refl
trim_right-append (c ∷ x) y h = ground (
  arith,
  trim_right-append x y h,
  eq_iff (trim_right (x ++ y)) [],
  append-not_empty x (trim_right y),
)

spaces-shift : (n : ℕ) (z : Bytes) → spaces n ++ (32 ∷ z) ≡ 32 ∷ (spaces n ++ z)
spaces-shift zero z = refl
spaces-shift (suc n) z = ap (λ s. 32 ∷ s) (spaces-shift n z)

trim_left-spaces : (n : ℕ) (z : Bytes) → trim_left (spaces n ++ z) ≡ trim_left z
unfolding trim_left
trim_left-spaces zero z = refl
trim_left-spaces (suc n) z = trim_left-spaces n z

trim_left-word : (c : ℕ) (s : Bytes) → is_space c ≡ false → trim_left (c ∷ s) ≡ c ∷ s
unfolding trim_left
trim_left-word c s h = ground arith

cut_field-word : (x z : Bytes) → NoSpace x → cut_field (x ++ (32 ∷ z)) ≡ (x, trim_left z)
unfolding cut_field trim_left
cut_field-word [] z h = refl
cut_field-word (c ∷ x) z (hc, h) = rw (cut_field-word x z h, hc) refl

-- after the spaces of the padding
cut_field-padded :
    (x : Bytes) (n : ℕ) (z : Bytes)
    → NoSpace x
    → cut_field (x ++ (spaces n ++ (32 ∷ z))) ≡ (x, trim_left z)
cut_field-padded x n z h =
    ap (λ s. cut_field (x ++ s)) (spaces-shift n z)
    ∙ cut_field-word x (spaces n ++ z) h
    ∙ ap (λ s. (x, s)) (trim_left-spaces n z)

contains_byte-NoSpace :
    (b : ℕ) (s : Bytes) → is_space b ≡ true → NoSpace s → contains_byte s b ≡ false
unfolding contains_byte any
contains_byte-NoSpace b [] hb h = refl
contains_byte-NoSpace b (c ∷ s) hb (hc, h) = ground (arith, contains_byte-NoSpace b s hb h)

-- a word that is read as a policy
pub record PolicyWord (word : Bytes) : Type 0 where
  pub capital : to_upper word ≡ word
  pub known : is_known (policy_of word) ≡ true
  pub unspaced : NoSpace word
  pub first_letter : (c : ℕ) × (rest : Bytes) × (word ≡ c ∷ rest) × (c ≢ 35)

-- a pattern that is written without quotes, and read back whole
pub record PlainPattern (pattern : Bytes) : Type 0 where
  pub pattern_unspaced : NoSpace pattern
  pub first_byte : (c : ℕ) × (rest : Bytes) × (pattern ≡ c ∷ rest) × (c ≢ quote)

-- what follows the pattern, trimmed
abbrev tail_of : ℕ → Bytes → Bytes
tail_of n desc = spaces n ++ (32 ∷ 45 ∷ trim_right (32 ∷ desc))

dash_tail : (desc : Bytes) → trim_right (45 ∷ 32 ∷ desc) ≡ 45 ∷ trim_right (32 ∷ desc)
unfolding trim_right
dash_tail desc = ground arith

-- the line up to the dash
abbrev front : Bytes → Bytes → Bytes
front word pattern =
    (word ++ spaces (6 - rune_count word))
    ++ (32 ∷ ((pattern ++ spaces (37 - rune_count pattern)) ++ (32 ∷ [])))

line_front :
    (word pattern desc : Bytes)
    → NoSpace pattern
    → format_rule_line word pattern desc ≡ front word pattern ++ (45 ∷ 32 ∷ desc)
unfolding format_rule_line pad
line_front word pattern desc h =
    rw (contains_byte-NoSpace 32 pattern refl h, contains_byte-NoSpace 9 pattern refl h)
      (simp append_assoc)

front-append :
    (word pattern z : Bytes)
    → front word pattern ++ (45 ∷ z)
      ≡ word
        ++ (spaces (6 - rune_count word)
            ++ (32 ∷ (pattern ++ (spaces (37 - rune_count pattern) ++ (32 ∷ 45 ∷ z)))))
front-append word pattern z = simp append_assoc

trim_left-starts : (c : ℕ) (s t : Bytes) → s ≡ c ∷ t → is_space c ≡ false → trim_left s ≡ s
trim_left-starts c s t e h = rw e (trim_left-word c t h)

trim_front :
    (word pattern desc : Bytes) (c : ℕ) (rest : Bytes)
    → word ≡ c ∷ rest
    → is_space c ≡ false
    → trim_space (front word pattern ++ (45 ∷ 32 ∷ desc))
      ≡ front word pattern ++ (45 ∷ trim_right (32 ∷ desc))
unfolding trim_space
trim_front word pattern desc c rest e h =
    ap trim_right (
      trim_left-starts c (front word pattern ++ (45 ∷ 32 ∷ desc)) _
        (ap (λ w. front w pattern ++ (45 ∷ 32 ∷ desc)) e) h)
    ∙ trim_right-append (front word pattern) (45 ∷ 32 ∷ desc) (λ z. cc (z, dash_tail desc))
    ∙ ap (λ s. front word pattern ++ s) (dash_tail desc)

-- the trimmed line
line_trimmed :
    (word pattern desc : Bytes)
    → PolicyWord word
    → PlainPattern pattern
    → trim_space (format_rule_line word pattern desc)
      ≡ word
        ++ (spaces (6 - rune_count word)
            ++ (32 ∷ (pattern ++ tail_of (37 - rune_count pattern) desc)))
line_trimmed word pattern desc w p =
    let (c, rest, e, _) = w.first_letter in
    ap trim_space (line_front word pattern desc p.pattern_unspaced)
    ∙ trim_front word pattern desc c rest e (subst NoSpace e w.unspaced).0
    ∙ front-append word pattern (trim_right (32 ∷ desc))

trimmed_fields :
    (word gap : Bytes) (c : ℕ) (rest : Bytes)
    → word ≡ c ∷ rest
    → c ≢ 35
    → parse_trimmed (word ++ gap) ≡ parse_fields (cut_field (word ++ gap))
unfolding parse_trimmed bytes_beq
trimmed_fields word gap c rest e h = rw e (if-false none (ground arith))

fields_read :
    (word s : Bytes)
    → PolicyWord word
    → parse_fields (word, s) ≡ described (policy_of word) (cut_pattern s)
unfolding parse_fields
fields_read word s w = rw w.capital (if-true none w.known)

not_quoted : (b : ℕ) (s : Bytes) → b ≢ quote → has_prefix (b ∷ s) (quote ∷ []) ≡ false
unfolding has_prefix
not_quoted b s h = ground arith

pattern_cut :
    (pattern : Bytes) (n : ℕ) (z : Bytes) (b : ℕ) (more : Bytes)
    → pattern ≡ b ∷ more
    → b ≢ quote
    → NoSpace pattern
    → cut_pattern (pattern ++ (spaces n ++ (32 ∷ z))) ≡ some (pattern, trim_left z)
pattern_cut pattern n z b more e q h =
    if-false _ (
      ap (λ s. has_prefix (s ++ (spaces n ++ (32 ∷ z))) (quote ∷ [])) e
      ∙ not_quoted b (more ++ (spaces n ++ (32 ∷ z))) q)
    ∙ ap some (cut_field-padded pattern n z h)

described-some :
    (policy : RulePolicy) (pattern tail : Bytes) (b : ℕ) (more : Bytes)
    → pattern ≡ b ∷ more
    → (d : Bytes) × (described policy (some (pattern, tail))
        ≡ some (record { policy = policy; pattern = pattern; description = d }))
unfolding bytes_beq
described-some policy pattern tail b more e = (_, if-false none (ap (λ s. s == []) e))

-- `parseRuleLine` reads back the policy and the pattern of every line that `formatRuleLine` writes
-- for a plain pattern; only the description may come back differently.
pub parse-format :
    (word pattern desc : Bytes)
    → PolicyWord word
    → PlainPattern pattern
    → (d : Bytes) × (parse_rule_line (format_rule_line word pattern desc)
        ≡ some (record { policy = policy_of word; pattern = pattern; description = d }))
parse-format word pattern desc w p =
    let (c, rest, e, hash) = w.first_letter in
    let (b, more, f, q) = p.first_byte in
    let tail = tail_of (37 - rune_count pattern) desc in
    let gap = spaces (6 - rune_count word) ++ (32 ∷ (pattern ++ tail)) in
    let (d, read) =
      described-some (policy_of word) pattern (trim_left (45 ∷ trim_right (32 ∷ desc))) b more f in
    (
      d,
      unfold parse_rule_line in
          ap parse_trimmed (line_trimmed word pattern desc w p)
          ∙ trimmed_fields word gap c rest e hash
          ∙ ap parse_fields
              (cut_field-padded word (6 - rune_count word) (pattern ++ tail) w.unspaced)
          ∙ ap (λ s. parse_fields (word, s))
              (trim_left-starts b (pattern ++ tail) (more ++ tail) (ap (λ s. s ++ tail) f)
                (subst NoSpace f p.pattern_unspaced).0)
          ∙ fields_read word (pattern ++ tail) w
          ∙ ap (described (policy_of word)) (
              pattern_cut pattern (37 - rune_count pattern) (45 ∷ trim_right (32 ∷ desc)) b more f q
                p.pattern_unspaced)
          ∙ read,
    )
