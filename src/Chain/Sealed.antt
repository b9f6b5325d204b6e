-- ===== src/Chain/Sealed.antt =====
-- What a sealed head says of the log (engine/chain.go): one history, or a collision of SHA-256.
use oma_seal.Prelude.{
  ℕ, suc, ◌≡◌, refl, sym, ap, ◌∙◌, ◌≢◌, ◌⊎◌, inl, inr, Bool, true, false, List, [], ◌∷◌, ◌++◌, map,
  append-nil, arith, Bool-cases, ◌==◌, eq_iff, nat_eq, bytes_eq, length, length-append, All,
}
use oma_seal.Bytes.{Bytes, codes}
use oma_seal.Chain.{
  Walk, start, chain_tail, chain_genesis, chain_next, links, with_chained, linked, chained_step,
  walk_step, walk, verify_lines, verify_log_chain,
}
use oma_seal.Errors.{ok}
use oma_seal.Chain.Scan.{verified_lines}
use oma_seal.Chain.Append.{walk-cons}

-- every line carries a chain value
abbrev pub AllChained : List Bytes → Type 0
AllChained = All (λ line. (chain_tail line).2 ≡ true)

abbrev pub contents : List Bytes → List Bytes
contents = map (λ line. (chain_tail line).0)

-- two strings with one digest
pub record Collision (sha : Bytes → Bytes) : Type 0 where
  pub one : Bytes
  pub other : Bytes
  pub differ : one ≢ other
  pub same_digest : sha one ≡ sha other

-- the lines in reverse, before others
rev_onto : List Bytes → List Bytes → List Bytes
rev_onto [] acc = acc
rev_onto (x ∷ xs) acc = rev_onto xs (x ∷ acc)

rev_twice : (xs acc ys : List Bytes) → rev_onto (rev_onto xs acc) ys ≡ rev_onto acc (xs ++ ys)
unfolding rev_onto
rev_twice [] acc ys = refl
rev_twice (x ∷ xs) acc ys = rev_twice xs (x ∷ acc) ys

rev_injective : (xs ys : List Bytes) → rev_onto xs [] ≡ rev_onto ys [] → xs ≡ ys
unfolding rev_onto
rev_injective xs ys e =
    sym (append-nil xs)
    ∙ sym (rev_twice xs [] [])
    ∙ ap (λ zs. rev_onto zs []) e
    ∙ rev_twice ys [] []
    ∙ append-nil ys

-- strings of one length in front
cancel : (p q x y : Bytes) → length p ≡ length q → p ++ x ≡ q ++ y → (p ≡ q) × (x ≡ y)
cancel [] [] x y l e = (refl, e)
cancel [] (b ∷ q) x y l e = absurd (omega (arith, l))
cancel (a ∷ p) [] x y l e = absurd (omega (arith, l))
cancel (a ∷ p) (b ∷ q) x y l e =
    let (ep, ex) = cancel p q x y (omega (arith, l)) (cc e) in (cc (e, ep), ex)

module _ (sha : Bytes → Bytes) (digests : (s : Bytes) → length (sha s) ≡ 64) where
  -- the chain value of a history
  chain_of : Bytes → List Bytes → Bytes
  chain_of prev [] = prev
  chain_of prev (line ∷ lines) = chain_of (chain_next sha prev line) lines

  -- the same, the last line first
  chain_back : List Bytes → Bytes
  chain_back [] = chain_genesis sha
  chain_back (line ∷ earlier) = chain_next sha (chain_back earlier) line

  chain_of-back :
      (xs acc : List Bytes) → chain_of (chain_back acc) xs ≡ chain_back (rev_onto xs acc)
  unfolding chain_of chain_back rev_onto
  chain_of-back [] acc = refl
  chain_of-back (x ∷ xs) acc = chain_of-back xs (x ∷ acc)

  back_length : (xs : List Bytes) → length (chain_back xs) ≡ 64
  unfolding chain_back chain_next chain_genesis
  back_length [] = digests _
  back_length (x ∷ xs) = digests _

  collide : (x y : Bytes) → sha x ≡ sha y → (x ≡ y) ⊎ Collision sha
  collide x y e = elim (Bool-cases (x == y)) [
    | inl same ↦ inl ((eq_iff x y).0 same)
    | inr n ↦
        inr
          (record { one = x; other = y; differ = λ z. ground (arith, eq_iff x y); same_digest = e })
  ]

  long : (p x : Bytes) → length p ≡ 64 → codes "omaseal-log-genesis-v1" ≢ p ++ b'|' ∷ x
  long p x l e =
      let same : 22 ≡ length (p ++ b'|' ∷ x) = ap length e in
      omega (arith, same, length-append p (b'|' ∷ x), l)

  same_back : (xs ys : List Bytes) → chain_back xs ≡ chain_back ys → (xs ≡ ys) ⊎ Collision sha
  unfolding chain_back chain_next chain_genesis
  same_back [] [] e = inl refl
  same_back [] (y ∷ ys) e =
      elim (collide (codes "omaseal-log-genesis-v1") (chain_back ys ++ b'|' ∷ y) e) [
        | inl same ↦ absurd (long (chain_back ys) y (back_length ys) same)
        | inr c ↦ inr c
      ]
  same_back (x ∷ xs) [] e =
      elim (collide (codes "omaseal-log-genesis-v1") (chain_back xs ++ b'|' ∷ x) (sym e)) [
        | inl same ↦ absurd (long (chain_back xs) x (back_length xs) same)
        | inr c ↦ inr c
      ]
  same_back (x ∷ xs) (y ∷ ys) e =
      elim (collide (chain_back xs ++ b'|' ∷ x) (chain_back ys ++ b'|' ∷ y) e) [
        | inr c ↦ inr c
        | inl same ↦
            let (heads, tails) =
              cancel (chain_back xs) (chain_back ys) (b'|' ∷ x) (b'|' ∷ y)
                (back_length xs ∙ sym (back_length ys)) same in
            elim (same_back xs ys heads) [ inr c ↦ inr c | inl earlier ↦ inl (cc (tails, earlier)) ]
      ]

  one_history :
      (xs ys : List Bytes)
      → chain_of (chain_genesis sha) xs ≡ chain_of (chain_genesis sha) ys
      → (xs ≡ ys) ⊎ Collision sha
  unfolding chain_back
  one_history xs ys e =
      elim (same_back (rev_onto xs []) (rev_onto ys [])
        (sym (chain_of-back xs []) ∙ e ∙ chain_of-back ys [])) [
          | inl same ↦ inl (rev_injective xs ys same)
          | inr c ↦ inr c
        ]

  linked_zero :
      (b : Bool) (n : ℕ) (w : Walk) (digest : Bytes)
      → (linked sha b (suc n) w digest).divergence ≡ 0
      → (b ≡ true) × (linked sha b (suc n) w digest ≡ with_chained sha w digest)
  linked_zero true n w digest h = (refl, refl)
  linked_zero false n w digest h = absurd (omega arith)

  strict_link :
      (w : Walk) (content digest : Bytes)
      → w.prev_was_chained ≡ true
      → links sha w content digest ≡ true
      → digest ≡ chain_next sha w.prev_chained content
  strict_link w content digest was h =
      ground (arith, was, eq_iff digest (chain_next sha w.prev_chained content))

  -- a line after a chained one, for a walk without a divergence
  strict_step :
      (n : ℕ) (w : Walk) (content digest : Bytes)
      → w.saw_chained ≡ true
      → w.prev_was_chained ≡ true
      → (walk_step sha (suc n) w (content, digest, true)).divergence ≡ 0
      → walk_step sha (suc n) w (content, digest, true)
        ≡ with_chained sha w (chain_next sha w.prev_chained content)
  strict_step n w content digest saw was h =
      let seen = ap (λ b. chained_step sha b (suc n) w content digest) saw in
      let (good, e) =
        linked_zero (links sha w content digest) n w digest
          (ap (λ (v : Walk). v.divergence) (sym seen) ∙ h) in
      seen ∙ e ∙ ap (with_chained sha w) (strict_link w content digest was good)

  tail-eq : (t : Bytes × Bytes × Bool) → t.2 ≡ true → t ≡ (t.0, t.1, true)
  tail-eq (content, digest, found) e = ap (λ b. (content, digest, b)) e

  -- a walk that has just read a chained line
  walk_strict :
      (n : ℕ) (w : Walk) (log : List Bytes)
      → w.saw_chained ≡ true
      → w.prev_was_chained ≡ true
      → AllChained log
      → (walk sha (suc n) w log).divergence ≡ 0
      → ((walk sha (suc n) w log).prev_chained ≡ chain_of w.prev_chained (contents log))
        × ((walk sha (suc n) w log).starts_mid_chain ≡ w.starts_mid_chain)
  unfolding chain_of walk
  walk_strict n w [] saw was all h = (refl, refl)
  walk_strict n w (line ∷ log) saw was (found, all) h =
      let (good, on) = walk-cons sha (suc n) w line log h in
      let t = tail-eq (chain_tail line) found in
      let step =
        ap (walk_step sha (suc n) w) t
        ∙ strict_step n w (chain_tail line).0 (chain_tail line).1 saw was
            (ap (λ t. (walk_step sha (suc n) w t).divergence) (sym t) ∙ good) in
      let here = on ∙ ap (λ v. walk sha (suc (suc n)) v log) step in
      let (p, m) =
        walk_strict (suc n) (with_chained sha w (chain_next sha w.prev_chained (chain_tail line).0))
          log refl refl all (ap (λ (v : Walk). v.divergence) (sym here) ∙ h) in
      (ap (λ (v : Walk). v.prev_chained) here ∙ p, ap (λ (v : Walk). v.starts_mid_chain) here ∙ m)

  -- the first line of a log that starts a chain
  first_step :
      (content digest : Bytes)
      → (walk_step sha 1 start (content, digest, true)).starts_mid_chain ≡ false
      → digest ≡ chain_next sha (chain_genesis sha) content
  first_step content digest h =
      ground (arith, eq_iff digest (chain_next sha (chain_genesis sha) content))

  verified_head :
      (line : Bytes) (log : List Bytes)
      → AllChained (line ∷ log)
      → (verify_lines sha (line ∷ log)).divergence ≡ 0
      → (verify_lines sha (line ∷ log)).starts_mid_chain ≡ false
      → (verify_lines sha (line ∷ log)).prev_chained
        ≡ chain_of (chain_genesis sha) (contents (line ∷ log))
  unfolding verify_lines chain_of
  verified_head line log (found, all) h mid =
      let (good, on) = walk-cons sha 1 start line log h in
      let t = tail-eq (chain_tail line) found in
      let c = (chain_tail line).0 in
      let d = (chain_tail line).1 in
      let first = ap (walk_step sha 1 start) t in
      let here = on ∙ ap (λ v. walk sha 2 v log) first in
      let (p, m) =
        walk_strict 1 (walk_step sha 1 start (c, d, true)) log refl refl all
          (ap (λ (v : Walk). v.divergence) (sym here) ∙ h) in
      let genesis =
        first_step c d (sym m ∙ ap (λ (v : Walk). v.starts_mid_chain) (sym here) ∙ mid) in
      ap (λ (v : Walk). v.prev_chained) here ∙ p ∙ ap (λ k. chain_of k (contents log)) genesis

  head_of :
      (line : Bytes) (log : List Bytes)
      → AllChained (line ∷ log)
      → (w : Walk) → verify_lines sha (line ∷ log) ≡ w
      → w.divergence ≡ 0
      → w.starts_mid_chain ≡ false
      → w.prev_chained ≡ chain_of (chain_genesis sha) (contents (line ∷ log))
  head_of line log a w same h m =
      sym (ap (λ (u : Walk). u.prev_chained) same)
      ∙ verified_head line log a (ap (λ (u : Walk). u.divergence) same ∙ h)
          (ap (λ (u : Walk). u.starts_mid_chain) same ∙ m)

  -- A sealed head pins the history down: two logs that both verify without an error or a divergence,
  -- from the start of the chain and with every line chained, and that end in the same head, hold the
  -- same lines, or they exhibit two strings with one SHA-256 digest.
  pub sealed_history :
      (line other : Bytes) (log others : List Bytes) (w v : Walk)
      → AllChained (line ∷ log)
      → AllChained (other ∷ others)
      → verify_log_chain sha (line ∷ log) ≡ ok w
      → verify_log_chain sha (other ∷ others) ≡ ok v
      → w.divergence ≡ 0
      → v.divergence ≡ 0
      → w.starts_mid_chain ≡ false
      → v.starts_mid_chain ≡ false
      → w.prev_chained ≡ v.prev_chained
      → (contents (line ∷ log) ≡ contents (other ∷ others)) ⊎ Collision sha
  sealed_history line other log others w v a b verified verified_other h k m n e =
      let (_, same) = verified_lines sha (line ∷ log) w verified h in
      let (_, same_other) = verified_lines sha (other ∷ others) v verified_other k in
      one_history (contents (line ∷ log)) (contents (other ∷ others))
        (sym (head_of line log a w same h m) ∙ e ∙ head_of other others b v same_other k n)
