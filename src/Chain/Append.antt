-- ===== src/Chain/Append.antt =====
-- What the writer appends is what the verification accepts (engine/chain.go).
use oma_seal.Prelude.{
  ℕ, suc, ◌≡◌, refl, sym, ap, ◌∙◌, subst, ◌≢◌, ◌⊎◌, inl, inr, Bool, true, false, List, [], ◌∷◌,
  ◌++◌, arith, bytes_beq, if◌then◌else◌, Bool-cases, ◌==◌, eq_iff, nat_eq, bytes_eq, All, if-true,
  if-false,
}
use oma_seal.Bytes.{Bytes}
use oma_seal.Chain.{
  linked, chained_step, Walk, start, chain_tail, chain_genesis, chain_next, chained_line,
  chain_lines, resume_step, resume_from, resume_lines, write_lines, links, walk_step, walk,
  verify_lines,
}

module _ (sha : Bytes → Bytes) where
  -- The line is read back from what the writer makes of it.
  abbrev pub ReadsBack : Bytes → Type 0
  ReadsBack line =
      (text : Bytes) → chain_tail (chained_line sha line (sha text)) ≡ (line, sha text, true)

  -- the value that the writer goes on from is one that the verification accepts next
  abbrev pub Follows : Walk → Bytes → Type 0
  Follows w last =
      (w.saw_chained ≡ false)
      ⊎ (last ≡ w.prev_chained)
      ⊎ ((last ≡ chain_genesis sha) × (w.prev_was_chained ≡ false))

  linked-accepted :
      (b : Bool) (n : ℕ) (w : Walk) (digest : Bytes)
      → (linked sha b (suc n) w digest).divergence ≡ 0
      → (linked sha b (suc n) w digest).prev_chained ≡ digest
  linked-accepted true n w digest h = refl
  linked-accepted false n w digest h = absurd (omega arith)

  chained-accepted :
      (saw : Bool) (n : ℕ) (w : Walk) (content digest : Bytes)
      → (chained_step sha saw (suc n) w content digest).divergence ≡ 0
      → (chained_step sha saw (suc n) w content digest).prev_chained ≡ digest
  chained-accepted false n w content digest h = refl
  chained-accepted true n w content digest h =
      linked-accepted (links sha w content digest) n w digest h

  unchained-Follows :
      (w : Walk) (last line : Bytes)
      → Follows w last
      → Follows
          (record w { prev_was_chained = false })
          (if line == [] then last else chain_genesis sha)
  unchained-Follows w last line f = elim (Bool-cases (line == [])) [
    | inr e ↦ inr (inr (if-false last e, refl))
    | inl e ↦ elim f [
      | inl s ↦ inl s
      | inr (inl p) ↦ inr (inl (if-true _ e ∙ p))
      | inr (inr (g, _)) ↦ inr (inr (if-true _ e ∙ g, refl))
    ]
  ]

  found-not_empty :
      (line content digest : Bytes)
      → chain_tail line ≡ (content, digest, true)
      → (line == []) ≡ false
  unfolding chain_tail
  found-not_empty [] content digest e = absurd (cc (ap (λ (t : Bytes × Bytes × Bool). t.2) e))
  found-not_empty (c ∷ s) content digest e = unfold bytes_beq in refl

  step-Follows :
      (n : ℕ) (w : Walk) (last line : Bytes) (t : Bytes × Bytes × Bool)
      → chain_tail line ≡ t
      → Follows w last
      → (walk_step sha (suc n) w t).divergence ≡ 0
      → Follows (walk_step sha (suc n) w t) (resume_step sha last line t)
  step-Follows n w last line (content, digest, false) e f h = unchained-Follows w last line f
  step-Follows n w last line (content, digest, true) e f h = inr (
      inl (
        if-false last (found-not_empty line content digest e)
        ∙ sym (chained-accepted w.saw_chained n w content digest h)))

  pub walk_on :
      (n : ℕ) (w : Walk) (line : Bytes) (lines : List Bytes)
      → ((walk_step sha n w (chain_tail line)).divergence == 0) ≡ true
      → walk sha n w (line ∷ lines) ≡ walk sha (suc n) (walk_step sha n w (chain_tail line)) lines
  unfolding walk
  walk_on n w line lines e = if-true _ e

  stopped :
      (n : ℕ) (w : Walk) (line : Bytes) (lines : List Bytes)
      → ((walk_step sha n w (chain_tail line)).divergence == 0) ≡ false
      → (walk sha n w (line ∷ lines)).divergence ≢ 0
  unfolding walk
  stopped n w line lines e h =
      let same : walk sha n w (line ∷ lines) ≡ walk_step sha n w (chain_tail line) = if-false _ e in
      ground (arith, ap (λ (v : Walk). v.divergence) (sym same) ∙ h)

  -- a line of a walk without a divergence
  pub walk-cons :
      (n : ℕ) (w : Walk) (line : Bytes) (lines : List Bytes)
      → (walk sha n w (line ∷ lines)).divergence ≡ 0
      → ((walk_step sha n w (chain_tail line)).divergence ≡ 0)
        × (walk sha n w (line ∷ lines)
            ≡ walk sha (suc n) (walk_step sha n w (chain_tail line)) lines)
  walk-cons n w line lines h =
      elim (Bool-cases ((walk_step sha n w (chain_tail line)).divergence == 0)) [
        | inl e ↦ (
          (eq_iff (walk_step sha n w (chain_tail line)).divergence 0).0 e,
          walk_on n w line lines e,
        )
        | inr e ↦ absurd (stopped n w line lines e h)
      ]

  -- The verification of a log with more lines goes on where that of the log ended.
  walk-append :
      (n : ℕ) (w : Walk) (log more : List Bytes) (last : Bytes)
      → Follows w last
      → (walk sha (suc n) w log).divergence ≡ 0
      → (m : ℕ) × (walk sha (suc n) w (log ++ more)
          ≡ walk sha (suc m) (walk sha (suc n) w log) more)
        × Follows (walk sha (suc n) w log) (resume_from sha last log)
  unfolding resume_from walk
  walk-append n w [] more last f h = (n, refl, f)
  walk-append n w (line ∷ log) more last f h =
      let (ok, on) = walk-cons (suc n) w line log h in
      let next = walk_step sha (suc n) w (chain_tail line) in
      let (m, e, g) =
        walk-append (suc n) next log more (resume_step sha last line (chain_tail line))
          (step-Follows n w last line (chain_tail line) refl f ok)
          (ap (λ (v : Walk). v.divergence) (sym on) ∙ h) in
      (
        m,
        walk_on (suc n) w line (log ++ more) (ground (arith, ok))
            ∙ e
            ∙ ap (λ v. walk sha (suc m) v more) (sym on),
        subst (λ v. Follows v (resume_from sha (resume_step sha last line (chain_tail line)) log))
            (sym on) g,
      )

  links-Follows :
      (w : Walk) (last line : Bytes)
      → (last ≡ w.prev_chained) ⊎ ((last ≡ chain_genesis sha) × (w.prev_was_chained ≡ false))
      → links sha w line (chain_next sha last line) ≡ true
  links-Follows w last line (inl e) = ground (
    arith,
    eq_iff (chain_next sha last line) (chain_next sha w.prev_chained line),
    ap (λ p. chain_next sha p line) e,
  )
  links-Follows w last line (inr (g, k)) = ground (
    arith,
    k,
    eq_iff (chain_next sha last line) (chain_next sha (chain_genesis sha) line),
    ap (λ p. chain_next sha p line) g,
  )

  next-accepted :
      (saw : Bool) (n : ℕ) (w : Walk) (last line : Bytes)
      → w.saw_chained ≡ saw
      → Follows w last
      → w.divergence ≡ 0
      → (chained_step sha saw n w line (chain_next sha last line)).divergence ≡ 0
  next-accepted false n w last line e f h = h
  next-accepted true n w last line e (inl s) h = cc (e, s)
  next-accepted true n w last line e (inr f) h = rw (links-Follows w last line f) h

  -- a chained line of the writer's, for a walk that it follows
  one_more :
      (n : ℕ) (w : Walk) (last line : Bytes)
      → Follows w last
      → w.divergence ≡ 0
      → ReadsBack line
      → let digest = chain_next sha last line in
        let next = walk_step sha (suc n) w (chain_tail (chained_line sha line digest)) in
        (next.divergence ≡ 0) × (next.prev_chained ≡ digest)
  one_more n w last line f h back =
      let digest = chain_next sha last line in
      let read : chain_tail (chained_line sha line digest) ≡ (line, digest, true) =
        unfold chain_next in back (last ++ b'|' ∷ line) in
      let ok = next-accepted w.saw_chained (suc n) w last line refl f h in
      rw read (ok, chained-accepted w.saw_chained n w line digest ok)

  -- the rest of a batch, from a walk that ended in its last value
  batch_accepted :
      (n : ℕ) (w : Walk) (last : Bytes) (lines : List Bytes)
      → w.prev_chained ≡ last
      → w.divergence ≡ 0
      → All ReadsBack lines
      → ((walk sha (suc n) w (chain_lines sha last lines).0).divergence ≡ 0)
        × ((walk sha (suc n) w (chain_lines sha last lines).0).prev_chained
            ≡ (chain_lines sha last lines).1)
  unfolding chain_lines walk
  batch_accepted n w last [] e h back = (h, e)
  batch_accepted n w last (line ∷ lines) e h (back, rest) =
      let (ok, at) = one_more n w last line (inr (inl (sym e))) h back in
      let digest = chain_next sha last line in
      let next = walk_step sha (suc n) w (chain_tail (chained_line sha line digest)) in
      let on =
        walk_on (suc n) w (chained_line sha line digest) (chain_lines sha digest lines).0
          (ground (arith, ok)) in
      rw on (batch_accepted (suc n) next digest lines at ok rest)

  -- What the writer appends never reads as tampering: if a log verifies without a divergence and a
  -- batch of lines is appended, the new log verifies without one, and its head is the chain value
  -- that the writer leaves in the sidecar. The log may hold lines of older writers that carry no
  -- chain value, at any place, and may start in the middle of a chain.
  pub write_lines-verifies :
      (log lines : List Bytes) (line : Bytes)
      → All ReadsBack (line ∷ lines)
      → (verify_lines sha log).divergence ≡ 0
      → let (after, head) = write_lines sha log (line ∷ lines) in
        ((verify_lines sha after).divergence ≡ 0) × ((verify_lines sha after).prev_chained ≡ head)
  unfolding verify_lines write_lines chain_lines resume_lines
  write_lines-verifies log lines line (back, rest) h =
      let last = resume_from sha (chain_genesis sha) log in
      let digest = chain_next sha last line in
      let w = walk sha 1 start log in
      let out = (chain_lines sha digest lines).0 in
      let (m, e, f) =
        walk-append 0 start log (chained_line sha line digest ∷ out) (chain_genesis sha) (inl refl)
          h in
      let (ok, at) = one_more m w last line f h back in
      let on = walk_on (suc m) w (chained_line sha line digest) out (ground (arith, ok)) in
      rw (e, on)
        (batch_accepted (suc m)
          (walk_step sha (suc m) w (chain_tail (chained_line sha line digest))) digest lines at ok
          rest)
