-- ===== src/Chain/Scan.antt =====
-- The scanner of the log (engine/chain.go): what a verification that reports no error has read.
use oma_seal.Prelude.{
  ◌≡◌, refl, sym, ap, ◌∙◌, true, not, ◌&&◌, List, [], ◌∷◌, ◌++◌, arith, Bool-cases, inl, inr, ◌==◌,
  nat_eq, bytes_eq, and-eq-true, if-true, if-false,
}
use oma_seal.Bytes.{Bytes}
use oma_seal.Errors.{Result, ok, err, plain}
use oma_seal.Chain.{
  Walk, fits, scanned, scans_whole, resume_lines, resume_chain_head, write_lines, chain_write,
  verify_lines, verify_log_chain, chain_lines,
}

pub scanned-whole : (log : List Bytes) → scans_whole log ≡ true → scanned log ≡ log
unfolding scanned scans_whole
scanned-whole [] h = refl
scanned-whole (line ∷ log) h =
    let (now, later) = and-eq-true (fits line) (scans_whole log) h in
    if-true [] now ∙ ap (λ l. line ∷ l) (scanned-whole log later)

pub scans_whole-append :
    (log more : List Bytes)
    → scans_whole log ≡ true
    → scans_whole more ≡ true
    → scans_whole (log ++ more) ≡ true
unfolding scans_whole
scans_whole-append [] more h k = k
scans_whole-append (line ∷ log) more h k =
    let (now, later) = and-eq-true (fits line) (scans_whole log) h in
    rw now (scans_whole-append log more later k)

module _ (sha : Bytes → Bytes) where
  -- A verification without an error and a divergence has read every line.
  pub verified_lines :
      (log : List Bytes) (w : Walk)
      → verify_log_chain sha log ≡ ok w
      → w.divergence ≡ 0
      → (scans_whole log ≡ true) × (verify_lines sha log ≡ w)
  unfolding verify_log_chain
  verified_lines log w h good =
      let v = verify_lines sha (scanned log) in
      elim (Bool-cases (v.divergence == 0 && not (scans_whole log))) [
        | inl e ↦ cc (if-true (ok v) e, h)
        | inr e ↦
            let same : v ≡ w = cc (if-false {A = Result Walk} (err plain) e, h) in
            let whole : scans_whole log ≡ true =
              ground (arith, e, ap (λ (x : Walk). x.divergence) same, good) in
            (whole, ap (verify_lines sha) (sym (scanned-whole log whole)) ∙ same)
      ]

  -- and a log that is read whole verifies as its lines do
  pub verify_whole :
      (log : List Bytes)
      → scans_whole log ≡ true
      → verify_log_chain sha log ≡ ok (verify_lines sha log)
  unfolding verify_log_chain
  verify_whole log h =
      if-false {b = (verify_lines sha (scanned log)).divergence == 0 && not (scans_whole log)}
        (err plain) (ground (arith, h))
      ∙ ap (λ l. ok (verify_lines sha l)) (scanned-whole log h)

  pub write_whole :
      (log lines : List Bytes)
      → scans_whole log ≡ true
      → chain_write sha log lines ≡ write_lines sha log lines
  unfolding chain_write write_lines resume_chain_head
  write_whole log lines h =
      ap (λ l. let (out, head) = chain_lines sha (resume_lines sha l) lines in (log ++ out, head))
        (scanned-whole log h)
