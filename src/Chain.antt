-- ===== src/Chain.antt =====
-- engine/chain.go: the hash chain of the audit log.
pub mod Append
pub mod Scan
pub mod Sealed
pub mod ReadBack
mod Examples
use oma_seal.Errors.{Result, ok, err, plain}
use oma_seal.Prelude.{
  ltb, ℕ, suc, Bool, true, false, not, ◌&&◌, ◌||◌, Option, none, some, List, [], ◌∷◌, ◌++◌, leb,
  if◌then◌else◌, ◌==◌, nat_eq, bytes_eq, length, any, take, drop,
}
use oma_seal.Bytes.{Bytes, codes, cut_prefix, trim_space}
use oma_seal.Files.{File, holds}

-- \s of the regular expressions
abbrev pub is_re_space : ℕ → Bool
is_re_space c = c == 32 || c == 9 || c == 10 || c == 12 || c == 13

abbrev pub is_hex : ℕ → Bool
is_hex c = leb b'0' c && leb c b'9' || leb b'a' c && leb c b'f'

unfoldable pub skip_spaces : Bytes → Bytes
skip_spaces [] = []
skip_spaces (c ∷ s) = let rest = skip_spaces s in if is_re_space c then rest else c ∷ s

abbrev pub digest_length : ℕ
digest_length = 64

-- a digest with nothing but white space behind it
unfoldable pub digest_at_end : Bytes → Option Bytes
unfolding skip_spaces any
digest_at_end s =
    let digest = take digest_length s in
    if length digest == digest_length
      && not (any (λ c. not (is_hex c)) digest)
      && skip_spaces (drop digest_length s) == []
    then some digest
    else none

abbrev pub after_label : Option Bytes → Option Bytes
after_label none = none
after_label (some s) = digest_at_end s

-- chainFieldRe, where it may start: white space, the label and a digest at the end of the line
unfoldable pub chain_field : Bytes → Option Bytes
unfolding skip_spaces cut_prefix digest_at_end
chain_field [] = none
chain_field (c ∷ s) =
    if is_re_space c then after_label (cut_prefix (codes "chain=") (skip_spaces s)) else none

abbrev pub tail_from : ℕ → Bytes → Option Bytes → Bytes × Bytes × Bool → Bytes × Bytes × Bool
tail_from c s (some digest) later = ([], digest, true)
tail_from c s none (content, digest, found) =
    if found then (c ∷ content, digest, true) else (c ∷ s, [], false)

-- the leftmost match: (content, digest, whether there is one)
unfoldable pub chain_tail : Bytes → Bytes × Bytes × Bool
unfolding chain_field
chain_tail [] = ([], [], false)
chain_tail (c ∷ s) = tail_from c s (chain_field (c ∷ s)) (chain_tail s)

-- What the verification has found so far. `divergence` is 0 as long as there is none.
pub record Walk : Type 0 where
  pub seen : List Bytes
  pub prev_chained : Bytes
  pub prev_was_chained : Bool
  pub saw_chained : Bool
  pub starts_mid_chain : Bool
  pub chained_lines : ℕ
  pub divergence : ℕ

abbrev pub start : Walk
start = record {
  seen = [];
  prev_chained = [];
  prev_was_chained = false;
  saw_chained = false;
  starts_mid_chain = false;
  chained_lines = 0;
  divergence = 0;
}

-- The scanners of the log fail on a line that is not shorter than 1 MiB.
abbrev pub max_log_line : ℕ
max_log_line = 1048576

abbrev pub fits : Bytes → Bool
fits line = ltb (length line) max_log_line

-- the lines that a scanner gives out
unfoldable pub scanned : List Bytes → List Bytes
scanned [] = []
scanned (line ∷ log) = let rest = scanned log in if fits line then line ∷ rest else []

-- whether it gives out all
unfoldable pub scans_whole : List Bytes → Bool
scans_whole [] = true
scans_whole (line ∷ log) = fits line && scans_whole log

-- `sha` is the hexadecimal SHA-256 of a string.
module _ (sha : Bytes → Bytes) where
  unfoldable pub chain_genesis : Bytes
  chain_genesis = sha (codes "omaseal-log-genesis-v1")

  unfoldable pub chain_next : Bytes → Bytes → Bytes
  chain_next prev line = sha (prev ++ b'|' ∷ line)

  abbrev pub chained_line : Bytes → Bytes → Bytes
  chained_line line digest = line ++ codes " chain=" ++ digest

  -- the lines of one batch, and the last chain value
  unfoldable pub chain_lines : Bytes → List Bytes → List Bytes × Bytes
  unfolding chain_next
  chain_lines prev [] = ([], prev)
  chain_lines prev (line ∷ lines) =
      let digest = chain_next prev line in
      let (out, head) = chain_lines digest lines in (chained_line line digest ∷ out, head)

  -- `last` is the chain value to go on from after the lines so far.
  abbrev pub resume_step : Bytes → Bytes → Bytes × Bytes × Bool → Bytes
  resume_step last line (content, digest, found) =
      if line == [] then last else if found then digest else chain_genesis

  unfoldable pub resume_from : Bytes → List Bytes → Bytes
  unfolding chain_tail chain_genesis
  resume_from last [] = last
  resume_from last (line ∷ lines) = resume_from (resume_step last line (chain_tail line)) lines

  -- the chain value after these lines
  unfoldable pub resume_lines : List Bytes → Bytes
  unfolding resume_from
  resume_lines log = resume_from chain_genesis log

  unfoldable pub resume_chain_head : List Bytes → Bytes
  unfolding resume_lines
  resume_chain_head log = resume_lines (scanned log)

  unfoldable pub write_lines : List Bytes → List Bytes → List Bytes × Bytes
  unfolding chain_lines resume_lines
  write_lines log lines =
      let (out, head) = chain_lines (resume_lines log) lines in (log ++ out, head)

  -- The writing of a batch of complete lines under the lock: the log, and the head for the sidecar.
  unfoldable pub chain_write : List Bytes → List Bytes → List Bytes × Bytes
  unfolding chain_lines resume_chain_head
  chain_write log lines =
      let (out, head) = chain_lines (resume_chain_head log) lines in (log ++ out, head)

  abbrev pub links : Walk → Bytes → Bytes → Bool
  links w content digest =
      digest == chain_next w.prev_chained content
      || not w.prev_was_chained && digest == chain_next chain_genesis content

  abbrev pub with_chained : Walk → Bytes → Walk
  with_chained w digest = record w {
    seen = digest ∷ w.seen;
    prev_chained = digest;
    prev_was_chained = true;
    saw_chained = true;
    chained_lines = suc w.chained_lines;
  }

  abbrev pub linked : Bool → ℕ → Walk → Bytes → Walk
  linked true line_no w digest = with_chained w digest
  linked false line_no w digest = record w {
    seen = digest ∷ w.seen;
    chained_lines = suc w.chained_lines;
    divergence = line_no;
  }

  -- a chained line, the first one or a later one
  abbrev pub chained_step : Bool → ℕ → Walk → Bytes → Bytes → Walk
  chained_step false line_no w content digest = record (with_chained w digest) {
    starts_mid_chain = not (digest == chain_next chain_genesis content);
  }
  chained_step true line_no w content digest = linked (links w content digest) line_no w digest

  -- one line; a line after a divergence is not read
  abbrev pub walk_step : ℕ → Walk → Bytes × Bytes × Bool → Walk
  walk_step line_no w (content, digest, false) = record w { prev_was_chained = false }
  walk_step line_no w (content, digest, true) = chained_step w.saw_chained line_no w content digest

  unfoldable pub walk : ℕ → Walk → List Bytes → Walk
  unfolding chain_tail chain_next chain_genesis
  walk line_no w [] = w
  walk line_no w (line ∷ lines) =
      let next = walk_step line_no w (chain_tail line) in
      let rest = walk (suc line_no) next lines in if next.divergence == 0 then rest else next

  unfoldable pub verify_lines : List Bytes → Walk
  unfolding walk
  verify_lines log = walk 1 start log

  -- The scanner's error is seen if no divergence has ended the reading before.
  unfoldable pub verify_log_chain : List Bytes → Result Walk
  unfolding verify_lines
  verify_log_chain log =
      let w = verify_lines (scanned log) in
      if w.divergence == 0 && not (scans_whole log) then err plain else ok w

abbrev pub sidecar_of : File Bytes → Option Bytes
sidecar_of (holds state) = some (trim_space state)
sidecar_of _ = none

abbrev pub differs : Option Bytes → Bytes → Bool
differs none head = false
differs (some state) head = not (state == head)

-- the sidecar names another head
unfoldable pub sidecar_mismatch : Walk → File Bytes → Bool
unfolding trim_space
sidecar_mismatch w state = not (w.prev_chained == []) && differs (sidecar_of state) w.prev_chained

-- `anchors` are the heads in the anchor file.
unfoldable pub tampered : Walk → File Bytes → List Bytes → Bool
unfolding sidecar_mismatch any
tampered w state anchors =
    not (w.divergence == 0)
    || sidecar_mismatch w state
    || any (λ anchor. not (any (λ digest. digest == anchor) w.seen)) anchors
