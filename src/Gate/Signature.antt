-- ===== src/Gate/Signature.antt =====
-- Splitting a signed commit into payload and signature, and verifying one
-- (crates/kernel/ents-gate/src/signature.rs). Positions are byte offsets into the raw commit.
use git_ents.Base.{
  ℕ, zero, suc, ◌+◌, ◌-◌, Bytes, codes, starts_with, strip_prefix, Bool, false, List, [], ◌∷◌, ◌++◌,
  Option, none, some, if◌then◌else◌, ◌==◌, ◌&&◌, ltb, take, drop, rev_append,
}
use git_ents.Substrate.Objects.{Objects}

-- `s.get(a..b)` for offsets within the text
abbrev pub slice : ℕ → ℕ → Bytes → Bytes
slice a b s = take (b - a) (drop a s)

-- `windows(2).position(|w| w == b"\n\n").map_or(raw.len(), |i| i + 1)`
unfoldable pub header_end : Bytes → ℕ
header_end [] = 0
header_end (a ∷ []) = 1
header_end (a ∷ b ∷ s) = if a == 10 && b == 10 then 1 else suc (header_end (b ∷ s))

-- `position(|&b| b == b'\n').map_or(rest.len(), |i| i + 1)`
unfoldable pub line_length : Bytes → ℕ
line_length [] = 0
line_length (c ∷ s) = if c == 10 then 1 else suc (line_length s)

abbrev Span : Type 0
Span = Option (ℕ × ℕ)

-- One line of the header: the signature begins at the first `gpgsig ` line, and goes on over the
-- lines right after it that begin with a space.
unfoldable pub scan_line : ℕ → ℕ → Bytes → Span → Span
unfolding starts_with
scan_line line_start line_len line none =
    if starts_with (codes "gpgsig ") line then some (line_start, line_start + line_len) else none
scan_line line_start line_len line (some (sig_start, sig_end)) =
    if sig_end == line_start && starts_with (codes " ") line
    then some (sig_start, line_start + line_len)
    else some (sig_start, sig_end)

-- The loop over the header's lines. Each round takes at least one byte, so the fuel of one round
-- for each byte of the header is enough.
unfoldable pub scan_header : ℕ → Bytes → ℕ → ℕ → Span → Span
unfolding scan_line line_length
scan_header zero raw line_start end span = span
scan_header (suc fuel) raw line_start end span =
    let rest = slice line_start end raw in
    let len = line_length rest in
    let further =
      scan_header fuel raw (line_start + len) end (scan_line line_start len (take len rest) span) in
    if ltb line_start end then further else span

abbrev strip_return : Bytes → Bytes
strip_return [] = []
strip_return (c ∷ acc) = if c == 13 then acc else c ∷ acc

-- `str::lines`, which takes a carriage return before a line feed off too; the line is collected
-- back to front.
unfoldable pub lines_from : Bytes → Bytes → List Bytes
lines_from [] [] = []
lines_from (c ∷ acc) [] = rev_append (c ∷ acc) [] ∷ []
lines_from acc (x ∷ s) =
    let ended = rev_append (strip_return acc) [] ∷ lines_from [] s in
    let more = lines_from (x ∷ acc) s in if x == 10 then ended else more

-- The signature's lines without the header name and the continuation spaces.
unfoldable pub unfold_lines : List Bytes → Option Bytes
unfold_lines [] = some []
unfold_lines (line ∷ rest) = elim (strip_prefix (codes " ") line) [
  | none ↦ none
  | some value ↦ elim (unfold_lines rest) [ none ↦ none | some sig ↦ some (value ++ 10 ∷ sig) ]
]

unfoldable pub signature_text : List Bytes → Option Bytes
signature_text [] = some []
signature_text (line ∷ rest) = elim (strip_prefix (codes "gpgsig ") line) [
  | none ↦ none
  | some value ↦ elim (unfold_lines rest) [ none ↦ none | some sig ↦ some (value ++ 10 ∷ sig) ]
]

abbrev pub git_namespace : Bytes
git_namespace = codes "git"

module _ (o : Objects) where
  -- `sig` of the span `start..end`
  unfoldable pub span_signature : ℕ → ℕ → Bytes → Option Bytes
  unfolding signature_text unfold_lines lines_from strip_prefix
  span_signature start end raw = elim (o.from_utf8 (slice start end raw)) [
    | none ↦ none
    | some text ↦ signature_text (lines_from [] text)
  ]

  unfoldable pub split_signed : Bytes → Option (Bytes × Bytes)
  unfolding header_end scan_header span_signature
  split_signed raw = elim (scan_header (header_end raw) raw 0 (header_end raw) none) [
    | none ↦ none
    | some (start, end) ↦ elim (span_signature start end raw) [
      | none ↦ none
      | some sig ↦ some (take start raw ++ drop end raw, sig)
    ]
  ]

  unfoldable pub verifies : Bytes → Bytes → Bytes → Bool
  verifies key payload signature = elim (o.key_from_openssh key) [
    | none ↦ false
    | some parsed ↦ elim (o.sig_from_pem signature) [
      | none ↦ false
      | some sig ↦ o.key_verify parsed git_namespace payload sig
    ]
  ]
