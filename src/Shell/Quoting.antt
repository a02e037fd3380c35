-- ===== src/Shell/Quoting.antt =====
-- pkg/tools/shell.go: the words that `parseCommandForDirectExecution` reads from a command that is
-- written as words of quoted and escaped pieces with blanks between them.
use vikram.Base.{
  ℕ, Bool, true, false, not, ◌&&◌, ◌||◌, List, [], ◌∷◌, ◌++◌, ◌==◌, ◌≡◌, refl, sym, ap, ◌∙◌, arith,
  all,
}
use vikram.Base.Runes.{Runes}
use vikram.Shell.Parse.{
  Scan, outside, scan, scan_step, is_blank, parts_of, add_part, parse_command, program_args,
}
use mathlib.Core.List.{append_assoc, append-nil}

-- A part of a word as it can be written.
pub data Piece : Type 0 where
  plain : ℕ → Piece
  escaped : ℕ → Piece
  single : Runes → Piece
  double : Runes → Piece

abbrev pub render : Piece → Runes
render (plain c) = c ∷ []
render (escaped c) = b'\\' ∷ c ∷ []
render (single s) = b'\'' ∷ s ++ b'\'' ∷ []
render (double s) = b'"' ∷ s ++ b'"' ∷ []

abbrev pub content : Piece → Runes
content (plain c) = c ∷ []
content (escaped c) = c ∷ []
content (single s) = s
content (double s) = s

unfoldable pub is_special : ℕ → Bool
unfolding is_blank
is_special c = c == b'\\' || c == b'\'' || c == b'"' || is_blank c

abbrev pub no_quote : ℕ → Bool
no_quote c = not (c == b'\'')

abbrev pub no_escape : ℕ → Bool
no_escape c = not (c == b'"') && not (c == b'\\')

unfoldable pub is_proper : Piece → Bool
unfolding is_special
is_proper (plain c) = not (is_special c)
is_proper (escaped c) = true
is_proper (single s) = all no_quote s
is_proper (double s) = all no_escape s

abbrev pub written : List Piece → Runes
written [] = []
written (p ∷ w) = render p ++ written w

abbrev pub word : List Piece → Runes
word [] = []
word (p ∷ w) = content p ++ word w

-- Words with the blanks that follow them.
abbrev pub line : List (List Piece × Runes) → Runes
line [] = []
line ((w, gap) ∷ ws) = written w ++ (gap ++ line ws)

abbrev has_rune : Runes → Bool
has_rune [] = false
has_rune (c ∷ s) = true

-- The last word needs no blank after it, the others need one; no word is empty.
unfoldable pub is_spaced : List (List Piece × Runes) → Bool
unfolding is_proper
is_spaced [] = true
is_spaced ((w, gap) ∷ []) = all is_proper w && has_rune (word w) && all is_blank gap
is_spaced ((w, gap) ∷ next ∷ ws) =
    all is_proper w
    && has_rune (word w)
    && all is_blank gap
    && has_rune gap
    && is_spaced (next ∷ ws)

abbrev pub words : List (List Piece × Runes) → List Runes
words [] = []
words ((w, gap) ∷ ws) = word w ∷ words ws

abbrev in_mode : Bool → Bool → Runes → List Runes → Scan
in_mode s d current parts = record {
  current = current;
  parts = parts;
  in_single = s;
  in_double = d;
  escape_next = false;
}

module _ (current : Runes) (parts : List Runes) where
  -- A rune that no test of the step takes is kept.
  step_kept :
      (s d : Bool) (c : ℕ)
      → (c == b'\\' && not s) ≡ false
      → (c == b'\'' && not d) ≡ false
      → (c == b'"' && not s) ≡ false
      → (is_blank c && not s && not d) ≡ false
      → scan_step c (in_mode s d current parts) ≡ in_mode s d (current ++ c ∷ []) parts
  unfolding scan_step
  step_kept s d c e q t b = rw (e, q, t, b) refl

  step_blank :
      (c : ℕ)
      → ((c == b'\\') && true) ≡ false
      → ((c == b'\'') && true) ≡ false
      → ((c == b'"') && true) ≡ false
      → is_blank c ≡ true
      → scan_step c (outside current parts) ≡ outside [] (add_part current parts)
  unfolding scan_step
  step_blank c e q t b = rw (e, q, t, b) refl

module _ (parts : List Runes) where
  scan_single :
      (s rest current : Runes)
      → all no_quote s ≡ true
      → scan (s ++ b'\'' ∷ rest) (in_mode true false current parts)
        ≡ scan rest (outside (current ++ s) parts)
  unfolding scan scan_step is_blank
  scan_single [] rest current h = ap (λ c. scan rest (outside c parts)) (sym (append-nil current))
  scan_single (c ∷ s) rest current h =
      ap (scan (s ++ b'\'' ∷ rest)) (
        step_kept current parts true false c (ground arith) (ground (arith, h)) (ground arith)
          (ground arith))
      ∙ scan_single s rest (current ++ c ∷ []) (ground (arith, h))
      ∙ ap (λ t. scan rest (outside t parts)) (append_assoc current (c ∷ []) s)

  scan_double :
      (s rest current : Runes)
      → all no_escape s ≡ true
      → scan (s ++ b'"' ∷ rest) (in_mode false true current parts)
        ≡ scan rest (outside (current ++ s) parts)
  unfolding scan scan_step is_blank
  scan_double [] rest current h = ap (λ c. scan rest (outside c parts)) (sym (append-nil current))
  scan_double (c ∷ s) rest current h =
      ap (scan (s ++ b'"' ∷ rest)) (
        step_kept current parts false true c (ground (arith, h)) (ground arith) (ground (arith, h))
          (ground arith))
      ∙ scan_double s rest (current ++ c ∷ []) (ground (arith, h))
      ∙ ap (λ t. scan rest (outside t parts)) (append_assoc current (c ∷ []) s)

  scan-render :
      (p : Piece) (rest current : Runes)
      → is_proper p ≡ true
      → scan (render p ++ rest) (outside current parts)
        ≡ scan rest (outside (current ++ content p) parts)
  unfolding scan scan_step is_blank is_proper is_special
  scan-render (plain c) rest current h = ap (scan rest) (
      step_kept current parts false false c (ground (arith, h)) (ground (arith, h))
        (ground (arith, h)) (ground (arith, h)))
  scan-render (escaped c) rest current h = refl
  scan-render (single s) rest current h =
      ap (λ t. scan t (in_mode true false current parts)) (append_assoc s (b'\'' ∷ []) rest)
      ∙ scan_single s rest current h
  scan-render (double s) rest current h =
      ap (λ t. scan t (in_mode false true current parts)) (append_assoc s (b'"' ∷ []) rest)
      ∙ scan_double s rest current h

  scan-written :
      (w : List Piece) (rest current : Runes)
      → all is_proper w ≡ true
      → scan (written w ++ rest) (outside current parts)
        ≡ scan rest (outside (current ++ word w) parts)
  scan-written [] rest current h = ap (λ c. scan rest (outside c parts)) (sym (append-nil current))
  scan-written (p ∷ w) rest current h =
      ap (λ t. scan t (outside current parts)) (append_assoc (render p) (written w) rest)
      ∙ scan-render p (written w ++ rest) current (ground (arith, h))
      ∙ scan-written w rest (current ++ content p) (ground (arith, h))
      ∙ ap (λ t. scan rest (outside t parts)) (append_assoc current (content p) (word w))

step_gap :
    (c : ℕ) (current : Runes) (parts : List Runes)
    → is_blank c ≡ true
    → scan_step c (outside current parts) ≡ outside [] (add_part current parts)
unfolding is_blank
step_gap c current parts h =
    step_blank current parts c (ground (arith, h)) (ground (arith, h)) (ground (arith, h)) h

scan_blanks :
    (gap rest : Runes) (parts : List Runes)
    → all is_blank gap ≡ true
    → scan (gap ++ rest) (outside [] parts) ≡ scan rest (outside [] parts)
unfolding scan
scan_blanks [] rest parts h = refl
scan_blanks (c ∷ gap) rest parts h =
    ap (scan (gap ++ rest)) (step_gap c [] parts (ground (arith, h)))
    ∙ scan_blanks gap rest parts (ground (arith, h))

add_part-word :
    (s : Runes) (parts : List Runes) → has_rune s ≡ true → add_part s parts ≡ parts ++ s ∷ []
add_part-word [] parts h = absurd (ground (arith, h))
add_part-word (c ∷ s) parts h = refl

-- What the loop leaves and the code after it adds.
abbrev closed : Scan → List Runes
closed st = add_part st.current st.parts

word_gap :
    (w : List Piece) (c : ℕ) (gap rest : Runes) (parts : List Runes)
    → all is_proper w ≡ true
    → has_rune (word w) ≡ true
    → all is_blank (c ∷ gap) ≡ true
    → scan (written w ++ ((c ∷ gap) ++ rest)) (outside [] parts)
      ≡ scan rest (outside [] (parts ++ word w ∷ []))
unfolding scan
word_gap w c gap rest parts hw hr hg =
    scan-written parts w ((c ∷ gap) ++ rest) [] hw
    ∙ ap (scan (gap ++ rest)) (step_gap c (word w) parts (ground (arith, hg)))
    ∙ scan_blanks gap rest (add_part (word w) parts) (ground (arith, hg))
    ∙ ap (λ ps. scan rest (outside [] ps)) (add_part-word (word w) parts hr)

closed-line :
    (ws : List (List Piece × Runes)) (parts : List Runes)
    → is_spaced ws ≡ true
    → closed (scan (line ws) (outside [] parts)) ≡ parts ++ words ws
unfolding scan is_spaced
closed-line [] parts h = sym (append-nil parts)
closed-line ((w, []) ∷ []) parts h =
    ap closed (scan-written parts w [] [] (ground (arith, h)))
    ∙ add_part-word (word w) parts (ground (arith, h))
closed-line ((w, c ∷ gap) ∷ []) parts h =
    ap closed
      (word_gap w c gap [] parts (ground (arith, h)) (ground (arith, h)) (ground (arith, h)))
closed-line ((w, []) ∷ next ∷ ws) parts h = absurd (ground (arith, h))
closed-line ((w, c ∷ gap) ∷ next ∷ ws) parts h =
    ap closed (
      word_gap w c gap (line (next ∷ ws)) parts (ground (arith, h)) (ground (arith, h))
        (ground (arith, h)))
    ∙ closed-line (next ∷ ws) (parts ++ word w ∷ []) (ground (arith, h))
    ∙ append_assoc parts (word w ∷ []) (words (next ∷ ws))

-- A command that begins with blanks and goes on with words, written as plain, escaped and quoted
-- pieces and followed by blanks (at least one between two words), is read as the contents of those
-- words: the first is the program, the others its arguments.
pub parse_command-line :
    (lead : Runes) (ws : List (List Piece × Runes))
    → all is_blank lead ≡ true
    → is_spaced ws ≡ true
    → parse_command (lead ++ line ws) ≡ program_args (words ws)
unfolding parse_command parts_of
parse_command-line lead ws hl hs =
    ap (λ st. program_args (closed st)) (scan_blanks lead (line ws) [] hl)
    ∙ ap program_args (closed-line ws [] hs)
