-- ===== src/Shell/Parse.antt =====
-- pkg/tools/shell.go: `parseCommandForDirectExecution` and `splitPipelineSegments`, which walk a
-- command rune by rune. The body of each loop is one step on the variables of the loop.
use vikram.Base.{
  ℕ, String, Bool, true, false, not, ◌&&◌, ◌||◌, List, [], ◌∷◌, ◌++◌, if◌then◌else◌, ◌==◌,
}
use vikram.Base.Result.{Result, ok, err, ◌>>=◌}
use vikram.Base.Runes.{Runes, trim_space}

pub record Scan : Type 0 where
  pub current : Runes
  pub parts : List Runes
  pub in_single : Bool
  pub in_double : Bool
  pub escape_next : Bool

-- `if current.Len() > 0 { parts = append(parts, current.String()); current.Reset() }`
abbrev pub add_part : Runes → List Runes → List Runes
add_part [] parts = parts
add_part (c ∷ s) parts = parts ++ (c ∷ s) ∷ []

unfoldable pub is_blank : ℕ → Bool
is_blank r = r == b' ' || r == b'\t'

unfoldable pub scan_step : ℕ → Scan → Scan
unfolding is_blank
scan_step r st =
    if st.escape_next
    then record st { current = st.current ++ r ∷ []; escape_next = false }
    else if r == b'\\' && not st.in_single
    then record st { escape_next = true }
    else if r == b'\'' && not st.in_double
    then record st { in_single = not st.in_single }
    else if r == b'"' && not st.in_single
    then record st { in_double = not st.in_double }
    else if is_blank r && not st.in_single && not st.in_double
    then record st { parts = add_part st.current st.parts; current = [] }
    else record st { current = st.current ++ r ∷ [] }

unfoldable pub scan : Runes → Scan → Scan
unfolding scan_step
scan [] st = st
scan (r ∷ s) st = scan s (scan_step r st)

-- Outside quotes and escapes.
abbrev pub outside : Runes → List Runes → Scan
outside current parts = record {
  current = current;
  parts = parts;
  in_single = false;
  in_double = false;
  escape_next = false;
}

unfoldable pub parts_of : Runes → List Runes
unfolding scan
parts_of command = let st = scan command (outside [] []) in add_part st.current st.parts

abbrev pub program_args : List Runes → Runes × List Runes
program_args [] = ([], [])
program_args (p ∷ args) = (p, args)

unfoldable pub parse_command : Runes → Runes × List Runes
unfolding parts_of
parse_command command = program_args (parts_of command)

unfoldable pub split_command_tokens : Runes → List Runes
unfolding parse_command
split_command_tokens cmd = elim (parse_command cmd).0 [
  | [] ↦ []
  | c ∷ p ↦ (c ∷ p) ∷ (parse_command cmd).1
]

pub record Split : Type 0 where
  pub segment : Runes
  pub segments : List Runes
  pub split_single : Bool
  pub split_double : Bool
  pub split_escape : Bool

abbrev pub segment_error : String
segment_error = "invalid pipeline segment"

abbrev pub or_error : String
or_error = "unsupported operator ||"

abbrev pub quote_error : String
quote_error = "unclosed quote in command"

abbrev pub flushed : Runes → Split → Result String Split
flushed [] st = err segment_error
flushed (c ∷ seg) st = ok (record st { segment = []; segments = st.segments ++ (c ∷ seg) ∷ [] })

unfoldable pub flush : Split → Result String Split
unfolding trim_space
flush st = flushed (trim_space st.segment) st

abbrev pub starts_pipe : Runes → Bool
starts_pipe [] = false
starts_pipe (c ∷ s) = c == b'|'

-- `rest` is what follows the rune.
unfoldable pub split_step : ℕ → Runes → Split → Result String Split
unfolding flush
split_step r rest st =
    if st.split_escape
    then ok (record st { segment = st.segment ++ r ∷ []; split_escape = false })
    else if r == b'\\'
    then ok (record st { segment = st.segment ++ r ∷ []; split_escape = true })
    else if r == b'\'' && not st.split_double
    then ok (record st { segment = st.segment ++ r ∷ []; split_single = not st.split_single })
    else if r == b'"' && not st.split_single
    then ok (record st { segment = st.segment ++ r ∷ []; split_double = not st.split_double })
    else if r == b'|' && not st.split_single && not st.split_double
    then if starts_pipe rest then err or_error else flush st
    else ok (record st { segment = st.segment ++ r ∷ [] })

unfoldable pub split_loop : Runes → Split → Result String Split
unfolding split_step
split_loop [] st = ok st
split_loop (r ∷ s) st = split_step r s st >>= λ next. split_loop s next

-- `if strings.TrimSpace(current.String()) != "" { flush }`
abbrev pub last_segment : Runes → Split → List Runes
last_segment [] st = st.segments
last_segment (c ∷ seg) st = st.segments ++ (c ∷ seg) ∷ []

unfoldable pub split_end : Split → Result String (List Runes)
unfolding trim_space
split_end st =
    if st.split_single || st.split_double
    then err quote_error
    else ok (last_segment (trim_space st.segment) st)

abbrev pub between : Runes → List Runes → Split
between segment segments = record {
  segment = segment;
  segments = segments;
  split_single = false;
  split_double = false;
  split_escape = false;
}

unfoldable pub split_pipeline_segments : Runes → Result String (List Runes)
unfolding split_loop split_end
split_pipeline_segments command = split_loop command (between [] []) >>= split_end
