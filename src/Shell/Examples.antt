-- ===== src/Shell/Examples.antt =====
-- The readers and guards of pkg/tools/shell.go at concrete commands.
use vikram.Base.{
  ◌+◌, ◌-◌, true, false, ◌&&◌, ◌||◌, List, [], ◌∷◌, map, none, some, ◌≡◌, refl, leb, if◌then◌else◌,
  any, all, ◌≢◌, ◌⊎◌,
}
use vikram.Base.Result.{ok, err}
use vikram.Base.Runes.{Runes, codes, contains, trim_space, base_name}
use vikram.Permissions.{new_registry, is_allowed}
use vikram.Shell.Host.{Host, LinkError, to_lower}
use vikram.Shell.Parse.{parse_command, split_pipeline_segments, quote_error, is_blank}
use vikram.Shell.Quoting.{Piece, plain, escaped, single, double, is_spaced, parse_command-line}
use vikram.Shell.Guards.{guard_parsed_command, guard_curl_args, is_word}
use vikram.Shell.Tool.{ExecTool, allowlist, default_allowlist}
use vikram.Shell.Commands.{guard_command}
use vikram.Shell.Execute.{Context, execute}
use vikram.Shell.Safety.{AllPass, execute-AllPass}
use vikram.Shell.Arguments.{guard_parsed_command-restrained, exec_flags, is_web}
use vikram.Shell.Segments.{guard_command_lem}

-- A system with ASCII letters, no pattern that matches, and every program under /bin.
abbrev host : Host
host = record {
  lower = λ c. if leb b'A' c && leb c b'Z' then c + 32 else c;
  upper = λ c. if leb b'a' c && leb c b'z' then c - 32 else c;
  compiles = λ _. true;
  matches = λ _ _. false;
  find_all = λ _ _. [];
  look_path = λ p. some (codes "/bin/ls");
  getwd = some (codes "/w");
  abs = λ p. some p;
  eval_symlinks = λ p. err LinkError.not_exist;
  rel = λ _ _. none;
}

abbrev tool : ExecTool
tool = record {
  working_dir = codes "/w";
  deny_patterns = [];
  allow_patterns = [];
  restrict_to_workspace = true;
  security_middleware = some (allowlist default_allowlist);
  has_bus = false;
}

abbrev context : Context
context = record { channel = codes "cli"; chat_id = codes "1" }

-- echo 'a b'\ "c"  d
abbrev quoted : List (List Piece × Runes)
quoted =
    (map plain (codes "echo"), codes " ")
    ∷ (single (codes "a b") ∷ escaped b' ' ∷ double (codes "c") ∷ [], codes "  ")
    ∷ (plain b'd' ∷ [], [])
    ∷ []

parse_command-line_example :
    parse_command (codes "\techo 'a b'\\ \"c\"  d") ≡ (codes "echo", codes "a b c" ∷ codes "d" ∷ [])
unfolding is_spaced is_blank
parse_command-line_example = parse_command-line (codes "\t") quoted refl refl

execute-AllPass_example :
    (segs : List Runes) × (split_pipeline_segments (codes "ls -l | wc") ≡ ok segs)
    × AllPass host new_registry tool default_allowlist (codes "/w") segs (
        record { program = codes "/bin/ls"; args = codes "-l" ∷ [] }
        ∷ record { program = codes "/bin/ls"; args = [] }
        ∷ [])
unfolding execute
execute-AllPass_example =
    execute-AllPass host new_registry tool default_allowlist context (codes "ls -l | wc")
      (codes "/w") none _ refl refl

-- curl -s HTTPS://x
abbrev curl_args : List Runes
curl_args = codes "-s" ∷ codes "HTTPS://x" ∷ []

guard_parsed_command-restrained_example :
    (base_name (to_lower host (codes "/bin/CURL")) ≢ codes "xargs")
    × (base_name (to_lower host (codes "/bin/CURL")) ≡ codes "find"
        → any (λ a. is_word exec_flags (to_lower host a)) curl_args ≡ false)
    × (base_name (to_lower host (codes "/bin/CURL")) ≡ codes "curl"
          ⊎ base_name (to_lower host (codes "/bin/CURL")) ≡ codes "wget"
        → all (λ a. is_web (to_lower host a)) curl_args ≡ true)
unfolding guard_parsed_command
guard_parsed_command-restrained_example =
    guard_parsed_command-restrained host (codes "/bin/CURL") curl_args refl

guard_command_lem_example :
    (any (λ p. host.matches p (to_lower host (trim_space (codes " ls A ")))) tool.deny_patterns
      ≡ false)
    × (contains (to_lower host (trim_space (codes " ls A "))) (codes "termux-") ≡ true
        → is_allowed "shell_hardware" new_registry ≡ true)
    × (tool.restrict_to_workspace ≡ true
        → (contains (trim_space (codes " ls A ")) (codes "..\\")
            || contains (trim_space (codes " ls A ")) (codes "../"))
          ≡ false)
unfolding guard_command
guard_command_lem_example =
    guard_command_lem host new_registry tool (codes " ls A ") (codes "/w") refl

-- The two readers differ on a backslash in single quotes.
backslash_quoted :
    (parse_command (codes "echo 'a\\'") ≡ (codes "echo", codes "a\\" ∷ []))
    × (split_pipeline_segments (codes "echo 'a\\'") ≡ err quote_error)
unfolding parse_command split_pipeline_segments
backslash_quoted = (refl, refl)

-- Options with their value attached pass the guard.
attached_data :
    guard_curl_args host (codes "-d@secret" ∷ codes "--data=x" ∷ codes "-T/etc/passwd" ∷ []) ≡ none
unfolding guard_curl_args
attached_data = refl
