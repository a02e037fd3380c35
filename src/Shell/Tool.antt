-- ===== src/Shell/Tool.antt =====
-- pkg/tools/security.go and the state of `ExecTool` in pkg/tools/shell.go: the allowlists, the
-- middleware, and the setters. A compiled pattern is its text; the timeout is left out.
use vikram.Base.{String, Bool, List, [], ◌∷◌, ◌++◌, map, Option, none, some, if◌then◌else◌}
use vikram.Base.Result.{Result, ok, err}
use vikram.Base.Runes.{Runes, codes, base_name, is_one_of}
use vikram.Shell.Host.{Host}
use vikram.Shell.Parse.{parse_command}

pub data Violation : Type 0 where
  empty_command : Violation
  not_in_allowlist : Runes → Violation
  not_implemented : Violation
  custom_error : String → Violation

-- The implementations of the interface SecurityMiddleware; `custom` is any other.
pub data Middleware : Type 0 where
  allowlist : List Runes → Middleware
  sandbox : Middleware
  custom : (Runes → Result Violation Runes) → Middleware

unfoldable pub vet_program : List Runes → Runes → Runes → Result Violation Runes
unfolding is_one_of base_name
vet_program allowed command [] = err empty_command
vet_program allowed command (c ∷ program) =
    if is_one_of allowed (base_name (c ∷ program))
    then ok command
    else err (not_in_allowlist (base_name (c ∷ program)))

unfoldable pub verify_command : Middleware → Runes → Result Violation Runes
unfolding vet_program parse_command
verify_command (allowlist allowed) command = vet_program allowed command (parse_command command).0
verify_command sandbox command = err not_implemented
verify_command (custom verify) command = verify command

abbrev pub default_allowlist : List Runes
default_allowlist = map codes (
    "ls" ∷ "cat" ∷ "grep" ∷ "find" ∷ "wc" ∷ "head" ∷ "tail" ∷ "du" ∷ "df" ∷ "awk" ∷ "sed" ∷ "sort"
    ∷ "uniq" ∷ "tr" ∷ "cut" ∷ "paste" ∷ "tee" ∷ "sleep" ∷ "true" ∷ "false" ∷ "test" ∷ "git"
    ∷ "mkdir" ∷ "cp" ∷ "mv" ∷ "rm" ∷ "touch" ∷ "stat" ∷ "file" ∷ "echo" ∷ "printf" ∷ "pwd" ∷ "date"
    ∷ "which" ∷ "basename" ∷ "dirname" ∷ "zip" ∷ "unzip" ∷ "tar" ∷ "gzip" ∷ "gunzip" ∷ "curl"
    ∷ "wget" ∷ "diff" ∷ "patch" ∷ [])

abbrev pub dev_allowlist : List Runes
dev_allowlist =
    default_allowlist
    ++ map codes (
        "go" ∷ "npm" ∷ "node" ∷ "python3" ∷ "python" ∷ "rustc" ∷ "cargo" ∷ "make" ∷ "cmake" ∷ "mvn"
        ∷ "gradle" ∷ [])

pub record ExecTool : Type 0 where
  pub working_dir : Runes
  pub deny_patterns : List String
  pub allow_patterns : List String
  pub restrict_to_workspace : Bool
  pub security_middleware : Option Middleware
  pub has_bus : Bool

abbrev pub deny_list : List String
deny_list =
    "\\brm\\s+(-[a-z]*r[a-z]*f|-[a-z]*f[a-z]*r)\\s+/" ∷ "\\brmdir\\s+/" ∷ "\\bdd\\b.*\\bof=/dev/"
    ∷ "\\bmkfs\\b" ∷ "\\bfdisk\\b" ∷ "\\bparted\\b" ∷ "\\bwipefs\\b" ∷ "\\bsudo\\b" ∷ "\\bsu\\s"
    ∷ "\\bdoas\\b" ∷ "\\|\\s*(bash|sh|zsh|ksh|csh|fish)\\b" ∷ "\\bmodprobe\\b" ∷ "\\binsmod\\b"
    ∷ "\\brmmod\\b" ∷ ":\\s*\\(\\)\\s*\\{" ∷ ">\\s*/etc/(passwd|shadow|sudoers|crontab)\\b"
    ∷ "\\bchmod\\s+[ugoa]*[+]s\\b" ∷ "\\bchmod\\s+[0-7]*[4-7][0-7]{3}\\b" ∷ []

pub new_exec_tool : Runes → Bool → Bool → ExecTool
new_exec_tool dir restrict has_bus = record {
  working_dir = dir;
  deny_patterns = deny_list;
  allow_patterns = [];
  restrict_to_workspace = restrict;
  security_middleware = some (allowlist default_allowlist);
  has_bus = has_bus;
}

pub set_security_middleware : Option Middleware → ExecTool → ExecTool
set_security_middleware sm t = record t { security_middleware = sm }

pub set_allowlist : List Runes → ExecTool → ExecTool
set_allowlist allowed t = record t { security_middleware = some (allowlist allowed) }

pub new_exec_tool_for_workspace : Runes → Bool → Bool → Bool → ExecTool
unfolding new_exec_tool set_allowlist
new_exec_tool_for_workspace dir restrict sandboxed has_bus =
    let tool = new_exec_tool dir restrict has_bus in
    if sandboxed then set_allowlist default_allowlist tool else set_allowlist dev_allowlist tool

pub set_restrict_to_workspace : Bool → ExecTool → ExecTool
set_restrict_to_workspace restrict t = record t { restrict_to_workspace = restrict }

-- The loop of SetAllowPatterns: the patterns set, and the one that does not compile.
compile_patterns : Host → List String → List String → List String × Option String
compile_patterns h [] done = (done, none)
compile_patterns h (p ∷ ps) done =
    let rest = compile_patterns h ps (done ++ p ∷ []) in
    if h.compiles p then rest else (done, some p)

pub set_allow_patterns : Host → List String → ExecTool → ExecTool × Option String
unfolding compile_patterns
set_allow_patterns h patterns t =
    let r = compile_patterns h patterns [] in (record t { allow_patterns = r.0 }, r.1)
