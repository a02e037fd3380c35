-- ===== src/Shell/Commands.antt =====
-- pkg/tools/shell.go: `guardHardwareCommands` and `guardCommand`, which look at the text of a
-- segment. They return the message of what they block.
use Prim.Native.String.{◌++◌ as text_append}
use vikram.Base.{
  String, Bool, false, not, ◌&&◌, ◌||◌, List, [], ◌∷◌, Option, none, some, any, if◌then◌else◌,
}
use vikram.Base.Result.{Result, ok, err}
use vikram.Base.Runes.{
  Runes, codes, contains, has_prefix, base_name, until_space, trim_left, trim_space,
}
use vikram.Permissions.{Registry, is_allowed}
use vikram.Shell.Host.{Host, LinkError, to_lower}
use vikram.Shell.Guards.{◌orelse◌, message_if, is_word}
use vikram.Shell.Tool.{ExecTool}

pub record HardwareGuard : Type 0 where
  pub pattern : String
  pub feature : String
  pub desc : String

abbrev guard_of : String → String → String → HardwareGuard
guard_of p f d = record { pattern = p; feature = f; desc = d }

abbrev pub hardware_guards : List HardwareGuard
hardware_guards =
    guard_of "\\btermux-camera-photo\\b" "camera" "camera capture"
    ∷ guard_of "\\btermux-microphone-record\\b" "microphone" "microphone recording"
    ∷ guard_of "\\btermux-sms-(send|list)\\b" "sms" "SMS access"
    ∷ guard_of "\\btermux-telephony-call\\b" "phone_calls" "phone call"
    ∷ guard_of "\\btermux-location\\b" "location" "location access"
    ∷ guard_of "\\btermux-clipboard-(get|set)\\b" "clipboard" "clipboard access"
    ∷ guard_of "\\btermux-sensor\\b" "sensors" "sensor access"
    ∷ guard_of
        "\\btermux-(vibrate|torch|volume|notification|toast|wifi|battery|usb|fingerprint|wallpaper|dialog|download|media-player|media-scan|storage-get|tts-speak)\\b"
        "shell_hardware" "hardware command"
    ∷ []

abbrev needs : String → String → String
needs desc feature = text_append "Command blocked: " (
    text_append desc (text_append " requires permissions." (text_append feature "=true in config")))

module _ (h : Host) (reg : Registry) where
  unfoldable pub guard_table : List HardwareGuard → Runes → Option String
  unfolding is_allowed
  guard_table [] low = none
  guard_table (g ∷ gs) low =
      message_if (h.matches g.pattern low && not (is_allowed g.feature reg))
        (needs g.desc g.feature)
      orelse guard_table gs low

  unfoldable pub guard_hardware_commands : Runes → Option String
  unfolding guard_table contains is_allowed
  guard_hardware_commands low =
      guard_table hardware_guards low
      orelse message_if (contains low (codes "termux-") && not (is_allowed "shell_hardware" reg))
          "Command blocked: termux hardware commands require permissions.shell_hardware=true in config"

abbrev interpreters : List String
interpreters = "python" ∷ "python3" ∷ "sh" ∷ "bash" ∷ "zsh" ∷ "ruby" ∷ "perl" ∷ "node" ∷ []

abbrev bypasses : List String
bypasses = "import os" ∷ "/etc/" ∷ "system(" ∷ " -c " ∷ "\t-c " ∷ "eval" ∷ []

abbrev or_else_path : Runes → Result LinkError Runes → Runes
or_else_path p (ok resolved) = resolved
or_else_path p (err e) = p

module _ (h : Host) where
  -- `fields[0]`: the text to the first space, empty if there are no fields.
  unfoldable pub interpreter_bypass : Runes → Bool
  unfolding is_word base_name until_space trim_left contains
  interpreter_bypass low = elim (until_space (trim_left low)) [
    | [] ↦ false
    | c ∷ field ↦
        is_word interpreters (base_name (c ∷ field)) && any (λ t. contains low (codes t)) bypasses
  ]

  -- Whether a path that the command names lies outside the directory of the command.
  unfoldable pub outside_dir : Runes → Option Runes → Bool
  unfolding has_prefix
  outside_dir cwd_path none = false
  outside_dir cwd_path (some p) =
      elim (h.rel (or_else_path cwd_path (h.eval_symlinks cwd_path))
        (or_else_path p (h.eval_symlinks p))) [
          | none ↦ false
          | some rel ↦ has_prefix rel (codes "..")
        ]

  unfoldable pub guard_paths : Runes → Option Runes → Option String
  unfolding outside_dir
  guard_paths cmd none = none
  guard_paths cmd (some cwd_path) =
      message_if
        (any (λ raw. outside_dir cwd_path (h.abs raw))
          (h.find_all "[A-Za-z]:\\\\[^\\\\\\\"'\\s]+|/[^\\s\\\"']+" cmd))
        "Command blocked by safety guard (path outside working dir)"

  unfoldable pub guard_workspace : Runes → Runes → Option String
  unfolding contains guard_paths
  guard_workspace cmd cwd =
      message_if (contains cmd (codes "..\\") || contains cmd (codes "../"))
        "Command blocked by safety guard (path traversal detected)"
      orelse guard_paths cmd (h.abs cwd)

  unfoldable pub guard_allowed : List String → Runes → Option String
  guard_allowed [] low = none
  guard_allowed (p ∷ ps) low =
      message_if (not (any (λ q. h.matches q low) (p ∷ ps)))
        "Command blocked by safety guard (not in allowlist)"

  unfoldable pub guard_command : Registry → ExecTool → Runes → Runes → Option String
  unfolding trim_space interpreter_bypass guard_hardware_commands guard_allowed guard_workspace
  guard_command reg t command cwd =
      let cmd = trim_space command in
      let low = to_lower h cmd in
      message_if (interpreter_bypass low)
        "Command blocked by safety guard (interpreter bypass patterns detected)"
      orelse message_if (any (λ p. h.matches p low) t.deny_patterns)
          "Command blocked by safety guard (dangerous pattern detected)"
      orelse guard_hardware_commands h reg low
      orelse guard_allowed t.allow_patterns low
      orelse (if t.restrict_to_workspace then guard_workspace cmd cwd else none)
