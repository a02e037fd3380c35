-- ===== src/Shell/Guards.antt =====
-- pkg/tools/shell.go: `guardParsedCommand` and the guards of the arguments of single programs. A
-- guard returns the message of what it blocks.
use vikram.Base.{
  String, Bool, false, not, ◌&&◌, ◌||◌, List, [], ◌∷◌, ◌++◌, map, Option, none, some, any,
  if◌then◌else◌,
}
use vikram.Base.Runes.{Runes, codes, ◌=r=◌, has_prefix, contains, trim_prefix, base_name, is_one_of}
use vikram.Shell.Host.{Host, to_lower, to_upper}

-- The first message, as a chain of early returns.
infixr 6 ◌orelse◌
abbrev pub ◌orelse◌ : Option String → Option String → Option String
none orelse g = g
some m orelse g = some m

abbrev pub message_if : Bool → String → Option String
message_if b m = if b then some m else none

-- `lowerArg == name, strings.HasPrefix(lowerArg, name+"=")` for each name.
unfoldable pub is_option : List String → Runes → Bool
unfolding ◌=r=◌ has_prefix
is_option names s = any (λ n. s =r= codes n || has_prefix s (codes n ++ b'=' ∷ [])) names

unfoldable pub is_word : List String → Runes → Bool
unfolding is_one_of
is_word names s = is_one_of (map codes names) s

unfoldable pub is_blocked_fetch_scheme_arg : Runes → Bool
unfolding contains has_prefix
is_blocked_fetch_scheme_arg arg =
    if contains arg (codes "://")
    then not (has_prefix arg (codes "http://")) && not (has_prefix arg (codes "https://"))
    else false

unfoldable pub bad_method : Runes → Bool
unfolding ◌=r=◌
bad_method method = not (method =r= codes "GET") && not (method =r= codes "HEAD")

module _ (h : Host) where
  -- The argument after a flag that names the method.
  unfoldable pub next_is_bad : List Runes → Bool
  unfolding bad_method
  next_is_bad [] = false
  next_is_bad (arg ∷ rest) = bad_method (to_upper h arg)

  unfoldable pub curl_switch : Runes → List Runes → Option String
  unfolding is_word is_option next_is_bad
  curl_switch arg rest =
      let low = to_lower h arg in
      if is_word ("-T" ∷ "-F" ∷ "-d" ∷ "-K" ∷ "-x" ∷ []) arg
        || is_word
            ("--upload-file" ∷ "--form" ∷ "--form-string" ∷ "--data" ∷ "--data-raw"
              ∷ "--data-binary" ∷ "--data-urlencode" ∷ "--data-ascii" ∷ "--json" ∷ "--config"
              ∷ "--proxy" ∷ [])
            low
      then some "Command blocked by safety guard (curl upload/config/proxy flags detected)"
      else if is_option
          ("--unix-socket" ∷ "--abstract-unix-socket" ∷ "--connect-to" ∷ "--resolve" ∷ []) low
      then some "Command blocked by safety guard (curl socket/connection override detected)"
      else if is_word ("-xpost" ∷ "-xput" ∷ "-xdelete" ∷ "-xpatch" ∷ []) low
      then some "Command blocked by safety guard (curl non-GET request detected)"
      else message_if
          ((is_word ("-X" ∷ []) arg || is_word ("--request" ∷ []) low) && next_is_bad rest)
          "Command blocked by safety guard (curl non-GET request detected)"

  unfoldable pub guard_curl_args : List Runes → Option String
  unfolding curl_switch is_blocked_fetch_scheme_arg
  guard_curl_args [] = none
  guard_curl_args (arg ∷ rest) =
      curl_switch arg rest
      orelse message_if (is_blocked_fetch_scheme_arg (to_lower h arg))
          "Command blocked by safety guard (curl only allows http/https URLs)"
      orelse guard_curl_args rest

  unfoldable pub wget_switch : Runes → List Runes → Option String
  unfolding is_word is_option next_is_bad trim_prefix has_prefix bad_method
  wget_switch arg rest =
      let low = to_lower h arg in
      if is_option ("--post-data" ∷ "--post-file" ∷ "--body-data" ∷ "--body-file" ∷ []) low
        || is_word ("-i" ∷ "-e" ∷ []) arg
        || is_word ("--input-file" ∷ "--execute" ∷ []) low
      then some "Command blocked by safety guard (wget upload/config flags detected)"
      else if is_word ("--method" ∷ []) low
      then message_if (next_is_bad rest)
          "Command blocked by safety guard (wget non-GET request detected)"
      else message_if
          (has_prefix low (codes "--method=")
            && bad_method (to_upper h (trim_prefix low (codes "--method="))))
          "Command blocked by safety guard (wget non-GET request detected)"

  unfoldable pub guard_wget_args : List Runes → Option String
  unfolding wget_switch is_blocked_fetch_scheme_arg
  guard_wget_args [] = none
  guard_wget_args (arg ∷ rest) =
      wget_switch arg rest
      orelse message_if (is_blocked_fetch_scheme_arg (to_lower h arg))
          "Command blocked by safety guard (wget only allows http/https URLs)"
      orelse guard_wget_args rest

  unfoldable pub guard_find_args : List Runes → Option String
  unfolding is_word
  guard_find_args [] = none
  guard_find_args (arg ∷ rest) =
      message_if
        (is_word ("-exec" ∷ "-execdir" ∷ "-ok" ∷ "-okdir" ∷ "-delete" ∷ []) (to_lower h arg))
        "Command blocked by safety guard (find execution or deletion flags detected)"
      orelse guard_find_args rest

  -- The loop over the arguments of git, with `hasConfigAlias`.
  unfoldable pub guard_git_args : List Runes → Bool → Option String
  unfolding is_option has_prefix ◌=r=◌
  guard_git_args [] has_config_alias =
      message_if has_config_alias
        "Command blocked by safety guard (git alias creation can execute arbitrary shell commands)"
  guard_git_args (arg ∷ rest) has_config_alias =
      let low = to_lower h arg in
      message_if
        (has_prefix low (codes "-c")
          || is_option ("--config-env" ∷ "--exec-path" ∷ "--upload-pack" ∷ "--receive-pack" ∷ [])
              low)
        "Command blocked by safety guard (git runtime command/config injection detected)"
      orelse guard_git_args rest (
          has_config_alias
          || (low =r= codes "config" && any (λ a. has_prefix (to_lower h a) (codes "alias.")) rest))

  unfoldable pub guard_awk_args : List Runes → Option String
  unfolding contains
  guard_awk_args [] = none
  guard_awk_args (arg ∷ rest) =
      let low = to_lower h arg in
      let has = λ (s : String). contains low (codes s) in
      message_if (any has ("system(" ∷ "| getline" ∷ "|getline" ∷ "|&" ∷ []))
        "Command blocked by safety guard (awk command execution detected)"
      orelse message_if (any has ("@load" ∷ "popen(" ∷ []))
          "Command blocked by safety guard (awk library load or popen detected)"
      orelse guard_awk_args rest

  unfoldable pub guard_sed_args : List Runes → Option String
  unfolding is_word has_prefix
  guard_sed_args [] = none
  guard_sed_args (arg ∷ rest) =
      message_if (is_word ("-f" ∷ []) arg || has_prefix arg (codes "--file"))
        "Command blocked by safety guard (sed -f script file execution detected)"
      orelse message_if
          (h.matches "(^|[;[:space:]])e([;[:space:]]|$)" arg
            || h.matches "(^|[;[:space:]])[rw][[:space:]]+\\S+" arg)
          "Command blocked by safety guard (sed execution or file write detected)"
      orelse guard_sed_args rest

  unfoldable pub guard_tar_args : List Runes → Option String
  unfolding is_word is_option
  guard_tar_args [] = none
  guard_tar_args (arg ∷ rest) =
      message_if
        (is_option ("--to-command" ∷ "--checkpoint-action" ∷ "--use-compress-program" ∷ [])
            (to_lower h arg)
          || is_word ("-I" ∷ "-P" ∷ []) arg
          || is_word ("--absolute-names" ∷ []) (to_lower h arg))
        "Command blocked by safety guard (tar command execution or absolute path extraction detected)"
      orelse guard_tar_args rest

  unfoldable pub guard_parsed_command : Runes → List Runes → Option String
  unfolding base_name ◌=r=◌ guard_find_args guard_curl_args guard_wget_args guard_git_args
      guard_awk_args guard_sed_args guard_tar_args
  guard_parsed_command program args =
      let base = base_name (to_lower h program) in
      if base =r= codes "xargs"
      then some "Command blocked by safety guard (xargs can execute arbitrary commands)"
      else if base =r= codes "find"
      then guard_find_args args
      else if base =r= codes "curl"
      then guard_curl_args args
      else if base =r= codes "wget"
      then guard_wget_args args
      else if base =r= codes "git"
      then guard_git_args args false
      else if base =r= codes "awk"
      then guard_awk_args args
      else if base =r= codes "sed"
      then guard_sed_args args
      else if base =r= codes "tar"
      then guard_tar_args args
      else none
