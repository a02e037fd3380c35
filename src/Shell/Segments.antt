-- ===== src/Shell/Segments.antt =====
-- pkg/tools/shell.go: what `guardCommand` leaves of the text of a segment.
use vikram.Base.{Bool, true, false, ◌&&◌, ◌||◌, not, none, ◌≡◌, arith, any}
use vikram.Base.Runes.{Runes, codes, contains, trim_space}
use vikram.Permissions.{Registry, is_allowed}
use vikram.Shell.Host.{Host, to_lower}
use vikram.Shell.Guards.{message_if}
use vikram.Shell.Tool.{ExecTool}
use vikram.Shell.Commands.{
  guard_command, guard_hardware_commands, guard_table, guard_allowed, guard_workspace,
  hardware_guards, interpreter_bypass, guard_paths,
}
use vikram.Shell.Arguments.{orelse-none, message_if-none}

and_not : (a b : Bool) → (a && not b) ≡ false → a ≡ true → b ≡ true
and_not a b e h = ground (arith, e, h)

module _ (h : Host) (reg : Registry) (t : ExecTool) where
  hardware_allowed :
      (low : Runes)
      → guard_hardware_commands h reg low ≡ none
      → contains low (codes "termux-") ≡ true
      → is_allowed "shell_hardware" reg ≡ true
  unfolding guard_hardware_commands
  hardware_allowed low e termux =
      let (_, f) = orelse-none (guard_table h reg hardware_guards low) _ e in
      and_not (contains low (codes "termux-")) (is_allowed "shell_hardware" reg)
        (message_if-none _ _ f) termux

  workspace_traversal :
      (cmd cwd : Runes)
      → guard_workspace h cmd cwd ≡ none
      → (contains cmd (codes "..\\") || contains cmd (codes "../")) ≡ false
  unfolding guard_workspace
  workspace_traversal cmd cwd e =
      message_if-none _ _ (orelse-none _ (guard_paths h cmd (h.abs cwd)) e).0

  -- In a segment that guardCommand does not block, without the spaces around it and in lower case: no
  -- pattern of the deny list matches; if it contains "termux-", the registry allows shell_hardware;
  -- and if the tool is restricted to the workspace, it contains neither "../" nor "..\".
  pub guard_command_lem :
      (seg cwd : Runes)
      → guard_command h reg t seg cwd ≡ none
      → (any (λ p. h.matches p (to_lower h (trim_space seg))) t.deny_patterns ≡ false)
        × (contains (to_lower h (trim_space seg)) (codes "termux-") ≡ true
            → is_allowed "shell_hardware" reg ≡ true)
        × (t.restrict_to_workspace ≡ true
            → (contains (trim_space seg) (codes "..\\") || contains (trim_space seg) (codes "../"))
              ≡ false)
  unfolding guard_command
  guard_command_lem seg cwd e =
      let cmd = trim_space seg in
      let low = to_lower h cmd in
      let (_, e1) = orelse-none (message_if (interpreter_bypass h low) _) _ e in
      let (denied, e2) = orelse-none (message_if _ _) _ e1 in
      let (hardware, e3) = orelse-none (guard_hardware_commands h reg low) _ e2 in
      let (_, e4) = orelse-none (guard_allowed h t.allow_patterns low) _ e3 in
      (
        message_if-none _ _ denied,
        hardware_allowed low hardware,
        λ restricted. workspace_traversal cmd cwd (rw restricted at e4),
      )
