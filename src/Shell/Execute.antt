-- ===== src/Shell/Execute.antt =====
-- pkg/tools/shell.go: `Execute` to the point where it runs the commands. What it returns is the
-- directory and the programs that it runs there, or the refusal; the run itself is left out.
use vikram.Base.{String, not, ◌&&◌, ◌||◌, List, [], ◌∷◌, ◌++◌, Option, none, some, if◌then◌else◌}
use vikram.Base.Result.{Result, ok, err, ◌>>=◌, ◌>>◌, guard}
use vikram.Base.Runes.{Runes, ◌=r=◌, has_prefix}
use vikram.Permissions.{Registry}
use vikram.Shell.Host.{Host, LinkError}
use vikram.Shell.Parse.{parse_command, split_pipeline_segments}
use vikram.Shell.Guards.{guard_parsed_command}
use vikram.Shell.Tool.{ExecTool, Middleware, Violation, verify_command}
use vikram.Shell.Commands.{guard_command}

-- The message that Execute publishes when it refuses a directory.
pub record BlockedAlert : Type 0 where
  pub channel : Runes
  pub chat_id : Runes
  pub blocked_dir : Runes

pub data Refusal : Type 0 where
  command_required : Refusal
  bad_symlink : Refusal
  outside_workspace : Option BlockedAlert → Refusal
  violation : Violation → Refusal
  not_split : String → Refusal
  empty : Refusal
  guarded : String → Refusal
  not_parsed : Refusal
  not_found : Runes → Refusal

pub record ParsedExecCommand : Type 0 where
  pub program : Runes
  pub args : List Runes

pub record Context : Type 0 where
  pub channel : Runes
  pub chat_id : Runes

unfoldable pub chosen_dir : ExecTool → Option Runes → Runes
chosen_dir t none = t.working_dir
chosen_dir t (some []) = t.working_dir
chosen_dir t (some (c ∷ wd)) = c ∷ wd

unfoldable pub security : {A : Type 0} → Result Violation A → Result Refusal A
security (ok a) = ok a
security (err v) = err (violation v)

unfoldable pub refuse : Option String → Result Refusal Unit
refuse none = ok tt
refuse (some m) = err (guarded m)

unfoldable pub split_ok : {A : Type 0} → Result String A → Result Refusal A
split_ok (ok a) = ok a
split_ok (err m) = err (not_split m)

-- `if t.bus != nil && tc.Channel != ""`
unfoldable pub alert : ExecTool → Context → Runes → Option BlockedAlert
unfolding ◌=r=◌
alert t tc dir =
    if t.has_bus && not (tc.channel =r= [])
    then some (record { channel = tc.channel; chat_id = tc.chat_id; blocked_dir = dir })
    else none

-- `real` is the directory with its links resolved.
unfoldable pub inside : ExecTool → Context → Runes → Runes → Result Refusal Unit
unfolding alert has_prefix ◌=r=◌
inside t tc root real =
    guard (has_prefix real (root ++ b'/' ∷ []) || real =r= root)
      (outside_workspace (alert t tc real))

unfoldable pub check_link :
    ExecTool → Context → Runes → Runes → Result LinkError Runes → Result Refusal Unit
unfolding inside
check_link t tc root dir (ok resolved) = inside t tc root resolved
check_link t tc root dir (err LinkError.not_exist) = inside t tc root dir
check_link t tc root dir (err LinkError.no_permission) = inside t tc root dir
check_link t tc root dir (err LinkError.other_error) = err bad_symlink

unfoldable pub nonempty : List Runes → Result Refusal (List Runes)
nonempty [] = err empty
nonempty (seg ∷ segs) = ok (seg ∷ segs)

unfoldable pub found : Runes → Option Runes → Result Refusal Runes
found program none = err (not_found program)
found program (some path) = ok path

module _ (h : Host) where
  unfoldable pub check_abs : ExecTool → Context → Option Runes → Option Runes → Result Refusal Unit
  unfolding check_link
  check_abs t tc (some root) (some dir) = check_link t tc root dir (h.eval_symlinks dir)
  check_abs t tc none dir = ok tt
  check_abs t tc (some root) none = ok tt

  unfoldable pub check_dir : ExecTool → Context → Runes → Result Refusal Unit
  unfolding check_abs ◌=r=◌
  check_dir t tc cwd =
      if t.restrict_to_workspace && not (cwd =r= t.working_dir)
      then check_abs t tc (h.abs t.working_dir) (h.abs cwd)
      else ok tt

  unfoldable pub or_getwd : Runes → Runes
  or_getwd [] = elim h.getwd [ none ↦ [] | some wd ↦ wd ]
  or_getwd (c ∷ cwd) = c ∷ cwd

  unfoldable pub vet : Option Middleware → Runes → Result Refusal Runes
  unfolding verify_command security
  vet none command = ok command
  vet (some sm) command = security (verify_command sm command)

  -- The loop over the segments before any of them is parsed.
  unfoldable pub guard_segments : Registry → ExecTool → Runes → List Runes → Result Refusal Unit
  unfolding vet refuse guard_command
  guard_segments reg t cwd [] = ok tt
  guard_segments reg t cwd (seg ∷ segs) = vet t.security_middleware seg >>= λ _.
      refuse (guard_command h reg t seg cwd) >> guard_segments reg t cwd segs

  unfoldable pub resolved : ExecTool → Runes → Result Refusal Runes
  unfolding found
  resolved t program =
      if t.restrict_to_workspace then found program (h.look_path program) else ok program

  unfoldable pub parsed_segment : ExecTool → Runes × List Runes → Result Refusal ParsedExecCommand
  unfolding guard_parsed_command refuse resolved
  parsed_segment t ([], args) = err not_parsed
  parsed_segment t (c ∷ p, args) =
      refuse (guard_parsed_command h (c ∷ p) args)
      >> (resolved t (c ∷ p) >>= λ path. ok (record { program = path; args = args }))

  -- The loop that parses the segments.
  unfoldable pub parsed_segments : ExecTool → List Runes → Result Refusal (List ParsedExecCommand)
  unfolding parsed_segment parse_command
  parsed_segments t [] = ok []
  parsed_segments t (seg ∷ segs) =
      parsed_segment t (parse_command seg) >>= λ p. parsed_segments t segs >>= λ ps. ok (p ∷ ps)

  unfoldable pub vetted :
      Registry → ExecTool → Runes → Runes → Result Refusal (Runes × List ParsedExecCommand)
  unfolding vet split_ok split_pipeline_segments nonempty guard_segments parsed_segments
  vetted reg t cwd command = do
    vetted_command ← vet t.security_middleware command
    split ← split_ok (split_pipeline_segments vetted_command)
    segments ← nonempty split
    _ ← guard_segments reg t cwd segments
    parsed ← parsed_segments t segments
    ok (cwd, parsed)

  unfoldable pub execute :
      Registry
      → ExecTool
      → Context
      → Option Runes
      → Option Runes
      → Result Refusal (Runes × List ParsedExecCommand)
  unfolding chosen_dir check_dir or_getwd vetted
  execute reg t tc none wd = err command_required
  execute reg t tc (some command) wd =
      let cwd = chosen_dir t wd in check_dir t tc cwd >> vetted reg t (or_getwd cwd) command
