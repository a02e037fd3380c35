-- ===== src/Shell/Safety.antt =====
-- pkg/tools/shell.go: what is true of every program that `Execute` runs.
use vikram.Base.{
  String, true, List, [], ◌∷◌, Option, none, some, ◌≡◌, refl, ap, ◌∙◌, subst, Bool-cases, inl, inr,
}
use vikram.Base.Result.{Result, ok, err, ◌>>◌, bind_ok, err-ne, ok_inj}
use vikram.Base.Runes.{Runes, is_one_of, base_name}
use vikram.Permissions.{Registry}
use vikram.Shell.Host.{Host}
use vikram.Shell.Parse.{parse_command, split_pipeline_segments}
use vikram.Shell.Guards.{guard_parsed_command}
use vikram.Shell.Tool.{ExecTool, allowlist, verify_command, vet_program, Violation}
use vikram.Shell.Commands.{guard_command}
use vikram.Shell.Execute.{
  ParsedExecCommand, Context, Refusal, execute, vetted, vet, security, refuse, split_ok, nonempty,
  guard_segments, parsed_segment, parsed_segments, resolved, check_dir, chosen_dir, or_getwd,
}

module _ (h : Host) (reg : Registry) (t : ExecTool) (allowed : List Runes) where
  -- A program that is run stands in its segment, is allowed by its last path element, and no guard
  -- blocks the segment or the arguments.
  pub Passes : Runes → Runes → ParsedExecCommand → Type 0
  Passes cwd seg p =
      (program : Runes) × (parse_command seg ≡ (program, p.args))
      × (is_one_of allowed (base_name program) ≡ true)
      × (guard_command h reg t seg cwd ≡ none)
      × (guard_parsed_command h program p.args ≡ none)
      × (resolved h t program ≡ ok p.program)

  -- One program for each segment, in the order of the segments.
  pub AllPass : Runes → List Runes → List ParsedExecCommand → Type 0
  unfolding Passes
  AllPass cwd [] [] = Unit
  AllPass cwd [] (p ∷ ps) = ⊥
  AllPass cwd (seg ∷ segs) [] = ⊥
  AllPass cwd (seg ∷ segs) (p ∷ ps) = Passes cwd seg p × AllPass cwd segs ps

unit_bind_ok :
    {B : Type 0} (m : Option String) (k : Result Refusal B) (b : B)
    → (refuse m >> k) ≡ ok b
    → (m ≡ none) × (k ≡ ok b)
unfolding refuse
unit_bind_ok none k b e = (refl, e)
unit_bind_ok (some m) k b e = absurd (err-ne e)

vet_program_ok :
    (allowed : List Runes) (command program out : Runes)
    → vet_program allowed command program ≡ ok out
    → is_one_of allowed (base_name program) ≡ true
unfolding vet_program
vet_program_ok allowed command [] out e = absurd (err-ne e)
vet_program_ok allowed command (c ∷ p) out e =
    elim (Bool-cases (is_one_of allowed (base_name (c ∷ p)))) [
      | inl t ↦ t
      | inr f ↦ absurd (err-ne (rw f at e))
    ]

vet_program_same :
    (allowed : List Runes) (command program out : Runes)
    → vet_program allowed command program ≡ ok out
    → command ≡ out
unfolding vet_program
vet_program_same allowed command [] out e = absurd (err-ne e)
vet_program_same allowed command (c ∷ p) out e =
    elim (Bool-cases (is_one_of allowed (base_name (c ∷ p)))) [
      | inl t ↦ ok_inj (rw t at e)
      | inr f ↦ absurd (err-ne (rw f at e))
    ]

split_ok_ok : {A : Type 0} (m : Result String A) (a : A) → split_ok m ≡ ok a → m ≡ ok a
unfolding split_ok
split_ok_ok (ok a) b e = ap ok (ok_inj e)
split_ok_ok (err v) b e = absurd (err-ne e)

nonempty_same : (xs ys : List Runes) → nonempty xs ≡ ok ys → xs ≡ ys
unfolding nonempty
nonempty_same [] ys e = absurd (err-ne e)
nonempty_same (x ∷ xs) ys e = ok_inj e

security_ok : {A : Type 0} (m : Result Violation A) (a : A) → security m ≡ ok a → m ≡ ok a
unfolding security
security_ok (ok a) b e = ap ok (ok_inj e)
security_ok (err v) b e = absurd (err-ne e)

module _ (h : Host) (reg : Registry) (t : ExecTool) (allowed : List Runes) where
  parsed_segment-ok :
      (q : Runes × List Runes) (p : ParsedExecCommand)
      → parsed_segment h t q ≡ ok p
      → (q ≡ (q.0, p.args))
        × (guard_parsed_command h q.0 p.args ≡ none)
        × (resolved h t q.0 ≡ ok p.program)
  unfolding parsed_segment
  parsed_segment-ok ([], args) p e = absurd (err-ne e)
  parsed_segment-ok (c ∷ q, args) p e =
      let (g, k) = unit_bind_ok (guard_parsed_command h (c ∷ q) args) _ p e in
      let (path, r, same) = bind_ok (resolved h t (c ∷ q)) _ p k in
      let same_args = ap ParsedExecCommand.args (ok_inj same) in
      let same_path = ap ParsedExecCommand.program (ok_inj same) in
      (
        ap (λ a. (c ∷ q, a)) same_args,
        subst (λ a. guard_parsed_command h (c ∷ q) a ≡ none) same_args g,
        r ∙ ap ok same_path,
      )

  segment-Passes :
      t.security_middleware ≡ some (allowlist allowed)
      → (cwd seg v : Runes) (p : ParsedExecCommand) → vet h t.security_middleware seg ≡ ok v
      → guard_command h reg t seg cwd ≡ none
      → parsed_segment h t (parse_command seg) ≡ ok p
      → Passes h reg t allowed cwd seg p
  unfolding vet verify_command Passes
  segment-Passes m cwd seg v p vetted_seg unguarded parsed =
      let (q, g, r) = parsed_segment-ok (parse_command seg) p parsed in
      let checked =
        vet_program_ok allowed seg (parse_command seg).0 v (security_ok _ v (rw m at vetted_seg)) in
      ((parse_command seg).0, q, checked, unguarded, g, r)

  guard_segments-Passes :
      t.security_middleware ≡ some (allowlist allowed)
      → (cwd : Runes) (segs : List Runes) (ps : List ParsedExecCommand)
      → guard_segments h reg t cwd segs ≡ ok tt
      → parsed_segments h t segs ≡ ok ps
      → AllPass h reg t allowed cwd segs ps
  unfolding guard_segments parsed_segments AllPass Passes
  guard_segments-Passes m cwd [] [] g e = tt
  guard_segments-Passes m cwd [] (p ∷ ps) g e = absurd (cc e)
  guard_segments-Passes m cwd (seg ∷ segs) [] g e =
      let (p, _, k) = bind_ok (parsed_segment h t (parse_command seg)) _ [] e in
      let (ps, _, k2) = bind_ok (parsed_segments h t segs) _ [] k in absurd (cc k2)
  guard_segments-Passes m cwd (seg ∷ segs) (p ∷ ps) g e =
      let (v, vet_ok, g2) = bind_ok (vet h t.security_middleware seg) _ tt g in
      let (unguarded, g3) = unit_bind_ok (guard_command h reg t seg cwd) _ tt g2 in
      let (p2, parsed, k) = bind_ok (parsed_segment h t (parse_command seg)) _ (p ∷ ps) e in
      let (ps2, rest, k2) = bind_ok (parsed_segments h t segs) _ (p ∷ ps) k in
      let same : p2 ≡ p = cc k2 in
      let same_rest : ps2 ≡ ps = cc k2 in
      (
        segment-Passes m cwd seg v p vet_ok unguarded (parsed ∙ ap ok same),
        guard_segments-Passes m cwd segs ps g3 (rest ∙ ap ok same_rest),
      )

  vetted-AllPass :
      (command dir cwd : Runes) (ps : List ParsedExecCommand)
      → t.security_middleware ≡ some (allowlist allowed)
      → vetted h reg t dir command ≡ ok (cwd, ps)
      → (segs : List Runes) × (split_pipeline_segments command ≡ ok segs)
        × AllPass h reg t allowed cwd segs ps
  unfolding vetted vet verify_command
  vetted-AllPass command dir cwd ps m e =
      let (v, passed, e1) = bind_ok (vet h t.security_middleware command) _ (cwd, ps) e in
      let (split, cut, e2) = bind_ok (split_ok (split_pipeline_segments v)) _ (cwd, ps) e1 in
      let (segs, some_segs, e3) = bind_ok (nonempty split) _ (cwd, ps) e2 in
      let (_, g, e4) = bind_ok (guard_segments h reg t dir segs) _ (cwd, ps) e3 in
      let (qs, parsed, e5) = bind_ok (parsed_segments h t segs) _ (cwd, ps) e4 in
      let same_command : command ≡ v =
        vet_program_same allowed command _ v (security_ok _ v (rw m at passed)) in
      let same_segs : split ≡ segs = nonempty_same split segs some_segs in
      let same_dir : dir ≡ cwd = ap (λ r. r.0) (ok_inj e5) in
      let same_ps : qs ≡ ps = ap (λ r. r.1) (ok_inj e5) in
      (
        segs,
        ap split_pipeline_segments same_command ∙ split_ok_ok _ _ cut ∙ ap ok same_segs,
        guard_segments-Passes m cwd segs ps
            (subst (λ d. guard_segments h reg t d segs ≡ ok tt) same_dir g)
            (parsed ∙ ap ok same_ps),
      )

  -- Under an allowlist, when Execute gets as far as running a command, its text (which the allowlist
  -- returns unchanged) splits into segments, and for each of them, in order, it runs one program:
  -- the one that stands first in the segment, with the arguments that stand there, allowed by its
  -- name without the directories, with nothing blocked in the segment or the arguments, and found by
  -- its path if the tool is restricted to the workspace.
  pub execute-AllPass :
      (tc : Context) (command cwd : Runes) (wd : Option Runes) (ps : List ParsedExecCommand)
      → t.security_middleware ≡ some (allowlist allowed)
      → execute h reg t tc (some command) wd ≡ ok (cwd, ps)
      → (segs : List Runes) × (split_pipeline_segments command ≡ ok segs)
        × AllPass h reg t allowed cwd segs ps
  unfolding execute
  execute-AllPass tc command cwd wd ps m e =
      let dir = chosen_dir t wd in
      let (_, _, k) = bind_ok (check_dir h t tc dir) _ (cwd, ps) e in
      vetted-AllPass command (or_getwd h dir) cwd ps m k
