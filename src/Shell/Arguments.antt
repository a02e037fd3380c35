-- ===== src/Shell/Arguments.antt =====
-- pkg/tools/shell.go: what the guards leave of the arguments of single programs.
use vikram.Base.{
  String, Bool, true, false, ◌&&◌, ◌||◌, not, List, [], ◌∷◌, Option, none, some, ◌≡◌, refl, arith,
  if◌then◌else◌, any, all, inl, inr, ◌⊎◌, ◌≢◌,
}
use vikram.Base.Runes.{Runes, codes, ◌=r=◌, has_prefix, contains, base_name}
use vikram.Shell.Host.{Host, to_lower}
use vikram.Shell.Guards.{
  is_word, is_blocked_fetch_scheme_arg, guard_curl_args, curl_switch, guard_wget_args, wget_switch,
  guard_find_args, guard_parsed_command, ◌orelse◌, message_if,
}

-- The two guards of a chain that blocks nothing.
pub orelse-none : (f g : Option String) → (f orelse g) ≡ none → (f ≡ none) × (g ≡ none)
orelse-none none g e = (refl, e)
orelse-none (some m) g e = absurd (cc e)

pub message_if-none : (b : Bool) (m : String) → message_if b m ≡ none → b ≡ false
message_if-none true m e = absurd (cc e)
message_if-none false m e = refl

web_cases :
    (c p q : Bool) → (if c then not p && not q else false) ≡ false → (not c || p || q) ≡ true
web_cases c p q e = ground (arith, e)

abbrev pub exec_flags : List String
exec_flags = "-exec" ∷ "-execdir" ∷ "-ok" ∷ "-okdir" ∷ "-delete" ∷ []

-- The scheme of an argument, if it has one, is http or https.
abbrev pub is_web : Runes → Bool
is_web a =
    not (contains a (codes "://"))
    || has_prefix a (codes "http://")
    || has_prefix a (codes "https://")

web_of : (a : Runes) → is_blocked_fetch_scheme_arg a ≡ false → is_web a ≡ true
unfolding is_blocked_fetch_scheme_arg
web_of a e =
    web_cases (contains a (codes "://")) (has_prefix a (codes "http://"))
      (has_prefix a (codes "https://")) e

module _ (h : Host) where
  find_args-plain :
      (args : List Runes)
      → guard_find_args h args ≡ none
      → any (λ a. is_word exec_flags (to_lower h a)) args ≡ false
  unfolding guard_find_args
  find_args-plain [] e = refl
  find_args-plain (a ∷ args) e =
      let (f, g) = orelse-none _ (guard_find_args h args) e in
      ground (arith, message_if-none _ _ f, find_args-plain args g)

  curl_args-web :
      (args : List Runes)
      → guard_curl_args h args ≡ none
      → all (λ a. is_web (to_lower h a)) args ≡ true
  unfolding guard_curl_args
  curl_args-web [] e = refl
  curl_args-web (a ∷ args) e =
      let (_, f) = orelse-none (curl_switch h a args) _ e in
      let (g, k) = orelse-none _ (guard_curl_args h args) f in
      ground (arith, web_of (to_lower h a) (message_if-none _ _ g), curl_args-web args k)

  wget_args-web :
      (args : List Runes)
      → guard_wget_args h args ≡ none
      → all (λ a. is_web (to_lower h a)) args ≡ true
  unfolding guard_wget_args
  wget_args-web [] e = refl
  wget_args-web (a ∷ args) e =
      let (_, f) = orelse-none (wget_switch h a args) _ e in
      let (g, k) = orelse-none _ (guard_wget_args h args) f in
      ground (arith, web_of (to_lower h a) (message_if-none _ _ g), wget_args-web args k)

  -- A command that guardParsedCommand does not block is not xargs; if its name (the last element of
  -- its path, in lower case) is find, no argument is one of the flags that run or delete; and if the
  -- name is curl or wget, every argument with a scheme in it has the scheme http or https.
  pub guard_parsed_command-restrained :
      (program : Runes) (args : List Runes)
      → guard_parsed_command h program args ≡ none
      → (base_name (to_lower h program) ≢ codes "xargs")
        × (base_name (to_lower h program) ≡ codes "find"
            → any (λ a. is_word exec_flags (to_lower h a)) args ≡ false)
        × (base_name (to_lower h program) ≡ codes "curl"
              ⊎ base_name (to_lower h program) ≡ codes "wget"
            → all (λ a. is_web (to_lower h a)) args ≡ true)
  unfolding guard_parsed_command ◌=r=◌
  guard_parsed_command-restrained program args e = (
    λ same. absurd (cc (rw same at e)),
    λ same. find_args-plain args (rw same at e),
    λ same. elim same [
      | inl curl ↦ curl_args-web args (rw curl at e)
      | inr wget ↦ wget_args-web args (rw wget at e)
    ],
  )
