-- ===== src/Shell/Host.antt =====
-- What pkg/tools/shell.go asks of the system and of packages outside the repository: each field is a
-- function that the models take as given, without any law.
use vikram.Base.{ℕ, String, Bool, List, map, Option}
use vikram.Base.Result.{Result}
use vikram.Base.Runes.{Runes}

-- An error of filepath.EvalSymlinks, as os.IsNotExist and os.IsPermission tell it.
pub data LinkError : Type 0 where
  not_exist : LinkError
  no_permission : LinkError
  other_error : LinkError

pub record Host : Type 0 where
  -- unicode.ToLower and unicode.ToUpper
  pub lower : ℕ → ℕ
  pub upper : ℕ → ℕ
  -- regexp.Compile(p) gives no error; MatchString and FindAllString of a pattern
  pub compiles : String → Bool
  pub matches : String → Runes → Bool
  pub find_all : String → Runes → List Runes
  -- exec.LookPath, os.Getwd, and filepath.Abs, EvalSymlinks and Rel
  pub look_path : Runes → Option Runes
  pub getwd : Option Runes
  pub abs : Runes → Option Runes
  pub eval_symlinks : Runes → Result LinkError Runes
  pub rel : Runes → Runes → Option Runes

-- strings.ToLower and strings.ToUpper
abbrev pub to_lower : Host → Runes → Runes
to_lower h s = map h.lower s

abbrev pub to_upper : Host → Runes → Runes
to_upper h s = map h.upper s
