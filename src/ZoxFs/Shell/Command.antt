-- ===== src/ZoxFs/Shell/Command.antt =====
-- The loop of `start_repl` of lab7/src/repl.c: a line is read, cut into words and carried out.
use spovm4_labs.Base.{
  ◌==◌, if◌then◌else◌, ℕ, zero, suc, ◌-◌, Bool, true, false, ◌||◌, Option, none, some, List, [],
  ◌∷◌, ◌++◌,
}
use spovm4_labs.Base.Text.{Text, str_eq, strtok, c_string, codes}
use spovm4_labs.ZoxFs.Context.{◌>>=◌, out_of_fuel, Cmd, pure, undefined}
use spovm4_labs.ZoxFs.Create.{zox_fs_mkdir, zox_fs_cd}
use spovm4_labs.ZoxFs.Load.{zox_fs_load_file, zox_fs_extract_file}
use spovm4_labs.ZoxFs.Move.{zox_fs_mv, zox_fs_cp}
use spovm4_labs.ZoxFs.Paths.{zox_fs_pwd_s}
use spovm4_labs.ZoxFs.Remove.{zox_fs_rm_s}
use spovm4_labs.ZoxFs.Shell.{
  Output, say, World, cd_message, rm_message, mkdir_message, load_message, extract_message,
  mv_message, cp_message, ls, pwd, clustmap, available,
}

unfoldable pub help : Output
help = say (
    codes "ls \t\t- list elements in working directory\n"
    ++ codes "pwd \t\t- print working directory\n"
    ++ codes "cd \t\t- change working directory\n"
    ++ codes "rm \t\t- remove file or directory\n"
    ++ codes "mkdir \t\t- create directory\n"
    ++ codes "load \t\t- load file from host filesystem\n"
    ++ codes "extract \t- extract file to host filesystem\n"
    ++ codes "mv \t\t- move fs element from one place to another\n"
    ++ codes "cp \t\t- copy file from one place ot another\n"
    ++ codes "free \t\t- see available fs memory\n"
    ++ codes "clustmap \t- print fs clusters\n"
    ++ codes "help \t\t- print this help\n")

-- MAX_COMMAND_NAME_LENGTH
abbrev pub max_command_length : ℕ
max_command_length = 80

-- What a line has done: the shell goes on or not, what was printed, and a host file written.
pub record Effect : Type 0 where
  pub goes_on : Bool
  pub output : Output
  pub extracted : Option (Text × List ℕ)

abbrev pub printed : Output → Effect
printed o = record { goes_on = true; output = o; extracted = none }

unfoldable pub usage : Text → Text → Output
usage name words = say (codes "Usage: " ++ name ++ words)

-- a text up to its first space
unfoldable pub upto_space : Text → Text
upto_space [] = []
upto_space (c ∷ s) = if c == b' ' then [] else c ∷ upto_space s

-- what `command` holds once its first token has been cut off: the spaces in front, and the token
unfoldable pub first_part : Text → Text
first_part [] = []
first_part (c ∷ s) = if c == b' ' then c ∷ first_part s else upto_space (c ∷ s)

module _ (w : World) where
  -- `rm`, `mkdir` and `cd`
  unfoldable pub one_argument : Text → Text → Cmd Effect
  one_argument name what =
      if str_eq name (codes "rm")
      then (do
        (code, file_name) ← zox_fs_rm_s w.fwrite what
        pure (printed (rm_message code file_name)))
      else if str_eq name (codes "mkdir")
      then (do code ← zox_fs_mkdir w.fwrite what; pure (printed (mkdir_message code)))
      else (do code ← zox_fs_cd what; pure (printed (cd_message code)))

  -- `load`, `extract`, `mv` and `cp`
  unfoldable pub two_arguments : Text → Text → Text → Cmd Effect
  two_arguments name source destination =
      if str_eq name (codes "load")
      then (do
        code ← zox_fs_load_file w.fwrite (w.file source) destination
        pure (printed (load_message code)))
      else if str_eq name (codes "extract")
      then (do
        (code, bytes) ← zox_fs_extract_file source (w.creatable destination)
        pure (record {
          goes_on = true;
          output = extract_message code;
          extracted = if w.creatable destination then some (destination, bytes) else none;
        }))
      else if str_eq name (codes "mv")
      then (do
        code ← zox_fs_mv w.fwrite w.stale source destination
        pure (printed (mv_message code)))
      else (do
        code ← zox_fs_cp w.fwrite w.stale source destination
        pure (printed (cp_message code)))

  -- `strcmp` of a token with some names
  abbrev pub one_of : Text → List Text → Bool
  one_of t [] = false
  one_of t (n ∷ ns) = str_eq t n || one_of t ns

  abbrev pub shown : Cmd Output → Cmd Effect
  shown m = do o ← m; pure (printed o)

  unfoldable pub with_one : Text → List Text → Cmd Effect
  with_one name [] = pure (printed (usage name (codes " [what] \n")))
  with_one name (what ∷ ts) = one_argument name what

  unfoldable pub with_two : Text → List Text → Cmd Effect
  with_two name (source ∷ destination ∷ ts) = two_arguments name source destination
  with_two name _ = pure (printed (usage name (codes " [source] [destination]\n")))

  -- the line's tokens, and what `command` holds then
  unfoldable pub dispatch : Text → List Text → Cmd Effect
  dispatch command [] = pure (printed [])
  dispatch command (name ∷ ts) =
      if str_eq name (codes "ls")
      then shown ls
      else if str_eq name (codes "pwd")
      then shown pwd
      else if str_eq name (codes "clustmap")
      then shown clustmap
      else if one_of name (codes "rm" ∷ codes "mkdir" ∷ codes "cd" ∷ [])
      then with_one name ts
      else if str_eq name (codes "free")
      then shown available
      else if one_of name (codes "load" ∷ codes "extract" ∷ codes "mv" ∷ codes "cp" ∷ [])
      then with_two name ts
      else if str_eq name (codes "help")
      then pure (printed help)
      else if str_eq name (codes "exit")
      then pure (record { goes_on = false; output = []; extracted = none })
      else pure (
          printed (
            say (
              codes "Unknown command '"
              ++ command
              ++ codes "', "
              ++ codes "print 'help' to see available commands\n")))

  unfoldable pub run_command : Text → Cmd Effect
  run_command command = dispatch (first_part command) (strtok b' ' command)

-- `fgets`: at most this many bytes, up to a newline and with it, and what is left of the input
unfoldable pub fgets : ℕ → List ℕ → Text × List ℕ
fgets zero input = ([], input)
fgets (suc n) [] = ([], [])
fgets (suc n) (c ∷ input) =
    let rest = fgets n input in if c == b'\n' then (c ∷ [], input) else (c ∷ rest.0, rest.1)

-- `command[strlen(command)-1] = '\0'`, which writes in front of the buffer if it is empty
unfoldable pub cut_last : Text → Option Text
cut_last [] = none
cut_last (c ∷ []) = some []
cut_last (c ∷ d ∷ s) = elim (cut_last (d ∷ s)) [ none ↦ none | some t ↦ some (c ∷ t) ]

-- The outside behind a command that may have written a host file.
unfoldable pub with_written : Option (Text × List ℕ) → World → World
with_written none w = w
with_written (some (name, bytes)) w = record w {
  file = λ t. if str_eq t name then some bytes else w.file t;
}

-- The loop, with what all rounds print and the host files they write. A round takes a byte of the
-- input at least, so that a round more than the input has bytes is enough.
unfoldable pub start_repl : ℕ → World → List ℕ → Cmd (Output × List (Text × List ℕ))
start_repl zero w input = λ _. out_of_fuel
start_repl (suc k) w input = do
  wd_name ← zox_fs_pwd_s
  let read = fgets (max_command_length - 1) input
  elim (cut_last (c_string read.0)) [
    | none ↦ undefined
    | some command ↦ (do
      e ← run_command w command
      if e.goes_on
          then (do
            (rest, files) ← start_repl k (with_written e.extracted w) read.1
            pure (say (wd_name ++ codes ">") ++ (e.output ++ rest), with_file e.extracted files))
          else pure (say (wd_name ++ codes ">") ++ e.output, []))
  ]
  where
    with_file : Option (Text × List ℕ) → List (Text × List ℕ) → List (Text × List ℕ)
    with_file none files = files
    with_file (some f) files = f ∷ files
