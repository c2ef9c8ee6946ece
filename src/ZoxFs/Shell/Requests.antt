-- ===== src/ZoxFs/Shell/Requests.antt =====
-- What the lines of the shell ask for: each command with its arguments, and what it calls.
use spovm4_labs.Base.{◌≡◌, refl, ◌∙◌, true, false, if◌then◌else◌, Option, none, some, List, [], ◌∷◌}
use spovm4_labs.Base.Text.{Text, str_eq, codes}
use spovm4_labs.ZoxFs.Context.{◌>>=◌, Cmd, pure}
use spovm4_labs.ZoxFs.Create.{zox_fs_mkdir, zox_fs_cd}
use spovm4_labs.ZoxFs.Load.{zox_fs_load_file, zox_fs_extract_file}
use spovm4_labs.ZoxFs.Move.{zox_fs_mv, zox_fs_cp}
use spovm4_labs.ZoxFs.Remove.{zox_fs_rm_s}
use spovm4_labs.ZoxFs.Shell.{
  say, World, cd_message, rm_message, mkdir_message, load_message, extract_message, mv_message,
  cp_message, ls, pwd, clustmap, available,
}
use spovm4_labs.ZoxFs.Shell.Command.{
  help, Effect, printed, usage, one_argument, two_arguments, with_one, with_two, dispatch,
  run_command,
}
use spovm4_labs.ZoxFs.Shell.Words.{AreWords, unwords, run_command-unwords}

-- the commands, with what they are about or where that is missing, the last four also where only the
-- destination is
pub data Request : Type 0 where
  list_directory print_directory print_clusters print_free print_help exit : Request
  remove make_directory change_directory : Text → Request
  load_file extract_file move_file copy_file : Text → Text → Request
  remove_nothing make_nothing change_nothing : Request
  load_partly extract_partly move_partly copy_partly : Option Text → Request

abbrev pub name_of : Request → Text
name_of Request.list_directory = codes "ls"
name_of Request.print_directory = codes "pwd"
name_of Request.print_clusters = codes "clustmap"
name_of Request.print_free = codes "free"
name_of Request.print_help = codes "help"
name_of Request.exit = codes "exit"
name_of (Request.remove t) = codes "rm"
name_of (Request.make_directory t) = codes "mkdir"
name_of (Request.change_directory t) = codes "cd"
name_of (Request.load_file s d) = codes "load"
name_of (Request.extract_file s d) = codes "extract"
name_of (Request.move_file s d) = codes "mv"
name_of (Request.copy_file s d) = codes "cp"
name_of Request.remove_nothing = codes "rm"
name_of Request.make_nothing = codes "mkdir"
name_of Request.change_nothing = codes "cd"
name_of (Request.load_partly s) = codes "load"
name_of (Request.extract_partly s) = codes "extract"
name_of (Request.move_partly s) = codes "mv"
name_of (Request.copy_partly s) = codes "cp"

abbrev pub arguments : Request → List Text
arguments (Request.remove t) = t ∷ []
arguments (Request.make_directory t) = t ∷ []
arguments (Request.change_directory t) = t ∷ []
arguments (Request.load_file s d) = s ∷ d ∷ []
arguments (Request.extract_file s d) = s ∷ d ∷ []
arguments (Request.move_file s d) = s ∷ d ∷ []
arguments (Request.copy_file s d) = s ∷ d ∷ []
arguments (Request.load_partly (some s)) = s ∷ []
arguments (Request.extract_partly (some s)) = s ∷ []
arguments (Request.move_partly (some s)) = s ∷ []
arguments (Request.copy_partly (some s)) = s ∷ []
arguments _ = []

-- The line that asks for it.
abbrev pub line : Request → Text
line r = unwords (name_of r) (arguments r)

-- What the shell promises for it.
abbrev pub answer : World → Request → Cmd Effect
answer w Request.list_directory = do o ← ls; pure (printed o)
answer w Request.print_directory = do o ← pwd; pure (printed o)
answer w Request.print_clusters = do o ← clustmap; pure (printed o)
answer w Request.print_free = do o ← available; pure (printed o)
answer w Request.print_help = pure (printed help)
answer w Request.exit = pure (record { goes_on = false; output = []; extracted = none })
answer w (Request.remove t) = do
  (code, file_name) ← zox_fs_rm_s w.fwrite t
  pure (printed (rm_message code file_name))
answer w (Request.make_directory t) = do
  code ← zox_fs_mkdir w.fwrite t
  pure (printed (mkdir_message code))
answer w (Request.change_directory t) = do code ← zox_fs_cd t; pure (printed (cd_message code))
answer w (Request.load_file s d) = do
  code ← zox_fs_load_file w.fwrite (w.file s) d
  pure (printed (load_message code))
answer w (Request.extract_file s d) = do
  (code, bytes) ← zox_fs_extract_file s (w.creatable d)
  pure (record {
    goes_on = true;
    output = extract_message code;
    extracted = if w.creatable d then some (d, bytes) else none;
  })
answer w (Request.move_file s d) = do
  code ← zox_fs_mv w.fwrite w.stale s d
  pure (printed (mv_message code))
answer w (Request.copy_file s d) = do
  code ← zox_fs_cp w.fwrite w.stale s d
  pure (printed (cp_message code))
answer w Request.remove_nothing = pure (printed (say (codes "Usage: rm [what] \n")))
answer w Request.make_nothing = pure (printed (say (codes "Usage: mkdir [what] \n")))
answer w Request.change_nothing = pure (printed (say (codes "Usage: cd [what] \n")))
answer w (Request.load_partly s) =
    pure (printed (say (codes "Usage: load [source] [destination]\n")))
answer w (Request.extract_partly s) =
    pure (printed (say (codes "Usage: extract [source] [destination]\n")))
answer w (Request.move_partly s) = pure (printed (say (codes "Usage: mv [source] [destination]\n")))
answer w (Request.copy_partly s) = pure (printed (say (codes "Usage: cp [source] [destination]\n")))

dispatch-answer :
    (w : World) (r : Request) → dispatch w (name_of r) (name_of r ∷ arguments r) ≡ answer w r
unfolding dispatch one_argument two_arguments with_one with_two usage str_eq
dispatch-answer w Request.list_directory = refl
dispatch-answer w Request.print_directory = refl
dispatch-answer w Request.print_clusters = refl
dispatch-answer w Request.print_free = refl
dispatch-answer w Request.print_help = refl
dispatch-answer w Request.exit = refl
dispatch-answer w (Request.remove t) = refl
dispatch-answer w (Request.make_directory t) = refl
dispatch-answer w (Request.change_directory t) = refl
dispatch-answer w (Request.load_file s d) = refl
dispatch-answer w (Request.extract_file s d) = refl
dispatch-answer w (Request.move_file s d) = refl
dispatch-answer w (Request.copy_file s d) = refl
dispatch-answer w Request.remove_nothing = refl
dispatch-answer w Request.make_nothing = refl
dispatch-answer w Request.change_nothing = refl
dispatch-answer w (Request.load_partly none) = refl
dispatch-answer w (Request.load_partly (some s)) = refl
dispatch-answer w (Request.extract_partly none) = refl
dispatch-answer w (Request.extract_partly (some s)) = refl
dispatch-answer w (Request.move_partly none) = refl
dispatch-answer w (Request.move_partly (some s)) = refl
dispatch-answer w (Request.copy_partly none) = refl
dispatch-answer w (Request.copy_partly (some s)) = refl

-- A line with the name of one of the thirteen commands and its arguments, one space between two
-- words and each word with a byte and without a space, calls the operation of this command with
-- these arguments in this order and prints its output or the message for its result; where an
-- argument is missing, it only prints how the command is used; exit ends the shell.
pub run_command-line :
    (w : World) (r : Request)
    → AreWords (name_of r ∷ arguments r)
    → run_command w (line r) ≡ answer w r
run_command-line w r h = run_command-unwords w (name_of r) (arguments r) h ∙ dispatch-answer w r
