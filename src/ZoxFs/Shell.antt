-- ===== src/ZoxFs/Shell.antt =====
-- lab7/src/repl.c: the shell of the file system. What it prints is a list of pieces, since `printf`
-- writes the digits of a number.
pub mod Command
pub mod Words
pub mod Requests
use spovm4_labs.Base.{
  ltb, ◌==◌, if◌then◌else◌, ℕ, zero, suc, ◌%◌, Bool, ◌&&◌, Option, List, [], ◌∷◌, ◌++◌,
}
use spovm4_labs.Base.Text.{Text, codes}
use spovm4_labs.ZoxFs.Cluster.{Cluster, type_directory, type_file, type_empty, subnodes_count}
use spovm4_labs.ZoxFs.Context.{
  ◌>>=◌, ◌>>◌, done, Cmd, pure, Code, e_fs_full, e_invalid_file_name, e_not_exists, e_duplicate,
  e_flush_error, e_open_file, e_source_not_exists, e_dest_not_exists, clusters_count, Write,
  cluster,
}
use spovm4_labs.ZoxFs.Paths.{zox_fs_pwd_s}
use spovm4_labs.ZoxFs.Size.{zox_fs_free, zox_fs_fsize, zox_fs_ls}

pub data Piece : Type 0 where
  text : Text → Piece
  number : ℕ → Piece

abbrev pub Output : Type 0
Output = List Piece

abbrev pub say : Text → Output
say t = text t ∷ []

-- the outside of one command: writes to the host file, its other files, which files `fopen` can
-- create, and what the stack of `zox_fs_mv` and `zox_fs_cp` holds
pub record World : Type 0 where
  pub fwrite : List Write → Write → Bool
  pub file : Text → Option (List ℕ)
  pub creatable : Text → Bool
  pub stale : List ℕ

-- the messages of `_cd`, `_rm`, `_mkdir`, `_load`, `_extract`, `_mv` and `_cp` for an error code
unfoldable pub cd_message : Code → Output
cd_message e_not_exists = say (codes "Invalid cd path\n")
cd_message e_invalid_file_name = say (codes "Invalid cd path\n")
cd_message _ = []

unfoldable pub rm_message : Code → Text → Output
rm_message e_not_exists file_name = say (codes "Invalid cd path\n")
rm_message e_invalid_file_name file_name = say (codes "Cannot remove '" ++ file_name ++ codes "'\n")
rm_message _ file_name = []

unfoldable pub mkdir_message : Code → Output
mkdir_message e_duplicate = say (codes "There is already file with such name\n")
mkdir_message e_invalid_file_name = say (codes "Invalid directory name\n")
mkdir_message e_fs_full = say (codes "Out of memory\n")
mkdir_message e_flush_error = say (codes "Can not update fs file: changes will be lost\n")
mkdir_message e_not_exists = say (codes "Wrong directory path\n")
mkdir_message _ = []

unfoldable pub load_message : Code → Output
load_message e_fs_full = say (codes "Out of memory\n")
load_message e_open_file = say (codes "Source file doesn't exists\n")
load_message _ = []

unfoldable pub extract_message : Code → Output
extract_message e_open_file = say (codes "Cannot open destination file\n")
extract_message e_not_exists = say (codes "Source file doesnt' exists\n")
extract_message _ = []

unfoldable pub mv_message : Code → Output
mv_message e_source_not_exists = say (codes "Source does not exist\n")
mv_message e_dest_not_exists = say (codes "Destination path does not exist\n")
mv_message e_duplicate = say (codes "Destination already exists\n")
mv_message _ = []

unfoldable pub cp_message : Code → Output
cp_message e_source_not_exists = say (codes "Source file does not exist\n")
cp_message e_duplicate = say (codes "Destination file already exists\n")
cp_message e_fs_full = say (codes "Out of memory\n")
cp_message e_dest_not_exists = say (codes "Destination path does not exists\n")
cp_message _ = []

-- one round of the loop of `_ls`
unfoldable pub ls_line : ℕ → Cmd Output
ls_line i = do
  s ← cluster i
  if s.type == type_file
      then (do
        size ← zox_fs_fsize i
        pure (text (s.name ++ codes " \t ") ∷ number size ∷ text (codes "B\n") ∷ []))
      else if s.type == type_directory
      then pure (say (s.name ++ codes "\n"))
      else pure []

unfoldable pub ls_lines : List ℕ → Cmd Output
ls_lines [] = pure []
ls_lines (i ∷ is) = do l ← ls_line i; rest ← ls_lines is; pure (l ++ rest)

unfoldable pub ls : Cmd Output
ls c =
    (do
      wd ← cluster c.working_directory
      if subnodes_count wd == 0
          then pure []
          else do subnodes_array ← zox_fs_ls; ls_lines subnodes_array)
      c

unfoldable pub pwd : Cmd Output
pwd = do wd_name ← zox_fs_pwd_s; pure (say (wd_name ++ codes "\n"))

-- the loop of `_clustmap` from `i` on, with the rounds left
unfoldable pub clustmap_from : ℕ → ℕ → (ℕ → Cluster) → Text
clustmap_from zero i fs = if i % 80 == 1 then [] else codes "\n"
clustmap_from (suc k) i fs =
    (if (fs i).type == type_empty then codes "-" else [])
    ++ (if (fs i).type == type_file then codes "f" else [])
    ++ (if (fs i).type == type_directory then codes "d" else [])
    ++ (if ltb 0 i && i % 80 == 0 then codes "\n" else [])
    ++ clustmap_from k (suc i) fs

unfoldable pub clustmap : Cmd Output
clustmap c = done (say (clustmap_from clusters_count 0 c.fs)) c

unfoldable pub available : Cmd Output
available = do
  n ← zox_fs_free
  pure (text (codes "available space: ") ∷ number n ∷ say (codes "\n"))
