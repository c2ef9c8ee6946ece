-- ===== src/ZoxFs/Lookup.antt =====
-- `get_subnode`, `get_free_cluster`, `validate_file_name`, `flush_cluster` and `cluster_by_name`
-- of lab7/src/zox-fs/cluster.c.
use spovm4_labs.Base.{
  ℕ, zero, suc, ◌*◌, ◌%◌, Bool, false, not, ◌&&◌, Option, none, some, List, [], ◌∷◌, ltb, ◌==◌,
  if◌then◌else◌, length, rounds, word_size,
}
use spovm4_labs.Base.Text.{Text, str_eq, has_text, strtok}
use spovm4_labs.ZoxFs.Cluster.{
  Cluster, subnodes_count, type_directory, type_empty, cluster_size, max_name_length,
}
use spovm4_labs.ZoxFs.Context.{
  Code, call_sucess, e_flush_error, Write, clusters_count, Cmd, done, pure, undefined, unless_null,
  ◌>>=◌, cluster,
}
use spovm4_labs.ZoxFs.Directory.{fetch_subnode}

-- the loop of `get_subnode` from entry `i` on, with the rounds left
unfoldable pub find_subnode : ℕ → ℕ → ℕ → Text → Cmd (Option ℕ)
find_subnode zero i directory name = pure none
find_subnode (suc k) i directory name = do
  d ← cluster directory
  elim (fetch_subnode i d) [
    | none ↦ undefined
    | some offset ↦ (do
      s ← cluster offset
      if str_eq s.name name then pure (some offset) else find_subnode k (suc i) directory name)
  ]

unfoldable pub get_subnode : ℕ → Text → Cmd (Option ℕ)
get_subnode directory name = do
  d ← cluster directory
  if d.type == type_directory
      then find_subnode (rounds (subnodes_count d)) 0 directory name
      else pure none

unfoldable pub free_from : ℕ → ℕ → (ℕ → Cluster) → Option ℕ
free_from zero i fs = none
free_from (suc k) i fs = if (fs i).type == type_empty then some i else free_from k (suc i) fs

unfoldable pub get_free_cluster : Cmd (Option ℕ)
get_free_cluster c = done (free_from clusters_count 0 c.fs) c

-- `".."` and `" "`
unfoldable pub validate_file_name : Text → Bool
validate_file_name name =
    not (length name == 0)
    && (not (has_text name (b'.' ∷ b'.' ∷ [])) && not (has_text name (b' ' ∷ [])))

-- `strcpy` of a text into a buffer of MAX_NAME_LENGTH bytes
abbrev pub copy_name : Text → Cmd Text
copy_name s = if ltb (length s) max_name_length then pure s else undefined

abbrev pub is_absolute : Text → Bool
is_absolute [] = false
is_absolute (c ∷ s) = c == b'/'

-- the tokens of a path, its first slash taken off
unfoldable pub path_tokens : Text → List Text
path_tokens [] = strtok b'/' []
path_tokens (c ∷ s) = if c == b'/' then strtok b'/' s else strtok b'/' (c ∷ s)

abbrev pub start_at : Text → ℕ → ℕ
start_at path wd = if is_absolute path then 0 else wd

unfoldable pub walk : ℕ → List Text → Cmd (Option ℕ)
walk file [] = pure (some file)
walk file (t ∷ ts) = do sub ← get_subnode file t; unless_null sub (pure none) (λ file. walk file ts)

unfoldable pub cluster_by_name : Text → Cmd (Option ℕ)
cluster_by_name name = if validate_file_name name then by_valid_name else pure none
  where
    by_valid_name : Cmd (Option ℕ)
    by_valid_name = do
      path ← copy_name name
      λ c. walk (start_at path c.working_directory) (path_tokens path) c

-- `fwrite`: whether this write succeeds after those that did; a failed one changes nothing.
module _ (fwrite : List Write → Write → Bool) where
  unfoldable pub flush_cluster : ℕ → Cmd Code
  flush_cluster i = do
    b ← cluster i
    λ c.
        let w : Write = record { position = b.offset * cluster_size % word_size; block = b } in
        if fwrite c.fs_file w
        then done call_sucess (record c { fs_file = w ∷ c.fs_file })
        else done e_flush_error c
