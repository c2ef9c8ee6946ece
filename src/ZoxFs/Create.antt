-- ===== src/ZoxFs/Create.antt =====
-- `create_cluster` of lab7/src/zox-fs/cluster.c, `zox_fs_mkdir` and `zox_fs_cd` of
-- lab7/src/zox-fs/zox-fs.c.
use spovm4_labs.Base.{
  ℕ, Bool, true, false, Option, none, some, List, [], ◌∷◌, ◌==◌, if◌then◌else◌, length, minus_one,
}
use spovm4_labs.Base.Text.{Text, str_eq}
use spovm4_labs.ZoxFs.Cluster.{set_subnodes_count, type_directory, type_empty}
use spovm4_labs.ZoxFs.Context.{
  Code, call_sucess, e_fs_full, e_invalid_file_name, e_not_exists, e_duplicate, Write, Cmd, pure,
  undefined, unless_null, is_null, ◌>>=◌, ◌>>◌, cluster, modify, set_working_directory,
}
use spovm4_labs.ZoxFs.Directory.{add_directory_subnode}
use spovm4_labs.ZoxFs.Lookup.{
  get_subnode, get_free_cluster, validate_file_name, copy_name, path_tokens, start_at,
  cluster_by_name, flush_cluster,
}

-- The loop of `create_cluster`: the parent and the name of the new cluster, none if a directory on
-- the way is missing.
unfoldable pub descend : ℕ → Text → List Text → Cmd (Option (ℕ × Text))
descend parent_dir name [] = pure (some (parent_dir, name))
descend parent_dir name (t ∷ ts) = do
  sub ← get_subnode parent_dir name
  unless_null sub (pure none) (λ dir. descend dir t ts)

abbrev pub is_success : Code → Bool
is_success call_sucess = true
is_success _ = false

-- `error_code = a; if (error_code != CALL_SUCESS) return error_code; return b`
abbrev pub check : Cmd Code → Cmd Code → Cmd Code
check a b = do code ← a; if is_success code then b else pure code

module _ (fwrite : List Write → Write → Bool) where
  -- from the duplicate check on; the pointer is what goes through `retval`
  unfoldable pub create_under : ℕ → Text → Cmd (Code × Option ℕ)
  create_under parent_dir name = if length name == 0 then pure (e_invalid_file_name, none) else do
    old ← get_subnode parent_dir name
    if is_null old
        then (do
          free ← get_free_cluster
          unless_null free (pure (e_fs_full, none)) λ new. (do
            modify new (λ s. record s { name = name })
            modify new (λ s. record s { type = type_empty })
            add_directory_subnode parent_dir new
            code ←
                check (flush_cluster fwrite new)
                  (check (flush_cluster fwrite parent_dir) (pure call_sucess))
            pure (code, some new)))
        else pure (e_duplicate, none)

  -- from the first `strtok` on; `strcpy(new_clust_name, NULL)` where the path has no token
  unfoldable pub create_from : ℕ → List Text → Cmd (Code × Option ℕ)
  create_from start [] = undefined
  create_from start (t ∷ ts) = do
    found ← descend start t ts
    elim found [
      | none ↦ pure (e_not_exists, none)
      | some (parent_dir, name) ↦ create_under parent_dir name
    ]

  unfoldable pub create_cluster : Text → Cmd (Code × Option ℕ)
  create_cluster path =
      if validate_file_name path then create_valid else pure (e_invalid_file_name, none)
    where
      create_valid : Cmd (Code × Option ℕ)
      create_valid = do
        copy ← copy_name path
        λ c. create_from (start_at copy c.working_directory) (path_tokens copy) c

  unfoldable pub zox_fs_mkdir : Text → Cmd Code
  zox_fs_mkdir path = do
    (code, new_dir) ← create_cluster path
    if is_success code then unless_null new_dir undefined fill else pure code
    where
      fill : ℕ → Cmd Code
      fill new = do
        modify new (λ s. record s { type = type_directory })
        modify new (λ s. set_subnodes_count s 0)
        check (flush_cluster fwrite new) (pure call_sucess)

unfoldable pub zox_fs_cd : Text → Cmd Code
zox_fs_cd path = if str_eq path (b'.' ∷ b'.' ∷ []) then go_up else go_to
  where
    go_up : Cmd Code
    go_up c =
        (do
          wd ← cluster c.working_directory
          if wd.parent == minus_one
              then pure call_sucess
              else (do cluster wd.parent; set_working_directory wd.parent; pure call_sucess))
          c

    go_to : Cmd Code
    go_to =
        if validate_file_name path
        then (do
          dir ← cluster_by_name path
          unless_null dir (pure e_not_exists) λ dir. (do
            d ← cluster dir
            if d.type == type_directory
                then (do set_working_directory dir; pure call_sucess)
                else pure e_not_exists))
        else pure e_invalid_file_name
