-- ===== src/ZoxFs/Remove.antt =====
-- `_zox_fs_rm` and `zox_fs_rm_s` of lab7/src/zox-fs/zox-fs.c.
use spovm4_labs.Base.{ℕ, zero, suc, ◌+◌, ◌*◌, Bool, List, [], ◌∷◌, ◌==◌, if◌then◌else◌, minus_one}
use spovm4_labs.Base.Text.{Text, str_eq, starts_with}
use spovm4_labs.ZoxFs.Cluster.{
  subnodes_count, subnode, next_cluster, type_directory, type_file, type_empty,
}
use spovm4_labs.ZoxFs.Context.{
  Code, call_sucess, e_invalid_file_name, e_not_exists, Write, clusters_count, Cmd, out_of_fuel,
  pure, unless_null, ◌>>=◌, ◌>>◌, cluster, modify,
}
use spovm4_labs.ZoxFs.Directory.{remove_directory_subnode}
use spovm4_labs.ZoxFs.Lookup.{cluster_by_name, flush_cluster}
use spovm4_labs.ZoxFs.Paths.{zox_fs_pwd_s, to_absolute_path}

module _ (fwrite : List Write → Write → Bool) where
  -- `while (next_part != -1)`
  unfoldable pub empty_chain : ℕ → ℕ → Cmd (Unit {0})
  empty_chain zero next_part = λ _. out_of_fuel
  empty_chain (suc k) next_part = if next_part == minus_one then pure tt else do
    t ← cluster next_part
    modify next_part (λ s. record s { type = type_empty })
    flush_cluster fwrite next_part
    empty_chain k (next_cluster t)

  -- what is done for a file before its first cluster is unlinked
  unfoldable pub empty_parts : ℕ → Cmd (Unit {0})
  empty_parts i = do
    c ← cluster i
    let next_part = next_cluster c
    if next_part == minus_one then pure tt else do
      modify i (λ s. record s { type = type_empty })
      flush_cluster fwrite i
      empty_chain (suc clusters_count) next_part

  -- from `clust_to_delete->type = CLUSTER_TYPE_EMPTY` on
  unfoldable pub unlink : ℕ → Cmd Code
  unlink i = do
    modify i (λ s. record s { type = type_empty })
    c ← cluster i
    remove_directory_subnode i
    flush_cluster fwrite i
    flush_cluster fwrite c.parent
    pure call_sucess

  unfoldable mutual
    pub rm : ℕ → ℕ → Cmd Code
    rm zero i = λ _. out_of_fuel
    rm (suc n) i = do
      c ← cluster i
      if c.type == type_empty then pure call_sucess else do
        if c.type == type_directory then rm_subnodes n i else pure tt
        if c.type == type_file then empty_parts i else pure tt
        unlink i

    -- `while (subnodes_count != 0)`
    pub rm_subnodes : ℕ → ℕ → Cmd (Unit {0})
    rm_subnodes zero i = λ _. out_of_fuel
    rm_subnodes (suc n) i = do
      c ← cluster i
      if subnodes_count c == 0 then pure tt else do rm n (subnode c 0); rm_subnodes n i

  -- Each of at most `clusters_count` clusters is removed in two steps of a loop.
  abbrev pub rm_fuel : ℕ
  rm_fuel = 2 * clusters_count + 2

  -- the code, and the new contents of `file_to_delete`
  unfoldable pub zox_fs_rm_s : Text → Cmd (Code × Text)
  zox_fs_rm_s file = if str_eq file (b'/' ∷ []) then pure (e_invalid_file_name, file) else do
    wd ← zox_fs_pwd_s
    file ← to_absolute_path file
    if starts_with wd file then pure (e_invalid_file_name, file) else do
      clust ← cluster_by_name file
      unless_null clust (pure (e_not_exists, file)) (λ i. do rm rm_fuel i; pure (call_sucess, file))
