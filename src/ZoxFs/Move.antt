-- ===== src/ZoxFs/Move.antt =====
-- `zox_fs_mv` and `zox_fs_cp` of lab7/src/zox-fs/zox-fs.c. `stale` is what the stack holds from the
-- buffer `directory_name` on.
use spovm4_labs.Base.{ℕ, zero, suc, Bool, List, ltb, ◌==◌, if◌then◌else◌, minus_one}
use spovm4_labs.Base.Text.{Text, starts_with}
use spovm4_labs.ZoxFs.Cluster.{
  Cluster, bytes_used, set_bytes_used, next_cluster, set_next_cluster, set_file_data, type_file,
}
use spovm4_labs.ZoxFs.Context.{
  Code, call_sucess, e_fs_full, e_duplicate, e_source_not_exists, e_dest_not_exists, Write,
  clusters_count, Cmd, out_of_fuel, pure, undefined, unless_null, is_null, ◌>>=◌, ◌>>◌, cluster,
  modify,
}
use spovm4_labs.ZoxFs.Directory.{add_directory_subnode, remove_directory_subnode}
use spovm4_labs.ZoxFs.Lookup.{get_free_cluster, cluster_by_name, flush_cluster}
use spovm4_labs.ZoxFs.Paths.{to_absolute_path, split_absolute_path}
use spovm4_labs.ZoxFs.Size.{zox_fs_free, zox_fs_fsize}
use spovm4_labs.ZoxFs.Load.{used_data}

module _ (fwrite : List Write → Write → Bool) (stale : List ℕ) where
  -- from the unlinking on
  unfoldable pub relink : ℕ → ℕ → ℕ → Text → Cmd Code
  relink clust old_parent new_parent name = do
    remove_directory_subnode clust
    add_directory_subnode new_parent clust
    modify clust (λ c. record c { name = name })
    flush_cluster fwrite clust
    flush_cluster fwrite new_parent
    flush_cluster fwrite old_parent
    pure call_sucess

  unfoldable pub zox_fs_mv : Text → Text → Cmd Code
  zox_fs_mv from to = do
    source ← cluster_by_name from
    unless_null source (pure e_source_not_exists) λ clust. (do
      c ← cluster clust
      destination ← cluster_by_name to
      if is_null destination
          then (do
            to ← to_absolute_path to
            (directory_name, subnode_name) ← split_absolute_path stale to
            new_parent ← cluster_by_name directory_name
            from ← to_absolute_path from
            unless_null new_parent (pure e_dest_not_exists) λ parent.
                if starts_with to from
                then pure e_dest_not_exists
                else relink clust c.parent parent subnode_name)
          else pure e_duplicate)

  -- a new cluster filled as a copy of the block `c`
  unfoldable pub copy_block : ℕ → Cluster → Cmd (Unit {0})
  copy_block new c = do
    modify new (λ f. set_next_cluster f minus_one)
    modify new (λ f. record f { type = type_file })
    modify new (λ f. set_bytes_used f (bytes_used c))
    block ← used_data c
    modify new (λ f. set_file_data f block)

  -- `while (file_to_copy->file.next_cluster != -1)`
  unfoldable pub copy_blocks : ℕ → ℕ → ℕ → Cmd (Unit {0})
  copy_blocks zero source copy = λ _. out_of_fuel
  copy_blocks (suc k) source copy = do
    s ← cluster source
    if next_cluster s == minus_one then pure tt else do
      part ← cluster (next_cluster s)
      free ← get_free_cluster
      unless_null free undefined λ new. (do
        n ← cluster new
        modify copy (λ f. set_next_cluster f n.offset)
        copy_block new part
        flush_cluster fwrite copy
        flush_cluster fwrite new
        copy_blocks k (next_cluster s) new)

  -- from the first block on
  unfoldable pub copy_file : ℕ → ℕ → Text → Cmd Code
  copy_file source parent name = do
    s ← cluster source
    free ← get_free_cluster
    unless_null free undefined λ new. (do
      copy_block new s
      modify new (λ c. record c { name = name })
      add_directory_subnode parent new
      flush_cluster fwrite parent
      flush_cluster fwrite new
      copy_blocks (suc clusters_count) source new
      pure call_sucess)

  unfoldable pub zox_fs_cp : Text → Text → Cmd Code
  zox_fs_cp from to = do
    source ← cluster_by_name from
    unless_null source (pure e_source_not_exists) λ file. (do
      size ← zox_fs_fsize file
      free ← zox_fs_free
      if ltb free size then pure e_fs_full else do
        to ← to_absolute_path to
        (directory_name, subnode_name) ← split_absolute_path stale to
        copy_parent ← cluster_by_name directory_name
        unless_null copy_parent (pure e_dest_not_exists) λ parent. (do
          destination ← cluster_by_name to
          if is_null destination then copy_file file parent subnode_name else pure e_duplicate))
