-- ===== src/ZoxFs/Load.antt =====
-- `zox_fs_load_file` and `zox_fs_extract_file` of lab7/src/zox-fs/zox-fs.c. A host file is the list
-- of its bytes.
use spovm4_labs.Base.{
  ℕ, zero, suc, ◌+◌, ◌%◌, Bool, true, false, Option, none, some, List, [], ◌++◌, ltb, leb, ◌==◌,
  if◌then◌else◌, length, take, drop, minus_one, word_size,
}
use spovm4_labs.Base.Text.{Text}
use spovm4_labs.ZoxFs.Cluster.{
  Cluster, bytes_used, set_bytes_used, next_cluster, set_next_cluster, file_data, set_file_data,
  type_file, file_cluster_data_size,
}
use spovm4_labs.ZoxFs.Context.{
  Code, call_sucess, e_fs_full, e_open_file, e_not_exists, Write, clusters_count, Cmd, out_of_fuel,
  pure, undefined, unless_null, ◌>>=◌, ◌>>◌, cluster, modify,
}
use spovm4_labs.ZoxFs.Lookup.{get_free_cluster, cluster_by_name, flush_cluster}
use spovm4_labs.ZoxFs.Create.{create_cluster, is_success}
use spovm4_labs.ZoxFs.Size.{zox_fs_free, zox_fs_fsize}
use spovm4_labs.ZoxFs.Remove.{zox_fs_rm_s}

module _ (fwrite : List Write → Write → Bool) where
  -- `while (bytes_read >= FILE_CLUSTER_DATA_SIZE)`, with the cluster last filled and the bytes of
  -- the source that follow. A round takes a free cluster, so there are at most `clusters_count`.
  unfoldable pub load_blocks : ℕ → ℕ → ℕ → List ℕ → Cmd (Unit {0})
  load_blocks zero bytes_read clust rest = λ _. out_of_fuel
  load_blocks (suc k) bytes_read clust rest =
      if ltb bytes_read file_cluster_data_size then pure tt else do
        free ← get_free_cluster
        unless_null free undefined λ next_part. (do
          modify next_part (λ c. record c { type = type_file })
          modify next_part (λ c. set_next_cluster c minus_one)
          n ← cluster next_part
          modify clust (λ c. set_next_cluster c n.offset)
          let block = take file_cluster_data_size rest
          modify next_part (λ c. set_file_data c block)
          modify next_part (λ c. set_bytes_used c (length block))
          flush_cluster fwrite clust
          flush_cluster fwrite next_part
          load_blocks k (length block) next_part (drop file_cluster_data_size rest))

  -- from the first block on
  unfoldable pub load_into : ℕ → List ℕ → Cmd Code
  load_into clust source = do
    modify clust (λ c. record c { type = type_file })
    let block = take file_cluster_data_size source
    modify clust (λ c. set_file_data c block)
    modify clust (λ c. set_bytes_used c (length block))
    modify clust (λ c. set_next_cluster c minus_one)
    if ltb (length block) file_cluster_data_size
        then flush_cluster fwrite clust >> pure tt
        else pure tt
    load_blocks (suc clusters_count) (length block) clust (drop file_cluster_data_size source)
    pure call_sucess

  -- `source` is none if `fopen` fails
  unfoldable pub zox_fs_load_file : Option (List ℕ) → Text → Cmd Code
  zox_fs_load_file none destination = pure e_open_file
  zox_fs_load_file (some source) destination = do
    old ← cluster_by_name destination
    free ← zox_fs_free
    reused ← unless_null old (pure 0) zox_fs_fsize
    if ltb ((free + reused) % word_size) (length source) then pure e_fs_full else (do
      destination ←
          unless_null old (pure destination)
            λ _. (do (_, path) ← zox_fs_rm_s fwrite destination; pure path)
      (code, new) ← create_cluster fwrite destination
      if is_success code
          then unless_null new undefined (λ clust. load_into clust source)
          else pure code)

-- the bytes of `file.data` that `fwrite` or a copy reads, a fault past the cluster's end
unfoldable pub used_data : Cluster → Cmd (List ℕ)
used_data c =
    if leb (bytes_used c) file_cluster_data_size
    then pure (file_data c (bytes_used c))
    else undefined

-- the bytes written out from a cluster on
unfoldable pub extract_blocks : ℕ → ℕ → Cmd (List ℕ)
extract_blocks zero clust = λ _. out_of_fuel
extract_blocks (suc k) clust = do
  c ← cluster clust
  block ← used_data c
  if next_cluster c == minus_one
      then pure block
      else do rest ← extract_blocks k (next_cluster c); pure (block ++ rest)

-- the code, and the bytes written to the destination, which `fopen` opens or does not
unfoldable pub zox_fs_extract_file : Text → Bool → Cmd (Code × List ℕ)
zox_fs_extract_file source false = pure (e_open_file, [])
zox_fs_extract_file source true = do
  clust ← cluster_by_name source
  unless_null clust (pure (e_not_exists, []))
      λ i. (do bytes ← extract_blocks (suc clusters_count) i; pure (call_sucess, bytes))
