-- ===== src/ZoxFs/Size.antt =====
-- `zox_fs_free`, `zox_fs_fsize` and `zox_fs_ls` of lab7/src/zox-fs/zox-fs.c.
use spovm4_labs.Base.{
  ℕ, zero, suc, ◌+◌, ◌*◌, ◌%◌, none, some, List, [], ◌∷◌, ◌==◌, if◌then◌else◌, rounds, minus_one,
  word_size,
}
use spovm4_labs.ZoxFs.Cluster.{
  Cluster, subnodes_count, bytes_used, next_cluster, type_empty, file_cluster_data_size,
}
use spovm4_labs.ZoxFs.Context.{
  clusters_count, Cmd, done, out_of_fuel, pure, undefined, ◌>>=◌, ◌>>◌, cluster,
}
use spovm4_labs.ZoxFs.Directory.{fetch_subnode}

unfoldable pub count_empty : ℕ → ℕ → (ℕ → Cluster) → ℕ
count_empty zero i fs = 0
count_empty (suc k) i fs = (if (fs i).type == type_empty then 1 else 0) + count_empty k (suc i) fs

unfoldable pub zox_fs_free : Cmd ℕ
zox_fs_free c = done (count_empty clusters_count 0 c.fs * file_cluster_data_size) c

-- No chain without a cycle is longer than `clusters_count`.
unfoldable pub fsize_loop : ℕ → ℕ → ℕ → Cmd ℕ
fsize_loop zero clusters_used file = λ _. out_of_fuel
fsize_loop (suc k) clusters_used file = do
  c ← cluster file
  if next_cluster c == minus_one
      then pure ((clusters_used * file_cluster_data_size + bytes_used c) % word_size)
      else fsize_loop k (suc clusters_used) (next_cluster c)

unfoldable pub zox_fs_fsize : ℕ → Cmd ℕ
zox_fs_fsize file = fsize_loop (suc clusters_count) 0 file

-- the entries of the directory `wd` from the `i`-th on
unfoldable pub ls_from : ℕ → ℕ → ℕ → Cmd (List ℕ)
ls_from zero i wd = pure []
ls_from (suc k) i wd = do
  d ← cluster wd
  elim (fetch_subnode i d) [
    | none ↦ undefined
    | some o ↦ (do cluster o; rest ← ls_from k (suc i) wd; pure (o ∷ rest))
  ]

-- The array that is filled.
unfoldable pub zox_fs_ls : Cmd (List ℕ)
zox_fs_ls c =
    (do d ← cluster c.working_directory; ls_from (rounds (subnodes_count d)) 0 c.working_directory)
      c
