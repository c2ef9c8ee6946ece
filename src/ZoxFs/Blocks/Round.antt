-- ===== src/ZoxFs/Blocks/Round.antt =====
-- One round of the loop of `zox_fs_load_file`.
use spovm4_labs.Base.{
  length, take, drop, le→ltb, minus_one, ℕ, suc, ◌≤◌, ◌<◌, ◌≡◌, sym, ap, ◌∙◌, ◌≢◌, Bool, some, List,
  arith,
}
use spovm4_labs.ZoxFs.Blocks.Block.{IsBlock, filled, set_next-IsBlock}
use spovm4_labs.ZoxFs.Blocks.Chain.{HasOffsets}
use spovm4_labs.ZoxFs.Cluster.{
  Cluster, file_cluster_data_size, type_file, type_empty, set_bytes_used, set_next_cluster,
  set_file_data,
}
use spovm4_labs.ZoxFs.Context.{clusters_count, Write, Context, put}
use spovm4_labs.ZoxFs.Free.{count_empty-put, count_empty-put_same}
use spovm4_labs.ZoxFs.Load.{load_blocks}
use spovm4_labs.ZoxFs.Lookup.{free_from, get_free_cluster}
use spovm4_labs.ZoxFs.Size.{count_empty}
use spovm4_labs.ZoxFs.Steps.{
  put_self, put-ne, cluster-done, modify-done, modify-again, modify-under, flush_cluster-done,
}

module _ (fwrite : List Write → Write → Bool) where
  -- One round: the free cluster `j` gets the next block, and `clust` points to it.
  pub load_blocks-round :
      (k n clust j : ℕ) (rest : List ℕ) (c : Context)
      → file_cluster_data_size ≤ n
      → clust < clusters_count
      → j < clusters_count
      → j ≢ clust
      → free_from clusters_count 0 c.fs ≡ some j
      → (ws : List Write) × (load_blocks fwrite (suc k) n clust rest c
          ≡ load_blocks fwrite k
              (length (take file_cluster_data_size rest))
              j
              (drop file_cluster_data_size rest)
              (record c {
                fs_file = ws;
                fs =
                    put
                      (put c.fs j (filled (c.fs j) (take file_cluster_data_size rest)))
                      clust
                      (set_next_cluster (c.fs clust) (c.fs j).offset);
              }))
  unfolding load_blocks get_free_cluster set_next_cluster
  load_blocks-round k n clust j rest c hn hc hj ne e =
      let block = take file_cluster_data_size rest in
      let typed = record (c.fs j) { type = type_file } in
      let pointed = set_next_cluster typed minus_one in
      let held = set_file_data pointed block in
      let w = set_next_cluster (c.fs clust) (c.fs j).offset in
      let x : Context = record c {
        fs = put (put c.fs j (set_bytes_used held (length block))) clust w;
      } in
      let f = flush_cluster-done fwrite clust x hc in
      let x' : Context = record x { fs_file = f.1 } in
      let g = flush_cluster-done fwrite j x' hj in
      (
        g.1,
        rw (
          le→ltb n file_cluster_data_size hn,
          e,
          modify-done j (λ s. record s { type = type_file }) c hj,
          modify-again j (λ s. set_next_cluster s minus_one) c c.fs typed hj,
          cluster-done j (record c { fs = put c.fs j pointed }) hj,
          put_self c.fs j pointed,
          modify-done clust (λ s. set_next_cluster s (c.fs j).offset)
              (record c { fs = put c.fs j pointed }) hc,
          put-ne c.fs j clust pointed (λ q. ne (sym q)),
          modify-under j clust (λ s. set_file_data s block) c c.fs pointed w hj ne,
          modify-under j clust (λ s. set_bytes_used s (length block)) c c.fs held w hj ne,
          f.2,
          g.2,
        ),
      )

-- The clusters after a round of the loop.
abbrev pub extended : (ℕ → Cluster) → ℕ → ℕ → List ℕ → ℕ → Cluster
extended fs clust j block =
    put (put fs j (filled (fs j) block)) clust (set_next_cluster (fs clust) (fs j).offset)

pub extended-clust :
    (fs : ℕ → Cluster) (clust j : ℕ) (old block : List ℕ)
    → j < clusters_count
    → (fs j).offset ≡ j
    → IsBlock (fs clust) old minus_one
    → IsBlock (extended fs clust j block clust) old j
extended-clust fs clust j old block hj off b =
    rw
      (
        put_self (put fs j (filled (fs j) block)) clust (set_next_cluster (fs clust) (fs j).offset),
        off,
      )
      (set_next-IsBlock (fs clust) old minus_one j (omega arith) b)

pub extended-next :
    (fs : ℕ → Cluster) (clust j : ℕ) (block : List ℕ)
    → j ≢ clust
    → extended fs clust j block j ≡ filled (fs j) block
extended-next fs clust j block ne =
    put-ne (put fs j (filled (fs j) block)) clust j (set_next_cluster (fs clust) (fs j).offset) ne
    ∙ put_self fs j (filled (fs j) block)

pub extended-ne :
    (fs : ℕ → Cluster) (clust j i : ℕ) (block : List ℕ)
    → i ≢ clust
    → i ≢ j
    → extended fs clust j block i ≡ fs i
extended-ne fs clust j i block n n' =
    put-ne (put fs j (filled (fs j) block)) clust i (set_next_cluster (fs clust) (fs j).offset) n
    ∙ put-ne fs j i (filled (fs j) block) n'

pub extended-count :
    (fs : ℕ → Cluster) (clust j : ℕ) (block : List ℕ)
    → j ≢ clust
    → j < clusters_count
    → (fs j).type ≡ type_empty
    → count_empty clusters_count 0 fs
      ≡ suc (count_empty clusters_count 0 (extended fs clust j block))
unfolding set_bytes_used set_file_data set_next_cluster
extended-count fs clust j block ne hj free =
    let put₁ = put fs j (filled (fs j) block) in
    omega (
      arith,
      count_empty-put clusters_count 0 fs j (filled (fs j) block),
      count_empty-put_same clusters_count 0 put₁ clust (set_next_cluster (fs clust) (fs j).offset) (
          ap (λ (s : Cluster). s.type)
            (sym (put-ne fs j clust (filled (fs j) block) (λ e. ne (sym e))))),
    )

pub extended-HasOffsets :
    (fs : ℕ → Cluster) (clust j : ℕ) (block : List ℕ)
    → HasOffsets fs
    → HasOffsets (extended fs clust j block)
unfolding set_bytes_used set_file_data set_next_cluster
extended-HasOffsets fs clust j block off i hi = ground (arith, off i hi)
