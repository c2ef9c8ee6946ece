-- ===== src/ZoxFs/Blocks/Overflow.antt =====
-- A source that fills the free clusters to the last byte: the loop of `zox_fs_load_file` wants one
-- more cluster and writes through NULL.
use mathlib.Core.Path.{subst}
use spovm4_labs.Base.{
  length, take, drop, ◌==◌, le→ltb, Bool-cases, ℕ, zero, suc, ◌*◌, ◌≤◌, ◌<◌, ◌≡◌, refl, ◌∙◌, ◌≢◌,
  inl, inr, Bool, none, List, arith,
}
use spovm4_labs.ZoxFs.Blocks.Block.{filled}
use spovm4_labs.ZoxFs.Blocks.Bytes.{length-take-drop}
use spovm4_labs.ZoxFs.Blocks.Round.{load_blocks-round, extended, extended-next, extended-count}
use spovm4_labs.ZoxFs.Blocks.Whole.{first_block, first_block-typed, load_into-first}
use spovm4_labs.ZoxFs.Cluster.{
  Cluster, file_cluster_data_size, type_file, type_empty, set_bytes_used, set_next_cluster,
  set_file_data,
}
use spovm4_labs.ZoxFs.Context.{clusters_count, Write, Context, fault, put}
use spovm4_labs.ZoxFs.Free.{free_from-some, free_from-pos, count_empty-put, count_empty-le}
use spovm4_labs.ZoxFs.Load.{load_blocks, load_into}
use spovm4_labs.ZoxFs.Lookup.{free_from, get_free_cluster}
use spovm4_labs.ZoxFs.Size.{count_empty}
use spovm4_labs.ZoxFs.Steps.{put_self}

filled-typed : (s : Cluster) (bs : List ℕ) → (filled s bs).type ≡ type_file
unfolding set_bytes_used set_file_data set_next_cluster
filled-typed s bs = refl

pub free_from-eq-none :
    (k i : ℕ) (fs : ℕ → Cluster) → count_empty k i fs ≡ 0 → free_from k i fs ≡ none
unfolding free_from count_empty
free_from-eq-none zero i fs h = refl
free_from-eq-none (suc k) i fs h = ground (arith, free_from-eq-none k (suc i) fs)

module _ (fwrite : List Write → Write → Bool) where
  load_blocks-stuck :
      (k n clust : ℕ) (rest : List ℕ) (c : Context)
      → file_cluster_data_size ≤ n
      → free_from clusters_count 0 c.fs ≡ none
      → load_blocks fwrite (suc k) n clust rest c ≡ fault
  unfolding load_blocks get_free_cluster
  load_blocks-stuck k n clust rest c h e = rw (le→ltb n file_cluster_data_size h, e)

  load_blocks-fault :
      (k n clust : ℕ) (rest : List ℕ) (c : Context)
      → clust < clusters_count
      → (c.fs clust).type ≢ type_empty
      → file_cluster_data_size ≤ n
      → length rest ≡ count_empty clusters_count 0 c.fs * file_cluster_data_size
      → count_empty clusters_count 0 c.fs < k
      → load_blocks fwrite k n clust rest c ≡ fault
  load_blocks-fault zero n clust rest c hc t hn full fuel = absurd (omega arith)
  load_blocks-fault (suc k) n clust rest c hc t hn full fuel =
      elim (Bool-cases (count_empty clusters_count 0 c.fs == 0)) [
        | inl none_left ↦
            load_blocks-stuck k n clust rest c hn
              (free_from-eq-none clusters_count 0 c.fs (ground arith))
        | inr some_left ↦
            let (j, e) = free_from-pos clusters_count 0 c.fs (ground arith) in
            let (_, hj, free) = free_from-some clusters_count 0 c.fs j e in
            let ne : j ≢ clust = λ q. t (subst (λ a. (c.fs a).type ≡ type_empty) q free) in
            let block = take file_cluster_data_size rest in
            let (ws, round) = load_blocks-round fwrite k n clust j rest c hn hc hj ne e in
            let c₁ : Context = record c { fs_file = ws; fs = extended c.fs clust j block } in
            let fewer = extended-count c.fs clust j block ne hj free in
            let cut = length-take-drop file_cluster_data_size rest in
            round
            ∙ load_blocks-fault k (length block) j (drop file_cluster_data_size rest) c₁ hj
                (rw (extended-next c.fs clust j block ne, filled-typed (c.fs j) block)
                  (omega arith))
                (omega arith) (omega arith) (omega arith)
      ]

  -- A source exactly as large as the free clusters makes load_into, on an empty cluster, fault on
  -- the NULL of get_free_cluster.
  pub load_into-fault :
      (clust : ℕ) (source : List ℕ) (c : Context)
      → clust < clusters_count
      → (c.fs clust).type ≡ type_empty
      → length source ≡ count_empty clusters_count 0 c.fs * file_cluster_data_size
      → load_into fwrite clust source c ≡ fault
  load_into-fault clust source c hc free full =
      let (ws, first) = load_into-first fwrite clust source c hc in
      let block = take file_cluster_data_size source in
      let v = first_block (c.fs clust) block in
      let x : Context = record c { fs_file = ws; fs = put c.fs clust v } in
      let cut = length-take-drop file_cluster_data_size source in
      let typed = first_block-typed (c.fs clust) block in
      let used : v.type ≢ type_empty = λ e. absurd (omega (arith, typed)) in
      let fewer = count_empty-put clusters_count 0 c.fs clust v (omega arith) hc free used in
      let run =
        load_blocks-fault (suc clusters_count) (length block) clust
          (drop file_cluster_data_size source) x hc
          (rw (put_self c.fs clust v, typed) (omega arith)) (omega arith) (omega arith)
          (omega (arith, count_empty-le clusters_count 0 x.fs)) in
      first ∙ rw run refl
