-- ===== src/ZoxFs/Blocks/Whole.antt =====
-- `load_into`, the part of `zox_fs_load_file` from the first block on.
use mathlib.Core.Path.{subst}
use spovm4_labs.Base.{
  length, take, drop, take-append-drop, ltb, Bool-cases, minus_one, ℕ, suc, ◌*◌, ◌≤◌, ◌<◌, ◌≡◌,
  refl, sym, ap, ◌∙◌, ◌≢◌, inl, inr, Bool, List, arith,
}
use spovm4_labs.ZoxFs.Blocks.Block.{IsBlock}
use spovm4_labs.ZoxFs.Blocks.Bytes.{
  take-AreBytes, drop-AreBytes, length-take-drop, drop_all, room-next,
}
use spovm4_labs.ZoxFs.Blocks.Chain.{HasOffsets}
use spovm4_labs.ZoxFs.Blocks.Loop.{load_blocks-Loaded}
use spovm4_labs.ZoxFs.Bytes.{AreBytes}
use spovm4_labs.ZoxFs.Cluster.{
  Cluster, file_cluster_data_size, type_file, type_empty, set_bytes_used, set_next_cluster,
  set_file_data,
}
use spovm4_labs.ZoxFs.Context.{call_sucess, clusters_count, Write, Context, done, pure, ◌>>◌, put}
use spovm4_labs.ZoxFs.Fields.{
  next-set_next, used-set_next, data-set_next, used-set_used, data-set_used, data-set_data,
}
use spovm4_labs.ZoxFs.Free.{count_empty-put, count_empty-le}
use spovm4_labs.ZoxFs.Load.{load_blocks, load_into, extract_blocks}
use spovm4_labs.ZoxFs.Size.{count_empty}
use spovm4_labs.ZoxFs.Steps.{put_self, put-ne, modify-done, modify-again, flush_cluster-done}

-- what `load_into` makes of the cluster that `create_cluster` gave it
abbrev pub first_block : Cluster → List ℕ → Cluster
first_block s bs =
    set_next_cluster (set_bytes_used (set_file_data (record s { type = type_file }) bs) (length bs))
      minus_one

pub first_block-typed : (s : Cluster) (bs : List ℕ) → (first_block s bs).type ≡ type_file
unfolding set_bytes_used set_file_data set_next_cluster
first_block-typed s bs = refl

first_block-IsBlock :
    (s : Cluster) (bs : List ℕ)
    → AreBytes bs
    → length bs ≤ file_cluster_data_size
    → IsBlock (first_block s bs) bs minus_one
first_block-IsBlock s bs h l =
    let typed = record s { type = type_file } in
    let held = set_file_data typed bs in
    let used = set_bytes_used held (length bs) in
    record {
      typed = unfold set_bytes_used set_file_data set_next_cluster in refl;
      pointed = next-set_next used minus_one (omega arith);
      used = used-set_next used minus_one ∙ used-set_used held (length bs) (omega arith);
      held =
          data-set_next used minus_one (length bs)
          ∙ data-set_used held (length bs) (length bs)
          ∙ data-set_data typed bs h;
    }

first_block-HasOffsets :
    (fs : ℕ → Cluster) (clust : ℕ) (bs : List ℕ)
    → HasOffsets fs
    → HasOffsets (put fs clust (first_block (fs clust) bs))
unfolding set_bytes_used set_file_data set_next_cluster
first_block-HasOffsets fs clust bs off i hi = ground (arith, off i hi)

module _ (fwrite : List Write → Write → Bool) where
  -- up to the loop
  pub load_into-first :
      (clust : ℕ) (source : List ℕ) (c : Context)
      → clust < clusters_count
      → (ws : List Write) × (load_into fwrite clust source c
          ≡ (load_blocks fwrite
                  (suc clusters_count)
                  (length (take file_cluster_data_size source))
                  clust
                  (drop file_cluster_data_size source)
                >> pure call_sucess)
              (record c {
                fs_file = ws;
                fs = put c.fs clust (first_block (c.fs clust) (take file_cluster_data_size source));
              }))
  unfolding load_into
  load_into-first clust source c hc =
      let block = take file_cluster_data_size source in
      let typed = record (c.fs clust) { type = type_file } in
      let held = set_file_data typed block in
      let used = set_bytes_used held (length block) in
      let x : Context = record c { fs = put c.fs clust (set_next_cluster used minus_one) } in
      let f = flush_cluster-done fwrite clust x hc in
      elim (Bool-cases (ltb (length block) file_cluster_data_size)) [
        | inl small ↦ (
          f.1,
          rw (
            modify-done clust (λ s. record s { type = type_file }) c hc,
            modify-again clust (λ s. set_file_data s block) c c.fs typed hc,
            modify-again clust (λ s. set_bytes_used s (length block)) c c.fs held hc,
            modify-again clust (λ s. set_next_cluster s minus_one) c c.fs used hc,
            small,
            f.2,
          ),
        )
        | inr full ↦ (
          c.fs_file,
          rw (
            modify-done clust (λ s. record s { type = type_file }) c hc,
            modify-again clust (λ s. set_file_data s block) c c.fs typed hc,
            modify-again clust (λ s. set_bytes_used s (length block)) c c.fs held hc,
            modify-again clust (λ s. set_next_cluster s minus_one) c c.fs used hc,
            full,
          ),
        )
      ]

  -- Where a source of bytes is shorter than what the free clusters hold, load_into succeeds on an
  -- empty cluster, extract_blocks then reads exactly these bytes back, and every cluster that was
  -- not empty is as before.
  pub load_into-extract :
      (clust : ℕ) (source : List ℕ) (c : Context)
      → clust < clusters_count
      → HasOffsets c.fs
      → (c.fs clust).type ≡ type_empty
      → AreBytes source
      → length source < count_empty clusters_count 0 c.fs * file_cluster_data_size
      → (c' : Context) × (load_into fwrite clust source c ≡ done call_sucess c')
        × (extract_blocks (suc clusters_count) clust c' ≡ done source c')
        × ((i : ℕ) → i < clusters_count → (c.fs i).type ≢ type_empty → c'.fs i ≡ c.fs i)
  load_into-extract clust source c hc off free bytes room =
      let (ws, first) = load_into-first clust source c hc in
      let block = take file_cluster_data_size source in
      let rest = drop file_cluster_data_size source in
      let v = first_block (c.fs clust) block in
      let x : Context = record c { fs_file = ws; fs = put c.fs clust v } in
      let cut = length-take-drop file_cluster_data_size source in
      let b =
        first_block-IsBlock (c.fs clust) block (take-AreBytes file_cluster_data_size source bytes)
          (omega arith) in
      let used : v.type ≢ type_empty = λ e. absurd (omega (arith, b.typed)) in
      let fewer = count_empty-put clusters_count 0 c.fs clust v (omega arith) hc free used in
      let enough : count_empty clusters_count 0 x.fs < suc clusters_count =
        omega (arith, count_empty-le clusters_count 0 x.fs) in
      let (c', run, loaded) =
        load_blocks-Loaded fwrite (suc clusters_count) clust block rest x hc
          (first_block-HasOffsets c.fs clust block off) (rw (put_self c.fs clust v) b) (omega arith)
          (drop-AreBytes file_cluster_data_size source bytes)
          (λ h. drop_all file_cluster_data_size source (omega arith))
          (room-next (length source) (length block) (length rest) _ _ cut.0 cut.1 (omega arith)
            fewer)
          enough in
      (
        c',
        first ∙ rw run refl,
        subst (λ bs. extract_blocks (suc clusters_count) clust c' ≡ done bs c')
            (take-append-drop file_cluster_data_size source)
            (loaded.chain (suc clusters_count) enough),
        λ i hi t.
            let ne : i ≢ clust = λ e. t (subst (λ a. (c.fs a).type ≡ type_empty) (sym e) free) in
            let same = put-ne c.fs clust i v ne in
            loaded.kept i hi (λ e. t (ap (λ (s : Cluster). s.type) (sym same) ∙ e)) ne ∙ same,
      )
