-- ===== src/ZoxFs/Blocks/Loop.antt =====
-- The loop of `zox_fs_load_file` against that of `zox_fs_extract_file`.
use mathlib.Core.Path.{subst}
use spovm4_labs.Base.{
  length, take, drop, take-append-drop, ltb, ltb→lt, Bool-cases, minus_one, ℕ, zero, suc, ◌/◌, ◌≤◌,
  ◌<◌, ◌≡◌, refl, ap, ◌∙◌, ◌≢◌, ◌⊎◌, inl, inr, Bool, true, List, [], ◌++◌, append-nil, arith,
}
use spovm4_labs.ZoxFs.Blocks.Block.{IsBlock, filled-IsBlock}
use spovm4_labs.ZoxFs.Blocks.Bytes.{
  take-AreBytes, drop-AreBytes, length-take-drop, drop_all, room-next,
}
use spovm4_labs.ZoxFs.Blocks.Chain.{HasOffsets, Loaded, extract_blocks-last, Loaded-next}
use spovm4_labs.ZoxFs.Blocks.Round.{
  load_blocks-round, extended, extended-clust, extended-next, extended-ne, extended-count,
  extended-HasOffsets,
}
use spovm4_labs.ZoxFs.Bytes.{AreBytes}
use spovm4_labs.ZoxFs.Cluster.{file_cluster_data_size}
use spovm4_labs.ZoxFs.Context.{clusters_count, Write, Context, done}
use spovm4_labs.ZoxFs.Free.{free_from-some, free_from-pos}
use spovm4_labs.ZoxFs.Load.{load_blocks}
use spovm4_labs.ZoxFs.Size.{count_empty}

module _ (fwrite : List Write → Write → Bool) where
  -- The loop fills a chain with the bytes of the source, if there are clusters enough for it.
  pub load_blocks-Loaded :
      (k clust : ℕ) (block rest : List ℕ) (c : Context)
      → clust < clusters_count
      → HasOffsets c.fs
      → IsBlock (c.fs clust) block minus_one
      → length block ≤ file_cluster_data_size
      → AreBytes rest
      → (length block < file_cluster_data_size → rest ≡ [])
      → (length block < file_cluster_data_size)
        ⊎ (length rest / file_cluster_data_size < count_empty clusters_count 0 c.fs)
      → count_empty clusters_count 0 c.fs < k
      → (c' : Context) × (load_blocks fwrite k (length block) clust rest c ≡ done tt c')
        × Loaded c clust (block ++ rest) c'
  load_blocks-Loaded zero clust block rest c hc off b l bytes short room fuel = absurd (omega arith)
  load_blocks-Loaded (suc k) clust block rest c hc off b l bytes short room fuel =
      elim (Bool-cases (ltb (length block) file_cluster_data_size)) [
        | inl small ↦ (c, stops small, stop small)
        | inr full ↦
            let long : file_cluster_data_size ≤ length block = ground arith in
            let more : length rest / file_cluster_data_size < count_empty clusters_count 0 c.fs =
              omega arith in
            let (j, e) = free_from-pos clusters_count 0 c.fs (omega arith) in
            let (_, hj, free) = free_from-some clusters_count 0 c.fs j e in
            let ne : j ≢ clust =
              λ q. absurd (omega (arith, b.typed, ap (λ a. (c.fs a).type) q, free)) in
            let block' = take file_cluster_data_size rest in
            let rest' = drop file_cluster_data_size rest in
            let (ws, round) =
              load_blocks-round fwrite k (length block) clust j rest c long hc hj ne e in
            let c₁ : Context = record c { fs_file = ws; fs = extended c.fs clust j block' } in
            let fewer = extended-count c.fs clust j block' ne hj free in
            let cut = length-take-drop file_cluster_data_size rest in
            let (c', run, loaded) =
              load_blocks-Loaded k j block' rest' c₁ hj
                (extended-HasOffsets c.fs clust j block' off)
                (rw (extended-next c.fs clust j block' ne) (
                  filled-IsBlock (c.fs j) block' (take-AreBytes file_cluster_data_size rest bytes)
                    (omega arith)))
                (omega arith) (drop-AreBytes file_cluster_data_size rest bytes)
                (λ h. drop_all file_cluster_data_size rest (omega arith))
                (room-next (length rest) (length block') (length rest') _ _ cut.0 cut.1 more fewer)
                (omega arith) in
            (
              c',
              round ∙ run,
              subst (λ bs. Loaded c clust (block ++ bs) c')
                  (take-append-drop file_cluster_data_size rest)
                  (Loaded-next clust j block (block' ++ rest') c c₁ c' hc hj ne l free
                    (extended-clust c.fs clust j block block' hj (off j hj) b)
                    (λ i n n'. extended-ne c.fs clust j i block' n n') fewer refl loaded),
            )
      ]
    where
      stops :
          ltb (length block) file_cluster_data_size ≡ true
          → load_blocks fwrite (suc k) (length block) clust rest c ≡ done tt c
      stops small = unfold load_blocks in rw small

      stop : ltb (length block) file_cluster_data_size ≡ true → Loaded c clust (block ++ rest) c
      stop small = record {
        chain = λ m h.
            rw (short (ltb→lt _ _ small), append-nil)
              (extract_blocks-last m clust block c hc l b (omega arith));
        kept = λ i hi t n. refl;
        offsets = off;
        same_directory = refl;
      }
