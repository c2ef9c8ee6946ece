-- ===== src/ZoxFs/Blocks/Chain.antt =====
-- A file's chain of clusters, as `extract_blocks` follows it.
use mathlib.Core.Path.{subst}
use spovm4_labs.Base.{
  length, ==_ne, minus_one, ℕ, zero, suc, ◌≤◌, ◌<◌, ◌≡◌, sym, ap, ◌∙◌, ◌≢◌, List, ◌++◌, arith,
}
use spovm4_labs.ZoxFs.Blocks.Block.{IsBlock, used_data-IsBlock}
use spovm4_labs.ZoxFs.Cluster.{Cluster, file_cluster_data_size, type_empty}
use spovm4_labs.ZoxFs.Context.{clusters_count, Context, done}
use spovm4_labs.ZoxFs.Load.{extract_blocks}
use spovm4_labs.ZoxFs.Size.{count_empty}
use spovm4_labs.ZoxFs.Steps.{cluster-done}

-- Every cluster's `offset` is its index.
abbrev pub HasOffsets : (ℕ → Cluster) → Type 0
HasOffsets fs = (i : ℕ) → i < clusters_count → (fs i).offset ≡ i

-- From `clust` on, `c'` holds `bytes`; beside `clust`, it has changed only clusters empty in `c`.
pub record Loaded (c : Context) (clust : ℕ) (bytes : List ℕ) (c' : Context) : Type 0 where
  pub chain :
      (m : ℕ) → count_empty clusters_count 0 c.fs < m → extract_blocks m clust c' ≡ done bytes c'
  pub kept :
      (i : ℕ) → i < clusters_count → (c.fs i).type ≢ type_empty → i ≢ clust → c'.fs i ≡ c.fs i
  pub offsets : HasOffsets c'.fs
  pub same_directory : c'.working_directory ≡ c.working_directory

pub extract_blocks-last :
    (m clust : ℕ) (block : List ℕ) (c : Context)
    → clust < clusters_count
    → length block ≤ file_cluster_data_size
    → IsBlock (c.fs clust) block minus_one
    → 0 < m
    → extract_blocks m clust c ≡ done block c
unfolding extract_blocks
extract_blocks-last zero clust block c hc l b p = absurd (omega arith)
extract_blocks-last (suc m) clust block c hc l b p =
    rw (cluster-done clust c hc, used_data-IsBlock (c.fs clust) block minus_one c l b, b.pointed)

extract_blocks-next :
    (m clust j : ℕ) (block rest : List ℕ) (c : Context)
    → clust < clusters_count
    → length block ≤ file_cluster_data_size
    → j < clusters_count
    → IsBlock (c.fs clust) block j
    → extract_blocks m j c ≡ done rest c
    → extract_blocks (suc m) clust c ≡ done (block ++ rest) c
unfolding extract_blocks
extract_blocks-next m clust j block rest c hc l hj b e = rw (
  cluster-done clust c hc,
  used_data-IsBlock (c.fs clust) block j c l b,
  b.pointed,
  ==_ne j minus_one (omega arith),
  e,
)

-- How the block in front extends a chain that is loaded behind it.
pub Loaded-next :
    (clust j : ℕ) (block rest : List ℕ) (c c₁ c' : Context)
    → clust < clusters_count
    → j < clusters_count
    → j ≢ clust
    → length block ≤ file_cluster_data_size
    → (c.fs j).type ≡ type_empty
    → IsBlock (c₁.fs clust) block j
    → ((i : ℕ) → i ≢ clust → i ≢ j → c₁.fs i ≡ c.fs i)
    → count_empty clusters_count 0 c.fs ≡ suc (count_empty clusters_count 0 c₁.fs)
    → c₁.working_directory ≡ c.working_directory
    → Loaded c₁ j rest c'
    → Loaded c clust (block ++ rest) c'
Loaded-next clust j block rest c c₁ c' hc hj ne l free b frame fewer wd more = record {
  chain = go;
  kept = λ i hi t n. keep i hi t n;
  offsets = more.offsets;
  same_directory = more.same_directory ∙ wd;
}
  where
    typed : (c₁.fs clust).type ≢ type_empty
    typed e = absurd (omega (arith, b.typed))

    same : c'.fs clust ≡ c₁.fs clust
    same = more.kept clust hc typed (λ e. ne (sym e))

    go :
        (m : ℕ)
        → count_empty clusters_count 0 c.fs < m
        → extract_blocks m clust c' ≡ done (block ++ rest) c'
    go zero h = absurd (omega arith)
    go (suc m) h =
        extract_blocks-next m clust j block rest c' hc l hj
          (subst (λ s. IsBlock s block j) (sym same) b) (more.chain m (omega (arith, fewer)))

    keep : (i : ℕ) → i < clusters_count → (c.fs i).type ≢ type_empty → i ≢ clust → c'.fs i ≡ c.fs i
    keep i hi t n =
        let apart : i ≢ j = λ e. t (subst (λ a. (c.fs a).type ≡ type_empty) (sym e) free) in
        let before = frame i n apart in
        more.kept i hi (λ e. t (ap (λ (s : Cluster). s.type) (sym before) ∙ e)) apart ∙ before
