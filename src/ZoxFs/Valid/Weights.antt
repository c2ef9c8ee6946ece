-- ===== src/ZoxFs/Valid/Weights.antt =====
-- How many entries all directories have together.
use spovm4_labs.Base.{
  ◌==◌, if◌then◌else◌, ==_iff, ==_false, Bool-cases, ℕ, zero, suc, ◌+◌, ◌≤◌, ◌<◌, ◌≡◌, refl, ap,
  ◌≢◌, inl, inr, arith,
}
use spovm4_labs.ZoxFs.Cluster.{Cluster, type_directory, subnodes_count}
use spovm4_labs.ZoxFs.Context.{put}
use spovm4_labs.ZoxFs.Steps.{put-at, put-ne}

unfoldable pub weight : Cluster → ℕ
weight c = if c.type == type_directory then subnodes_count c else 0

unfoldable pub total_entries : ℕ → ℕ → (ℕ → Cluster) → ℕ
total_entries zero i fs = 0
total_entries (suc k) i fs = weight (fs i) + total_entries k (suc i) fs

pub weight-directory : (c : Cluster) → c.type ≡ type_directory → weight c ≡ subnodes_count c
unfolding weight
weight-directory c h = ground arith

pub weight-other : (c : Cluster) → c.type ≢ type_directory → weight c ≡ 0
unfolding weight
weight-other c h = ground arith

total_entries-outside :
    (k i : ℕ) (fs : ℕ → Cluster) (j : ℕ) (v : Cluster)
    → j < i
    → total_entries k i (put fs j v) ≡ total_entries k i fs
unfolding total_entries
total_entries-outside zero i fs j v h = refl
total_entries-outside (suc k) i fs j v h = rw (
  put-ne fs j i v (λ e. absurd (omega arith)),
  total_entries-outside k (suc i) fs j v (omega arith),
)

-- Writing one cluster changes the total by the change of its weight.
pub total_entries-put :
    (k i : ℕ) (fs : ℕ → Cluster) (j : ℕ) (v : Cluster)
    → i ≤ j
    → j < i + k
    → total_entries k i (put fs j v) + weight (fs j) ≡ total_entries k i fs + weight v
unfolding total_entries
total_entries-put zero i fs j v l u = absurd (omega arith)
total_entries-put (suc k) i fs j v l u = elim (Bool-cases (i == j)) [
  | inl here ↦
      let e : i ≡ j = (==_iff i j).0 here in
      omega (
        arith,
        ap weight (put-at fs i j v e),
        ap (λ a. weight (fs a)) e,
        total_entries-outside k (suc i) fs j v (omega arith),
      )
  | inr there ↦
      let ne = ==_false i j there in
      omega (
        arith,
        ap weight (put-ne fs j i v ne),
        total_entries-put k (suc i) fs j v (omega arith) (omega arith),
      )
]

-- No cluster weighs more than all.
pub weight-le-total :
    (k i : ℕ) (fs : ℕ → Cluster) (j : ℕ) → i ≤ j → j < i + k → weight (fs j) ≤ total_entries k i fs
unfolding total_entries
weight-le-total zero i fs j l u = absurd (omega arith)
weight-le-total (suc k) i fs j l u = elim (Bool-cases (i == j)) [
  | inl here ↦ omega (arith, ap (λ a. weight (fs a)) ((==_iff i j).0 here))
  | inr there ↦
      let ne = ==_false i j there in
      omega (arith, weight-le-total k (suc i) fs j (omega arith) (omega arith))
]
