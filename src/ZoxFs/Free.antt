-- ===== src/ZoxFs/Free.antt =====
-- `get_free_cluster` against `zox_fs_free`: the first empty cluster, and how many there are.
use spovm4_labs.Base.{
  ◌==◌, ==_ne, Bool-cases, Option-cases, ℕ, zero, suc, ◌+◌, ◌≤◌, ◌<◌, ◌≡◌, refl, ◌≢◌, inl, inr,
  none, some, arith,
}
use spovm4_labs.ZoxFs.Cluster.{Cluster, type_empty}
use spovm4_labs.ZoxFs.Context.{put}
use spovm4_labs.ZoxFs.Lookup.{free_from}
use spovm4_labs.ZoxFs.Size.{count_empty}

-- What is known of the cluster that the search returns.
pub free_from-some :
    (k i : ℕ) (fs : ℕ → Cluster) (j : ℕ)
    → free_from k i fs ≡ some j
    → (i ≤ j) × (j < i + k) × ((fs j).type ≡ type_empty)
unfolding free_from
free_from-some zero i fs j h = cc
free_from-some (suc k) i fs j h = ground (arith, free_from-some k (suc i) fs j)

-- and that it is the first
pub free_from-first :
    (k i : ℕ) (fs : ℕ → Cluster) (j a : ℕ)
    → free_from k i fs ≡ some j
    → i ≤ a
    → a < j
    → (fs a).type ≢ type_empty
unfolding free_from
free_from-first zero i fs j a h l u = cc
free_from-first (suc k) i fs j a h l u = elim (Bool-cases (i == a)) [
  | inl here ↦ ground arith
  | inr there ↦ ground (arith, free_from-first k (suc i) fs j a)
]

pub free_from-none : (k i : ℕ) (fs : ℕ → Cluster) → free_from k i fs ≡ none → count_empty k i fs ≡ 0
unfolding free_from count_empty
free_from-none zero i fs h = refl
free_from-none (suc k) i fs h = ground (arith, free_from-none k (suc i) fs)

pub free_from-pos :
    (k i : ℕ) (fs : ℕ → Cluster) → 0 < count_empty k i fs → (j : ℕ) × (free_from k i fs ≡ some j)
free_from-pos k i fs h = elim (Option-cases (free_from k i fs)) [
  | inl e ↦ absurd (omega (arith, free_from-none k i fs e))
  | inr found ↦ found
]

pub count_empty-put_outside :
    (k i : ℕ) (fs : ℕ → Cluster) (j : ℕ) (v : Cluster)
    → j < i
    → count_empty k i (put fs j v) ≡ count_empty k i fs
unfolding count_empty
count_empty-put_outside zero i fs j v h = refl
count_empty-put_outside (suc k) i fs j v h =
    rw (count_empty-put_outside k (suc i) fs j v (omega arith), ==_ne i j (omega arith)) refl

-- An empty cluster that gets another type is one empty cluster less.
pub count_empty-put :
    (k i : ℕ) (fs : ℕ → Cluster) (j : ℕ) (v : Cluster)
    → i ≤ j
    → j < i + k
    → (fs j).type ≡ type_empty
    → v.type ≢ type_empty
    → count_empty k i fs ≡ suc (count_empty k i (put fs j v))
unfolding count_empty
count_empty-put zero i fs j v l u e n = absurd (omega arith)
count_empty-put (suc k) i fs j v l u e n = elim (Bool-cases (i == j)) [
  | inl here ↦ ground (arith, count_empty-put_outside k (suc i) fs j v)
  | inr there ↦ ground (arith, count_empty-put k (suc i) fs j v)
]

pub count_empty-put_same :
    (k i : ℕ) (fs : ℕ → Cluster) (j : ℕ) (v : Cluster)
    → v.type ≡ (fs j).type
    → count_empty k i (put fs j v) ≡ count_empty k i fs
unfolding count_empty
count_empty-put_same zero i fs j v e = refl
count_empty-put_same (suc k) i fs j v e = ground (arith, count_empty-put_same k (suc i) fs j v)

pub count_empty-le : (k i : ℕ) (fs : ℕ → Cluster) → count_empty k i fs ≤ k
unfolding count_empty
count_empty-le zero i fs = omega arith
count_empty-le (suc k) i fs = ground (arith, count_empty-le k (suc i) fs)
