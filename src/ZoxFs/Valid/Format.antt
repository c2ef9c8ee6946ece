-- ===== src/ZoxFs/Valid/Format.antt =====
-- The context that `initialize_context` makes where there is no host file.
use spovm4_labs.Base.{
  ◌==◌, lt→ltb, ==_iff, ==_ne, ==_false, Bool-cases, ℕ, zero, suc, ◌+◌, ◌-◌, ◌≤◌, ◌<◌, ◌≡◌, refl,
  sym, ap, ◌∙◌, ◌≢◌, inl, inr, true, some, List, [], arith,
}
use spovm4_labs.ZoxFs.Blocks.Chain.{HasOffsets}
use spovm4_labs.ZoxFs.Cluster.{
  Cluster, type_directory, type_empty, subnodes_count, set_subnodes_count,
}
use spovm4_labs.ZoxFs.Context.{clusters_count, Write, Context}
use spovm4_labs.ZoxFs.Entries.{entries_from, entries, has}
use spovm4_labs.ZoxFs.Fields.{count-set_count}
use spovm4_labs.ZoxFs.Free.{count_empty-le}
use spovm4_labs.ZoxFs.Init.{no_file, format_cluster, format, write_all, initialize_context}
use spovm4_labs.ZoxFs.Size.{count_empty}
use spovm4_labs.ZoxFs.Tests.{garbage}
use spovm4_labs.ZoxFs.Valid.Made.{IsValid}
use spovm4_labs.ZoxFs.Valid.Weights.{weight, total_entries, weight-directory, weight-other}

module _ (garbage : ℕ → Cluster) where
  format-root : format garbage 0 ≡ format_cluster 0 (garbage 0)
  unfolding format
  format-root = refl

  format-other :
      (i : ℕ)
      → i < clusters_count
      → i ≢ 0
      → format garbage i ≡ record (garbage i) { offset = i; type = type_empty }
  unfolding format format_cluster
  format-other i h ne = rw (lt→ltb i clusters_count h, ==_ne i 0 ne)

  root-count : subnodes_count (format garbage 0) ≡ 0
  unfolding format_cluster
  root-count = ap subnodes_count format-root ∙ count-set_count _ 0 (omega arith)

  root-typed : (format garbage 0).type ≡ type_directory
  unfolding format format_cluster set_subnodes_count
  root-typed = refl

  root-offset : (format garbage 0).offset ≡ 0
  unfolding format format_cluster set_subnodes_count
  root-offset = refl

  other-typed : (i : ℕ) → i < clusters_count → i ≢ 0 → (format garbage i).type ≡ type_empty
  other-typed i h ne = ap (λ (s : Cluster). s.type) (format-other i h ne)

  format-weight : (i : ℕ) → i < clusters_count → weight (format garbage i) ≡ 0
  format-weight i h = elim (Bool-cases (i == 0)) [
    | inl here ↦
        ap (λ a. weight (format garbage a)) ((==_iff i 0).0 here)
        ∙ weight-directory (format garbage 0) root-typed
        ∙ root-count
    | inr there ↦
        weight-other (format garbage i)
          (λ e. absurd (omega (arith, other-typed i h (==_false i 0 there))))
  ]

  format-total : (k i : ℕ) → i + k ≤ clusters_count → total_entries k i (format garbage) ≡ 0
  unfolding total_entries
  format-total zero i h = refl
  format-total (suc k) i h =
      omega (arith, format-weight i (omega arith), format-total k (suc i) (omega arith))

  format-HasOffsets : HasOffsets (format garbage)
  format-HasOffsets i h = elim (Bool-cases (i == 0)) [
    | inl here ↦
        let e : i ≡ 0 = (==_iff i 0).0 here in
        ap (λ a. (format garbage a).offset) e ∙ root-offset ∙ sym e
    | inr there ↦ ap (λ (s : Cluster). s.offset) (format-other i h (==_false i 0 there))
  ]

  format-empty : (k i : ℕ) → 0 < i → i + k ≤ clusters_count → count_empty k i (format garbage) ≡ k
  unfolding count_empty
  format-empty zero i p h = refl
  format-empty (suc k) i p h =
      rw (other-typed i (omega arith) (λ e. absurd (omega arith)))
        (omega (arith, format-empty k (suc i) (omega arith) (omega arith)))

  format-first : (k : ℕ) → count_empty (suc k) 0 (format garbage) ≡ count_empty k 1 (format garbage)
  unfolding count_empty
  format-first k = rw root-typed (omega arith)

  pub format-count : count_empty clusters_count 0 (format garbage) ≡ clusters_count - 1
  format-count =
      format-first (clusters_count - 1)
      ∙ format-empty (clusters_count - 1) 1 (omega arith) (omega arith)

  root-entries : entries (format garbage 0) ≡ []
  unfolding entries entries_from
  root-entries = rw root-count

  format-childless :
      (i o : ℕ)
      → i < clusters_count
      → (format garbage i).type ≡ type_directory
      → has o (entries (format garbage i)) ≡ true
      → ⊥
  format-childless i o h t m = elim (Bool-cases (i == 0)) [
    | inl here ↦
        let e : i ≡ 0 = (==_iff i 0).0 here in
        cc (m, ap (λ a. has o (entries (format garbage a))) e, ap (λ l. has o l) root-entries)
    | inr there ↦ omega (arith, t, other-typed i h (==_false i 0 there))
  ]

  pub format-IsValid :
      (ws : List Write)
      → IsValid (record { fs_file = ws; working_directory = 0; fs = format garbage })
  format-IsValid ws = record {
    offsets = format-HasOffsets;
    root = root-typed;
    wd_bound = omega arith;
    wd_typed = root-typed;
    children = λ i o h t m. absurd (format-childless i o h t m);
    room = omega (
      arith,
      format-total clusters_count 0 (omega arith),
      count_empty-le clusters_count 0 (format garbage),
    );
  }

-- Without a host file that can be opened, and where the new one can be created and written,
-- initialize_context gives a well-formed context whose working directory is the root, whose root
-- has no entries, and all of whose other clusters are free.
pub initialize_context-new :
    (garbage : ℕ → Cluster)
    → (c : Context) × (initialize_context garbage no_file true true ≡ some c)
      × IsValid c
      × (c.working_directory ≡ 0)
      × (entries (c.fs 0) ≡ [])
      × ((i : ℕ) → i < clusters_count → i ≢ 0 → (c.fs i).type ≡ type_empty)
      × (count_empty clusters_count 0 c.fs ≡ clusters_count - 1)
unfolding initialize_context
initialize_context-new garbage = (
  record {
    fs_file = write_all clusters_count 0 (format garbage);
    working_directory = 0;
    fs = format garbage;
  },
  refl,
  format-IsValid garbage (write_all clusters_count 0 (format garbage)),
  refl,
  root-entries garbage,
  other-typed garbage,
  format-count garbage,
)
