-- ===== src/ZoxFs/Valid/Made.antt =====
-- The clusters after a new directory has been linked, and the invariant of a context.
use spovm4_labs.Base.{
  ◌==◌, Bool-cases, ℕ, suc, ◌+◌, ◌≤◌, ◌<◌, ◌≡◌, refl, sym, ap, ◌∙◌, ◌≢◌, inl, inr, true, List, [],
  ◌∷◌, arith,
}
use spovm4_labs.Base.Text.{Text}
use spovm4_labs.ZoxFs.Blocks.Chain.{HasOffsets}
use spovm4_labs.ZoxFs.Cluster.{
  Cluster, max_subnodes, type_directory, type_empty, subnodes_count, set_subnodes_count,
  set_subnode,
}
use spovm4_labs.ZoxFs.Context.{clusters_count, Context, put}
use spovm4_labs.ZoxFs.Entries.{entries, has, append_entry, count-append_entry}
use spovm4_labs.ZoxFs.Entries.Shift.{SameHead}
use spovm4_labs.ZoxFs.Fields.{count-set_count}
use spovm4_labs.ZoxFs.Free.{count_empty-put, count_empty-put_same}
use spovm4_labs.ZoxFs.Names.{AllBelow}
use spovm4_labs.ZoxFs.Size.{count_empty}
use spovm4_labs.ZoxFs.Steps.{put_self, put-ne}
use spovm4_labs.ZoxFs.Valid.Weights.{
  weight, total_entries, weight-directory, weight-other, total_entries-put, weight-le-total,
}

pub record IsValid (c : Context) : Type 0 where
  pub offsets : HasOffsets c.fs
  pub root : (c.fs 0).type ≡ type_directory
  pub wd_bound : c.working_directory < clusters_count
  pub wd_typed : (c.fs c.working_directory).type ≡ type_directory
  -- the entries of a directory are clusters in use that name it as their parent
  pub children :
      (i o : ℕ)
      → i < clusters_count
      → (c.fs i).type ≡ type_directory
      → has o (entries (c.fs i)) ≡ true
      → (o < clusters_count) × ((c.fs o).type ≢ type_empty) × ((c.fs o).parent ≡ i)
  -- no directory can have more entries than its array holds
  pub room :
      total_entries clusters_count 0 c.fs + count_empty clusters_count 0 c.fs ≤ clusters_count

pub count-le :
    (c : Context) (i : ℕ)
    → IsValid c
    → i < clusters_count
    → (c.fs i).type ≡ type_directory
    → subnodes_count (c.fs i) + count_empty clusters_count 0 c.fs ≤ clusters_count
count-le c i v hi t = omega (
  arith,
  v.room,
  weight-le-total clusters_count 0 c.fs i (omega arith) hi,
  weight-directory (c.fs i) t,
)

pub all_below : (os : List ℕ) → ((o : ℕ) → has o os ≡ true → o < clusters_count) → AllBelow os
all_below [] h = tt
all_below (o ∷ os) h = (h o (ground arith), all_below os (λ a m. h a (ground arith)))

abbrev pub new_directory : Cluster → Text → ℕ → Cluster
new_directory s name parent =
    set_subnodes_count (record s { type = type_directory; parent = parent; name = name }) 0

-- `j` made a directory with the name, linked under `p`
abbrev pub made : (ℕ → Cluster) → ℕ → ℕ → Text → ℕ → Cluster
made fs p j name =
    put (put fs j (new_directory (fs j) name (fs p).offset)) p (append_entry (fs p) (fs j).offset)

module _ (fs : ℕ → Cluster) (p j : ℕ) (name : Text) (ne : p ≢ j) where
  pub made-new : made fs p j name j ≡ new_directory (fs j) name (fs p).offset
  made-new =
      put-ne (put fs j (new_directory (fs j) name (fs p).offset)) p j
        (append_entry (fs p) (fs j).offset) (λ e. ne (sym e))
      ∙ put_self fs j (new_directory (fs j) name (fs p).offset)

  pub made-parent : made fs p j name p ≡ append_entry (fs p) (fs j).offset
  made-parent =
      put_self (put fs j (new_directory (fs j) name (fs p).offset)) p
        (append_entry (fs p) (fs j).offset)

  pub made-other : (i : ℕ) → i ≢ p → i ≢ j → made fs p j name i ≡ fs i
  made-other i n n' =
      put-ne (put fs j (new_directory (fs j) name (fs p).offset)) p i
        (append_entry (fs p) (fs j).offset) n
      ∙ put-ne fs j i (new_directory (fs j) name (fs p).offset) n'

  -- Every cluster but the new one keeps all but its union.
  pub made-SameHead : (i : ℕ) → i ≢ j → SameHead (fs i) (made fs p j name i)
  unfolding set_subnodes_count set_subnode
  made-SameHead i n = elim (Bool-cases (i == p)) [
    | inl here ↦ ground arith
    | inr there ↦ ground arith
  ]

  pub made-count :
      j < clusters_count
      → p < clusters_count
      → (fs j).type ≡ type_empty
      → (fs p).type ≡ type_directory
      → count_empty clusters_count 0 fs ≡ suc (count_empty clusters_count 0 (made fs p j name))
  unfolding set_subnodes_count set_subnode
  made-count hj hp free typed =
      let nd = new_directory (fs j) name (fs p).offset in
      omega (
        arith,
        count_empty-put clusters_count 0 fs j nd (omega arith) hj free (λ e. absurd (omega arith)),
        count_empty-put_same clusters_count 0 (put fs j nd) p (append_entry (fs p) (fs j).offset)
            (ap (λ (s : Cluster). s.type) (sym (put-ne fs j p nd ne))),
      )

  pub made-total :
      j < clusters_count
      → p < clusters_count
      → (fs j).type ≡ type_empty
      → (fs p).type ≡ type_directory
      → subnodes_count (fs p) < max_subnodes
      → total_entries clusters_count 0 (made fs p j name) ≡ suc (total_entries clusters_count 0 fs)
  made-total hj hp free typed room =
      let nd = new_directory (fs j) name (fs p).offset in
      let d = append_entry (fs p) (fs j).offset in
      omega (
        arith,
        total_entries-put clusters_count 0 fs j nd (omega arith) hj,
        total_entries-put clusters_count 0 (put fs j nd) p d (omega arith) hp,
        ap weight (put-ne fs j p nd ne),
        weight-other (fs j) (λ e. absurd (omega arith)),
        weight-directory nd (unfold set_subnodes_count in refl),
        weight-directory (fs p) typed,
        weight-directory d (unfold set_subnodes_count set_subnode in typed),
        count-append_entry (fs p) (fs j).offset room,
        count-set_count
            (record (fs j) { type = type_directory; parent = (fs p).offset; name = name }) 0
            (omega arith),
      )
