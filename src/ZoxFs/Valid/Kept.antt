-- ===== src/ZoxFs/Valid/Kept.antt =====
-- Linking a new directory keeps the invariant.
use mathlib.Core.Path.{subst, subst₂}
use spovm4_labs.Base.{
  ◌==◌, ==_iff, ==_false, Bool-cases, ℕ, ◌<◌, ◌≡◌, sym, ap, ◌∙◌, ◌≢◌, ◌⊎◌, inl, inr, true, List, [],
  ◌∷◌, ◌++◌, arith,
}
use spovm4_labs.Base.Text.{Text}
use spovm4_labs.ZoxFs.Blocks.Chain.{HasOffsets}
use spovm4_labs.ZoxFs.Cluster.{
  Cluster, max_subnodes, type_directory, type_empty, subnodes_count, set_subnodes_count,
  set_subnode,
}
use spovm4_labs.ZoxFs.Context.{clusters_count, Write, Context}
use spovm4_labs.ZoxFs.Entries.{entries_from, entries, has, entries-append_entry}
use spovm4_labs.ZoxFs.Fields.{count-set_count}
use spovm4_labs.ZoxFs.Valid.Made.{
  IsValid, count-le, new_directory, made, made-new, made-parent, made-other, made-SameHead,
  made-count, made-total,
}

has-snoc : (o j : ℕ) (os : List ℕ) → has o (os ++ j ∷ []) ≡ true → (has o os ≡ true) ⊎ (o ≡ j)
has-snoc o j [] h = ground arith
has-snoc o j (x ∷ os) h = ground (arith, has-snoc o j os)

module _ (c : Context) (p j : ℕ) (name : Text) (ws : List Write) (v : IsValid c)
    (hp : p < clusters_count) (typed : (c.fs p).type ≡ type_directory) (hj : j < clusters_count)
    (free : (c.fs j).type ≡ type_empty) where
  pub parent-ne : p ≢ j
  parent-ne e = absurd (omega (arith, ap (λ a. (c.fs a).type) e))

  pub parent_room : subnodes_count (c.fs p) < max_subnodes
  parent_room = omega (arith, count-le c p v hp typed)

  pub made-entries : entries (made c.fs p j name p) ≡ entries (c.fs p) ++ j ∷ []
  made-entries =
      ap entries (made-parent c.fs p j name parent-ne)
      ∙ entries-append_entry (c.fs p) (c.fs j).offset parent_room (omega (arith, v.offsets j hj))
      ∙ ap (λ o. entries (c.fs p) ++ o ∷ []) (v.offsets j hj)

  pub new-entries : entries (made c.fs p j name j) ≡ []
  unfolding entries entries_from
  new-entries =
      ap entries (made-new c.fs p j name parent-ne)
      ∙ ap (entries_from (new_directory (c.fs j) name (c.fs p).offset) 0)
          (count-set_count _ 0 (omega arith))

  made-offsets : HasOffsets (made c.fs p j name)
  unfolding set_subnodes_count set_subnode
  made-offsets i hi = ground (arith, v.offsets i hi)

  -- a child of an old directory is one still
  old_child :
      (i o : ℕ)
      → i < clusters_count
      → (c.fs i).type ≡ type_directory
      → has o (entries (c.fs i)) ≡ true
      → (o < clusters_count)
        × ((made c.fs p j name o).type ≢ type_empty)
        × ((made c.fs p j name o).parent ≡ i)
  old_child i o hi t m =
      let (ho, used, up) = v.children i o hi t m in
      let ne : o ≢ j = λ e. used (ap (λ a. (c.fs a).type) e ∙ free) in
      let same = made-SameHead c.fs p j name parent-ne o ne in
      (
        ho,
        λ e. used (sym (ap (λ (s : Cluster). s.type) same) ∙ e),
        ap (λ (s : Cluster). s.parent) same ∙ up,
      )

  new_child :
      (j < clusters_count)
      × ((made c.fs p j name j).type ≢ type_empty)
      × ((made c.fs p j name j).parent ≡ p)
  unfolding set_subnodes_count
  new_child =
      let new = made-new c.fs p j name parent-ne in
      (
        hj,
        λ e. absurd (omega (arith, ap (λ (s : Cluster). s.type) new)),
        ap (λ (s : Cluster). s.parent) new ∙ v.offsets p hp,
      )

  made-children :
      (i o : ℕ)
      → i < clusters_count
      → (made c.fs p j name i).type ≡ type_directory
      → has o (entries (made c.fs p j name i)) ≡ true
      → (o < clusters_count)
        × ((made c.fs p j name o).type ≢ type_empty)
        × ((made c.fs p j name o).parent ≡ i)
  made-children i o hi t m = elim (Bool-cases (i == j)) [
    | inl new ↦
        let e = (==_iff i j).0 new in
        let none_there : has o [] ≡ true =
          subst (λ os. has o os ≡ true) (ap (λ a. entries (made c.fs p j name a)) e ∙ new-entries)
            m in
        absurd (cc none_there)
    | inr old ↦ elim (Bool-cases (i == p)) [
      | inl here ↦
          let e = (==_iff i p).0 here in
          let m' : has o (entries (c.fs p) ++ j ∷ []) ≡ true =
            subst (λ os. has o os ≡ true)
              (ap (λ a. entries (made c.fs p j name a)) e ∙ made-entries) m in
          elim (has-snoc o j (entries (c.fs p)) m') [
            | inl before ↦
                subst
                  (λ a.
                    (o < clusters_count)
                    × ((made c.fs p j name o).type ≢ type_empty)
                    × ((made c.fs p j name o).parent ≡ a))
                  (sym e) (old_child p o hp typed before)
            | inr last ↦
                subst₂
                  (λ a b.
                    (b < clusters_count)
                    × ((made c.fs p j name b).type ≢ type_empty)
                    × ((made c.fs p j name b).parent ≡ a))
                  (sym e) (sym last) new_child
          ]
      | inr there ↦
          let same = made-other c.fs p j name parent-ne i (==_false i p there) (==_false i j old) in
          old_child i o hi (ap (λ (s : Cluster). s.type) (sym same) ∙ t)
            (subst (λ s. has o (entries s) ≡ true) same m)
    ]
  ]

  -- no directory stops being one
  pub made-typed :
      (i : ℕ) → (c.fs i).type ≡ type_directory → (made c.fs p j name i).type ≡ type_directory
  made-typed i t =
      let ne : i ≢ j = λ e. absurd (omega (arith, ap (λ a. (c.fs a).type) e)) in
      ap (λ (s : Cluster). s.type) (made-SameHead c.fs p j name parent-ne i ne) ∙ t

  pub made-IsValid : IsValid (record c { fs_file = ws; fs = made c.fs p j name })
  made-IsValid = record {
    offsets = made-offsets;
    root = made-typed 0 v.root;
    wd_bound = v.wd_bound;
    wd_typed = made-typed c.working_directory v.wd_typed;
    children = made-children;
    room = omega (
      arith,
      v.room,
      made-count c.fs p j name parent-ne hj hp free typed,
      made-total c.fs p j name parent-ne hj hp free typed parent_room,
    );
  }
