-- ===== src/ZoxFs/Unlink/Kept.antt =====
-- `_zox_fs_rm` of a cluster with nothing below it keeps the invariant.
use mathlib.Core.Path.{subst}
use spovm4_labs.Base.{
  length, ◌==◌, ==_iff, ==_false, Bool-cases, ℕ, suc, ◌<◌, ◌≡◌, refl, sym, ap, ◌∙◌, ◌≢◌, inl, inr,
  Bool, true, List, arith,
}
use spovm4_labs.ZoxFs.Blocks.Chain.{HasOffsets}
use spovm4_labs.ZoxFs.Cluster.{Cluster, type_directory, type_empty, subnodes_count}
use spovm4_labs.ZoxFs.Context.{put, Context, done, call_sucess, clusters_count, Write}
use spovm4_labs.ZoxFs.Entries.{entries, erase_first, has}
use spovm4_labs.ZoxFs.Entries.Shift.{SameHead}
use spovm4_labs.ZoxFs.Free.{count_empty-put_same}
use spovm4_labs.ZoxFs.Remove.{rm}
use spovm4_labs.ZoxFs.Size.{count_empty}
use spovm4_labs.ZoxFs.Steps.{put_self, put-ne}
use spovm4_labs.ZoxFs.Unlink.{
  has-erase_first, length-erase_first, count_empty-put_empty, length-entries, emptied, IsLeaf,
  unlinked, parent-ne, parent_of, weight-leaf, unlink-done, rm-unlink,
}
use spovm4_labs.ZoxFs.Valid.Made.{IsValid}
use spovm4_labs.ZoxFs.Valid.Weights.{
  weight, total_entries, weight-directory, weight-other, total_entries-put,
}

-- The invariant, of the parent changed in its union and the cluster emptied.
module _ (fwrite : List Write → Write → Bool) (c : Context) (p i : ℕ) (v : IsValid c)
    (leaf : IsLeaf c p i) (e : Cluster) (ws : List Write)
    (erased : entries e ≡ erase_first i (entries (c.fs p))) (head : SameHead (c.fs p) e) where
  unlinked-parent : unlinked c.fs p i e p ≡ e
  unlinked-parent = put_self (put c.fs i (emptied (c.fs i))) p e

  unlinked-other : (a : ℕ) → a ≢ p → a ≢ i → unlinked c.fs p i e a ≡ c.fs a
  unlinked-other a n m =
      put-ne (put c.fs i (emptied (c.fs i))) p a e n ∙ put-ne c.fs i a (emptied (c.fs i)) m

  -- Every cluster but the removed one keeps all but its union.
  unlinked-SameHead : (a : ℕ) → a ≢ i → SameHead (c.fs a) (unlinked c.fs p i e a)
  unlinked-SameHead a n = elim (Bool-cases (a == p)) [
    | inl here ↦
        subst (λ b. SameHead (c.fs b) (unlinked c.fs p i e b)) (sym ((==_iff a p).0 here))
          (subst (λ z. SameHead (c.fs p) z) (sym unlinked-parent) head)
    | inr there ↦
        subst (λ z. SameHead (c.fs a) z) (sym (unlinked-other a (==_false a p there) n)) refl
  ]

  unlinked-removed : (unlinked c.fs p i e i).type ≡ type_empty
  unlinked-removed =
      ap (λ (z : Cluster). z.type)
        (put-ne (put c.fs i (emptied (c.fs i))) p i e (λ q. (parent-ne fwrite c p i v leaf) (sym q))
          ∙ put_self c.fs i (emptied (c.fs i)))

  unlinked-count :
      count_empty clusters_count 0 (unlinked c.fs p i e) ≡ suc (count_empty clusters_count 0 c.fs)
  unlinked-count =
      let s = emptied (c.fs i) in
      omega (
        arith,
        count_empty-put_empty clusters_count 0 c.fs i s (omega arith) leaf.bound leaf.in_use refl,
        count_empty-put_same clusters_count 0 (put c.fs i s) p e (
            ap (λ (z : Cluster). z.type) head
            ∙ ap (λ (z : Cluster). z.type)
                (sym (put-ne c.fs i p s (parent-ne fwrite c p i v leaf)))),
      )

  e_typed : e.type ≡ type_directory
  e_typed = ap (λ (z : Cluster). z.type) head ∙ leaf.parent_typed

  fewer : suc (subnodes_count e) ≡ subnodes_count (c.fs p)
  fewer = omega (
    arith,
    length-entries e,
    length-entries (c.fs p),
    ap length erased,
    length-erase_first i (entries (c.fs p)) leaf.listed,
  )

  unlinked-total :
      suc (total_entries clusters_count 0 (unlinked c.fs p i e))
      ≡ total_entries clusters_count 0 c.fs
  unlinked-total =
      let s = emptied (c.fs i) in
      omega (
        arith,
        total_entries-put clusters_count 0 c.fs i s (omega arith) leaf.bound,
        total_entries-put clusters_count 0 (put c.fs i s) p e (omega arith) leaf.parent_bound,
        weight-other s (λ z. absurd (omega (arith, z))),
        (weight-leaf fwrite c p i v leaf),
        ap weight (put-ne c.fs i p s (parent-ne fwrite c p i v leaf)),
        weight-directory (c.fs p) leaf.parent_typed,
        weight-directory e e_typed,
        fewer,
      )

  unlinked-typed :
      (a : ℕ)
      → a ≢ i
      → (c.fs a).type ≡ type_directory
      → (unlinked c.fs p i e a).type ≡ type_directory
  unlinked-typed a n t = ap (λ (z : Cluster). z.type) (unlinked-SameHead a n) ∙ t

  -- the entries of a directory that is left were its entries, and `i` is none of them
  unlinked-entries :
      (a o : ℕ)
      → a < clusters_count
      → a ≢ i
      → (c.fs a).type ≡ type_directory
      → has o (entries (unlinked c.fs p i e a)) ≡ true
      → (has o (entries (c.fs a)) ≡ true) × (o ≢ i)
  unlinked-entries a o ha n t m = elim (Bool-cases (a == p)) [
    | inl here ↦
        let q = (==_iff a p).0 here in
        let m' : has o (erase_first i (entries (c.fs p))) ≡ true =
          subst (λ z. has o z ≡ true)
            (ap (λ b. entries (unlinked c.fs p i e b)) q ∙ ap entries unlinked-parent ∙ erased) m in
        (
          subst (λ b. has o (entries (c.fs b)) ≡ true) (sym q)
              (has-erase_first i o (entries (c.fs p)) m'),
          λ z. absurd (cc (leaf.once, m', ap (λ b. has b (erase_first i (entries (c.fs p)))) z)),
        )
    | inr there ↦
        let ne = ==_false a p there in
        let m' : has o (entries (c.fs a)) ≡ true =
          subst (λ z. has o (entries z) ≡ true) (unlinked-other a ne n) m in
        let up = (v.children a o ha t m').2 in
        (m', λ z. ne (sym up ∙ ap (λ b. (c.fs b).parent) z ∙ (parent_of fwrite c p i v leaf)))
  ]

  unlinked-children :
      (a o : ℕ)
      → a < clusters_count
      → (unlinked c.fs p i e a).type ≡ type_directory
      → has o (entries (unlinked c.fs p i e a)) ≡ true
      → (o < clusters_count)
        × ((unlinked c.fs p i e o).type ≢ type_empty)
        × ((unlinked c.fs p i e o).parent ≡ a)
  unlinked-children a o ha t m =
      let n : a ≢ i = λ z.
        absurd (omega (arith, unlinked-removed, ap (λ b. (unlinked c.fs p i e b).type) z, t)) in
      let t' : (c.fs a).type ≡ type_directory =
        sym (ap (λ (z : Cluster). z.type) (unlinked-SameHead a n)) ∙ t in
      let (m', ne) = unlinked-entries a o ha n t' m in
      let (ho, used, up) = v.children a o ha t' m' in
      let same = unlinked-SameHead o ne in
      (
        ho,
        λ z. used (sym (ap (λ (z : Cluster). z.type) same) ∙ z),
        ap (λ (z : Cluster). z.parent) same ∙ up,
      )

  unlinked-offsets : HasOffsets (unlinked c.fs p i e)
  unlinked-offsets a ha = elim (Bool-cases (a == i)) [
    | inl here ↦
        let q = (==_iff a i).0 here in
        ap (λ b. (unlinked c.fs p i e b).offset) q
        ∙ ap (λ (z : Cluster). z.offset)
            (put-ne (put c.fs i (emptied (c.fs i))) p i e
                (λ z. (parent-ne fwrite c p i v leaf) (sym z))
              ∙ put_self c.fs i (emptied (c.fs i)))
        ∙ v.offsets i leaf.bound
        ∙ sym q
    | inr there ↦
        ap (λ (z : Cluster). z.offset) (unlinked-SameHead a (==_false a i there)) ∙ v.offsets a ha
  ]

  unlinked-IsValid :
      i ≢ 0
      → i ≢ c.working_directory
      → IsValid (record c { fs_file = ws; fs = unlinked c.fs p i e })
  unlinked-IsValid not_root not_wd = record {
    offsets = unlinked-offsets;
    root = unlinked-typed 0 (λ z. not_root (sym z)) v.root;
    wd_bound = v.wd_bound;
    wd_typed = unlinked-typed c.working_directory (λ z. not_wd (sym z)) v.wd_typed;
    children = unlinked-children;
    room = omega (arith, v.room, unlinked-total, unlinked-count);
  }

-- On a well-formed context _zox_fs_rm of an empty directory or of a file of one cluster, neither
-- the root nor the working directory, which its parent lists once, succeeds with two rounds: the
-- cluster is empty, the parent's entries are those before without it, one cluster more is free, all
-- clusters but the two are as before, and the context stays well formed.
pub rm-unlinks :
    (fwrite : List Write → Write → Bool) (c : Context) (p i n : ℕ)
    → IsValid c
    → IsLeaf c p i
    → i ≢ 0
    → i ≢ c.working_directory
    → (c' : Context) × (rm fwrite (suc (suc n)) i c ≡ done call_sucess c')
      × ((c'.fs i).type ≡ type_empty)
      × (entries (c'.fs p) ≡ erase_first i (entries (c.fs p)))
      × (count_empty clusters_count 0 c'.fs ≡ suc (count_empty clusters_count 0 c.fs))
      × ((a : ℕ) → a ≢ p → a ≢ i → c'.fs a ≡ c.fs a)
      × IsValid c'
rm-unlinks fwrite c p i n v leaf not_root not_wd =
    let (e, ws, run, erased, head) = unlink-done fwrite c p i v leaf in
    (
      record c { fs_file = ws; fs = unlinked c.fs p i e },
      rm-unlink fwrite c p i v leaf n ∙ run,
      unlinked-removed fwrite c p i v leaf e ws erased head,
      ap entries (unlinked-parent fwrite c p i v leaf e ws erased head) ∙ erased,
      unlinked-count fwrite c p i v leaf e ws erased head,
      unlinked-other fwrite c p i v leaf e ws erased head,
      unlinked-IsValid fwrite c p i v leaf e ws erased head not_root not_wd,
    )
