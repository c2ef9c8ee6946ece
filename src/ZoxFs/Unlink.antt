-- ===== src/ZoxFs/Unlink.antt =====
-- `_zox_fs_rm` on a cluster with nothing below it.
pub mod Kept
use mathlib.Core.Path.{subst}
use spovm4_labs.Base.{
  length, ◌==◌, ==_iff, ==_ne, ==_false, Bool-cases, minus_one, ℕ, zero, suc, ◌+◌, ◌≤◌, ◌<◌, ◌≡◌,
  refl, sym, ap, ◌∙◌, ◌≢◌, inl, inr, Bool, true, false, List, [], ◌∷◌, arith,
}
use spovm4_labs.ZoxFs.Cluster.{
  Cluster, max_subnodes, type_directory, type_file, type_empty, subnodes_count, next_cluster,
}
use spovm4_labs.ZoxFs.Context.{
  put, Context, done, Code, call_sucess, clusters_count, Write, cluster, modify,
}
use spovm4_labs.ZoxFs.Directory.{remove_directory_subnode}
use spovm4_labs.ZoxFs.Entries.{entries, erase_first, has, length-entries_from}
use spovm4_labs.ZoxFs.Entries.Links.{remove_directory_subnode-done}
use spovm4_labs.ZoxFs.Entries.Shift.{SameHead}
use spovm4_labs.ZoxFs.Free.{count_empty-put_outside}
use spovm4_labs.ZoxFs.Lookup.{flush_cluster}
use spovm4_labs.ZoxFs.Remove.{empty_parts, unlink, rm}
use spovm4_labs.ZoxFs.Size.{count_empty}
use spovm4_labs.ZoxFs.Steps.{put_self, put-ne, cluster-done, modify-done, flush_cluster-done}
use spovm4_labs.ZoxFs.Valid.Made.{IsValid, count-le}
use spovm4_labs.ZoxFs.Valid.Weights.{weight, weight-directory, weight-other}

pub has-erase_first : (x o : ℕ) (xs : List ℕ) → has o (erase_first x xs) ≡ true → has o xs ≡ true
unfolding erase_first
has-erase_first x o [] h = h
has-erase_first x o (y ∷ xs) h = ground (arith, has-erase_first x o xs)

pub length-erase_first :
    (x : ℕ) (xs : List ℕ) → has x xs ≡ true → suc (length (erase_first x xs)) ≡ length xs
unfolding erase_first
length-erase_first x [] h = absurd (cc h)
length-erase_first x (y ∷ xs) h = ground (arith, length-erase_first x xs)

pub count_empty-put_empty :
    (k i : ℕ) (fs : ℕ → Cluster) (j : ℕ) (v : Cluster)
    → i ≤ j
    → j < i + k
    → (fs j).type ≢ type_empty
    → v.type ≡ type_empty
    → count_empty k i (put fs j v) ≡ suc (count_empty k i fs)
unfolding count_empty
count_empty-put_empty zero i fs j v l u n e = absurd (omega arith)
count_empty-put_empty (suc k) i fs j v l u n e = elim (Bool-cases (i == j)) [
  | inl here ↦ ground (arith, count_empty-put_outside k (suc i) fs j v)
  | inr there ↦ ground (arith, count_empty-put_empty k (suc i) fs j v)
]

pub length-entries : (d : Cluster) → length (entries d) ≡ subnodes_count d
unfolding entries
length-entries d = length-entries_from d 0 (subnodes_count d)

-- The removal with names for what it reads.
remove_directory_subnode-at :
    (sub p o : ℕ) (d : Cluster) (c : Context)
    → (c.fs sub).parent ≡ p
    → (c.fs sub).offset ≡ o
    → c.fs p ≡ d
    → sub < clusters_count
    → p < clusters_count
    → subnodes_count d ≤ max_subnodes
    → has o (entries d) ≡ true
    → (e : Cluster) × (remove_directory_subnode sub c ≡ done tt (record c { fs = put c.fs p e }))
      × (entries e ≡ erase_first o (entries d))
      × SameHead d e
remove_directory_subnode-at sub p o d c ep eo ed hs hp room m =
    let q : ℕ = (c.fs sub).parent in
    let w : ℕ = (c.fs sub).offset in
    let same : d ≡ c.fs q = sym ed ∙ ap c.fs (sym ep) in
    let (e, run, erased, head) =
      remove_directory_subnode-done sub c hs (omega arith)
        (subst (λ z. subnodes_count z ≤ max_subnodes) same room)
        (subst (λ z. has w (entries z) ≡ true) same
          (subst (λ a. has a (entries d) ≡ true) (sym eo) m)) in
    (
      e,
      subst (λ a. remove_directory_subnode sub c ≡ done tt (record c { fs = put c.fs a e })) ep run,
      subst (λ a. entries e ≡ erase_first a (entries d)) eo
          (subst (λ z. entries e ≡ erase_first w (entries z)) (sym same) erased),
      subst (λ z. SameHead z e) (sym same) head,
    )

abbrev pub emptied : Cluster → Cluster
emptied s = record s { type = type_empty }

-- an empty directory, or a file of one cluster, that is one entry of the directory `p`
pub record IsLeaf (c : Context) (p i : ℕ) : Type 0 where
  pub bound : i < clusters_count
  pub in_use : (c.fs i).type ≢ type_empty
  pub no_entries : (c.fs i).type ≡ type_directory → subnodes_count (c.fs i) ≡ 0
  pub no_parts : (c.fs i).type ≡ type_file → next_cluster (c.fs i) ≡ minus_one
  pub parent_bound : p < clusters_count
  pub parent_typed : (c.fs p).type ≡ type_directory
  pub listed : has i (entries (c.fs p)) ≡ true
  pub once : has i (erase_first i (entries (c.fs p))) ≡ false

-- what is left of the clusters, with `e` for the parent
abbrev pub unlinked : (ℕ → Cluster) → ℕ → ℕ → Cluster → ℕ → Cluster
unlinked fs p i e = put (put fs i (emptied (fs i))) p e

-- Where no statement of unlink faults, it succeeds.
unlink-steps :
    (fwrite : List Write → Write → Bool) (i p : ℕ) (c x y z w : Context) (s : Cluster) (a b : Code)
    → modify i emptied c ≡ done tt x
    → cluster i x ≡ done s x
    → s.parent ≡ p
    → remove_directory_subnode i x ≡ done tt y
    → flush_cluster fwrite i y ≡ done a z
    → flush_cluster fwrite p z ≡ done b w
    → unlink fwrite i c ≡ done call_sucess w
unfolding unlink
unlink-steps fwrite i p c x y z w s a b e₁ e₂ q e₃ e₄ e₅ = rw (e₁, e₂, e₃, e₄, q, e₅) refl

module _ (fwrite : List Write → Write → Bool) (c : Context) (p i : ℕ) (v : IsValid c)
    (leaf : IsLeaf c p i) where
  pub parent-ne : p ≢ i
  parent-ne q =
      let t = ap (λ a. (c.fs a).type) q in
      let n = ap (λ a. subnodes_count (c.fs a)) q in
      let some_entry = length-erase_first i (entries (c.fs p)) leaf.listed in
      let none_ = leaf.no_entries (sym t ∙ leaf.parent_typed) in
      let len : length (entries (c.fs p)) ≡ subnodes_count (c.fs p) = length-entries (c.fs p) in
      absurd (omega (arith, none_, len))

  pub parent_of : (c.fs i).parent ≡ p
  parent_of = (v.children p i leaf.parent_bound leaf.parent_typed leaf.listed).2

  pub weight-leaf : weight (c.fs i) ≡ 0
  weight-leaf = elim (Bool-cases ((c.fs i).type == type_directory)) [
    | inl d ↦
        let t = (==_iff (c.fs i).type type_directory).0 d in
        weight-directory (c.fs i) t ∙ leaf.no_entries t
    | inr other ↦ weight-other (c.fs i) (==_false (c.fs i).type type_directory other)
  ]

  -- The steps from the type on.
  pub unlink-done :
      (e : Cluster) × (ws : List Write) × (unlink fwrite i c
        ≡ done call_sucess (record c { fs_file = ws; fs = unlinked c.fs p i e }))
      × (entries e ≡ erase_first i (entries (c.fs p)))
      × SameHead (c.fs p) e
  unfolding unlink
  unlink-done =
      let s = emptied (c.fs i) in
      let x : Context = record c { fs = put c.fs i s } in
      let at : x.fs i ≡ s = put_self c.fs i s in
      let (e, run, erased, head) =
        remove_directory_subnode-at i p i (c.fs p) x (ap (λ (z : Cluster). z.parent) at ∙ parent_of)
          (ap (λ (z : Cluster). z.offset) at ∙ v.offsets i leaf.bound) (put-ne c.fs i p s parent-ne)
          leaf.bound leaf.parent_bound
          (omega (arith, count-le c p v leaf.parent_bound leaf.parent_typed)) leaf.listed in
      let y : Context = record c { fs = unlinked c.fs p i e } in
      let (code, ws, flush) = flush_cluster-done fwrite i y leaf.bound in
      let z : Context = record y { fs_file = ws } in
      let (code', ws', flush') = flush_cluster-done fwrite p z leaf.parent_bound in
      (
        e,
        ws',
        unlink-steps fwrite i p c x y z (record z { fs_file = ws' }) (x.fs i) code code'
            (modify-done i emptied c leaf.bound) (cluster-done i x leaf.bound)
            (ap (λ (z : Cluster). z.parent) at ∙ parent_of) run flush flush',
        erased,
        head,
      )

  pub rm-unlink : (n : ℕ) → rm fwrite (suc (suc n)) i c ≡ unlink fwrite i c
  unfolding rm empty_parts
  rm-unlink n =
      let used : ((c.fs i).type == type_empty) ≡ false =
        ==_ne (c.fs i).type type_empty leaf.in_use in
      rw (cluster-done i c leaf.bound, used)
        (elim (Bool-cases ((c.fs i).type == type_directory)) [
          | inl d ↦
              let t = (==_iff (c.fs i).type type_directory).0 d in
              let file : ((c.fs i).type == type_file) ≡ false =
                ==_ne (c.fs i).type type_file (λ z. omega arith) in
              rw (d, file, cluster-done i c leaf.bound, leaf.no_entries t) refl
          | inr other ↦ elim (Bool-cases ((c.fs i).type == type_file)) [
            | inl f ↦
                let t = (==_iff (c.fs i).type type_file).0 f in
                rw (other, f, cluster-done i c leaf.bound, leaf.no_parts t) refl
            | inr neither ↦ rw (other, neither) refl
          ]
        ])
