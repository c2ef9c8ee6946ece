-- ===== src/ZoxFs/Names.antt =====
-- `get_subnode` against a search of the directory's list of entries.
use spovm4_labs.Base.{
  ◌==◌, if◌then◌else◌, lt→ltb, ==_iff, ==_ne, Bool-cases, ℕ, zero, suc, ◌+◌, ◌≤◌, ◌<◌, ◌≡◌, refl,
  ◌≢◌, inl, inr, true, Option, none, some, List, [], ◌∷◌, ◌++◌, arith,
}
use spovm4_labs.Base.Text.{Text, str_eq, str_eq_refl, str_eq_sound, str_eq_iff}
use spovm4_labs.ZoxFs.Cluster.{Cluster, max_subnodes, type_directory, subnodes_count, subnode}
use spovm4_labs.ZoxFs.Context.{clusters_count, Context, done}
use spovm4_labs.ZoxFs.Directory.{fetch_subnode}
use spovm4_labs.ZoxFs.Entries.{entries_from, entries, has}
use spovm4_labs.ZoxFs.Lookup.{find_subnode, get_subnode}
use spovm4_labs.ZoxFs.Steps.{cluster-done}

-- the first of these clusters that has this name
unfoldable pub lookup_name : (ℕ → Cluster) → Text → List ℕ → Option ℕ
lookup_name fs name [] = none
lookup_name fs name (o ∷ os) = if str_eq (fs o).name name then some o else lookup_name fs name os

-- every offset in the list is that of a cluster
abbrev pub AllBelow : List ℕ → Type 0
AllBelow [] = Unit
AllBelow (o ∷ os) = (o < clusters_count) × AllBelow os

find_subnode-lookup :
    (k i directory : ℕ) (name : Text) (c : Context)
    → directory < clusters_count
    → i + k ≤ max_subnodes
    → AllBelow (entries_from (c.fs directory) i k)
    → find_subnode k i directory name c
      ≡ done (lookup_name c.fs name (entries_from (c.fs directory) i k)) c
unfolding find_subnode lookup_name entries_from fetch_subnode
find_subnode-lookup zero i directory name c hd room below = refl
find_subnode-lookup (suc k) i directory name c hd room below =
    let o = subnode (c.fs directory) i in
    rw (cluster-done directory c hd, lt→ltb i max_subnodes (omega arith), cluster-done o c below.0)
      (elim (Bool-cases (str_eq (c.fs o).name name)) [
        | inl same ↦ rw same
        | inr other ↦
            rw other (find_subnode-lookup k (suc i) directory name c hd (omega arith) below.1)
      ])

-- On a directory whose entries fit its array and are offsets of clusters, get_subnode returns the
-- first entry of the directory whose cluster has the name, or NULL if none has it.
pub get_subnode-lookup :
    (directory : ℕ) (name : Text) (c : Context)
    → directory < clusters_count
    → (c.fs directory).type ≡ type_directory
    → subnodes_count (c.fs directory) ≤ max_subnodes
    → AllBelow (entries (c.fs directory))
    → get_subnode directory name c ≡ done (lookup_name c.fs name (entries (c.fs directory))) c
unfolding get_subnode entries
get_subnode-lookup directory name c hd typed room below =
    let n = subnodes_count (c.fs directory) in
    rw
      (
        cluster-done directory c hd,
        (==_iff (c.fs directory).type type_directory).1 typed,
        lt→ltb n 0x8000_0000_0000_0000 (omega arith),
      )
      (find_subnode-lookup n 0 directory name c hd (omega arith) below)

-- On anything but a directory it returns NULL.
pub get_subnode-not_directory :
    (directory : ℕ) (name : Text) (c : Context)
    → directory < clusters_count
    → (c.fs directory).type ≢ type_directory
    → get_subnode directory name c ≡ done none c
unfolding get_subnode
get_subnode-not_directory directory name c hd other =
    rw (cluster-done directory c hd, ==_ne (c.fs directory).type type_directory other)

pub lookup_name-some :
    (fs : ℕ → Cluster) (name : Text) (os : List ℕ) (o : ℕ)
    → lookup_name fs name os ≡ some o
    → (has o os ≡ true) × ((fs o).name ≡ name)
unfolding lookup_name
lookup_name-some fs name [] o h = cc
lookup_name-some fs name (x ∷ os) o h = elim (Bool-cases (str_eq (fs x).name name)) [
  | inl same ↦ ground (arith, str_eq_sound (fs x).name name)
  | inr other ↦ ground (arith, lookup_name-some fs name os o)
]

pub lookup_name-none :
    (fs : ℕ → Cluster) (name : Text) (os : List ℕ) (o : ℕ)
    → lookup_name fs name os ≡ none
    → has o os ≡ true
    → (fs o).name ≢ name
unfolding lookup_name
lookup_name-none fs name [] o h m = cc
lookup_name-none fs name (x ∷ os) o h m = elim (Bool-cases (x == o)) [
  | inl here ↦ λ e. ground (arith, (str_eq_iff (fs x).name name).1)
  | inr there ↦ ground (arith, lookup_name-none fs name os o)
]

-- A name that is looked up in vain is found once its cluster is appended.
pub lookup_name-snoc :
    (fs : ℕ → Cluster) (name : Text) (os : List ℕ) (o : ℕ)
    → lookup_name fs name os ≡ none
    → (fs o).name ≡ name
    → lookup_name fs name (os ++ o ∷ []) ≡ some o
unfolding lookup_name
lookup_name-snoc fs name [] o h e = rw (e, str_eq_refl name)
lookup_name-snoc fs name (x ∷ os) o h e = elim (Bool-cases (str_eq (fs x).name name)) [
  | inl same ↦ ground arith
  | inr other ↦ rw other (lookup_name-snoc fs name os o (ground arith) e)
]

-- The search reads only the names of the clusters in the list.
pub lookup_name-same :
    (fs gs : ℕ → Cluster) (name : Text) (os : List ℕ)
    → ((o : ℕ) → has o os ≡ true → (gs o).name ≡ (fs o).name)
    → lookup_name gs name os ≡ lookup_name fs name os
unfolding lookup_name
lookup_name-same fs gs name [] h = refl
lookup_name-same fs gs name (x ∷ os) h =
    rw (h x (ground arith), lookup_name-same fs gs name os (λ o m. h o (ground arith)))
