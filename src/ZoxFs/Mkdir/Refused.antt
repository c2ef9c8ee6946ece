-- ===== src/ZoxFs/Mkdir/Refused.antt =====
-- What `zox_fs_mkdir` refuses, told by the tree of names.
use spovm4_labs.Base.{
  length, ◌==◌, if◌then◌else◌, lt→ltb, ==_ne, ==_iff, Bool-cases, Option-cases, ℕ, zero, suc, ◌+◌,
  ◌<◌, ◌≡◌, refl, sym, ap, ◌∙◌, ◌≢◌, ◌⊎◌, inl, inr, Bool, true, Option, none, some, List, [], ◌∷◌,
  arith,
}
use spovm4_labs.Base.Text.{Text}
use spovm4_labs.ZoxFs.Cluster.{Cluster, max_name_length, type_directory, type_empty}
use spovm4_labs.ZoxFs.Context.{
  Context, done, Code, e_fs_full, e_not_exists, e_duplicate, clusters_count, Write,
}
use spovm4_labs.ZoxFs.Create.{descend, create_under, create_from, create_cluster, zox_fs_mkdir}
use spovm4_labs.ZoxFs.Entries.{entries}
use spovm4_labs.ZoxFs.Lookup.{
  get_subnode, free_from, get_free_cluster, validate_file_name, path_tokens, start_at,
}
use spovm4_labs.ZoxFs.Names.{
  lookup_name, get_subnode-lookup, get_subnode-not_directory, lookup_name-some,
}
use spovm4_labs.ZoxFs.Valid.Made.{IsValid, count-le, all_below}

-- the cluster with a name in a directory; there is none in anything else
abbrev pub child_named : (ℕ → Cluster) → ℕ → Text → Option ℕ
child_named fs p name =
    if (fs p).type == type_directory then lookup_name fs name (entries (fs p)) else none

-- The directory that a path leads to and the last name of the path, none where a name on the way is
-- missing.
abbrev pub resolve : (ℕ → Cluster) → ℕ → Text → List Text → Option (ℕ × Text)
resolve fs p name [] = some (p, name)
resolve fs p name (t ∷ ts) = elim (child_named fs p name) [
  | none ↦ none
  | some d ↦ resolve fs d t ts
]

resolve-step :
    (fs : ℕ → Cluster) (p : ℕ) (name t : Text) (ts : List Text) {o : Option ℕ}
    → child_named fs p name ≡ o
    → resolve fs p name (t ∷ ts) ≡ elim o [ none ↦ none | some d ↦ resolve fs d t ts ]
resolve-step fs p name t ts e =
    ap (λ (o : Option ℕ). elim o [ none ↦ none | some d ↦ resolve fs d t ts ]) e

module _ (c : Context) (v : IsValid c) where
  get_subnode-child_named :
      (p : ℕ) (name : Text)
      → p < clusters_count
      → get_subnode p name c ≡ done (child_named c.fs p name) c
  get_subnode-child_named p name h = elim (Bool-cases ((c.fs p).type == type_directory)) [
    | inl typed ↦
        let t : (c.fs p).type ≡ type_directory = (==_iff (c.fs p).type type_directory).0 typed in
        rw typed (
          get_subnode-lookup p name c h t (omega (arith, count-le c p v h t))
            (all_below (entries (c.fs p)) (λ o m. (v.children p o h t m).0)))
    | inr other ↦ rw other (get_subnode-not_directory p name c h (λ e. ground (arith, e)))
  ]

  child_named-lt :
      (p : ℕ) (name : Text) (d : ℕ)
      → p < clusters_count
      → child_named c.fs p name ≡ some d
      → d < clusters_count
  child_named-lt p name d h e = elim (Bool-cases ((c.fs p).type == type_directory)) [
    | inl typed ↦
        let t : (c.fs p).type ≡ type_directory = (==_iff (c.fs p).type type_directory).0 typed in
        let found : lookup_name c.fs name (entries (c.fs p)) ≡ some d = ground (arith, e) in
        (v.children p d h t (lookup_name-some c.fs name (entries (c.fs p)) d found).0).0
    | inr other ↦ ground (arith, e)
  ]

  -- The loop of create_cluster follows the names.
  descend-resolve :
      (p : ℕ) (name : Text) (ts : List Text)
      → p < clusters_count
      → descend p name ts c ≡ done (resolve c.fs p name ts) c
  unfolding descend
  descend-resolve p name [] h = refl
  descend-resolve p name (t ∷ ts) h = elim (Option-cases (child_named c.fs p name)) [
    | inl missing ↦
        rw (get_subnode-child_named p name h ∙ ap (λ o. done o c) missing)
          (ap (λ r. done r c) (sym (resolve-step c.fs p name t ts missing)))
    | inr (d, found) ↦ rw (get_subnode-child_named p name h ∙ ap (λ o. done o c) found) (
        descend-resolve d t ts (child_named-lt p name d h found)
        ∙ ap (λ r. done r c) (sym (resolve-step c.fs p name t ts found)))
  ]

  resolve-lt :
      (p : ℕ) (name : Text) (ts : List Text) (q : ℕ) (last : Text)
      → p < clusters_count
      → resolve c.fs p name ts ≡ some (q, last)
      → q < clusters_count
  resolve-lt p name [] q last h e = let same : p ≡ q = cc in omega arith
  resolve-lt p name (t ∷ ts) q last h e = elim (Option-cases (child_named c.fs p name)) [
    | inl missing ↦ ground (arith, e, missing)
    | inr (d, found) ↦
        resolve-lt d t ts q last (child_named-lt p name d h found) (ground (arith, e, found))
  ]

  start_at-lt : (path : Text) → start_at path c.working_directory < clusters_count
  start_at-lt path = ground (arith, v.wd_bound)

free_from-full :
    (k i : ℕ) (fs : ℕ → Cluster)
    → ((j : ℕ) → j < i + k → (fs j).type ≢ type_empty)
    → free_from k i fs ≡ none
unfolding free_from
free_from-full zero i fs used = refl
free_from-full (suc k) i fs used =
    rw (==_ne (fs i).type type_empty (used i (omega arith)))
      (free_from-full k (suc i) fs (λ j l. used j (omega arith)))

module _ (fwrite : List Write → Write → Bool) (c : Context) (path first : Text) (rest : List Text)
    (v : IsValid c) (valid : validate_file_name path ≡ true) (short : length path < max_name_length)
    (tokens : path_tokens path ≡ first ∷ rest) where
  way :
      descend (start_at path c.working_directory) first rest c
      ≡ done (resolve c.fs (start_at path c.working_directory) first rest) c
  way = descend-resolve c v (start_at path c.working_directory) first rest (start_at-lt c v path)

  way_to :
      (o : Option (ℕ × Text))
      → resolve c.fs (start_at path c.working_directory) first rest ≡ o
      → descend (start_at path c.working_directory) first rest c ≡ done o c
  way_to o e = way ∙ ap (λ r. done r c) e

  -- On a well-formed context, for a valid and short path with a first token, zox_fs_mkdir changes
  -- nothing and returns E_NOT_EXISTS where a name on the way is that of no entry of the cluster
  -- before, which may be no directory at all; E_DUPLICATE where the path leads to a directory with
  -- an entry of its last name; and E_FS_FULL where it leads to a cluster without such an entry and
  -- every cluster is in use. In the last two cases the last name is not empty.
  pub zox_fs_mkdir-refused :
      (code : Code)
      → ((resolve c.fs (start_at path c.working_directory) first rest ≡ none)
          × (code ≡ e_not_exists))
        ⊎ ((p o : ℕ) × (name : Text) × (resolve c.fs (start_at path c.working_directory) first rest
              ≡ some (p, name))
            × (length name ≢ 0)
            × (child_named c.fs p name ≡ some o)
            × (code ≡ e_duplicate))
        ⊎ ((p : ℕ) × (name : Text) × (resolve c.fs (start_at path c.working_directory) first rest
              ≡ some (p, name))
            × (length name ≢ 0)
            × (child_named c.fs p name ≡ none)
            × ((i : ℕ) → i < clusters_count → (c.fs i).type ≢ type_empty)
            × (code ≡ e_fs_full))
      → zox_fs_mkdir fwrite path c ≡ done code c
  unfolding zox_fs_mkdir create_cluster create_from create_under get_free_cluster
  zox_fs_mkdir-refused code cases =
      let small = lt→ltb (length path) max_name_length short in
      let from : ℕ = start_at path c.working_directory in
      elim cases [
        | inl (missing, e) ↦ rw (valid, small, tokens, way_to none missing, e) refl
        | inr (inl (p, o, name, leads, named, found, e)) ↦
            let h = resolve-lt c v from first rest p name (start_at-lt c v path) leads in
            let old = get_subnode-child_named c v p name h ∙ ap (λ r. done r c) found in
            rw
              (
                valid,
                small,
                tokens,
                way_to (some (p, name)) leads,
                ==_ne (length name) 0 named,
                old,
                e,
              )
              refl
        | inr (inr (p, name, leads, named, missing, used, e)) ↦
            let h = resolve-lt c v from first rest p name (start_at-lt c v path) leads in
            let old = get_subnode-child_named c v p name h ∙ ap (λ r. done r c) missing in
            rw
              (
                valid,
                small,
                tokens,
                way_to (some (p, name)) leads,
                ==_ne (length name) 0 named,
                old,
                free_from-full clusters_count 0 c.fs (λ j l. used j (omega arith)),
                e,
              )
              refl
      ]
