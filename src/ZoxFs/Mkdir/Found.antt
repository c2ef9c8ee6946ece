-- ===== src/ZoxFs/Mkdir/Found.antt =====
-- What `zox_fs_mkdir` promises: the new directory is found, nothing else changes, and its refusals
-- change nothing.
use spovm4_labs.Base.{
  length, ℕ, suc, ◌<◌, ◌≡◌, sym, ap, ◌∙◌, ◌≢◌, Bool, true, none, some, List, [], ◌∷◌, ◌++◌, arith,
}
use spovm4_labs.Base.Text.{Text}
use spovm4_labs.ZoxFs.Cluster.{Cluster, max_name_length, type_directory, set_subnodes_count}
use spovm4_labs.ZoxFs.Context.{call_sucess, clusters_count, Write, Context, done}
use spovm4_labs.ZoxFs.Create.{descend, zox_fs_mkdir}
use spovm4_labs.ZoxFs.Entries.{entries}
use spovm4_labs.ZoxFs.Free.{free_from-some}
use spovm4_labs.ZoxFs.Lookup.{get_subnode, free_from, validate_file_name, path_tokens, start_at}
use spovm4_labs.ZoxFs.Mkdir.{Reliable, mkdir-made}
use spovm4_labs.ZoxFs.Names.{
  lookup_name, AllBelow, get_subnode-lookup, lookup_name-snoc, lookup_name-same,
}
use spovm4_labs.ZoxFs.Size.{count_empty}
use spovm4_labs.ZoxFs.Valid.Kept.{parent-ne, made-entries, new-entries, made-typed, made-IsValid}
use spovm4_labs.ZoxFs.Valid.Made.{
  IsValid, count-le, all_below, made, made-new, made-other, made-SameHead, made-count,
}

done-injective : {A : Type 0} (a b : A) (c : Context) → done a c ≡ done b c → a ≡ b
done-injective a b c h = cc

module _ (c : Context) (p j : ℕ) (name : Text) (ws : List Write) (v : IsValid c)
    (hp : p < clusters_count) (typed : (c.fs p).type ≡ type_directory)
    (absent : get_subnode p name c ≡ done none c)
    (free : free_from clusters_count 0 c.fs ≡ some j) where
  directory_entries : AllBelow (entries (c.fs p))
  directory_entries = all_below (entries (c.fs p)) (λ o m. (v.children p o hp typed m).0)

  name_absent : lookup_name c.fs name (entries (c.fs p)) ≡ none
  name_absent = done-injective _ _ c (
      sym (
        get_subnode-lookup p name c hp typed (omega (arith, count-le c p v hp typed))
          directory_entries)
      ∙ absent)

  made-found :
      let c' : Context = record c { fs_file = ws; fs = made c.fs p j name } in
      get_subnode p name c' ≡ done (some j) c'
  made-found =
      let (_, hj, empty) = free_from-some clusters_count 0 c.fs j free in
      let ne = parent-ne c p j name ws v hp typed hj empty in
      let fs' = made c.fs p j name in
      let c' : Context = record c { fs_file = ws; fs = fs' } in
      let v' = made-IsValid c p j name ws v hp typed hj empty in
      let typed' = made-typed c p j name ws v hp typed hj empty p typed in
      let listed = made-entries c p j name ws v hp typed hj empty in
      let kept : lookup_name fs' name (entries (c.fs p)) ≡ none =
        lookup_name-same c.fs fs' name (entries (c.fs p)) (λ o m.
          ap (λ (s : Cluster). s.name)
            (made-SameHead c.fs p j name ne o
              (λ e. (v.children p o hp typed m).1 (ap (λ a. (c.fs a).type) e ∙ empty))))
        ∙ name_absent in
      get_subnode-lookup p name c' hp typed' (omega (arith, count-le c' p v' hp typed'))
        (all_below (entries (fs' p)) (λ o m. (v'.children p o hp typed' m).0))
      ∙ ap (λ r. done r c')
          (ap (lookup_name fs' name) listed
            ∙ lookup_name-snoc fs' name (entries (c.fs p)) j kept (
                unfold set_subnodes_count in
                ap (λ (s : Cluster). s.name) (made-new c.fs p j name ne)))

-- Where the host file takes every write and the path leads to a free name under the directory p of
-- a well-formed context, zox_fs_mkdir succeeds: the first free cluster j is found under the name,
-- it is the last entry of p and an empty directory, one cluster less is free, all clusters but p
-- and j are as before, and the context stays well formed.
pub zox_fs_mkdir-creates :
    (fwrite : List Write → Write → Bool) (c : Context) (path first : Text) (rest : List Text)
    (p j : ℕ) (name : Text)
    → Reliable fwrite
    → IsValid c
    → validate_file_name path ≡ true
    → length path < max_name_length
    → path_tokens path ≡ first ∷ rest
    → descend (start_at path c.working_directory) first rest c ≡ done (some (p, name)) c
    → p < clusters_count
    → (c.fs p).type ≡ type_directory
    → length name ≢ 0
    → get_subnode p name c ≡ done none c
    → free_from clusters_count 0 c.fs ≡ some j
    → (c' : Context) × (zox_fs_mkdir fwrite path c ≡ done call_sucess c')
      × (get_subnode p name c' ≡ done (some j) c')
      × (entries (c'.fs p) ≡ entries (c.fs p) ++ j ∷ [])
      × ((c'.fs j).type ≡ type_directory)
      × (entries (c'.fs j) ≡ [])
      × (count_empty clusters_count 0 c.fs ≡ suc (count_empty clusters_count 0 c'.fs))
      × ((i : ℕ) → i ≢ p → i ≢ j → c'.fs i ≡ c.fs i)
      × IsValid c'
zox_fs_mkdir-creates fwrite c path first rest p j name good v valid small tokens way hp typed named
      absent free =
    let (_, hj, empty) = free_from-some clusters_count 0 c.fs j free in
    let (ws, run) =
      mkdir-made fwrite good c p j name v hp typed named absent free path first rest valid small
        tokens way in
    let ne = parent-ne c p j name ws v hp typed hj empty in
    (
      record c { fs_file = ws; fs = made c.fs p j name },
      run,
      made-found c p j name ws v hp typed absent free,
      made-entries c p j name ws v hp typed hj empty,
      unfold set_subnodes_count in ap (λ (s : Cluster). s.type) (made-new c.fs p j name ne),
      new-entries c p j name ws v hp typed hj empty,
      made-count c.fs p j name ne hj hp empty typed,
      made-other c.fs p j name ne,
      made-IsValid c p j name ws v hp typed hj empty,
    )
