-- ===== src/ZoxFs/Mkdir.antt =====
-- `zox_fs_mkdir` where nothing goes wrong.
pub mod Found
pub mod Refused
use spovm4_labs.Base.{
  length, lt→ltb, ==_ne, word_size, ℕ, ◌*◌, ◌%◌, ◌<◌, ◌≡◌, sym, ◌≢◌, Bool, true, none, some, List,
  [], ◌∷◌,
}
use spovm4_labs.Base.Text.{Text}
use spovm4_labs.ZoxFs.Cluster.{
  Cluster, cluster_size, max_subnodes, max_name_length, type_directory, type_empty, subnodes_count,
  set_subnodes_count,
}
use spovm4_labs.ZoxFs.Context.{call_sucess, clusters_count, Write, Context, done, put}
use spovm4_labs.ZoxFs.Create.{descend, create_under, create_from, create_cluster, zox_fs_mkdir}
use spovm4_labs.ZoxFs.Entries.{append_entry}
use spovm4_labs.ZoxFs.Entries.Links.{linked, add_directory_subnode-done}
use spovm4_labs.ZoxFs.Free.{free_from-some}
use spovm4_labs.ZoxFs.Lookup.{
  get_subnode, free_from, get_free_cluster, validate_file_name, path_tokens, start_at,
  flush_cluster,
}
use spovm4_labs.ZoxFs.Steps.{
  put_self, put-ne, put-put, cluster-done, modify-done, modify-again, modify-under,
}
use spovm4_labs.ZoxFs.Valid.Kept.{parent-ne, parent_room}
use spovm4_labs.ZoxFs.Valid.Made.{IsValid, made}

-- The host file takes every write.
abbrev pub Reliable : (List Write → Write → Bool) → Type 0
Reliable fwrite = (ws : List Write) (w : Write) → fwrite ws w ≡ true

flush_cluster-Reliable :
    (fwrite : List Write → Write → Bool) (i : ℕ) (c : Context)
    → Reliable fwrite
    → i < clusters_count
    → (ws : List Write) × (flush_cluster fwrite i c ≡ done call_sucess (record c { fs_file = ws }))
unfolding flush_cluster
flush_cluster-Reliable fwrite i c good h =
    let b = c.fs i in
    let w : Write = record { position = b.offset * cluster_size % word_size; block = b } in
    (w ∷ c.fs_file, rw (cluster-done i c h, good c.fs_file w))

-- `j` holding the new name, still marked empty, and linked under `p`
abbrev pub with_entry : (ℕ → Cluster) → ℕ → ℕ → Text → ℕ → Cluster
with_entry fs p j name =
    put (put fs j (record (fs j) { type = type_empty; parent = (fs p).offset; name = name })) p
      (append_entry (fs p) (fs j).offset)

linked-put :
    (fs : ℕ → Cluster) (p j : ℕ) (s : Cluster)
    → p ≢ j
    → linked (put fs j s) p j
      ≡ put (put fs j (record s { parent = (fs p).offset })) p (append_entry (fs p) s.offset)
linked-put fs p j s ne =
    rw (put_self fs j s, put-ne fs j p s ne, put-put fs j s (record s { parent = (fs p).offset }))

module _ (fwrite : List Write → Write → Bool) (good : Reliable fwrite) (c : Context) (p j : ℕ)
    (name : Text) (v : IsValid c) (hp : p < clusters_count) (typed : (c.fs p).type ≡ type_directory)
    (named : length name ≢ 0) (missing : get_subnode p name c ≡ done none c)
    (free : free_from clusters_count 0 c.fs ≡ some j) where
  create_under-done :
      (ws : List Write) × (create_under fwrite p name c
        ≡ done (call_sucess, some j) (record c { fs_file = ws; fs = with_entry c.fs p j name }))
  unfolding create_under get_free_cluster
  create_under-done =
      let (_, hj, empty) = free_from-some clusters_count 0 c.fs j free in
      let ne = parent-ne c p j name [] v hp typed hj empty in
      let s₁ = record (c.fs j) { name = name } in
      let s₂ = record s₁ { type = type_empty } in
      let x : Context = record c { fs = put c.fs j s₂ } in
      let y : Context = record c { fs = with_entry c.fs p j name } in
      let f = flush_cluster-Reliable fwrite j y good hj in
      let y' : Context = record y { fs_file = f.0 } in
      let g = flush_cluster-Reliable fwrite p y' good hp in
      let room : subnodes_count (put c.fs j s₂ p) < max_subnodes =
        rw (put-ne c.fs j p s₂ ne) (parent_room c p j name [] v hp typed hj empty) in
      (
        g.0,
        rw (
          ==_ne (length name) 0 named,
          missing,
          free,
          modify-done j (λ s. record s { name = name }) c hj,
          modify-again j (λ s. record s { type = type_empty }) c c.fs s₁ hj,
          add_directory_subnode-done p j x hp hj ne room,
          linked-put c.fs p j s₂ ne,
          f.1,
          g.1,
        ),
      )

  -- The path is one that `create_cluster` takes to the name under `p`.
  pub mkdir-made :
      (path first : Text) (rest : List Text)
      → validate_file_name path ≡ true
      → length path < max_name_length
      → path_tokens path ≡ first ∷ rest
      → descend (start_at path c.working_directory) first rest c ≡ done (some (p, name)) c
      → (ws : List Write) × (zox_fs_mkdir fwrite path c
          ≡ done call_sucess (record c { fs_file = ws; fs = made c.fs p j name }))
  unfolding zox_fs_mkdir create_cluster create_from
  mkdir-made path first rest valid short tokens way =
      let (_, hj, empty) = free_from-some clusters_count 0 c.fs j free in
      let ne = parent-ne c p j name [] v hp typed hj empty in
      let (ws, run) = create_under-done in
      let s = record (c.fs j) { type = type_empty; parent = (c.fs p).offset; name = name } in
      let d = append_entry (c.fs p) (c.fs j).offset in
      let s₁ = record s { type = type_directory } in
      let y : Context = record c { fs_file = ws; fs = made c.fs p j name } in
      let f = flush_cluster-Reliable fwrite j y good hj in
      (
        f.0,
        rw (
          valid,
          lt→ltb (length path) max_name_length short,
          tokens,
          way,
          run,
          modify-under j p (λ s. record s { type = type_directory }) (record c { fs_file = ws })
              c.fs s d hj (λ e. ne (sym e)),
          modify-under j p (λ s. set_subnodes_count s 0) (record c { fs_file = ws }) c.fs s₁ d hj
              (λ e. ne (sym e)),
          f.1,
        ),
      )
