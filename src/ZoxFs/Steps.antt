-- ===== src/ZoxFs/Steps.antt =====
-- What the basic commands do where no fault stops them.
use spovm4_labs.Base.{
  ℕ, ◌<◌, ◌≡◌, ◌≢◌, inl, inr, Bool, List, ◌∷◌, arith, ◌*◌, ◌%◌, word_size, lt→ltb, Bool-cases,
}
use mathlib.Core.Path.{fun_ext}
use spovm4_labs.ZoxFs.Cluster.{Cluster, cluster_size}
use spovm4_labs.ZoxFs.Context.{
  Code, call_sucess, e_flush_error, Write, clusters_count, Context, done, put, cluster, set_cluster,
  modify,
}
use spovm4_labs.ZoxFs.Lookup.{flush_cluster}

pub put_self : (f : ℕ → Cluster) (i : ℕ) (v : Cluster) → put f i v i ≡ v
put_self f i v = ground arith

pub put-at : (f : ℕ → Cluster) (i j : ℕ) (v : Cluster) → i ≡ j → put f j v i ≡ v
put-at f i j v h = ground arith

pub put-ne : (f : ℕ → Cluster) (i j : ℕ) (v : Cluster) → j ≢ i → put f i v j ≡ f j
put-ne f i j v h = ground arith

pub put-put : (f : ℕ → Cluster) (i : ℕ) (v w : Cluster) → put (put f i v) i w ≡ put f i w
put-put f i v w = fun_ext λ j. ground arith

pub put_comm :
    (f : ℕ → Cluster) (i j : ℕ) (v w : Cluster) → i ≢ j → put (put f i v) j w ≡ put (put f j w) i v
put_comm f i j v w h = fun_ext λ a. ground arith

pub cluster-done : (i : ℕ) (c : Context) → i < clusters_count → cluster i c ≡ done (c.fs i) c
unfolding cluster
cluster-done i c h = rw (lt→ltb i clusters_count h)

pub set_cluster-done :
    (i : ℕ) (v : Cluster) (c : Context)
    → i < clusters_count
    → set_cluster i v c ≡ done tt (record c { fs = put c.fs i v })
unfolding set_cluster
set_cluster-done i v c h = rw (lt→ltb i clusters_count h)

pub modify-done :
    (i : ℕ) (f : Cluster → Cluster) (c : Context)
    → i < clusters_count
    → modify i f c ≡ done tt (record c { fs = put c.fs i (f (c.fs i)) })
unfolding modify
modify-done i f c h = rw (cluster-done i c h) (set_cluster-done i (f (c.fs i)) c h)

-- Two statements that write one cluster write it once.
pub modify-again :
    (i : ℕ) (f : Cluster → Cluster) (c : Context) (fs : ℕ → Cluster) (v : Cluster)
    → i < clusters_count
    → modify i f (record c { fs = put fs i v }) ≡ done tt (record c { fs = put fs i (f v) })
modify-again i f c fs v h = rw (modify-done i f (record c { fs = put fs i v }) h, put_self, put-put)

-- So they do with a write to another cluster between them.
pub modify-under :
    (i j : ℕ) (f : Cluster → Cluster) (c : Context) (fs : ℕ → Cluster) (v w : Cluster)
    → i < clusters_count
    → i ≢ j
    → modify i f (record c { fs = put (put fs i v) j w })
      ≡ done tt (record c { fs = put (put fs i (f v)) j w })
modify-under i j f c fs v w h ne =
    rw (put_comm fs i j v w ne, modify-again i f c (put fs j w) v h, ← put_comm fs i j (f v) w ne)

-- A flush changes nothing but the host file.
pub flush_cluster-done :
    (fwrite : List Write → Write → Bool) (i : ℕ) (c : Context)
    → i < clusters_count
    → (code : Code) × (ws : List Write) × (flush_cluster fwrite i c
        ≡ done code (record c { fs_file = ws }))
unfolding flush_cluster
flush_cluster-done fwrite i c h =
    let b = c.fs i in
    let w : Write = record { position = b.offset * cluster_size % word_size; block = b } in
    rw (cluster-done i c h) (elim (Bool-cases (fwrite c.fs_file w)) [
      | inl good ↦ (call_sucess, w ∷ c.fs_file, rw good)
      | inr bad ↦ (e_flush_error, c.fs_file, rw bad)
    ])
