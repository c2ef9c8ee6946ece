-- ===== src/ZoxFs/Blocks/Block.antt =====
-- One cluster of a file: what it holds, and that `load_blocks` and `used_data` write and read it.
-- `c` is a file's cluster that holds the bytes `bs` and points to `next`.
use spovm4_labs.Base.{
  length, le→leb, word_size, minus_one, ℕ, ◌≤◌, ◌<◌, ◌≡◌, refl, ◌∙◌, List, arith,
}
use spovm4_labs.ZoxFs.Bytes.{AreBytes}
use spovm4_labs.ZoxFs.Cluster.{
  Cluster, file_cluster_data_size, type_file, bytes_used, set_bytes_used, next_cluster,
  set_next_cluster, file_data, set_file_data,
}
use spovm4_labs.ZoxFs.Context.{Context, done}
use spovm4_labs.ZoxFs.Fields.{
  next-set_next, used-set_next, data-set_next, used-set_used, next-set_used, data-set_used,
  next-set_data, data-set_data,
}
use spovm4_labs.ZoxFs.Load.{used_data}

pub record IsBlock (c : Cluster) (bs : List ℕ) (next : ℕ) : Type 0 where
  pub typed : c.type ≡ type_file
  pub pointed : next_cluster c ≡ next
  pub used : bytes_used c ≡ length bs
  pub held : file_data c (length bs) ≡ bs

-- what a round of `load_blocks` makes of a free cluster
abbrev pub filled : Cluster → List ℕ → Cluster
filled s bs =
    set_bytes_used (set_file_data (set_next_cluster (record s { type = type_file }) minus_one) bs)
      (length bs)

type-set_next : (c : Cluster) (o : ℕ) → (set_next_cluster c o).type ≡ c.type
unfolding set_next_cluster
type-set_next c o = refl

pub filled-IsBlock :
    (s : Cluster) (bs : List ℕ)
    → AreBytes bs
    → length bs ≤ file_cluster_data_size
    → IsBlock (filled s bs) bs minus_one
filled-IsBlock s bs h l =
    let typed = record s { type = type_file } in
    let pointed = set_next_cluster typed minus_one in
    let held = set_file_data pointed bs in
    record {
      typed = unfold set_bytes_used set_file_data set_next_cluster in refl;
      pointed =
          next-set_used held (length bs)
          ∙ next-set_data pointed bs
          ∙ next-set_next typed minus_one (omega arith);
      used = used-set_used held (length bs) (omega arith);
      held = data-set_used held (length bs) (length bs) ∙ data-set_data pointed bs h;
    }

pub set_next-IsBlock :
    (c : Cluster) (bs : List ℕ) (next o : ℕ)
    → o < word_size
    → IsBlock c bs next
    → IsBlock (set_next_cluster c o) bs o
set_next-IsBlock c bs next o h b = record {
  typed = type-set_next c o ∙ b.typed;
  pointed = next-set_next c o h;
  used = used-set_next c o ∙ b.used;
  held = data-set_next c o (length bs) ∙ b.held;
}

pub used_data-IsBlock :
    (c : Cluster) (bs : List ℕ) (next : ℕ) (x : Context)
    → length bs ≤ file_cluster_data_size
    → IsBlock c bs next
    → used_data c x ≡ done bs x
unfolding used_data
used_data-IsBlock c bs next x h b = rw (b.used, le→leb (length bs) file_cluster_data_size h, b.held)
