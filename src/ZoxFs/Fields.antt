-- ===== src/ZoxFs/Fields.antt =====
-- How the readings of a cluster's union answer to its writes.
use spovm4_labs.Base.{ℕ, ◌+◌, ◌*◌, ◌<◌, ◌≡◌, ◌≢◌, inl, inr, List, arith, length, word_size}
use spovm4_labs.ZoxFs.Bytes.{
  AreBytes, load-store, load-store_apart, load-same, store-outside, write_bytes-outside,
  read_bytes-same, read_bytes-write_bytes, load-lt,
}
use spovm4_labs.ZoxFs.Cluster.{
  Cluster, subnodes_count, set_subnodes_count, subnode, set_subnode, bytes_used, set_bytes_used,
  next_cluster, set_next_cluster, file_data, set_file_data,
}

module _ (c : Cluster) where
  pub count-set_count : (n : ℕ) → n < word_size → subnodes_count (set_subnodes_count c n) ≡ n
  unfolding subnodes_count set_subnodes_count
  count-set_count n h = load-store 8 c.filler 0 n h

  pub subnode-set_count : (n i : ℕ) → subnode (set_subnodes_count c n) i ≡ subnode c i
  unfolding subnode set_subnodes_count
  subnode-set_count n i = load-store_apart 8 8 c.filler (8 + 8 * i) 0 n (inr (omega arith))

  pub count-set_subnode : (i o : ℕ) → subnodes_count (set_subnode c i o) ≡ subnodes_count c
  unfolding subnodes_count set_subnode
  count-set_subnode i o = load-store_apart 8 8 c.filler 0 (8 + 8 * i) o (inl (omega arith))

  pub subnode-set_self : (i o : ℕ) → o < word_size → subnode (set_subnode c i o) i ≡ o
  unfolding subnode set_subnode
  subnode-set_self i o h = load-store 8 c.filler (8 + 8 * i) o h

  pub subnode-set_ne : (i j o : ℕ) → i ≢ j → subnode (set_subnode c i o) j ≡ subnode c j
  unfolding subnode set_subnode
  subnode-set_ne i j o h = load-store_apart 8 8 c.filler (8 + 8 * j) (8 + 8 * i) o (ground arith)

  pub subnode-lt : (i : ℕ) → subnode c i < word_size
  unfolding subnode
  subnode-lt i = load-lt 8 c.filler (8 + 8 * i)

  pub count-lt : subnodes_count c < word_size
  unfolding subnodes_count
  count-lt = load-lt 8 c.filler 0

  pub next-set_next : (o : ℕ) → o < word_size → next_cluster (set_next_cluster c o) ≡ o
  unfolding next_cluster set_next_cluster
  next-set_next o h = load-store 8 c.filler 8 o h

  pub used-set_next : (o : ℕ) → bytes_used (set_next_cluster c o) ≡ bytes_used c
  unfolding bytes_used set_next_cluster
  used-set_next o = load-store_apart 8 8 c.filler 0 8 o (inl (omega arith))

  pub data-set_next : (o n : ℕ) → file_data (set_next_cluster c o) n ≡ file_data c n
  unfolding file_data set_next_cluster
  data-set_next o n =
      read_bytes-same n _ _ 16 (λ a l u. store-outside 8 c.filler 8 o a (inr (omega arith)))

  pub used-set_used : (n : ℕ) → n < word_size → bytes_used (set_bytes_used c n) ≡ n
  unfolding bytes_used set_bytes_used
  used-set_used n h = load-store 8 c.filler 0 n h

  pub next-set_used : (n : ℕ) → next_cluster (set_bytes_used c n) ≡ next_cluster c
  unfolding next_cluster set_bytes_used
  next-set_used n = load-store_apart 8 8 c.filler 8 0 n (inr (omega arith))

  pub data-set_used : (m n : ℕ) → file_data (set_bytes_used c m) n ≡ file_data c n
  unfolding file_data set_bytes_used
  data-set_used m n =
      read_bytes-same n _ _ 16 (λ a l u. store-outside 8 c.filler 0 m a (inr (omega arith)))

  pub next-set_data : (bs : List ℕ) → next_cluster (set_file_data c bs) ≡ next_cluster c
  unfolding next_cluster set_file_data
  next-set_data bs =
      load-same 8 _ _ 8 (λ a l u. write_bytes-outside bs c.filler 16 a (inl (omega arith)))

  pub used-set_data : (bs : List ℕ) → bytes_used (set_file_data c bs) ≡ bytes_used c
  unfolding bytes_used set_file_data
  used-set_data bs =
      load-same 8 _ _ 0 (λ a l u. write_bytes-outside bs c.filler 16 a (inl (omega arith)))

  pub data-set_data : (bs : List ℕ) → AreBytes bs → file_data (set_file_data c bs) (length bs) ≡ bs
  unfolding file_data set_file_data
  data-set_data bs h = read_bytes-write_bytes bs c.filler 16 h
