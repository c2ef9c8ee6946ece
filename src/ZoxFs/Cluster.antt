-- ===== src/ZoxFs/Cluster.antt =====
-- `struct cluster_t` of lab7/include/zox-fs/cluster.h. The union is the memory behind `name`: a
-- file's `bytes_used`, `next_cluster` and `data` and a directory's `subnodes_count` and `subnodes`
-- are readings of the same bytes.
use spovm4_labs.Base.{ℕ, ◌+◌, ◌*◌, List}
use spovm4_labs.Base.Text.{Text}
use spovm4_labs.ZoxFs.Bytes.{Memory, load, store, read_bytes, write_bytes}

pub record Cluster : Type 0 where
  pub type : ℕ
  pub parent : ℕ
  pub offset : ℕ
  pub name : Text
  pub filler : Memory

abbrev pub cluster_size : ℕ
cluster_size = 4096

-- sizeof(int) + 2 * sizeof(long) + MAX_NAME_LENGTH is 100, which leaves 3996 bytes to the union
abbrev pub file_cluster_data_size : ℕ
file_cluster_data_size = 3980

abbrev pub max_subnodes : ℕ
max_subnodes = 498

abbrev pub max_name_length : ℕ
max_name_length = 80

abbrev pub type_directory : ℕ
type_directory = 1

abbrev pub type_file : ℕ
type_file = 2

abbrev pub type_empty : ℕ
type_empty = 3

-- `directory.subnodes_count`
unfoldable pub subnodes_count : Cluster → ℕ
subnodes_count c = load 8 c.filler 0

unfoldable pub set_subnodes_count : Cluster → ℕ → Cluster
set_subnodes_count c n = record c { filler = store 8 c.filler 0 n }

-- `directory.subnodes[i]`
unfoldable pub subnode : Cluster → ℕ → ℕ
subnode c i = load 8 c.filler (8 + 8 * i)

unfoldable pub set_subnode : Cluster → ℕ → ℕ → Cluster
set_subnode c i o = record c { filler = store 8 c.filler (8 + 8 * i) o }

-- `file.bytes_used` lies on `directory.subnodes_count`
unfoldable pub bytes_used : Cluster → ℕ
bytes_used c = load 8 c.filler 0

unfoldable pub set_bytes_used : Cluster → ℕ → Cluster
set_bytes_used c n = record c { filler = store 8 c.filler 0 n }

-- `file.next_cluster` lies on `directory.subnodes[0]`
unfoldable pub next_cluster : Cluster → ℕ
next_cluster c = load 8 c.filler 8

unfoldable pub set_next_cluster : Cluster → ℕ → Cluster
set_next_cluster c o = record c { filler = store 8 c.filler 8 o }

-- the first `n` bytes of `file.data`
unfoldable pub file_data : Cluster → ℕ → List ℕ
file_data c n = read_bytes c.filler 16 n

unfoldable pub set_file_data : Cluster → List ℕ → Cluster
set_file_data c bs = record c { filler = write_bytes c.filler 16 bs }
