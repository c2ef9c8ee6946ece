-- ===== src/ZoxFs/Init.antt =====
-- `initialize_context` of lab7/src/zox-fs/zox-fs.c.
use spovm4_labs.Base.{
  ltb, ◌==◌, if◌then◌else◌, word_size, minus_one, ℕ, zero, suc, ◌*◌, ◌%◌, Bool, ◌&&◌, Option, none,
  some, List, [], ◌∷◌,
}
use spovm4_labs.ZoxFs.Cluster.{
  Cluster, cluster_size, type_directory, type_empty, set_subnodes_count,
}
use spovm4_labs.ZoxFs.Context.{clusters_count, Write, Context}

-- What opening the host file finds: `fopen(fname, "rb+")` fails, `fread` gets fewer bytes than the
-- clusters take, or it gets these clusters.
pub data HostFile : Type 0 where
  no_file : HostFile
  incomplete : HostFile
  holds : (ℕ → Cluster) → HostFile

unfoldable pub format_cluster : ℕ → Cluster → Cluster
format_cluster i c =
    if i == 0
    then set_subnodes_count
        (record c { offset = 0; type = type_directory; parent = minus_one; name = b'/' ∷ [] }) 0
    else record c { offset = i; type = type_empty }

-- the clusters of a new file system, in memory that held `garbage`
unfoldable pub format : (ℕ → Cluster) → ℕ → Cluster
format garbage i = if ltb i clusters_count then format_cluster i (garbage i) else garbage i

-- the one `fwrite` of all clusters, as one write for each
unfoldable pub write_all : ℕ → ℕ → (ℕ → Cluster) → List Write
write_all zero i fs = []
write_all (suc k) i fs =
    record { position = i * cluster_size % word_size; block = fs i } ∷ write_all k (suc i) fs

-- `created` is whether `fopen(fname, "wb")` succeeds, `written` whether the `fwrite` does. None is
-- NULL; a `malloc` that fails is not modelled.
unfoldable pub initialize_context : (ℕ → Cluster) → HostFile → Bool → Bool → Option Context
initialize_context garbage no_file created written =
    let fs = format garbage in
    if created && written
    then some (record { fs_file = write_all clusters_count 0 fs; working_directory = 0; fs = fs })
    else none
initialize_context garbage incomplete created written = none
initialize_context garbage (holds fs) created written =
    some (record { fs_file = write_all clusters_count 0 fs; working_directory = 0; fs = fs })
