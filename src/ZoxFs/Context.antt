-- ===== src/ZoxFs/Context.antt =====
-- `struct fs_context_t` of lab7/include/zox-fs/zox-fs.h, the commands that run on one, and the
-- error codes of lab7/include/zox-fs/errors.h. A `cluster_t` always points into `_fs`, so it is
-- an index; NULL is `none`. Undefined behaviour is `fault`, and an endless loop is cut by fuel.
use spovm4_labs.Base.{ℕ, Bool, true, false, Option, none, some, List, ltb, ◌==◌, if◌then◌else◌}
use spovm4_labs.ZoxFs.Cluster.{Cluster}

pub data Code : Type 0 where
  call_sucess e_fs_full e_invalid_file_name e_not_exists e_duplicate e_flush_error e_open_file
        e_source_not_exists e_dest_not_exists :
      Code

-- FS_FILE_CLUSTERS_COUNT
abbrev pub clusters_count : ℕ
clusters_count = 20

-- One `fwrite` to the host file, with the position that `fseek` has set.
pub record Write : Type 0 where
  pub position : ℕ
  pub block : Cluster

-- The host file is known by the writes that succeeded, the last one first.
pub record Context : Type 0 where
  pub fs_file : List Write
  pub working_directory : ℕ
  pub fs : ℕ → Cluster

pub data Run (A : Type 0) : Type 0 where
  done : A → Context → Run A
  fault : Run A
  out_of_fuel : Run A

abbrev pub Cmd : Type 0 → Type 0
Cmd A = Context → Run A

abbrev pub pure : {A : Type 0} → A → Cmd A
pure = done

module _ {A B : Type 0} where
  abbrev pub and_then : Run A → (A → Cmd B) → Run B
  and_then (done a c) k = k a c
  and_then fault k = fault
  and_then out_of_fuel k = out_of_fuel

  infixl 5 ◌>>=◌ ◌>>◌
  abbrev pub ◌>>=◌ : Cmd A → (A → Cmd B) → Cmd B
  m >>= k = λ c. and_then (m c) k

  abbrev pub ◌>>◌ : Cmd A → Cmd B → Cmd B
  m >> n = m >>= λ _. n

abbrev pub undefined : {A : Type 0} → Cmd A
undefined _ = fault

-- what is done with a pointer that may be NULL
abbrev pub unless_null : {A : Type 0} → Option ℕ → Cmd A → (ℕ → Cmd A) → Cmd A
unless_null none on_null k = on_null
unless_null (some p) on_null k = k p

abbrev pub is_null : Option ℕ → Bool
is_null none = true
is_null (some p) = false

abbrev pub put : (ℕ → Cluster) → ℕ → Cluster → ℕ → Cluster
put f i c j = if j == i then c else f j

-- `cluster(context, i)` read, a fault out of bounds
unfoldable pub cluster : ℕ → Cmd Cluster
cluster i c = if ltb i clusters_count then done (c.fs i) c else fault

-- the same cluster written
unfoldable pub set_cluster : ℕ → Cluster → Cmd (Unit {0})
set_cluster i v c = if ltb i clusters_count then done tt (record c { fs = put c.fs i v }) else fault

abbrev pub working_directory : Cmd ℕ
working_directory c = done c.working_directory c

unfoldable pub set_working_directory : ℕ → Cmd (Unit {0})
set_working_directory i c = done tt (record c { working_directory = i })

-- a statement that writes one cluster's fields
unfoldable pub modify : ℕ → (Cluster → Cluster) → Cmd (Unit {0})
modify i f = do c ← cluster i; set_cluster i (f c)
