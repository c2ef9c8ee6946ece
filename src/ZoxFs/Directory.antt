-- ===== src/ZoxFs/Directory.antt =====
-- The entries of a directory: `add_direcotory_subnode` and `remove_direcotory_subnode` of
-- lab7/src/zox-fs/cluster.c.
use spovm4_labs.Base.{
  ℕ, zero, suc, Option, none, some, ltb, ◌==◌, if◌then◌else◌, rounds, add_word, sub_word,
}
use spovm4_labs.ZoxFs.Cluster.{
  Cluster, subnodes_count, set_subnodes_count, subnode, set_subnode, max_subnodes,
}
use spovm4_labs.ZoxFs.Context.{Cmd, undefined, ◌>>=◌, ◌>>◌, cluster, set_cluster, modify}

-- Stores to `subnodes[i]` past the array are faults.
unfoldable pub store_subnode : ℕ → ℕ → Cluster → Option Cluster
store_subnode i o d = if ltb i max_subnodes then some (set_subnode d i o) else none

unfoldable pub fetch_subnode : ℕ → Cluster → Option ℕ
fetch_subnode i d = if ltb i max_subnodes then some (subnode d i) else none

-- a partial update of one cluster
unfoldable pub update : ℕ → (Cluster → Option Cluster) → Cmd (Unit {0})
update i f = do d ← cluster i; elim (f d) [ none ↦ undefined | some d' ↦ set_cluster i d' ]

unfoldable pub add_directory_subnode : ℕ → ℕ → Cmd (Unit {0})
add_directory_subnode directory sub = do
  d ← cluster directory
  modify sub (λ s. record s { parent = d.offset })
  s ← cluster sub
  update directory (λ d. store_subnode (subnodes_count d) s.offset d)
  modify directory (λ d. set_subnodes_count d (add_word (subnodes_count d) 1))

-- `for (j = i; j < count - 1; j++) subnodes[j] = subnodes[j + 1]`, with the rounds left
unfoldable pub shift_left : ℕ → ℕ → Cluster → Option Cluster
shift_left zero j d = some d
shift_left (suc k) j d =
    if ltb (suc j) max_subnodes
    then shift_left k (suc j) (set_subnode d j (subnode d (suc j)))
    else none

-- the search for `o` among the entries from `i` on, with the rounds left, and the shift at the hit
unfoldable pub remove_entry : ℕ → ℕ → ℕ → Cluster → Option Cluster
unfolding shift_left
remove_entry zero i o d = some d
remove_entry (suc k) i o d =
    if ltb i max_subnodes
    then if subnode d i == o then shift_left k i d else remove_entry k (suc i) o d
    else none

unfoldable pub remove_directory_subnode : ℕ → Cmd (Unit {0})
remove_directory_subnode sub = do
  s ← cluster sub
  let directory = s.parent
  update directory (λ d. remove_entry (rounds (subnodes_count d)) 0 s.offset d)
  modify directory (λ d. set_subnodes_count d (sub_word (subnodes_count d) 1))
