-- ===== src/ZoxFs/Witnesses.antt =====
-- The theorems at a small tree.
use spovm4_labs.Base.{
  length, ◌==◌, if◌then◌else◌, ℕ, zero, suc, ◌-◌, ◌<◌, ◌≡◌, refl, ap, ◌≢◌, inl, inr, true, none,
  some, List, [], ◌∷◌, ◌++◌, arith,
}
use spovm4_labs.Base.Text.{str_eq, strtok, codes}
use spovm4_labs.ZoxFs.Blocks.Overflow.{load_into-fault}
use spovm4_labs.ZoxFs.Blocks.Whole.{load_into-extract}
use spovm4_labs.ZoxFs.Bytes.{load, store}
use spovm4_labs.ZoxFs.Cluster.{
  file_cluster_data_size, type_directory, type_file, type_empty, subnodes_count, set_subnodes_count,
  subnode, set_subnode,
}
use spovm4_labs.ZoxFs.Context.{
  Context, done, fault, call_sucess, e_duplicate, clusters_count, cluster,
}
use spovm4_labs.ZoxFs.Create.{descend, zox_fs_mkdir}
use spovm4_labs.ZoxFs.Entries.{entries_from, entries, erase_first}
use spovm4_labs.ZoxFs.Init.{no_file, format_cluster, format, initialize_context}
use spovm4_labs.ZoxFs.Load.{load_into, extract_blocks}
use spovm4_labs.ZoxFs.Lookup.{find_subnode, get_subnode, free_from, validate_file_name, path_tokens}
use spovm4_labs.ZoxFs.Mkdir.{Reliable}
use spovm4_labs.ZoxFs.Mkdir.Found.{zox_fs_mkdir-creates}
use spovm4_labs.ZoxFs.Mkdir.Refused.{zox_fs_mkdir-refused}
use spovm4_labs.ZoxFs.Names.{lookup_name, get_subnode-lookup}
use spovm4_labs.ZoxFs.Remove.{rm}
use spovm4_labs.ZoxFs.Shell.{World}
use spovm4_labs.ZoxFs.Shell.Command.{run_command}
use spovm4_labs.ZoxFs.Shell.Requests.{Request, line, answer, run_command-line}
use spovm4_labs.ZoxFs.Size.{count_empty}
use spovm4_labs.ZoxFs.Tests.{garbage, fresh, disk}
use spovm4_labs.ZoxFs.Unlink.{IsLeaf}
use spovm4_labs.ZoxFs.Unlink.Kept.{rm-unlinks}
use spovm4_labs.ZoxFs.Valid.Format.{format-count, format-IsValid, initialize_context-new}
use spovm4_labs.ZoxFs.Valid.Kept.{made-IsValid}
use spovm4_labs.ZoxFs.Valid.Made.{IsValid, made}

fresh-IsValid : IsValid fresh
fresh-IsValid = format-IsValid garbage []

fresh-Reliable : Reliable disk
fresh-Reliable ws w = refl

-- `fresh` with a directory
abbrev one : Context
one = record { fs_file = []; working_directory = 0; fs = made fresh.fs 0 1 (codes "tmp") }

one-IsValid : IsValid one
unfolding format format_cluster set_subnodes_count
one-IsValid =
    made-IsValid fresh 0 1 (codes "tmp") [] fresh-IsValid (omega arith) refl (omega arith) refl

-- all clusters but the second are taken
abbrev crowded : Context
crowded = record {
  fs_file = [];
  working_directory = 0;
  fs = λ i. record (fresh.fs i) { type = if i == 1 then type_empty else type_file };
}

abbrev zeros : ℕ → List ℕ
zeros zero = []
zeros (suc n) = 0 ∷ zeros n

length-zeros : (n : ℕ) → length (zeros n) ≡ n
length-zeros zero = refl
length-zeros (suc n) = ap (λ a. suc a) (length-zeros n)

initialize_context-new_example :
    (c : Context) × (initialize_context garbage no_file true true ≡ some c)
    × IsValid c
    × (c.working_directory ≡ 0)
    × (entries (c.fs 0) ≡ [])
    × ((i : ℕ) → i < clusters_count → i ≢ 0 → (c.fs i).type ≡ type_empty)
    × (count_empty clusters_count 0 c.fs ≡ clusters_count - 1)
initialize_context-new_example = initialize_context-new garbage

zox_fs_mkdir-creates_example :
    (c' : Context) × (zox_fs_mkdir disk (codes "/tmp") fresh ≡ done call_sucess c')
    × (get_subnode 0 (codes "tmp") c' ≡ done (some 1) c')
    × (entries (c'.fs 0) ≡ entries (fresh.fs 0) ++ 1 ∷ [])
    × ((c'.fs 1).type ≡ type_directory)
    × (entries (c'.fs 1) ≡ [])
    × (count_empty clusters_count 0 fresh.fs ≡ suc (count_empty clusters_count 0 c'.fs))
    × ((i : ℕ) → i ≢ 0 → i ≢ 1 → c'.fs i ≡ fresh.fs i)
    × IsValid c'
unfolding validate_file_name path_tokens descend get_subnode free_from format format_cluster strtok
    set_subnodes_count cluster find_subnode subnodes_count load store
zox_fs_mkdir-creates_example =
    zox_fs_mkdir-creates disk fresh (codes "/tmp") (codes "tmp") [] 0 1 (codes "tmp") fresh-Reliable
      fresh-IsValid refl (omega arith) refl refl (omega arith) refl (omega arith) refl refl

load_into-extract_example :
    (c' : Context) × (load_into disk 1 (7 ∷ 8 ∷ []) fresh ≡ done call_sucess c')
    × (extract_blocks (suc clusters_count) 1 c' ≡ done (7 ∷ 8 ∷ []) c')
    × ((i : ℕ) → i < clusters_count → (fresh.fs i).type ≢ type_empty → c'.fs i ≡ fresh.fs i)
unfolding format format_cluster
load_into-extract_example =
    load_into-extract disk 1 (7 ∷ 8 ∷ []) fresh (omega arith) fresh-IsValid.offsets refl
      (omega arith, (omega arith, tt)) (omega (arith, format-count garbage))

load_into-fault_example : load_into disk 1 (zeros file_cluster_data_size) crowded ≡ fault
unfolding count_empty
load_into-fault_example =
    load_into-fault disk 1 (zeros file_cluster_data_size) crowded (omega arith) refl
      (length-zeros file_cluster_data_size)

get_subnode-lookup_example :
    get_subnode 0 (codes "tmp") one
    ≡ done (lookup_name one.fs (codes "tmp") (entries (one.fs 0))) one
unfolding entries entries_from set_subnodes_count format format_cluster subnodes_count load store
    set_subnode subnode
get_subnode-lookup_example =
    get_subnode-lookup 0 (codes "tmp") one (omega arith) refl (omega arith) (omega arith, tt)

abbrev world : World
world = record { fwrite = disk; file = λ t. none; creatable = λ t. true; stale = [] }

run_command-line_example :
    run_command world (line (Request.move_file (codes "/a/f") (codes "g")))
    ≡ answer world (Request.move_file (codes "/a/f") (codes "g"))
run_command-line_example =
    run_command-line world (Request.move_file (codes "/a/f") (codes "g")) (refl, (refl, (refl, tt)))

zox_fs_mkdir-refused_example : zox_fs_mkdir disk (codes "/tmp") one ≡ done e_duplicate one
unfolding validate_file_name path_tokens format format_cluster strtok set_subnodes_count
    subnodes_count load store set_subnode subnode str_eq lookup_name entries entries_from
zox_fs_mkdir-refused_example =
    zox_fs_mkdir-refused disk one (codes "/tmp") (codes "tmp") [] one-IsValid refl (omega arith)
      refl e_duplicate (inr (inl (0, 1, codes "tmp", refl, (λ e. omega arith), refl, refl)))

one-IsLeaf : IsLeaf one 0 1
unfolding format format_cluster set_subnodes_count subnodes_count set_subnode erase_first load store
    entries entries_from subnode
one-IsLeaf = record {
  bound = omega arith;
  in_use = λ e. omega arith;
  no_entries = λ e. refl;
  no_parts = λ e. absurd (omega (arith, e));
  parent_bound = omega arith;
  parent_typed = refl;
  listed = refl;
  once = refl;
}

rm-unlinks_example :
    (c' : Context) × (rm disk 2 1 one ≡ done call_sucess c')
    × ((c'.fs 1).type ≡ type_empty)
    × (entries (c'.fs 0) ≡ erase_first 1 (entries (one.fs 0)))
    × (count_empty clusters_count 0 c'.fs ≡ suc (count_empty clusters_count 0 one.fs))
    × ((a : ℕ) → a ≢ 0 → a ≢ 1 → c'.fs a ≡ one.fs a)
    × IsValid c'
rm-unlinks_example =
    rm-unlinks disk one 0 1 0 one-IsValid one-IsLeaf (λ e. omega arith) (λ e. omega arith)
