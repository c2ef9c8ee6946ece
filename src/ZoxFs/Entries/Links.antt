-- ===== src/ZoxFs/Entries/Links.antt =====
-- `add_direcotory_subnode` and `remove_direcotory_subnode` on a context.
-- The clusters after `sub` has been added to the entries of `directory`.
use spovm4_labs.Base.{
  lt→ltb, add_word, sub_word, rounds, ℕ, ◌-◌, ◌≤◌, ◌<◌, ◌≡◌, ap, ◌∙◌, ◌≢◌, true, Option, some,
  arith,
}
use spovm4_labs.ZoxFs.Bytes.{store}
use spovm4_labs.ZoxFs.Cluster.{
  Cluster, max_subnodes, subnodes_count, set_subnodes_count, set_subnode,
}
use spovm4_labs.ZoxFs.Context.{clusters_count, Context, done, put}
use spovm4_labs.ZoxFs.Directory.{
  store_subnode, update, add_directory_subnode, remove_entry, remove_directory_subnode,
}
use spovm4_labs.ZoxFs.Entries.{entries, erase_first, has, entries_from-same, append_entry}
use spovm4_labs.ZoxFs.Entries.Shift.{SameHead, pos_of_has, remove_entry-Erased}
use spovm4_labs.ZoxFs.Fields.{count-set_count, subnode-set_count}
use spovm4_labs.ZoxFs.Steps.{
  put_self, put-ne, cluster-done, set_cluster-done, modify-done, modify-again,
}

abbrev pub linked : (ℕ → Cluster) → ℕ → ℕ → ℕ → Cluster
linked fs directory sub =
    put (put fs sub (record (fs sub) { parent = (fs directory).offset })) directory
      (append_entry (fs directory) (fs sub).offset)

update-done :
    (i : ℕ) (f : Cluster → Option Cluster) (c : Context) (e : Cluster)
    → i < clusters_count
    → f (c.fs i) ≡ some e
    → update i f c ≡ done tt (record c { fs = put c.fs i e })
unfolding update
update-done i f c e h q = rw (cluster-done i c h, q) (set_cluster-done i e c h)

store_subnode-some :
    (i o : ℕ) (d : Cluster) → i < max_subnodes → store_subnode i o d ≡ some (set_subnode d i o)
unfolding store_subnode
store_subnode-some i o d h = rw (lt→ltb i max_subnodes h)

SameHead-set_count : (d e : Cluster) (n : ℕ) → SameHead d e → SameHead d (set_subnodes_count e n)
unfolding set_subnodes_count
SameHead-set_count d e n h = ap (λ (x : Cluster). record x { filler = store 8 e.filler 0 n }) h

-- Adding `sub` to a directory that has room stores its offset and sets its parent.
pub add_directory_subnode-done :
    (directory sub : ℕ) (c : Context)
    → directory < clusters_count
    → sub < clusters_count
    → directory ≢ sub
    → subnodes_count (c.fs directory) < max_subnodes
    → add_directory_subnode directory sub c ≡ done tt (record c { fs = linked c.fs directory sub })
unfolding add_directory_subnode
add_directory_subnode-done directory sub c hd hs ne room =
    let d = c.fs directory in
    let s = record (c.fs sub) { parent = d.offset } in
    let x : Context = record c { fs = put c.fs sub s } in
    let n = subnodes_count d in
    rw (
      cluster-done directory c hd,
      modify-done sub (λ s. record s { parent = d.offset }) c hs,
      cluster-done sub x hs,
      put_self c.fs sub s,
      update-done directory (λ d. store_subnode (subnodes_count d) s.offset d) x
          (set_subnode d n s.offset) hd
          (rw (put-ne c.fs sub directory s ne) (store_subnode-some n s.offset d room)),
      modify-again directory (λ d. set_subnodes_count d (add_word (subnodes_count d) 1)) c
          (put c.fs sub s) (set_subnode d n s.offset) hd,
    )

-- Where a cluster is an entry of its parent, remove_direcotory_subnode takes its first occurrence
-- out of the parent's entries, keeps the order of the others, and changes nothing of the parent but
-- its union, and no other cluster.
pub remove_directory_subnode-done :
    (sub : ℕ) (c : Context)
    → sub < clusters_count
    → (c.fs sub).parent < clusters_count
    → subnodes_count (c.fs (c.fs sub).parent) ≤ max_subnodes
    → has (c.fs sub).offset (entries (c.fs (c.fs sub).parent)) ≡ true
    → (e : Cluster) × (remove_directory_subnode sub c
        ≡ done tt (record c { fs = put c.fs (c.fs sub).parent e }))
      × (entries e ≡ erase_first (c.fs sub).offset (entries (c.fs (c.fs sub).parent)))
      × SameHead (c.fs (c.fs sub).parent) e
unfolding remove_directory_subnode entries
remove_directory_subnode-done sub c hs hp room m =
    let p = (c.fs sub).parent in
    let d = c.fs p in
    let o = (c.fs sub).offset in
    let n = subnodes_count d in
    let (e, run, s) = remove_entry-Erased n 0 o d (omega arith) m in
    let some_entries : 0 < n = pos_of_has o d 0 n m in
    let fewer : sub_word (subnodes_count e) 1 ≡ n - 1 = omega (arith, s.counted) in
    let e' = set_subnodes_count e (sub_word (subnodes_count e) 1) in
    let counted : subnodes_count e' ≡ n - 1 =
      count-set_count e (sub_word (subnodes_count e) 1) (omega arith) ∙ fewer in
    (
      e',
      rw (
        cluster-done sub c hs,
        update-done p (λ d. remove_entry (rounds (subnodes_count d)) 0 o d) c e hp
            (rw (lt→ltb n 0x8000_0000_0000_0000 (omega arith)) run),
        modify-again p (λ d. set_subnodes_count d (sub_word (subnodes_count d) 1)) c c.fs e hp,
      ),
      rw (counted, entries_from-same e' e 0 (n - 1) (λ a l u. subnode-set_count e _ a)) s.erased,
      SameHead-set_count d e (sub_word (subnodes_count e) 1) s.head,
    )
