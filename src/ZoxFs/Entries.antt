-- ===== src/ZoxFs/Entries.antt =====
-- A directory as the list of its entries: what `add_direcotory_subnode` and
-- `remove_direcotory_subnode` do to it.
pub mod Shift
pub mod Links
use mathlib.Core.Path.{ap₂}
use native.Mathlib.Nat.{zero-add}
use spovm4_labs.Base.{
  length, ◌==◌, if◌then◌else◌, word_size, add_word, ℕ, zero, suc, ◌+◌, ◌≤◌, ◌<◌, ◌≡◌, refl, ap, ◌∙◌,
  Bool, false, ◌||◌, List, [], ◌∷◌, ◌++◌, arith,
}
use spovm4_labs.ZoxFs.Cluster.{
  Cluster, max_subnodes, subnodes_count, set_subnodes_count, subnode, set_subnode,
}
use spovm4_labs.ZoxFs.Fields.{
  count-set_count, subnode-set_count, count-set_subnode, subnode-set_self, subnode-set_ne,
}

-- the `n` entries from the `i`-th on
unfoldable pub entries_from : Cluster → ℕ → ℕ → List ℕ
entries_from d i zero = []
entries_from d i (suc n) = subnode d i ∷ entries_from d (suc i) n

-- `subnodes[0]` to `subnodes[subnodes_count - 1]`
unfoldable pub entries : Cluster → List ℕ
entries d = entries_from d 0 (subnodes_count d)

-- the list without its first element equal to `o`
unfoldable pub erase_first : ℕ → List ℕ → List ℕ
erase_first o [] = []
erase_first o (x ∷ xs) = if x == o then xs else x ∷ erase_first o xs

abbrev pub has : ℕ → List ℕ → Bool
has o [] = false
has o (x ∷ xs) = x == o || has o xs

pub length-entries_from : (d : Cluster) (i n : ℕ) → length (entries_from d i n) ≡ n
unfolding entries_from
length-entries_from d i zero = refl
length-entries_from d i (suc n) = ap suc (length-entries_from d (suc i) n)

pub entries_from-same :
    (d e : Cluster) (i n : ℕ)
    → ((a : ℕ) → i ≤ a → a < i + n → subnode d a ≡ subnode e a)
    → entries_from d i n ≡ entries_from e i n
unfolding entries_from
entries_from-same d e i zero h = refl
entries_from-same d e i (suc n) h = rw (
  h i (omega arith) (omega arith),
  entries_from-same d e (suc i) n (λ a l u. h a (omega arith) (omega arith)),
)

pub entries_from-snoc :
    (d : Cluster) (i n : ℕ)
    → entries_from d i (suc n) ≡ entries_from d i n ++ subnode d (i + n) ∷ []
unfolding entries_from
entries_from-snoc d i zero = ap (λ a. subnode d a ∷ []) (omega arith)
entries_from-snoc d i (suc n) =
    ap (λ l. subnode d i ∷ l)
      (entries_from-snoc d (suc i) n
        ∙ ap (λ a. entries_from d (suc i) n ++ subnode d a ∷ []) (omega arith))

-- The cluster after `add_direcotory_subnode` has stored the entry `o` and counted it.
abbrev pub append_entry : Cluster → ℕ → Cluster
append_entry d o =
    set_subnodes_count (set_subnode d (subnodes_count d) o)
      (add_word (subnodes_count (set_subnode d (subnodes_count d) o)) 1)

pub count-append_entry :
    (d : Cluster) (o : ℕ)
    → subnodes_count d < max_subnodes
    → subnodes_count (append_entry d o) ≡ suc (subnodes_count d)
count-append_entry d o h =
    let e = set_subnode d (subnodes_count d) o in
    let same = count-set_subnode d (subnodes_count d) o in
    omega (arith, count-set_count e (add_word (subnodes_count e) 1) (omega arith))

pub subnode-append_entry_below :
    (d : Cluster) (o i : ℕ) → i < subnodes_count d → subnode (append_entry d o) i ≡ subnode d i
subnode-append_entry_below d o i h =
    subnode-set_count (set_subnode d (subnodes_count d) o) _ i
    ∙ subnode-set_ne d (subnodes_count d) i o (λ e. absurd (omega arith))

-- Adding a subnode appends its offset to the entries.
pub entries-append_entry :
    (d : Cluster) (o : ℕ)
    → subnodes_count d < max_subnodes
    → o < word_size
    → entries (append_entry d o) ≡ entries d ++ o ∷ []
unfolding entries
entries-append_entry d o h ho =
    let n = subnodes_count d in
    let e = append_entry d o in
    rw (count-append_entry d o h, entries_from-snoc e 0 n)
      (ap₂ (λ l x. l ++ x ∷ [])
        (entries_from-same e d 0 n (λ a l u. subnode-append_entry_below d o a (omega arith)))
        (ap (subnode e) (zero-add n)
          ∙ subnode-set_count (set_subnode d n o) _ n
          ∙ subnode-set_self d n o ho))
