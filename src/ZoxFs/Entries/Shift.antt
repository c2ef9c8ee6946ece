-- ===== src/ZoxFs/Entries/Shift.antt =====
-- The loops of `remove_direcotory_subnode` on the directory's list of entries.
use mathlib.Core.Path.{ap₂}
use native.Mathlib.Numerals.{sub-one}
use spovm4_labs.Base.{
  ◌==◌, lt→ltb, Bool-cases, ℕ, zero, suc, ◌+◌, ◌-◌, ◌≤◌, ◌<◌, ◌≡◌, refl, sym, ap, ◌∙◌, inl, inr,
  true, some, ◌∷◌, arith,
}
use spovm4_labs.ZoxFs.Cluster.{Cluster, max_subnodes, subnodes_count, subnode, set_subnode}
use spovm4_labs.ZoxFs.Directory.{shift_left, remove_entry}
use spovm4_labs.ZoxFs.Entries.{entries_from, erase_first, has, entries_from-same}
use spovm4_labs.ZoxFs.Fields.{count-set_subnode, subnode-set_self, subnode-set_ne, subnode-lt}

-- `e` differs from `d` in its union at most.
abbrev pub SameHead : Cluster → Cluster → Type 0
SameHead d e = e ≡ record d { filler = e.filler }

-- What the shift of `k` rounds from entry `j` on makes of `d`.
pub record Shifted (d : Cluster) (j k : ℕ) (e : Cluster) : Type 0 where
  pub moved : entries_from e j k ≡ entries_from d (suc j) k
  pub below : (a : ℕ) → a < j → subnode e a ≡ subnode d a
  pub counted : subnodes_count e ≡ subnodes_count d
  pub head : SameHead d e

Shifted-next :
    (d e : Cluster) (j k : ℕ)
    → Shifted (set_subnode d j (subnode d (suc j))) (suc j) k e
    → Shifted d j (suc k) e
unfolding entries_from
Shifted-next d e j k s =
    let v = subnode d (suc j) in
    let d₁ = set_subnode d j v in
    record {
      moved =
          ap₂ (λ x l. x ∷ l)
            (s.below j (omega arith) ∙ subnode-set_self d j v (subnode-lt d (suc j)))
            (s.moved
              ∙ entries_from-same d₁ d (suc (suc j)) k
                  (λ a l u. subnode-set_ne d j a v (λ q. absurd (omega arith))));
      below = λ a l. s.below a (omega arith) ∙ subnode-set_ne d j a v (λ q. absurd (omega arith));
      counted = s.counted ∙ count-set_subnode d j v;
      head = unfold set_subnode in s.head;
    }

shift_left-Shifted :
    (k j : ℕ) (d : Cluster)
    → j + k < max_subnodes
    → (e : Cluster) × (shift_left k j d ≡ some e) × Shifted d j k e
unfolding shift_left entries_from
shift_left-Shifted zero j d h =
    (d, refl, record { moved = refl; below = λ a l. refl; counted = refl; head = refl })
shift_left-Shifted (suc k) j d h =
    let (e, run, s) =
      shift_left-Shifted k (suc j) (set_subnode d j (subnode d (suc j))) (omega arith) in
    (e, rw (lt→ltb (suc j) max_subnodes (omega arith)) run, Shifted-next d e j k s)

entries_from-pos :
    (d : Cluster) (i k : ℕ)
    → 0 < k
    → entries_from d i k ≡ subnode d i ∷ entries_from d (suc i) (k - 1)
unfolding entries_from
entries_from-pos d i zero h = absurd (omega arith)
entries_from-pos d i (suc k) h =
    ap (λ n. subnode d i ∷ entries_from d (suc i) n) (sym (sub-one (suc k)))

pub pos_of_has : (o : ℕ) (d : Cluster) (i k : ℕ) → has o (entries_from d i k) ≡ true → 0 < k
unfolding entries_from
pos_of_has o d i zero h = cc
pos_of_has o d i (suc k) h = omega arith

-- What the search for `o` among the `k` entries from the `i`-th on makes of `d`.
pub record Erased (d : Cluster) (i k o : ℕ) (e : Cluster) : Type 0 where
  pub erased : entries_from e i (k - 1) ≡ erase_first o (entries_from d i k)
  pub below : (a : ℕ) → a < i → subnode e a ≡ subnode d a
  pub counted : subnodes_count e ≡ subnodes_count d
  pub head : SameHead d e

-- The search finds an entry that is there, and takes its first occurrence out.
pub remove_entry-Erased :
    (k i o : ℕ) (d : Cluster)
    → i + k ≤ max_subnodes
    → has o (entries_from d i k) ≡ true
    → (e : Cluster) × (remove_entry k i o d ≡ some e) × Erased d i k o e
unfolding remove_entry entries_from erase_first
remove_entry-Erased zero i o d h m = cc
remove_entry-Erased (suc k) i o d h m = elim (Bool-cases (subnode d i == o)) [
  | inl here ↦
      let (e, run, s) = shift_left-Shifted k i d (omega arith) in
      (
        e,
        rw (lt→ltb i max_subnodes (omega arith), here) run,
        record {
          erased = rw (here, sub-one (suc k)) s.moved;
          below = s.below;
          counted = s.counted;
          head = s.head;
        },
      )
  | inr there ↦
      let more : has o (entries_from d (suc i) k) ≡ true = ground arith in
      let (e, run, s) = remove_entry-Erased k (suc i) o d (omega arith) more in
      let some_left : 0 < k = pos_of_has o d (suc i) k more in
      (
        e,
        rw (lt→ltb i max_subnodes (omega arith), there) run,
        record {
          erased =
              rw (there, sub-one (suc k), entries_from-pos e i k some_left)
                (ap₂ (λ x l. x ∷ l) (s.below i (omega arith)) s.erased);
          below = λ a l. s.below a (omega arith);
          counted = s.counted;
          head = s.head;
        },
      )
]
