-- ===== src/Lab4/Ring/RoundTrip.antt =====
-- `remove` behind `add`.
use mathlib.Core.Path.{ap₂}
use spovm4_labs.Base.{◌==◌, ℕ, ◌≡◌, sym, ap, ◌∙◌, ◌≢◌, inl, inr, false, none, some, arith}
use spovm4_labs.Lab4.Ring.{Node, add, remove}
use spovm4_labs.Lab4.Ring.Laws.{Added, add-Added, Added-IsRing}
use spovm4_labs.Lab4.Ring.Links.{
  next_of, previous_of, value_of, IsRing, node_at, links_at, links_none,
}
use spovm4_labs.Lab4.Ring.Removal.{remove-Removed}
use spovm4_labs.Pointers.{null, Heap, done, ◌>>=◌}

record AddedAt (h' : Heap Node) (fresh p s value : ℕ) : Type 0 where
  pub node : Node
  pub holds : h' fresh ≡ some node
  pub next_is : node.next ≡ s
  pub previous_is : node.previous ≡ p
  pub value_is : node.value ≡ value

Added-AddedAt :
    (h h' : Heap Node) (fresh p s value : ℕ)
    → p ≢ fresh
    → s ≢ fresh
    → Added h fresh p s value h'
    → AddedAt h' fresh p s value
Added-AddedAt h h' fresh p s value np ns added =
    let next_link : next_of h' fresh ≡ some s = ground (arith, added.next_links fresh) in
    let previous_link : previous_of h' fresh ≡ some p =
      ground (arith, added.previous_links fresh) in
    let held : value_of h' fresh ≡ some value = ground (arith, added.values fresh) in
    let (n, e) = node_at h' s fresh (inr next_link) in
    let l = links_at h' fresh n e in
    record {
      node = n;
      holds = e;
      next_is = cc (l.0, next_link);
      previous_is = cc (l.1, previous_link);
      value_is = cc (l.2, held);
    }

-- Removing the element that was just added behind an element of a ring returns its value, makes
-- that element current again, and restores every link and value.
pub remove-add :
    (h : Heap Node) (fresh p value : ℕ) (c : Node)
    → IsRing h
    → (fresh == null) ≡ false
    → h fresh ≡ none
    → h p ≡ some c
    → (h' : Heap Node) × ((add fresh p value >>= remove) h ≡ done (value, p) h')
      × ((a : ℕ) → next_of h' a ≡ next_of h a)
      × ((a : ℕ) → previous_of h' a ≡ previous_of h a)
      × ((a : ℕ) → value_of h' a ≡ value_of h a)
remove-add h fresh p value c r ok unused at_p =
    let (h₁, run, added) = add-Added h fresh p value c r ok unused at_p in
    let l = links_at h p c at_p in
    let (m, at_s) = node_at h p c.next (inl (r.ahead p c.next l.0)) in
    let np : p ≢ fresh = λ e. absurd (cc (ap h e, unused, at_p)) in
    let ns : c.next ≢ fresh = λ e. absurd (cc (ap h e, unused, at_s)) in
    let r₁ = Added-IsRing h h₁ fresh p c.next value r ok unused l.0 added in
    let n = Added-AddedAt h h₁ fresh p c.next value np ns added in
    let (h₂, run₂, removed) =
      remove-Removed h₁ fresh n.node r₁ n.holds (λ e. ns (sym n.next_is ∙ e)) in
    let none_there = links_none h fresh unused in
    (
      h₂,
      rw run (run₂ ∙ ap₂ (λ v q. done (v, q) h₂) n.value_is n.previous_is),
      λ a. ground (
        arith,
        removed.next_links a,
        added.next_links a,
        none_there,
        l.0,
        n.next_is,
        n.previous_is,
      ),
      λ a. ground (
        arith,
        removed.previous_links a,
        added.previous_links a,
        none_there,
        r.ahead p c.next l.0,
        n.next_is,
        n.previous_is,
      ),
      λ a. ground (arith, removed.values a, added.values a, none_there),
    )
