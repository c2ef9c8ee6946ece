-- ===== src/Lab4/Ring/Removal.antt =====
-- `remove` on the ring's links, and that it undoes `add`.
use spovm4_labs.Base.{
  ◌==◌, if◌then◌else◌, ==_ne, Bool-cases, ℕ, ◌≡◌, sym, ap, ◌∙◌, ◌≢◌, inl, inr, none, some, arith,
}
use spovm4_labs.Lab4.Ring.{Node, remove}
use spovm4_labs.Lab4.Ring.Links.{
  next_of, previous_of, value_of, IsRing, set_next, set_previous, links-free, links-set_next,
  links-set_previous, node_at, links_at,
}
use spovm4_labs.Pointers.{null, Heap, write, done, Points, load-done, store-done, free-done}

-- What `remove` makes of the heap: `p` is gone, and its neighbours `b` and `s` are linked.
pub record Removed (h : Heap Node) (p b s : ℕ) (h' : Heap Node) : Type 0 where
  pub next_links :
      (a : ℕ) → next_of h' a ≡ (if a == p then none else if a == b then some s else next_of h a)
  pub previous_links :
      (a : ℕ)
      → previous_of h' a ≡ (if a == p then none else if a == s then some b else previous_of h a)
  pub values : (a : ℕ) → value_of h' a ≡ (if a == p then none else value_of h a)

-- what stands at `q` after the predecessor of `s` has been set
node_after :
    (h : Heap Node) (s q x : ℕ) (m k : Node)
    → h q ≡ some k
    → (n : Node) × (write h s (some (set_previous m x)) q ≡ some n)
node_after h s q x m k e = elim (Bool-cases (q == s)) [
  | inl here ↦ (set_previous m x, rw here)
  | inr there ↦ (k, rw there e)
]

module _ (h : Heap Node) (p : ℕ) (c : Node) (r : IsRing h) (at_p : h p ≡ some c)
    (ne : c.next ≢ p) where
  current : Points h p c
  current = record {
    not_null =
        ==_ne p null (λ e. absurd (cc (ap (value_of h) e, r.no_null, (links_at h p c at_p).2)));
    holds = at_p;
  }

  next_node : (m : Node) × Points h c.next m
  next_node =
      let (m, e) = node_at h p c.next (inl (r.ahead p c.next (links_at h p c at_p).0)) in
      (
        m,
        record {
          not_null =
              ==_ne c.next null
                (λ q. absurd (cc (ap (value_of h) q, r.no_null, (links_at h c.next m e).2)));
          holds = e;
        },
      )

  previous_node : (k : Node) × Points h c.previous k
  previous_node =
      let (k, e) = node_at h p c.previous (inr (r.behind c.previous p (links_at h p c at_p).1)) in
      (
        k,
        record {
          not_null =
              ==_ne c.previous null
                (λ q. absurd (cc (ap (value_of h) q, r.no_null, (links_at h c.previous k e).2)));
          holds = e;
        },
      )

  pub previous-ne : c.previous ≢ p
  previous-ne e =
      let l = links_at h p c at_p in
      let q : some c.next ≡ some p = sym l.0 ∙ r.behind p p (l.1 ∙ ap (λ a. some a) e) in ne (cc)

  -- Removing an element that is not alone links its neighbours, frees it, returns its value, and
  -- makes its predecessor current.
  pub remove-Removed :
      (h' : Heap Node) × (remove p h ≡ done (c.value, c.previous) h')
      × Removed h p c.previous c.next h'
  unfolding remove
  remove-Removed =
      let (m, at_s) = next_node in
      let h₁ = write h c.next (some (set_previous m c.previous)) in
      let (k, at_b) =
        node_after h c.next c.previous c.previous m previous_node.0 previous_node.1.holds in
      let e₁ : Points h₁ c.previous k = record {
        not_null = previous_node.1.not_null;
        holds = at_b;
      } in
      let h₂ = write h₁ c.previous (some (set_next k c.next)) in
      let e₂ : Points h₂ p c = record {
        not_null = current.not_null;
        holds =
            rw (==_ne p c.previous (λ e. previous-ne (sym e)), ==_ne p c.next (λ e. ne (sym e)))
              at_p;
      } in
      (
        write h₂ p none,
        rw (
          current.not_null,
          load-done h p c current,
          ==_ne c.next p ne,
          load-done h c.next m at_s,
          store-done h c.next m (set_previous m c.previous) at_s,
          load-done h₁ c.previous k e₁,
          store-done h₁ c.previous k (set_next k c.next) e₁,
          free-done h₂ p c e₂,
        ),
        record {
          next_links = λ a.
              (links-free h₂ p a).0
              ∙ ap (λ t. if a == p then none else t)
                  ((links-set_next h₁ c.previous k c.next a at_b).0
                    ∙ ap (λ t. if a == c.previous then some c.next else t)
                        (links-set_previous h c.next m c.previous a at_s.holds).0);
          previous_links = λ a.
              (links-free h₂ p a).1
              ∙ ap (λ t. if a == p then none else t)
                  ((links-set_next h₁ c.previous k c.next a at_b).1
                    ∙ (links-set_previous h c.next m c.previous a at_s.holds).1);
          values = λ a.
              (links-free h₂ p a).2
              ∙ ap (λ t. if a == p then none else t)
                  ((links-set_next h₁ c.previous k c.next a at_b).2
                    ∙ (links-set_previous h c.next m c.previous a at_s.holds).2);
        },
      )

-- A heap changed as `remove` does is a ring still.
pub Removed-IsRing :
    (h h' : Heap Node) (p b s : ℕ)
    → IsRing h
    → next_of h p ≡ some s
    → previous_of h p ≡ some b
    → s ≢ p
    → b ≢ p
    → Removed h p b s h'
    → IsRing h'
Removed-IsRing h h' p b s r after before ns nb gone = record {
  no_null = gone.values null ∙ ground (arith, r.no_null);
  ahead = λ x y e.
      ground
        (arith, gone.next_links x, gone.previous_links y, r.ahead x y, r.ahead p s, r.behind b p);
  behind = λ x y e.
      ground
        (arith, gone.next_links x, gone.previous_links y, r.behind x y, r.ahead p s, r.behind b p);
}
