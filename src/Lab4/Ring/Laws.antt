-- ===== src/Lab4/Ring/Laws.antt =====
-- `add` and `remove` on the ring's links.
use spovm4_labs.Base.{
  ◌==◌, if◌then◌else◌, ==_ne, Bool-cases, ℕ, ◌≡◌, ap, ◌∙◌, ◌≢◌, inl, inr, false, none, some, arith,
}
use spovm4_labs.Lab4.Ring.{Node, add}
use spovm4_labs.Lab4.Ring.Links.{
  next_of, previous_of, value_of, IsRing, set_next, set_previous, links-new, links-set_next,
  links-set_previous, node_at, links_at, links_none,
}
use spovm4_labs.Pointers.{null, Heap, write, done, Points, load-done, store-done, fill-done}

-- What `add` makes of the heap: `fresh` stands between `p` and the old successor `s` of `p`.
pub record Added (h : Heap Node) (fresh p s value : ℕ) (h' : Heap Node) : Type 0 where
  pub next_links :
      (a : ℕ)
      → next_of h' a ≡ (if a == p then some fresh else if a == fresh then some s else next_of h a)
  pub previous_links :
      (a : ℕ)
      → previous_of h' a
        ≡ (if a == s then some fresh else if a == fresh then some p else previous_of h a)
  pub values : (a : ℕ) → value_of h' a ≡ (if a == fresh then some value else value_of h a)

-- what stands at `q` after the successor of `p` has been set
next_after :
    (h : Heap Node) (p q fresh : ℕ) (c m : Node)
    → h q ≡ some m
    → (n : Node) × (write h p (some (set_next c fresh)) q ≡ some n)
next_after h p q fresh c m e = elim (Bool-cases (q == p)) [
  | inl here ↦ (set_next c fresh, rw here)
  | inr there ↦ (m, rw there e)
]

module _ (h : Heap Node) (fresh p value : ℕ) (c : Node) (r : IsRing h)
    (ok : (fresh == null) ≡ false) (unused : h fresh ≡ none) (at_p : h p ≡ some c) where
  p_not_null : (p == null) ≡ false
  p_not_null =
      ==_ne p null (λ e. absurd (cc (ap (value_of h) e, r.no_null, (links_at h p c at_p).2)))

  p-ne-fresh : p ≢ fresh
  p-ne-fresh e = absurd (cc (ap h e, unused, at_p))

  successor : (m : Node) × (h c.next ≡ some m)
  successor = node_at h p c.next (inl (r.ahead p c.next (links_at h p c at_p).0))

  next_not_null : (c.next == null) ≡ false
  next_not_null = ==_ne c.next null (λ e.
      absurd (cc (ap (value_of h) e, r.no_null, (links_at h c.next successor.0 successor.1).2)))

  next-ne-fresh : c.next ≢ fresh
  next-ne-fresh e = absurd (cc (ap h e, unused, successor.1))

  -- Adding behind an element of a ring links the new element between it and its successor, and
  -- makes the new element current.
  pub add-Added :
      (h' : Heap Node) × (add fresh p value h ≡ done fresh h') × Added h fresh p c.next value h'
  unfolding add
  add-Added =
      let new : Node = record { value = value; next = c.next; previous = p } in
      let h₁ = write h fresh (some new) in
      let at_p₁ : h₁ p ≡ some c = rw (==_ne p fresh p-ne-fresh) at_p in
      let at_next₁ : h₁ c.next ≡ some successor.0 =
        rw (==_ne c.next fresh next-ne-fresh) successor.1 in
      let e₁ : Points h₁ p c = record { not_null = p_not_null; holds = at_p₁ } in
      let h₂ = write h₁ p (some (set_next c fresh)) in
      let (n, at_next) = next_after h₁ p c.next fresh c successor.0 at_next₁ in
      let e₂ : Points h₂ c.next n = record { not_null = next_not_null; holds = at_next } in
      (
        write h₂ c.next (some (set_previous n fresh)),
        rw (
          ok,
          p_not_null,
          load-done h p c (record { not_null = p_not_null; holds = at_p }),
          fill-done h fresh new ok,
          store-done h₁ p c (set_next c fresh) e₁,
          load-done h₂ c.next n e₂,
          store-done h₂ c.next n (set_previous n fresh) e₂,
        ),
        record {
          next_links = λ a.
              (links-set_previous h₂ c.next n fresh a at_next).0
              ∙ (links-set_next h₁ p c fresh a at_p₁).0
              ∙ ap (λ t. if a == p then some fresh else t) (links-new h fresh new a).0;
          previous_links = λ a.
              (links-set_previous h₂ c.next n fresh a at_next).1
              ∙ ap (λ t. if a == c.next then some fresh else t)
                  ((links-set_next h₁ p c fresh a at_p₁).1 ∙ (links-new h fresh new a).1);
          values = λ a.
              (links-set_previous h₂ c.next n fresh a at_next).2
              ∙ (links-set_next h₁ p c fresh a at_p₁).2
              ∙ (links-new h fresh new a).2;
        },
      )

-- A heap changed as `add` does is a ring still.
pub Added-IsRing :
    (h h' : Heap Node) (fresh p s value : ℕ)
    → IsRing h
    → (fresh == null) ≡ false
    → h fresh ≡ none
    → next_of h p ≡ some s
    → Added h fresh p s value h'
    → IsRing h'
Added-IsRing h h' fresh p s value r ok unused succ added = record {
  no_null = added.values null ∙ ground (arith, r.no_null);
  ahead = λ a b e. ground (
    arith,
    added.next_links a,
    added.previous_links b,
    r.ahead a b,
    r.ahead p s,
    links_none h fresh unused,
  );
  behind = λ a b e. ground (
    arith,
    added.next_links a,
    added.previous_links b,
    r.behind a b,
    r.ahead p s,
    links_none h fresh unused,
  );
}
