-- ===== src/Lab4/Manager/Live.antt =====
-- What the thread manager keeps: its ring is one, each of its elements holds a child, and both
-- variables point into it.
use spovm4_labs.Base.{
  ◌==◌, ==_ne, Bool-cases, Option-cases, ℕ, ◌≡◌, refl, ap, ◌⊎◌, inl, inr, false, some, arith,
}
use spovm4_labs.Lab4.Child.{Child, wake_child}
use spovm4_labs.Lab4.Manager.{Manager, ok, update_current_child, on_signal}
use spovm4_labs.Lab4.Ring.{Node}
use spovm4_labs.Lab4.Ring.Links.{value_of, IsRing, node_at, links_at, links_none}
use spovm4_labs.Pointers.{null, Heap, write, Points, load-done, store-done}

pub record IsLive (s : Manager) : Type 0 where
  pub ring : IsRing s.ring
  -- the elements' values point to children
  pub held : (a v : ℕ) → value_of s.ring a ≡ some v → (c : Child) × Points s.children v c
  pub pointed :
      ((s.top_child ≡ null) × (s.current_child ≡ null))
      ⊎ (((n : Node) × (s.ring s.top_child ≡ some n))
          × ((n : Node) × (s.ring s.current_child ≡ some n)))

pub node_of_value : (h : Heap Node) (a v : ℕ) → value_of h a ≡ some v → (n : Node) × (h a ≡ some n)
node_of_value h a v e = elim (Option-cases (h a)) [
  | inl none_there ↦ absurd (cc (e, (links_none h a none_there).2))
  | inr found ↦ found
]

-- An element of the ring does not lie at NULL.
pub element_points : (h : Heap Node) (p : ℕ) (n : Node) → IsRing h → h p ≡ some n → Points h p n
element_points h p n r e = record {
  not_null = ==_ne p null (λ q. absurd (cc (ap (value_of h) q, r.no_null, (links_at h p n e).2)));
  holds = e;
}

pub child_written :
    (cs : Heap Child) (q v : ℕ) (d : Child)
    → (q == null) ≡ false
    → ((c : Child) × Points cs v c)
    → (c : Child) × Points (write cs q (some d)) v c
child_written cs q v d not_null (c, e) = elim (Bool-cases (v == q)) [
  | inl here ↦ (d, record { not_null = e.not_null; holds = rw here refl })
  | inr there ↦ (c, record { not_null = e.not_null; holds = rw there e.holds })
]

module _ (s : Manager) (v : IsLive s) (p : ℕ) (n : Node) (at_p : s.ring p ≡ some n) where
  -- the child of an element
  pub child_of : (c : Child) × Points s.children n.value c
  child_of = v.held p n.value (links_at s.ring p n at_p).2

  pub successor : (m : Node) × Points s.ring n.next m
  successor =
      let (m, e) =
        node_at s.ring p n.next (inl (v.ring.ahead p n.next (links_at s.ring p n at_p).0)) in
      (m, element_points s.ring n.next m v.ring e)

-- In a live state that is not paused, the signal of the current child makes the next element of the
-- ring current and wakes the child of that one, and the state stays live.
pub on_signal-passes :
    (s : Manager) (n : Node)
    → IsLive s
    → s.ring s.current_child ≡ some n
    → (s.tm_paused == 1) ≡ false
    → (m : Node) × (c : Child) × (s.ring n.next ≡ some m)
      × (s.children m.value ≡ some c)
      × (let s' = record s {
        current_child = n.next;
        children = write s.children m.value (some (record c { message = 1 }));
      } in
          (on_signal s ≡ ok tt s') × IsLive s')
unfolding on_signal update_current_child wake_child
on_signal-passes s n v at_p running =
    let e = element_points s.ring s.current_child n v.ring at_p in
    let (m, f) = successor s v s.current_child n at_p in
    let (c, g) = child_of s v n.next m f.holds in
    (
      m,
      c,
      f.holds,
      g.holds,
      (
        rw (
          e.not_null,
          running,
          load-done s.ring s.current_child n e,
          load-done s.ring n.next m f,
          load-done s.children m.value c g,
          store-done s.children m.value c (record c { message = 1 }) g,
        ),
        record {
          ring = v.ring;
          held = λ a w q. child_written s.children m.value w _ g.not_null (v.held a w q);
          pointed = elim v.pointed [
            | inl (_, none_current) ↦ absurd (ground (arith, none_current, e.not_null))
            | inr (top, _) ↦ inr (top, (m, f.holds))
          ];
        },
      ),
    )
