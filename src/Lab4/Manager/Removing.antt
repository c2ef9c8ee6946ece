-- ===== src/Lab4/Manager/Removing.antt =====
-- Killing the last child: what `remove_child` makes of a live state.
use spovm4_labs.Base.{
  ◌==◌, ==_refl, ==_ne, Option-cases, ℕ, ◌≡◌, sym, ap, ◌∙◌, ◌≢◌, inl, inr, false, none, some, arith,
}
use spovm4_labs.Lab4.Child.{Child, kill_message, kill_child}
use spovm4_labs.Lab4.Manager.{ok, failed, Manager, char_previous, remove_child, on_signal}
use spovm4_labs.Lab4.Manager.Live.{IsLive, element_points, child_written, child_of}
use spovm4_labs.Lab4.Ring.{Node}
use spovm4_labs.Lab4.Ring.Links.{value_of, IsRing, node_at, links_at, links_none}
use spovm4_labs.Lab4.Ring.Removal.{Removed, previous-ne, remove-Removed, Removed-IsRing}
use spovm4_labs.Pointers.{Heap, write, null, load, Points, load-done, store-done}

-- the state after the element `n` at the top has been removed from a ring of several
abbrev pub without_top : Manager → Node → Child → Heap Node → Manager
without_top s n c ring = record s {
  ring = ring;
  top_child = n.previous;
  children = write s.children n.value (some (record c { message = kill_message }));
  last_child_name = char_previous s.last_child_name;
}

-- The elements' values point to children.
abbrev pub Held : Manager → Type 0
Held s = (a w : ℕ) → value_of s.ring a ≡ some w → (c : Child) × Points s.children w c

module _ (s : Manager) (n : Node) (r : IsRing s.ring) (held : Held s)
    (at_top : s.ring s.top_child ≡ some n) (more : n.next ≢ s.top_child) where
  pub predecessor : (m : Node) × Points s.ring n.previous m
  predecessor =
      let (m, e) =
        node_at s.ring s.top_child n.previous
          (inr (r.behind n.previous s.top_child (links_at s.ring s.top_child n at_top).1)) in
      (m, element_points s.ring n.previous m r e)

  -- With other children left, killing the last child takes its element out of the ring and makes
  -- the previous one the last; the current child stays what it was.
  pub remove_child-done :
      (c : Child) × (ring : Heap Node) × (s.children n.value ≡ some c)
      × (remove_child s ≡ ok tt (without_top s n c ring))
      × Removed s.ring s.top_child n.previous n.next ring
  unfolding remove_child kill_child
  remove_child-done =
      let (ring, run, removed) = remove-Removed s.ring s.top_child n r at_top more in
      let (c, g) = held s.top_child n.value (links_at s.ring s.top_child n at_top).2 in
      (
        c,
        ring,
        g.holds,
        rw (
          run,
          load-done s.children n.value c g,
          store-done s.children n.value c (record c { message = kill_message }) g,
          predecessor.1.not_null,
        ),
        removed,
      )

  -- The memory of an element that was removed is free.
  pub Removed-free :
      (ring : Heap Node)
      → Removed s.ring s.top_child n.previous n.next ring
      → ring s.top_child ≡ none
  Removed-free ring removed = elim (Option-cases (ring s.top_child)) [
    | inl none_there ↦ none_there
    | inr (m, e) ↦
        absurd
          (cc ((links_at ring s.top_child m e).2, removed.values s.top_child, ==_refl s.top_child))
  ]

  -- Every other element stays one.
  pub kept_element :
      (ring : Heap Node)
      → Removed s.ring s.top_child n.previous n.next ring
      → (a : ℕ) (m : Node) → s.ring a ≡ some m
      → a ≢ s.top_child
      → (m' : Node) × (ring a ≡ some m')
  kept_element ring removed a m e ne = elim (Option-cases (ring a)) [
    | inl none_there ↦ absurd (
        cc (
          removed.values a,
          (links_none ring a none_there).2,
          (links_at s.ring a m e).2,
          ==_ne a s.top_child ne,
        ))
    | inr found ↦ found
  ]

module _ (s : Manager) (n : Node) (v : IsLive s) (at_top : s.ring s.top_child ≡ some n)
    (more : n.next ≢ s.top_child) where
  -- Killing the last child while it is current, with other children left, leaves current_child
  -- pointing to the freed element, and the signal 'x' handled in that state, while the manager is
  -- not paused, faults.
  pub remove_current-dangles :
      s.current_child ≡ s.top_child
      → (s.tm_paused == 1) ≡ false
      → (s' : Manager) × (remove_child s ≡ ok tt s')
        × (s'.current_child ≡ s.top_child)
        × (s'.ring s'.current_child ≡ none)
        × (on_signal s' ≡ failed)
  unfolding on_signal load
  remove_current-dangles same running =
      let (c, ring, _, run, removed) = remove_child-done s n v.ring v.held at_top more in
      let gone : ring s.current_child ≡ none =
        ap ring same ∙ Removed-free s n v.ring v.held at_top more ring removed in
      let top = element_points s.ring s.top_child n v.ring at_top in
      let not_null : (s.current_child == null) ≡ false = ap (λ a. a == null) same ∙ top.not_null in
      (without_top s n c ring, run, same, gone, rw (not_null, running, not_null, gone))

  -- In a live state where the last child is one of several and another child is current,
  -- removeChild succeeds and the state stays live.
  pub remove_child-IsLive :
      s.current_child ≢ s.top_child → (s' : Manager) × (remove_child s ≡ ok tt s') × IsLive s'
  remove_child-IsLive other =
      let (c, ring, at_child, run, removed) = remove_child-done s n v.ring v.held at_top more in
      let l = links_at s.ring s.top_child n at_top in
      let (k, e) = predecessor s n v.ring v.held at_top more in
      (
        without_top s n c ring,
        run,
        record {
          ring =
              Removed-IsRing s.ring ring s.top_child n.previous n.next v.ring l.0 l.1 more
                (previous-ne s.ring s.top_child n v.ring at_top more) removed;
          held = λ a w q.
              child_written s.children n.value w _ (child_of s v s.top_child n at_top).1.not_null
                (v.held a w (ground (arith, removed.values a, q)));
          pointed = inr (
            kept_element s n v.ring v.held at_top more ring removed n.previous k e.holds
                (previous-ne s.ring s.top_child n v.ring at_top more),
            elim v.pointed [
              | inl (none_top, none_current) ↦ absurd (other (none_current ∙ sym none_top))
              | inr (_, (m, f)) ↦
                  kept_element s n v.ring v.held at_top more ring removed s.current_child m f other
            ],
          );
        },
      )
