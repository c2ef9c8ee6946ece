-- ===== src/Lab4/Manager/Adding.antt =====
-- Starting a child: what `add_child` makes of a live state.
use spovm4_labs.Base.{
  ◌==◌, if◌then◌else◌, Bool-cases, ℕ, ◌≡◌, ap, ◌∙◌, inl, inr, true, false, none, some, arith,
}
use spovm4_labs.Lab4.Child.{Child, start_child, wake_child}
use spovm4_labs.Lab4.Manager.{Manager, ok, Supply, update_current_child, char_next, add_child}
use spovm4_labs.Lab4.Manager.Live.{IsLive, node_of_value, element_points, child_written}
use spovm4_labs.Lab4.Ring.{Node, add, data_of}
use spovm4_labs.Lab4.Ring.Laws.{Added, add-Added, Added-IsRing}
use spovm4_labs.Lab4.Ring.Links.{value_of, IsRing, links-new, links_at, links_none}
use spovm4_labs.Pointers.{
  null, Heap, write, done, Points, load-done, store-done, fill-done, Points-write_self,
}

-- What the supply of a step must be: the addresses are new, and `pthread_create` succeeds.
pub record IsFresh (s : Manager) (supply : Supply) : Type 0 where
  pub element_ok : (supply.ring_element == null) ≡ false
  pub element_unused : s.ring supply.ring_element ≡ none
  pub child_ok : (supply.child == null) ≡ false
  pub child_unused : s.children supply.child ≡ none
  pub thread_created : supply.created ≡ true

start_child-done :
    (cs : Heap Child) (q name : ℕ)
    → (q == null) ≡ false
    → start_child q true name cs ≡ done q (write cs q (some (record { name = name; message = 0 })))
unfolding start_child
start_child-done cs q name e = rw (e, fill-done cs q (record { name = name; message = 0 }) e)

-- The children of the old elements and of the new one.
held_after :
    (h h' : Heap Node) (cs : Heap Child) (q fresh : ℕ) (d : Child)
    → (q == null) ≡ false
    → ((a v : ℕ) → value_of h a ≡ some v → (c : Child) × Points cs v c)
    → ((a : ℕ) → value_of h' a ≡ (if a == fresh then some q else value_of h a))
    → (a v : ℕ) → value_of h' a ≡ some v
    → (c : Child) × Points (write cs q (some d)) v c
held_after h h' cs q fresh d not_null held changed a v e = elim (Bool-cases (a == fresh)) [
  | inl here ↦
      let same : v ≡ q = cc (changed a, here, e) in
      (d, record { not_null = ap (λ x. x == null) same ∙ not_null; holds = ground (arith, same) })
  | inr there ↦ child_written cs q v d not_null (held a v (ground (arith, changed a, there, e)))
]

-- the state once `start_child` and `add` have run
abbrev pub with_child : Manager → Supply → Heap Node → Manager
with_child s supply ring = record s {
  ring = ring;
  children =
      write s.children supply.child (some (record { name = s.last_child_name; message = 0 }));
  top_child = supply.ring_element;
  last_child_name = if s.last_child_name == b'z' then b'a' else char_next s.last_child_name;
}

module _ (h h' : Heap Node) (fresh a value : ℕ) where
  element_after :
      (m : Node)
      → h a ≡ some m
      → value_of h' a ≡ (if a == fresh then some value else value_of h a)
      → (m' : Node) × (h' a ≡ some m')
  element_after m f changed = elim (Bool-cases (a == fresh)) [
    | inl here ↦ node_of_value h' a value (ground (arith, changed))
    | inr there ↦ node_of_value h' a m.value (ground (arith, changed, links_at h a m f))
  ]

-- an element linked to itself
abbrev pub alone : ℕ → ℕ → Node
alone fresh value = record { value = value; next = fresh; previous = fresh }

module _ (h : Heap Node) (fresh value : ℕ) (r : IsRing h) (ok : (fresh == null) ≡ false)
    (unused : h fresh ≡ none) where
  add-null : add fresh null value h ≡ done fresh (write h fresh (some (alone fresh value)))
  unfolding add
  add-null = rw (ok, fill-done h fresh (alone fresh value) ok)

  -- An element linked to itself may be put beside what is a ring.
  add-null-IsRing : IsRing (write h fresh (some (alone fresh value)))
  add-null-IsRing = record {
    no_null = (links-new h fresh (alone fresh value) null).2 ∙ ground (arith, r.no_null);
    ahead = λ x y e. ground (
      arith,
      (links-new h fresh (alone fresh value) x).0,
      (links-new h fresh (alone fresh value) y).1,
      r.ahead x y,
      links_none h fresh unused,
    );
    behind = λ x y e. ground (
      arith,
      (links-new h fresh (alone fresh value) x).0,
      (links-new h fresh (alone fresh value) y).1,
      r.behind x y,
      links_none h fresh unused,
    );
  }

module _ (s : Manager) (supply : Supply) (v : IsLive s) (new : IsFresh s supply) where
  -- In a live state with children, and with fresh memory and a thread that starts, addChild puts
  -- the element of the new child, which becomes the last, behind that of the last child, keeps the
  -- current child, and the state stays live.
  pub add_child-another :
      (n : Node)
      → s.ring s.top_child ≡ some n
      → (ring : Heap Node) × (add_child supply s ≡ ok tt (with_child s supply ring))
        × Added s.ring supply.ring_element s.top_child n.next supply.child ring
        × IsLive (with_child s supply ring)
  unfolding add_child
  add_child-another n at_top =
      let r = v.ring in
      let (ring, run, added) =
        add-Added s.ring supply.ring_element s.top_child supply.child n r new.element_ok
          new.element_unused at_top in
      let top = element_points s.ring s.top_child n r at_top in
      let d : Child = record { name = s.last_child_name; message = 0 } in
      let l = links_at s.ring s.top_child n at_top in
      (
        ring,
        rw (
          new.thread_created,
          start_child-done s.children supply.child s.last_child_name new.child_ok,
          run,
          top.not_null,
        ),
        added,
        record {
          ring =
              Added-IsRing s.ring ring supply.ring_element s.top_child n.next supply.child r
                new.element_ok new.element_unused l.0 added;
          held =
              held_after s.ring ring s.children supply.child supply.ring_element d new.child_ok
                v.held added.values;
          pointed = inr (
            node_of_value ring supply.ring_element supply.child
                (ground (arith, added.values supply.ring_element)),
            elim v.pointed [
              | inl (none_top, _) ↦ absurd (ground (arith, none_top, top.not_null))
              | inr (_, (m, f)) ↦
                  element_after s.ring ring supply.ring_element s.current_child supply.child m f
                    (added.values s.current_child)
            ],
          );
        },
      )

  -- In a live state without children, with fresh memory and a thread that starts, addChild makes
  -- the new child the last and the current one and wakes it, and the state stays live.
  pub add_child-first :
      s.top_child ≡ null
      → (ring : Heap Node) × (let d : Child = record { name = s.last_child_name; message = 1 } in
          let s' = record (with_child s supply ring) {
            children = write (with_child s supply ring).children supply.child (some d);
            current_child = supply.ring_element;
          } in
          (add_child supply s ≡ ok tt s')
          × (value_of ring supply.ring_element ≡ some supply.child)
          × IsLive s')
  unfolding add_child update_current_child wake_child data_of
  add_child-first none_yet =
      let e = supply.ring_element in
      let q = supply.child in
      let node = alone e q in
      let ring = write s.ring e (some node) in
      let d₀ : Child = record { name = s.last_child_name; message = 0 } in
      let d₁ : Child = record { name = s.last_child_name; message = 1 } in
      let cs = write s.children q (some d₀) in
      let at_e = Points-write_self s.ring e node new.element_ok in
      let at_q = Points-write_self s.children q d₀ new.child_ok in
      let changed = λ (a : ℕ). (links-new s.ring e node a).2 in
      let first : (s.top_child == null) ≡ true = ap (λ t. t == null) none_yet in
      let run =
        ap (λ t. add e t q s.ring) none_yet
        ∙ add-null s.ring e q v.ring new.element_ok new.element_unused in
      (
        ring,
        (
          rw (
            new.thread_created,
            start_child-done s.children q s.last_child_name new.child_ok,
            run,
            first,
            new.element_ok,
            load-done ring e node at_e,
            load-done cs q d₀ at_q,
            store-done cs q d₀ d₁ at_q,
          ),
          changed e ∙ ground arith,
          record {
            ring = add-null-IsRing s.ring e q v.ring new.element_ok new.element_unused;
            held =
                held_after s.ring ring cs q e d₁ new.child_ok
                  (λ a w h. child_written s.children q w d₀ new.child_ok (v.held a w h)) changed;
            pointed = inr ((node, at_e.holds), (node, at_e.holds));
          },
        ),
      )
