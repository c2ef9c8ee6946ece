-- ===== src/Lab4/Manager/Emptying.antt =====
-- Killing all children, as the letter 'q' does.
use spovm4_labs.Base.{
  length, ◌==◌, if◌then◌else◌, ==_iff, ==_false, Bool-cases, ℕ, zero, suc, ◌≤◌, ◌<◌, ◌≡◌, refl, sym,
  ap, ◌∙◌, ◌≢◌, ◌⊎◌, inl, inr, Bool, true, false, ◌||◌, none, some, List, [], ◌∷◌, arith,
}
use spovm4_labs.Lab4.Child.{Child, kill_message, kill_child}
use spovm4_labs.Lab4.Manager.{
  ok, Manager, Supply, update_current_child, char_previous, remove_child, remove_children, handle,
}
use spovm4_labs.Lab4.Manager.Live.{IsLive, node_of_value, element_points, child_written}
use spovm4_labs.Lab4.Manager.Removing.{
  without_top, Held, predecessor, remove_child-done, kept_element,
}
use spovm4_labs.Lab4.Ring.{Node, remove}
use spovm4_labs.Lab4.Ring.Links.{next_of, value_of, IsRing, links-free, links_at}
use spovm4_labs.Lab4.Ring.Removal.{previous-ne, Removed-IsRing}
use spovm4_labs.Pointers.{write, null, Points, load-done, store-done, free-done}

abbrev pub without : ℕ → List ℕ → List ℕ
without x [] = []
without x (y ∷ ys) = if y == x then without x ys else y ∷ without x ys

abbrev pub member : ℕ → List ℕ → Bool
member x [] = false
member x (y ∷ ys) = y == x || member x ys

length-without_le : (x : ℕ) (ys : List ℕ) → length (without x ys) ≤ length ys
length-without_le x [] = omega arith
length-without_le x (y ∷ ys) = ground (arith, length-without_le x ys)

length-without : (x : ℕ) (ys : List ℕ) → member x ys ≡ true → length (without x ys) < length ys
length-without x [] h = cc
length-without x (y ∷ ys) h = ground (arith, length-without x ys, length-without_le x ys)

member-without :
    (a x : ℕ) (ys : List ℕ) → member a ys ≡ true → a ≢ x → member a (without x ys) ≡ true
member-without a x [] h ne = h
member-without a x (y ∷ ys) h ne = ground (arith, member-without a x ys)

-- What is left when the current child may be gone: the ring, its children, the last child, and a
-- list that has the elements' addresses among its own.
pub record IsLeft (s : Manager) (addresses : List ℕ) : Type 0 where
  pub ring : IsRing s.ring
  pub held : Held s
  pub covered : (a : ℕ) (n : Node) → s.ring a ≡ some n → member a addresses ≡ true
  pub last : (s.top_child ≡ null) ⊎ ((n : Node) × (s.ring s.top_child ≡ some n))

-- the state after the only element of the ring has been removed
abbrev pub without_last : Manager → Node → Child → Manager
without_last s n c = record s {
  ring = write s.ring s.top_child none;
  top_child = null;
  current_child = null;
  children = write s.children n.value (some (record c { message = kill_message }));
  last_child_name = char_previous s.last_child_name;
}

module _ (s : Manager) (addresses : List ℕ) (n : Node) (left : IsLeft s addresses)
    (at_top : s.ring s.top_child ≡ some n) where
  top : Points s.ring s.top_child n
  top = element_points s.ring s.top_child n left.ring at_top

  remove_child-alone :
      n.next ≡ s.top_child
      → (c : Child) × Points s.children n.value c × (remove_child s ≡ ok tt (without_last s n c))
  unfolding remove_child kill_child remove update_current_child
  remove_child-alone single =
      let (c, g) = left.held s.top_child n.value (links_at s.ring s.top_child n at_top).2 in
      let same : (n.next == s.top_child) ≡ true = (==_iff n.next s.top_child).1 single in
      (
        c,
        g,
        rw
            (
              top.not_null,
              load-done s.ring s.top_child n top,
              same,
              free-done s.ring s.top_child n top,
              load-done s.children n.value c g,
              store-done s.children n.value c (record c { message = kill_message }) g,
            )
            refl,
      )

  alone-IsRing : n.next ≡ s.top_child → IsRing (write s.ring s.top_child none)
  alone-IsRing single =
      let p = s.top_child in
      let l = links_at s.ring p n at_top in
      let free = links-free s.ring p in
      let self : next_of s.ring p ≡ some p = l.0 ∙ ap (λ a. some a) single in
      let back = left.ring.ahead p p self in
      record {
        no_null = ground (arith, (free null).2, left.ring.no_null);
        ahead = λ a q e. ground (arith, (free a).0, (free q).1, left.ring.ahead a q, back);
        behind = λ a q e. ground (arith, (free a).0, (free q).1, left.ring.behind a q, self);
      }

  -- One more child is killed.
  Killed : Type 0
  Killed =
      (s' : Manager) × (remove_child s ≡ ok tt s')
      × IsLeft s' (without s.top_child addresses)
      × (s'.top_child ≡ null → s'.current_child ≡ null)

  remove_child-last : n.next ≡ s.top_child → Killed
  unfolding Killed
  remove_child-last single =
      let p = s.top_child in
      let (c, g, run) = remove_child-alone single in
      (
        without_last s n c,
        run,
        record {
          ring = alone-IsRing single;
          held = λ a w q.
              child_written s.children n.value w (record c { message = kill_message }) g.not_null
                (left.held a w (ground (arith, (links-free s.ring p a).2, q)));
          covered = λ a m e. ground (arith, left.covered a m, member-without a p addresses);
          last = inl refl;
        },
        λ e. refl,
      )

  remove_child-more : n.next ≢ s.top_child → Killed
  unfolding Killed
  remove_child-more more =
      let p = s.top_child in
      let (c, ring, at_child, run, removed) =
        remove_child-done s n left.ring left.held at_top more in
      let (k, e) = predecessor s n left.ring left.held at_top more in
      let (d, g) = left.held p n.value (links_at s.ring p n at_top).2 in
      (
        without_top s n c ring,
        run,
        record {
          ring =
              let l = links_at s.ring p n at_top in
              Removed-IsRing s.ring ring p n.previous n.next left.ring l.0 l.1 more
                (previous-ne s.ring p n left.ring at_top more) removed;
          held = λ a w q.
              child_written s.children n.value w (record c { message = kill_message }) g.not_null
                (left.held a w (ground (arith, removed.values a, q)));
          covered = λ a m q.
              let value = (links_at ring a m q).2 in
              let (m', f) =
                node_of_value s.ring a m.value (ground (arith, removed.values a, value)) in
              member-without a p addresses (left.covered a m' f)
                (λ z. ground (arith, removed.values a, value));
          last = inr (
              kept_element s n left.ring left.held at_top more ring removed n.previous k e.holds
                (previous-ne s.ring p n left.ring at_top more));
        },
        λ z. absurd (==_false n.previous null e.not_null z),
      )

  pub remove_child-IsLeft :
      (s' : Manager) × (remove_child s ≡ ok tt s')
      × IsLeft s' (without s.top_child addresses)
      × (s'.top_child ≡ null → s'.current_child ≡ null)
  unfolding Killed
  remove_child-IsLeft = elim (Bool-cases (n.next == s.top_child)) [
    | inl same ↦ remove_child-last ((==_iff n.next s.top_child).0 same)
    | inr other ↦ remove_child-more (==_false n.next s.top_child other)
  ]

remove_children-loop :
    (fuel : ℕ) (s : Manager) (addresses : List ℕ)
    → IsLeft s addresses
    → length addresses < fuel
    → (s' : Manager) × (remove_children fuel s ≡ ok tt s')
      × (s'.top_child ≡ null)
      × IsRing s'.ring
      × Held s'
      × ((s' ≡ s) ⊎ (s'.current_child ≡ null))
unfolding remove_children
remove_children-loop zero s addresses left l = absurd (omega arith)
remove_children-loop (suc k) s addresses left l = elim left.last [
  | inl none_left ↦
      let q : (s.top_child == null) ≡ true = (==_iff s.top_child null).1 none_left in
      (s, rw q refl, none_left, left.ring, left.held, inl refl)
  | inr (n, at_top) ↦
      let q = (top s addresses n left at_top).not_null in
      let (s₁, run, left₁, cleared) = remove_child-IsLeft s addresses n left at_top in
      let fewer = length-without s.top_child addresses (left.covered s.top_child n at_top) in
      let (s', rest, gone, ring, held, current) =
        remove_children-loop k s₁ (without s.top_child addresses) left₁ (omega arith) in
      (
        s',
        rw (q, run) rest,
        gone,
        ring,
        held,
        elim current [
          | inl same ↦ inr (
              ap (λ (t : Manager). t.current_child) same
              ∙ cleared (ap (λ (t : Manager). t.top_child) (sym same) ∙ gone))
          | inr nothing ↦ inr nothing
        ],
      )
]

-- In a live state, with more rounds than a list has addresses that names every element of the ring,
-- the letter 'q' ends the manager's thread, with no last and no current child, and the state stays
-- live.
pub handle-quits :
    (fuel : ℕ) (supply : Supply) (s : Manager) (addresses : List ℕ)
    → IsLive s
    → ((a : ℕ) (n : Node) → s.ring a ≡ some n → member a addresses ≡ true)
    → length addresses < fuel
    → (s' : Manager) × (handle fuel supply b'q' s ≡ ok false s')
      × (s'.top_child ≡ null)
      × (s'.current_child ≡ null)
      × IsLive s'
unfolding handle
handle-quits fuel supply s addresses v covered l =
    let no_top : s.top_child ≡ null → s.current_child ≡ null = λ e. elim v.pointed [
      | inl (_, none_current) ↦ none_current
      | inr ((n, f), _) ↦
          absurd (cc (ap (value_of s.ring) e, v.ring.no_null, (links_at s.ring s.top_child n f).2))
    ] in
    let left : IsLeft s addresses = record {
      ring = v.ring;
      held = v.held;
      covered = covered;
      last = elim v.pointed [ inl (none_top, _) ↦ inl none_top | inr (at_top, _) ↦ inr at_top ];
    } in
    let (s', run, gone, ring, held, current) = remove_children-loop fuel s addresses left l in
    let idle : s'.current_child ≡ null = elim current [
      | inl same ↦
          ap (λ (t : Manager). t.current_child) same
          ∙ no_top (ap (λ (t : Manager). t.top_child) (sym same) ∙ gone)
      | inr nothing ↦ nothing
    ] in
    (s', rw run refl, gone, idle, record { ring = ring; held = held; pointed = inl (gone, idle) })
