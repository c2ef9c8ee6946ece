-- ===== src/Lab4/Manager/Pausing.antt =====
-- The letters 'p' and 'x' together: pausing waits for the running child.
use spovm4_labs.Base.{
  ◌==◌, ==_iff, Bool-cases, ℕ, ◌≡◌, refl, sym, ap, ◌∙◌, inl, inr, true, false, Option, none, some,
  [], arith,
}
use spovm4_labs.Lab4.Manager.{Manager, ok, ◌>>◌, Supply, send_tm, get_data, on_pause, on_signal}
use spovm4_labs.Lab4.Queue.{offer}
use spovm4_labs.Lab4.Queue.Chain.{element}
use spovm4_labs.Lab4.Queue.Laws.{offer-nil, poll-IsChain}
use spovm4_labs.Pointers.{
  null, Heap, write, Points, load-done, free-done, fill-done, Points-write_self,
}

-- From a state that is not paused, a second 'p' that comes before the running child has finished
-- does nothing.
pub on_pause-twice :
    (fuel fuel' : ℕ) (supply supply' : Supply) (s : Manager)
    → s.tm_paused ≡ 0
    → (on_pause fuel supply >> on_pause fuel' supply') s ≡ on_pause fuel supply s
unfolding on_pause
on_pause-twice fuel fuel' supply supply' s e =
    let running : (s.tm_paused == 0) ≡ true = ground (arith, e) in
    let running' : (s.tm_paused == 1) ≡ false = ground (arith, e) in rw (running, running')

-- An object that is freed leaves no trace.
restored :
    {N : Type 0} (h : Heap N) (p : ℕ) (n : Option N)
    → h p ≡ none
    → (a : ℕ) → write (write h p n) p none a ≡ h a
restored h p n unused a = elim (Bool-cases (a == p)) [
  | inl here ↦ rw here (sym unused ∙ ap h (sym ((==_iff a p).0 here)))
  | inr there ↦ rw there
]

-- the state behind a letter that was sent to an empty queue and taken
abbrev pub behind_letter : Supply → ℕ → Manager → Manager
behind_letter supply letter s = record s {
  letters = write (write s.letters supply.letter (some letter)) supply.letter none;
  commands =
      write (write s.commands supply.queue_element (some (element supply.letter null)))
        supply.queue_element none;
  tm_data = null;
}

pub get_data-sent :
    (fuel : ℕ) (supply : Supply) (letter : ℕ) (s : Manager)
    → (supply.letter == null) ≡ false
    → (supply.queue_element == null) ≡ false
    → s.tm_data ≡ null
    → (send_tm fuel supply letter >> get_data) s ≡ ok (some letter) (behind_letter supply letter s)
unfolding send_tm get_data
get_data-sent fuel supply letter s ok_letter ok_element none_sent =
    let l = supply.letter in
    let q = supply.queue_element in
    let cell = element l null in
    let ls = write s.letters l (some letter) in
    let cs = write s.commands q (some cell) in
    let offered =
      ap (λ t. offer fuel q t l s.commands) none_sent ∙ offer-nil s.commands fuel q l ok_element in
    let at_q : Points cs q cell = Points-write_self s.commands q cell ok_element in
    let at_l : Points ls l letter = Points-write_self s.letters l letter ok_letter in
    let (polled, _) = poll-IsChain cs q l [] (at_q, refl, tt) in
    rw (
      fill-done s.letters l letter ok_letter,
      offered,
      ok_element,
      polled,
      load-done ls l letter at_l,
      free-done ls l letter at_l,
    )

-- A letter sent to an empty queue is the one that getData takes next, and the memory of the queue
-- and the letters is as before.
pub get_data-send_tm :
    (fuel : ℕ) (supply : Supply) (letter : ℕ) (s : Manager)
    → (supply.letter == null) ≡ false
    → (supply.queue_element == null) ≡ false
    → s.tm_data ≡ null
    → s.letters supply.letter ≡ none
    → s.commands supply.queue_element ≡ none
    → (s' : Manager) × ((send_tm fuel supply letter >> get_data) s ≡ ok (some letter) s')
      × (s'.tm_data ≡ null)
      × ((a : ℕ) → s'.letters a ≡ s.letters a)
      × ((a : ℕ) → s'.commands a ≡ s.commands a)
      × (s'.ring ≡ s.ring)
      × (s'.children ≡ s.children)
get_data-send_tm fuel supply letter s ok_letter ok_element none_sent new_letter new_element = (
  behind_letter supply letter s,
  get_data-sent fuel supply letter s ok_letter ok_element none_sent,
  refl,
  λ a. restored s.letters supply.letter (some letter) new_letter a,
  λ a. restored s.commands supply.queue_element (some (element supply.letter null)) new_element a,
  refl,
  refl,
)

-- From a state that is not paused, has a current child and an empty queue: the letter 'p', then the
-- signal of the child, then 'p' leave the manager running, with exactly the letter 'x' sent, and
-- change neither the current child nor the children.
pub pause-signal-pause :
    (fuel fuel' : ℕ) (supply supply' : Supply) (s : Manager)
    → (supply'.letter == null) ≡ false
    → (supply'.queue_element == null) ≡ false
    → s.tm_paused ≡ 0
    → s.tm_data ≡ null
    → (s.current_child == null) ≡ false
    → (s' : Manager) × ((on_pause fuel supply >> on_signal >> on_pause fuel' supply') s ≡ ok tt s')
      × (s'.tm_paused ≡ 0)
      × (s'.tm_child_paused ≡ 0)
      × (s'.tm_data ≡ supply'.queue_element)
      × (s'.commands supply'.queue_element ≡ some (element supply'.letter null))
      × (s'.letters supply'.letter ≡ some b'x')
      × (s'.current_child ≡ s.current_child)
      × (s'.children ≡ s.children)
unfolding on_pause on_signal send_tm
pause-signal-pause fuel fuel' supply supply' s ok_letter ok_element running none_sent current =
    let l = supply'.letter in
    let q = supply'.queue_element in
    let offered =
      ap (λ t. offer fuel' q t l s.commands) none_sent
      ∙ offer-nil s.commands fuel' q l ok_element in
    (
      record s {
        letters = write s.letters l (some b'x');
        commands = write s.commands q (some (element l null));
        tm_data = q;
        tm_paused = 0;
        tm_child_paused = 0;
      },
      rw (
        ap (λ n. n == 1) running,
        (==_iff s.tm_paused 0).1 running,
        current,
        fill-done s.letters l b'x' ok_letter,
        offered,
      ),
      refl,
      refl,
      refl,
      ground arith,
      ground arith,
      refl,
      refl,
    )
