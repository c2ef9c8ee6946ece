-- ===== src/Lab2/Windows/Children.antt =====
-- What the stack of children and their structures are, and the loops over them.
use spovm4_labs.Base.{
  length, get_or, ◌==◌, ℕ, zero, suc, ◌*◌, ◌<◌, ◌≡◌, refl, ap, ◌∙◌, Bool, false, ◌||◌, Option, List,
  [], ◌∷◌, arith,
}
use spovm4_labs.Lab2.Stack.{Frame, IsStack}
use spovm4_labs.Lab2.Windows.{Name, numbered, Info, Manager, parent_events, step_down}
use spovm4_labs.Pointers.{null, Heap, write, Points, load-done, Points-write_ne}
use spovm4_labs.Stateful.{done}

-- a child: its stack element, its structure and its process id
pub record Entry : Type 0 where
  pub frame : ℕ
  pub info : ℕ
  pub pid : ℕ

abbrev pub on_stack : List Entry → List (ℕ × ℕ)
on_stack [] = []
on_stack (e ∷ es) = (e.frame, e.info) ∷ on_stack es

abbrev pub holds_info : ℕ → List Entry → Bool
holds_info a [] = false
holds_info a (e ∷ es) = a == e.info || holds_info a es

-- the structures of the children, at different addresses
abbrev pub HaveInfos : Heap Info → List Entry → Type 0
HaveInfos h [] = Unit
HaveInfos h (e ∷ es) =
    Points h e.info (record { pid = e.pid }) × (holds_info e.info es ≡ false) × HaveInfos h es

-- the events by which the children tell that they are done
abbrev pub parents : List Entry → List Name
parents [] = []
parents (e ∷ es) = numbered (e.pid * 2) ∷ parents es

pub HaveInfos-write :
    (h : Heap Info) (es : List Entry) (a : ℕ) (n : Option Info)
    → holds_info a es ≡ false
    → HaveInfos h es
    → HaveInfos (write h a n) es
HaveInfos-write h [] a n out i = tt
HaveInfos-write h (e ∷ es) a n out i = (
  Points-write_ne h e.info a n (record { pid = e.pid }) (λ k. ground arith) i.0,
  i.1,
  HaveInfos-write h es a n (ground arith) i.2,
)

-- The loop over the array's places finds the events of the children, the last started first.
pub parent_events-parents :
    (s : Manager) (es : List Entry) (zse : ℕ)
    → IsStack s.frames zse (on_stack es)
    → HaveInfos s.infos es
    → parent_events (length es) zse s ≡ done (parents es) s
unfolding parent_events
parent_events-parents s [] zse st i = refl
parent_events-parents s (e ∷ es) zse (at, (q, points, st), apart) i =
    ap (λ z. parent_events (suc (length es)) z s) at
    ∙ rw (
      load-done s.frames e.frame (record { content = e.info; previous = q }) points,
      load-done s.infos e.info (record { pid = e.pid }) i.0,
      parent_events-parents s es q st i.2,
    )

-- the stack element behind so many others, NULL behind the last
abbrev pub frame_at : ℕ → List Entry → ℕ
frame_at i [] = null
frame_at zero (e ∷ es) = e.frame
frame_at (suc i) (e ∷ es) = frame_at i es

abbrev pub no_entry : Entry
no_entry = record { frame = null; info = null; pid = 0 }

-- what is known of a child on the stack
pub record Stands (s : Manager) (e : Entry) (below : ℕ) : Type 0 where
  pub framed : Points s.frames e.frame (record { content = e.info; previous = below })
  pub known : Points s.infos e.info (record { pid = e.pid })

pub get_or-Stands :
    (s : Manager) (i : ℕ) (es : List Entry) (zse : ℕ)
    → IsStack s.frames zse (on_stack es)
    → HaveInfos s.infos es
    → i < length es
    → Stands s (get_or es i no_entry) (frame_at (suc i) es)
get_or-Stands s i [] zse st n h = absurd (omega arith)
get_or-Stands s zero (e ∷ []) zse (at, (q, points, st), apart) n h = record {
  framed = rw (st) at points;
  known = n.0;
}
get_or-Stands s zero (e ∷ (e' ∷ es)) zse (at, (q, points, st), apart) n h = record {
  framed = rw (st.0) at points;
  known = n.0;
}
get_or-Stands s (suc i) (e ∷ es) zse (at, (q, points, st), apart) n h =
    get_or-Stands s i es q st n.2 (omega arith)

pub step_down-frame :
    (s : Manager) (i : ℕ) (es : List Entry) (zse : ℕ)
    → IsStack s.frames zse (on_stack es)
    → i < length es
    → step_down i zse s ≡ done ((get_or es i no_entry).frame) s
unfolding step_down
step_down-frame s i [] zse st h = absurd (omega arith)
step_down-frame s zero (e ∷ es) zse (at, _, _) h = ap (λ z. done z s) at
step_down-frame s (suc i) (e ∷ es) zse (at, (q, points, st), apart) h =
    ap (λ z. step_down (suc i) z s) at
    ∙ rw (
      load-done s.frames e.frame (record { content = e.info; previous = q }) points,
      step_down-frame s i es q st (omega arith),
    )

pub frame_at-get_or :
    (i : ℕ) (es : List Entry) → i < length es → frame_at i es ≡ (get_or es i no_entry).frame
frame_at-get_or i [] h = absurd (omega arith)
frame_at-get_or zero (e ∷ es) h = refl
frame_at-get_or (suc i) (e ∷ es) h = frame_at-get_or i es (omega arith)

pub top_frame :
    (h : Heap Frame) (top : ℕ) (es : List Entry) → IsStack h top (on_stack es) → top ≡ frame_at 0 es
top_frame h top [] st = st
top_frame h top (e ∷ es) st = st.0
