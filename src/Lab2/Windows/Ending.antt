-- ===== src/Lab2/Windows/Ending.antt =====
-- The events that end children.
use spovm4_labs.Base.{
  length, get_or, ◌==◌, if◌then◌else◌, Bool-cases, ℕ, zero, suc, ◌-◌, ◌*◌, ◌<◌, ◌≡◌, refl, sym, ap,
  ◌∙◌, inl, inr, true, false, not, ◌&&◌, none, List, [], ◌∷◌, ◌++◌, append_assoc, append-nil, arith,
}
use spovm4_labs.Base.Text.{codes}
use spovm4_labs.Lab2.Stack.{Frame, IsStack, zox_pop, zox_pop-IsStack}
use spovm4_labs.Lab2.Windows.Children.{
  Entry, no_entry, on_stack, HaveInfos, parents, HaveInfos-write, frame_at, get_or-Stands,
  frame_at-get_or, top_frame,
}
use spovm4_labs.Lab2.Windows.Managed.{
  IsManaged, running, run_child-done, refresh_handlers-done, below_null,
}
use spovm4_labs.Lab2.Windows.{
  Name, numbered, name_eq, Manager, put_event, kill_process, base_handlers, run_child,
  on_kill_manager, kills_running, on_kill_child,
}
use spovm4_labs.Pointers.{
  null, Heap, write, Points, load-done, free-done, fill-done, Points-write_self,
}
use spovm4_labs.Pointers as P
use spovm4_labs.Stateful.{done}

-- the state behind the end of the top child: `h` is the stack's memory then and `q` its top
abbrev ended : Entry → Heap Frame → ℕ → Manager → Manager
ended e h q s = record s {
  frames = h;
  infos = write s.infos e.info none;
  child_stack_top = q;
  child_count = s.child_count - 1;
  is_set = λ n. if name_eq n (numbered (e.pid * 3)) then true else s.is_set n;
  killed = s.killed ++ e.pid ∷ [];
}

-- The top child is taken off the stack and ended.
kill_top :
    (s : Manager) (e : Entry) (es : List Entry)
    → IsStack s.frames s.child_stack_top (on_stack (e ∷ es))
    → HaveInfos s.infos (e ∷ es)
    → (h : Heap Frame) × (q : ℕ) × (zox_pop s.child_stack_top s.frames ≡ P.done (e.info, q) h)
      × (kill_process e.info (record s { frames = h; child_stack_top = q })
          ≡ done tt (ended e h q s))
      × IsStack h q (on_stack es)
      × HaveInfos (write s.infos e.info none) es
unfolding kill_process
kill_top s e es st i =
    let (h, q, popped, below) =
      zox_pop-IsStack s.frames s.child_stack_top e.frame e.info (on_stack es) st in
    (
      h,
      q,
      popped,
      rw (
        load-done s.infos e.info (record { pid = e.pid }) i.0,
        free-done s.infos e.info (record { pid = e.pid }) i.0,
      ),
      below,
      HaveInfos-write s.infos es e.info none i.1 i.2,
    )

abbrev pub pids : List Entry → List ℕ
pids [] = []
pids (e ∷ es) = e.pid ∷ pids es

-- With more fuel than children, the event that ends the manager ends every child once, the last
-- started first, and leaves none.
pub on_kill_manager-all :
    (fuel : ℕ) (s : Manager) (es : List Entry)
    → IsStack s.frames s.child_stack_top (on_stack es)
    → HaveInfos s.infos es
    → s.child_count ≡ length es
    → length es < fuel
    → (s' : Manager) × (on_kill_manager fuel s ≡ done tt s')
      × (s'.killed ≡ s.killed ++ pids es)
      × (s'.child_stack_top ≡ null)
      × (s'.child_count ≡ 0)
unfolding on_kill_manager
on_kill_manager-all zero s es st i n f = absurd (omega arith)
on_kill_manager-all (suc fuel) s [] st i n f =
    let empty : (s.child_stack_top == null) ≡ true = ground arith in
    (
      record s { printed = codes "manager died\n" ∷ s.printed },
      rw empty refl,
      sym (append-nil s.killed),
      st,
      n,
    )
on_kill_manager-all (suc fuel) s (e ∷ es) st i n f =
    let (h, q, popped, killed, below, infos) = kill_top s e es st i in
    let some_child : (s.child_stack_top == null) ≡ false =
      ap (λ a. a == null) st.0 ∙ st.1.1.not_null in
    let (s', more, all, top, count) =
      on_kill_manager-all fuel (ended e h q s) es below infos (omega arith) (omega arith) in
    (
      s',
      rw (some_child, popped, killed) more,
      all ∙ append_assoc s.killed (e.pid ∷ []) (pids es),
      top,
      count,
    )

-- Whether the top child is the working one, with another one below.
kills_running-done :
    (s : Manager) (e : Entry) (es : List Entry)
    → IsStack s.frames s.child_stack_top (on_stack (e ∷ es))
    → kills_running s
      ≡ done (s.child_stack_top == s.current_working_child && not (length es == 0)) s
unfolding kills_running
kills_running-done s e es (at, (q, points, below), apart) =
    elim (Bool-cases (s.child_stack_top == s.current_working_child)) [
      | inl runs ↦
          let loaded = ap (λ a. P.load a s.frames) at ∙ load-done s.frames e.frame _ points in
          rw (runs, loaded, below_null s.frames q es below)
      | inr rests ↦ rw rests
    ]

-- the working child behind the end of the top one
abbrev pub working_after : Manager → List Entry → ℕ
working_after s es =
    if s.child_stack_top == s.current_working_child && not (length es == 0)
    then frame_at 0 es
    else s.current_working_child

-- The event that kills a child ends the one on top and takes it off the stack; the structures, the
-- count and the array of events are those of the children that are left; if it was the working one
-- and another is below, that one becomes the working one.
pub on_kill_child-IsManaged :
    (s : Manager) (e : Entry) (es : List Entry)
    → IsManaged s (e ∷ es)
    → (s' : Manager) × (on_kill_child s ≡ done tt s')
      × IsManaged s' es
      × (s'.killed ≡ s.killed ++ e.pid ∷ [])
      × (s'.current_working_child ≡ working_after s es)
unfolding on_kill_child
on_kill_child-IsManaged s e es m =
    let s₁ = put_event Name.kill_child false s in
    let flag = s.child_stack_top == s.current_working_child && not (length es == 0) in
    let (h, q, popped, killed, below, infos) = kill_top s₁ e es m.stack m.infos in
    let s₂ = ended e h q s₁ in
    let count : s₂.child_count ≡ length es = omega (arith, m.counted) in
    let s₃ = record s₂ { handlers_array = base_handlers ++ parents es } in
    let some_child : (s.child_stack_top == null) ≡ false =
      ap (λ a. a == null) m.stack.0 ∙ m.stack.1.1.not_null in
    let refreshed = refresh_handlers-done s₂ es below infos count in
    let running_flag = kills_running-done s₁ e es m.stack in
    elim (Bool-cases flag) [
      | inl passes ↦
          let lt : 0 < length es = ground (arith, passes) in
          let next = get_or es 0 no_entry in
          let k = get_or-Stands s₃ 0 es q below infos lt in
          let s₄ = put_event (numbered (next.pid * 2)) false s₃ in
          let k₄ = get_or-Stands s₄ 0 es q below infos lt in
          let at : q ≡ next.frame = top_frame h q es below ∙ frame_at-get_or 0 es lt in
          let loaded = ap (λ a. P.load a h) at ∙ load-done h next.frame _ k.framed in
          let runs = ap (λ a. run_child a s₄) at ∙ run_child-done s₄ next _ k₄ in
          (
            running next s₄,
            rw
                (
                  some_child,
                  running_flag,
                  passes,
                  popped,
                  killed,
                  refreshed,
                  loaded,
                  load-done (write s.infos e.info none) next.info _ k.known,
                )
                runs,
            record { stack = below; infos = infos; counted = count; watched = refl },
            refl,
            rw passes (sym (frame_at-get_or 0 es lt)),
          )
      | inr stays ↦ (
        s₃,
        rw (some_child, running_flag, stays, popped, killed, refreshed) refl,
        record { stack = below; infos = infos; counted = count; watched = refl },
        refl,
        rw stays refl,
      )
    ]
