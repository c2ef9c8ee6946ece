-- ===== src/Lab2/Windows/Managed.antt =====
-- What the events do to the children.
use spovm4_labs.Base.{
  length, get_or, ◌==◌, if◌then◌else◌, Bool-cases, ℕ, suc, ◌+◌, ◌*◌, ◌<◌, ◌≡◌, refl, ap, ◌∙◌, inl,
  inr, true, false, none, some, List, [], ◌∷◌, ◌++◌, arith,
}
use spovm4_labs.Lab2.Stack.{Frame, IsStack, zox_push-IsStack, holds_frame}
use spovm4_labs.Lab2.Windows.Children.{
  Entry, no_entry, on_stack, holds_info, HaveInfos, parents, HaveInfos-write, parent_events-parents,
  Stands, get_or-Stands, step_down-frame, frame_at-get_or, top_frame,
}
use spovm4_labs.Lab2.Windows.{
  Name, numbered, Info, Manager, Supply, put_event, base_handlers, parent_events, refresh_handlers,
  run_child, on_create_child, create_process, on_child,
}
use spovm4_labs.Pointers.{null, Heap, write, Points, load-done, fill-done, Points-write_self}
use spovm4_labs.Stateful.{done}

-- The children are on the stack, the last started first, and the array has the events of each behind
-- the base ones.
pub record IsManaged (s : Manager) (es : List Entry) : Type 0 where
  pub stack : IsStack s.frames s.child_stack_top (on_stack es)
  pub infos : HaveInfos s.infos es
  pub counted : s.child_count ≡ length es
  pub watched : s.handlers_array ≡ base_handlers ++ parents es

-- a child becomes the working one and is woken
abbrev pub running : Entry → Manager → Manager
running e s = put_event (numbered e.pid) true (record s { current_working_child = e.frame })

pub run_child-done :
    (s : Manager) (e : Entry) (below : ℕ)
    → Stands s e below
    → run_child e.frame s ≡ done tt (running e s)
unfolding run_child
run_child-done s e below k = rw (
  load-done s.frames e.frame (record { content = e.info; previous = below }) k.framed,
  load-done s.infos e.info (record { pid = e.pid }) k.known,
)

-- the number of the child that comes behind that with a number
abbrev pub number_after : ℕ → ℕ → ℕ
number_after count i = if suc i == count then 0 else suc i

-- Where a child on the stack has set its event: the event is reset, and the next child, counted
-- from the top of the stack and with the top behind the last, becomes the working one and is woken;
-- nothing else changes.
pub on_child-passes :
    (s : Manager) (es : List Entry) (i : ℕ)
    → IsManaged s es
    → i < length es
    → (on_child i s
        ≡ done tt (
            running
              (get_or es (number_after (length es) i) no_entry)
              (put_event (numbered ((get_or es i no_entry).pid * 2)) false s)))
      × IsManaged
          (running
            (get_or es (number_after (length es) i) no_entry)
            (put_event (numbered ((get_or es i no_entry).pid * 2)) false s))
          es
unfolding on_child
on_child-passes s es i m h =
    let e = get_or es i no_entry in
    let k = get_or-Stands s i es s.child_stack_top m.stack m.infos h in
    let s₁ = put_event (numbered (e.pid * 2)) false s in
    (
      elim (Bool-cases (suc i == length es)) [
        | inl last ↦
            let over : (suc i == s.child_count) ≡ true = ap (λ n. suc i == n) m.counted ∙ last in
            let top = get_or-Stands s₁ 0 es s.child_stack_top m.stack m.infos (omega arith) in
            rw
              (
                step_down-frame s i es s.child_stack_top m.stack h,
                load-done s.frames e.frame _ k.framed,
                load-done s.infos e.info _ k.known,
                over,
                last,
              )
              (ap (λ z. run_child z s₁)
                  (top_frame s.frames s.child_stack_top es m.stack
                    ∙ frame_at-get_or 0 es (omega arith))
                ∙ run_child-done s₁ (get_or es 0 no_entry) _ top)
        | inr more ↦
            let going : (suc i == s.child_count) ≡ false = ap (λ n. suc i == n) m.counted ∙ more in
            let lt : suc i < length es = ground arith in
            let next = get_or-Stands s₁ (suc i) es s.child_stack_top m.stack m.infos lt in
            rw
              (
                step_down-frame s i es s.child_stack_top m.stack h,
                load-done s.frames e.frame _ k.framed,
                load-done s.infos e.info _ k.known,
                going,
                more,
                step_down-frame s₁ i es s.child_stack_top m.stack h,
                load-done s.frames e.frame _ k.framed,
              )
              (ap (λ z. run_child z s₁) (frame_at-get_or (suc i) es lt)
                ∙ run_child-done s₁ (get_or es (suc i) no_entry) _ next)
      ],
      record { stack = m.stack; infos = m.infos; counted = m.counted; watched = m.watched },
    )

pub refresh_handlers-done :
    (s : Manager) (es : List Entry)
    → IsStack s.frames s.child_stack_top (on_stack es)
    → HaveInfos s.infos es
    → s.child_count ≡ length es
    → refresh_handlers s ≡ done tt (record s { handlers_array = base_handlers ++ parents es })
unfolding refresh_handlers
refresh_handlers-done s es st i n = rw (
    ap (λ k. parent_events k s.child_stack_top s) n
    ∙ parent_events-parents s es s.child_stack_top st i)

-- NULL is below the top of the stack just where it is empty.
pub below_null :
    (h : Heap Frame) (q : ℕ) (es : List Entry)
    → IsStack h q (on_stack es)
    → (q == null) ≡ (length es == 0)
below_null h q [] st = ap (λ a. a == null) st
below_null h q (e ∷ es) st = ap (λ a. a == null) st.0 ∙ st.1.1.not_null ∙ ground arith

-- Where the process of the new child is created, its memory is new and there is memory for the array,
-- the event that creates a child puts it on top of the children, and wakes it if it is the only one.
pub on_create_child-IsManaged :
    (supply : Supply) (s : Manager) (es : List Entry)
    → IsManaged s es
    → supply.created ≡ true
    → supply.has_array ≡ true
    → (supply.info == null) ≡ false
    → (supply.frame == null) ≡ false
    → holds_info supply.info es ≡ false
    → holds_frame supply.frame (on_stack es) ≡ false
    → (s' : Manager) × (on_create_child supply s ≡ done none s')
      × IsManaged s' (record { frame = supply.frame; info = supply.info; pid = supply.pid } ∷ es)
      × (s'.is_set (numbered supply.pid)
          ≡ (if length es == 0 then true else s.is_set (numbered supply.pid)))
      × (s'.current_working_child ≡ s.current_working_child)
      × (s'.killed ≡ s.killed)
unfolding on_create_child create_process
on_create_child-IsManaged supply s es m created has_array ok_info ok_frame new_info new_frame =
    let new : Entry = record { frame = supply.frame; info = supply.info; pid = supply.pid } in
    let d : Info = record { pid = supply.pid } in
    let (h, pushed, st) =
      zox_push-IsStack s.frames supply.frame s.child_stack_top supply.info (on_stack es) m.stack
        ok_frame new_frame in
    let (q, points, below) = st.1 in
    let infos = write s.infos supply.info (some d) in
    let known : Points infos supply.info d = Points-write_self s.infos supply.info d ok_info in
    let have : HaveInfos infos (new ∷ es) =
      (known, new_info, HaveInfos-write s.infos es supply.info (some d) new_info m.infos) in
    let only : (q == null) ≡ (length es == 0) = below_null h q es below in
    let s₁ = record (put_event Name.create_child false s) {
      frames = h;
      infos = infos;
      child_stack_top = supply.frame;
      child_count = s.child_count + 1;
    } in
    let count : s.child_count + 1 ≡ length (new ∷ es) = omega (arith, m.counted) in
    elim (Bool-cases (length es == 0)) [
      | inl first ↦
          let s₂ = put_event (numbered supply.pid) true s₁ in
          (
            record s₂ { handlers_array = base_handlers ++ parents (new ∷ es) },
            rw (
              fill-done s.infos supply.info d ok_info,
              created,
              pushed,
              load-done h supply.frame _ points,
              load-done infos supply.info d known,
              only,
              first,
              has_array,
              refresh_handlers-done s₂ (new ∷ es) st have count,
            ),
            record { stack = st; infos = have; counted = count; watched = refl },
            ground (arith, first),
            refl,
            refl,
          )
      | inr more ↦ (
        record s₁ { handlers_array = base_handlers ++ parents (new ∷ es) },
        rw (
          fill-done s.infos supply.info d ok_info,
          created,
          pushed,
          load-done h supply.frame _ points,
          load-done infos supply.info d known,
          only,
          more,
          has_array,
          refresh_handlers-done s₁ (new ∷ es) st have count,
        ),
        record { stack = st; infos = have; counted = count; watched = refl },
        ground (arith, more),
        refl,
        refl,
      )
    ]
