-- ===== src/Lab5/System/Together.antt =====
-- All tasks of a context together: each writes to a part of the target of its own.
use mathlib.Core.Path.{subst}
use spovm4_labs.Base.{
  length, length-append, get_or, ltb, ltb→lt, Bool-cases, ℕ, zero, suc, ◌+◌, ◌-◌, ◌^◌, ◌≤◌, ◌<◌,
  ◌≡◌, refl, sym, ap, ◌∙◌, inl, inr, List, [], ◌∷◌, ◌++◌, append-nil, append_assoc, arith,
}
use spovm4_labs.Lab5.Copy.{IsTextFile}
use spovm4_labs.Lab5.System.Moves.{move-IsCopying, move-outside}
use spovm4_labs.Lab5.System.Stages.{IsCopying, complete_copied}
use spovm4_labs.Lab5.System.{
  FileOperations, Stage, to_read, reading, to_write, writing, complete_, overflowed, Entry, System,
  Event, add, advance, after_reader, start_read, finish_read, start_write, finish_write, move,
  move_at, context_of, step, run,
}
use spovm4_labs.Lab5.Task.{Job, finished, request, overflow, create_task, reader_job}

-- the sources one behind the other
abbrev pub concatenation : List Entry → List ℕ
concatenation [] = []
concatenation (e ∷ es) = e.source ++ concatenation es

-- the bytes of the files that are added, in their order
abbrev pub added : List Event → List ℕ
added [] = []
added (add task_file_fd source ∷ events) = source ++ added events
added (advance i ∷ events) = added events

abbrev pub AreComplete : List Entry → Type 0
AreComplete [] = Unit
AreComplete (e ∷ es) = (e.stage ≡ complete_) × AreComplete es

-- The files that are added have no NUL bytes and leave room in an `int`.
abbrev pub AllFit : ℕ → List Event → Type 0
AllFit size [] = Unit
AllFit size (add task_file_fd source ∷ events) =
    IsTextFile source × (length source + size < 2 ^ 31) × AllFit size events
AllFit size (advance i ∷ events) = AllFit size events

get_or-append_left :
    (xs ys : List ℕ) (k : ℕ) → k < length xs → get_or (xs ++ ys) k 0 ≡ get_or xs k 0
get_or-append_left [] ys k h = absurd (omega arith)
get_or-append_left (x ∷ xs) ys zero h = refl
get_or-append_left (x ∷ xs) ys (suc k) h = get_or-append_left xs ys k (omega arith)

get_or-append_right : (xs ys : List ℕ) (k : ℕ) → get_or (xs ++ ys) (length xs + k) 0 ≡ get_or ys k 0
get_or-append_right [] ys k = ap (λ i. get_or ys i 0) (omega arith)
get_or-append_right (x ∷ xs) ys k =
    let e : suc (length xs) + k ≡ suc (length xs + k) = omega arith in
    ap (λ i. get_or (x ∷ (xs ++ ys)) i 0) e ∙ get_or-append_right xs ys k

module _ {F : Type 0} (files : FileOperations F) (fd size : ℕ) where
  -- Each task has its part of the target behind that of the one before; the last ends at `end`.
  abbrev pub AreCopying : ℕ → List Entry → F → ℕ → Type 0
  AreCopying w [] f end = w ≡ end
  AreCopying w (e ∷ es) f end =
      IsCopying files fd size w e f × AreCopying (w + length e.source) es f end

  IsCopying-same :
      (w : ℕ) (e : Entry) (f f' : F)
      → ((k : ℕ) → k < length e.source → files.byte_at f' (w + k) ≡ files.byte_at f (w + k))
      → IsCopying files fd size w e f
      → IsCopying files fd size w e f'
  IsCopying-same w e f f' same c = record {
    at = c.at;
    is_text = c.is_text;
    small = c.small;
    stands = c.stands;
    copied = λ k h inside. same k inside ∙ c.copied k h inside;
  }

  AreCopying-same :
      (w : ℕ) (es : List Entry) (f f' : F) (end : ℕ)
      → ((k : ℕ) → w ≤ k → files.byte_at f' k ≡ files.byte_at f k)
      → AreCopying w es f end
      → AreCopying w es f' end
  AreCopying-same w [] f f' end same c = c
  AreCopying-same w (e ∷ es) f f' end same c = (
    IsCopying-same w e f f' (λ k h. same (w + k) (omega arith)) c.0,
    AreCopying-same (w + length e.source) es f f' end (λ k h. same k (omega arith)) c.1,
  )

  pub move-source :
      (st : Stage) (e : Entry) (f : F) → (move files fd size st e f).0.source ≡ e.source
  unfolding move start_read finish_read start_write finish_write
  move-source to_read e f = after (reader_job_of e) e
    where
      reader_job_of : Entry → Job
      reader_job_of e' = reader_job size e'.task

      after : (j : Job) (e' : Entry) → (after_reader e' j).source ≡ e'.source
      after (finished t) e' = refl
      after (request o t) e' = refl
      after overflow e' = refl
  move-source (reading o) e f = refl
  move-source to_write e f = refl
  move-source (writing o) e f = refl
  move-source complete_ e f = refl
  move-source overflowed e f = refl

  concatenation-move_at :
      (i : ℕ) (es : List Entry) (f : F)
      → concatenation (move_at files fd size i es f).0 ≡ concatenation es
  unfolding move_at
  concatenation-move_at i [] f = refl
  concatenation-move_at zero (e ∷ es) f = ap (λ s. s ++ concatenation es) (move-source e.stage e f)
  concatenation-move_at (suc i) (e ∷ es) f = ap (λ s. e.source ++ s) (concatenation-move_at i es f)

  concatenation-snoc :
      (es : List Entry) (e : Entry) → concatenation (es ++ e ∷ []) ≡ concatenation es ++ e.source
  concatenation-snoc [] e = append-nil e.source
  concatenation-snoc (x ∷ es) e =
      ap (λ s. x.source ++ s) (concatenation-snoc es e)
      ∙ sym (append_assoc x.source (concatenation es) e.source)

  pub concatenation-run :
      (events : List Event) (s : System F)
      → concatenation (run files fd size events s).entries ≡ concatenation s.entries ++ added events
  unfolding run step create_task
  concatenation-run [] s = sym (append-nil (concatenation s.entries))
  concatenation-run (add task_file_fd source ∷ events) s =
      let s' = step files fd size (add task_file_fd source) s in
      concatenation-run events s'
      ∙ ap (λ l. l ++ added events)
          (concatenation-snoc s.entries (record {
            source = source;
            task = (create_task (context_of files fd size s) task_file_fd (length source)).0;
            stage = to_read;
          }))
      ∙ append_assoc (concatenation s.entries) source (added events)
  concatenation-run (advance i ∷ events) s =
      concatenation-run events (step files fd size (advance i) s)
      ∙ ap (λ l. l ++ added events) (concatenation-move_at i s.entries s.target)

  pub AreCopying-snoc :
      (w : ℕ) (es : List Entry) (e : Entry) (f : F) (end : ℕ)
      → AreCopying w es f end
      → IsCopying files fd size end e f
      → AreCopying w (es ++ e ∷ []) f (end + length e.source)
  AreCopying-snoc w [] e f end c new =
      (subst (λ v. IsCopying files fd size v e f) (sym c) new, ap (λ v. v + length e.source) c)
  AreCopying-snoc w (x ∷ es) e f end c new =
      (c.0, AreCopying-snoc (w + length x.source) es e f end c.1 new)

  -- Where every task is complete, the target holds the sources.
  pub copied_all :
      (w : ℕ) (es : List Entry) (f : F) (end : ℕ)
      → AreCopying w es f end
      → AreComplete es
      → (k : ℕ) → k < length (concatenation es)
      → files.byte_at f (w + k) ≡ get_or (concatenation es) k 0
  copied_all w [] f end c d k h = absurd (omega arith)
  copied_all w (e ∷ es) f end c d k h = elim (Bool-cases (ltb k (length e.source))) [
    | inl here ↦
        let lt : k < length e.source = ltb→lt k (length e.source) here in
        complete_copied files fd size w e f c.0 d.0 k lt
        ∙ sym (get_or-append_left e.source (concatenation es) k lt)
    | inr later ↦
        let j = k - length e.source in
        let at : length e.source + j ≡ k = ground arith in
        ap (files.byte_at f) (omega arith)
        ∙ copied_all (w + length e.source) es f end c.1 d.1 j
            (omega (arith, length-append e.source (concatenation es)))
        ∙ sym (get_or-append_right e.source (concatenation es) j)
        ∙ ap (λ i. get_or (e.source ++ concatenation es) i 0) at
  ]

  pub end-length :
      (w : ℕ) (es : List Entry) (f : F) (end : ℕ)
      → AreCopying w es f end
      → end ≡ w + length (concatenation es)
  end-length w [] f end c = omega arith
  end-length w (e ∷ es) f end c = omega (
    arith,
    end-length (w + length e.source) es f end c.1,
    length-append e.source (concatenation es),
  )

  module _ (some_size : 0 < size) where
    pub move_at-AreCopying :
        (i w : ℕ) (es : List Entry) (f : F) (end : ℕ)
        → AreCopying w es f end
        → AreCopying w (move_at files fd size i es f).0 (move_at files fd size i es f).1 end
          × ((k : ℕ) → k < w → files.byte_at (move_at files fd size i es f).1 k ≡ files.byte_at f k)
    unfolding move_at
    move_at-AreCopying i w [] f end c = (c, λ k h. refl)
    move_at-AreCopying zero w (e ∷ es) f end c =
        let (e', f') = move files fd size e.stage e f in
        let outside = λ (k : ℕ). move-outside files fd size some_size w e.stage e f k refl c.0 in
        (
          (
            move-IsCopying files fd size some_size w e.stage e f refl c.0,
            subst (λ s. AreCopying (w + length s) es f' end) (sym (move-source e.stage e f))
                (AreCopying-same (w + length e.source) es f f' end (λ k h. outside k (inr h)) c.1),
          ),
          λ k h. outside k (inl h),
        )
    move_at-AreCopying (suc i) w (e ∷ es) f end c =
        let (others, same) = move_at-AreCopying i (w + length e.source) es f end c.1 in
        (
          (
            IsCopying-same w e f (move_at files fd size i es f).1
                (λ k h. same (w + k) (omega arith)) c.0,
            others,
          ),
          λ k h. same k (omega arith),
        )
