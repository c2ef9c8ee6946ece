-- ===== src/Lab5/System/Concatenated.antt =====
-- What the target file is when all tasks are complete.
use spovm4_labs.Base.{
  length, get_or, if◌then◌else◌, ℕ, ◌+◌, ◌*◌, ◌^◌, ◌<◌, ◌≡◌, refl, sym, ap, ◌∙◌, List, [], ◌∷◌,
  arith,
}
use mathlib.Core.Path.{subst}
use spovm4_labs.Lab5.Copy.{IsTextFile, starts_with_byte-zeros}
use spovm4_labs.Lab5.System.Stages.{IsCopying}
use spovm4_labs.Lab5.System.Together.{
  concatenation, added, AreComplete, AllFit, AreCopying, AreCopying-snoc, copied_all, end-length,
  concatenation-run, move_at-AreCopying,
}
use spovm4_labs.Lab5.System.{
  FileOperations, to_read, System, Event, add, advance, context_of, step, run, initialized,
}
use spovm4_labs.Lab5.Task.{create_task}

module _ {F : Type 0} (files : FileOperations F) (fd size : ℕ) (some_size : 0 < size) where
  -- A task that was just added has copied nothing yet.
  pub created-IsCopying :
      (s : System F) (task_file_fd : ℕ) (source : List ℕ)
      → IsTextFile source
      → length source + size < 2 ^ 31
      → IsCopying files fd size s.target_file_expected_size
          (record {
            source = source;
            task = (create_task (context_of files fd size s) task_file_fd (length source)).0;
            stage = to_read;
          })
          s.target
  unfolding create_task
  created-IsCopying s task_file_fd source text small = record {
    at = 0;
    is_text = text;
    small = small;
    stands = (
      record {
        sized = refl;
        reading = refl;
        counted =
            ap (λ b. ((if b then 1 else 0) + 0) * size) (starts_with_byte-zeros size) ∙ omega arith;
        whole = λ h. refl;
      },
      omega arith,
      omega arith,
      record {
        fildes = refl;
        filled = λ h. absurd (omega arith);
        reaches = λ h. absurd (omega arith);
      },
    );
    copied = λ k h inside. absurd (omega arith);
  }

  pub run-AreCopying :
      (events : List Event) (s : System F)
      → AllFit size events
      → AreCopying files fd size 0 s.entries s.target s.target_file_expected_size
      → AreCopying files fd size 0
          (run files fd size events s).entries
          (run files fd size events s).target
          (run files fd size events s).target_file_expected_size
  unfolding run step create_task
  run-AreCopying [] s fit c = c
  run-AreCopying (add task_file_fd source ∷ events) s fit c =
      run-AreCopying events (step files fd size (add task_file_fd source) s) fit.2 (
        AreCopying-snoc files fd size 0 s.entries _ s.target s.target_file_expected_size c
          (created-IsCopying s task_file_fd source fit.0 fit.1))
  run-AreCopying (advance i ∷ events) s fit c =
      run-AreCopying events (step files fd size (advance i) s) fit
        (move_at-AreCopying files fd size some_size i 0 s.entries s.target
          s.target_file_expected_size c).0

  -- Files without NUL bytes and below 2 GiB with a buffer to spare, and buffers of a byte at least:
  -- whatever the order in which files are added, jobs are carried out and requests complete, once
  -- every task is complete the target holds the bytes of the files one behind the other in the
  -- order in which they were added, and its expected size is their length.
  pub run-concatenates :
      (events : List Event) (f : F)
      → AllFit size events
      → AreComplete (run files fd size events (initialized files fd size f)).entries
      → ((run files fd size events (initialized files fd size f)).target_file_expected_size
          ≡ length (added events))
        × ((k : ℕ)
            → k < length (added events)
            → files.byte_at (run files fd size events (initialized files fd size f)).target k
              ≡ get_or (added events) k 0)
  run-concatenates events f fit complete =
      let start = initialized files fd size f in
      let s = run files fd size events start in
      let c = run-AreCopying events start fit refl in
      let all : concatenation s.entries ≡ added events =
        concatenation-run files fd size events start in
      (
        omega (
          arith,
          end-length files fd size 0 s.entries s.target s.target_file_expected_size c,
          ap length all,
        ),
        λ k h.
            let e : k ≡ 0 + k = omega arith in
            ap (files.byte_at s.target) e
            ∙ copied_all files fd size 0 s.entries s.target s.target_file_expected_size c complete k
                (subst (λ l. k < length l) (sym all) h)
            ∙ ap (λ l. get_or l k 0) all,
      )
