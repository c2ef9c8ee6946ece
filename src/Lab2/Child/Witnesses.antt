-- ===== src/Lab2/Child/Witnesses.antt =====
-- The theorems at three children, the first of which has taken the semaphore.
use spovm4_labs.Base.{◌≡◌, ◌≢◌, refl, true, false, ℕ, List, arith}
use spovm4_labs.Lab2.Child.Exclusive.{
  is_printing, spares_waiting, printing-alone, terminate-lets_in,
}
use spovm4_labs.Lab2.Child.Rows.{spares_all, rows, printed-rows}
use spovm4_labs.Lab2.Child.{
  Terminal, start, take, print, release, terminate, initialized, step, Reaches, here, then_step,
}

abbrev taken : Terminal
taken = step (take 0) (step (start 2 b'c') (step (start 1 b'b') (step (start 0 b'a') initialized)))

taken-Reaches : Reaches spares_waiting initialized taken
taken-Reaches =
    then_step (take 0)
      (then_step (start 2 b'c') (then_step (start 1 b'b') (then_step (start 0 b'a') here refl) refl)
        refl)
      refl

printing-alone_example : ◌≡◌ {A = ℕ} 0 0
unfolding step
printing-alone_example = printing-alone taken 0 0 taken-Reaches refl refl

terminate-lets_in_example :
    (is_printing ((step (take 2) (step (terminate 1) taken)).child 0).phase ≡ true)
    × (is_printing ((step (take 2) (step (terminate 1) taken)).child 2).phase ≡ true)
    × (◌≢◌ {A = ℕ} 0 2)
unfolding step
terminate-lets_in_example = terminate-lets_in taken 0 1 2 refl refl refl refl refl

abbrev printed : Terminal
printed = step (release 0) (
    step (print 0) (
      step (print 0) (
        step (print 0) (
          step (print 0) (
            step (print 0) (
              step (print 0)
                (step (print 0) (step (take 0) (step (start 0 b'a') initialized)))))))))

printed-Reaches : Reaches spares_all initialized printed
printed-Reaches =
    then_step (release 0)
      (then_step (print 0)
        (then_step (print 0)
          (then_step (print 0)
            (then_step (print 0)
              (then_step (print 0)
                (then_step (print 0)
                  (then_step (print 0)
                    (then_step (take 0) (then_step (start 0 b'a') here refl) refl) refl)
                  refl)
                refl)
              refl)
            refl)
          refl)
        refl)
      refl

printed-silent : (i : ℕ) → is_printing (printed.child i).phase ≡ false
unfolding step
printed-silent i = ground arith

printed-rows_example : (cs : List ℕ) × (printed.printed ≡ rows cs)
printed-rows_example = printed-rows printed printed-Reaches printed-silent
