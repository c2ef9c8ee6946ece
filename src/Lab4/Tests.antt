-- ===== src/Lab4/Tests.antt =====
-- Runs of the thread manager.
use spovm4_labs.Base.{ℕ, suc, ◌+◌, ◌*◌, ◌≡◌, refl, true, Option, none, some, List, [], ◌∷◌}
use spovm4_labs.Lab4.Child.{start_child, wake_child}
use spovm4_labs.Lab4.Manager.{
  Outcome, ok, Step, give, ◌>>=◌, ◌>>◌, state, Supply, send_tm, update_current_child, get_data,
  add_child, handle, round, start_tm,
}
use spovm4_labs.Lab4.Queue.{offer, poll}
use spovm4_labs.Lab4.Ring.{add, data_of}
use spovm4_labs.Pointers.{load, store, fill, free}

abbrev supply : ℕ → Supply
supply n = record {
  letter = n * 10 + 1;
  queue_element = n * 10 + 2;
  child = n * 10 + 3;
  ring_element = n * 10 + 4;
  created = true;
}

-- each letter is sent, and the rounds follow
abbrev run : ℕ → List ℕ → Step ℕ
run n [] = do s ← state; give s.current_child
run n (l ∷ ls) = do send_tm 5 (supply n) l; round 5 (supply (suc n)); run (suc (suc n)) ls

abbrev view : {A : Type 0} → Outcome A → Option A
view (ok a s) = some a
view _ = none

-- The second child stays last; the first is current.
two_started : view (run 1 (b'+' ∷ b'+' ∷ []) start_tm) ≡ some 24
unfolding start_tm send_tm round get_data handle add_child update_current_child offer poll fill load
    free start_child add data_of wake_child store
two_started = refl
