-- ===== src/Lab5/Executor.antt =====
-- lab5/src/zox_aio/task_executor/task_executor.c: an executor is a thread that takes notifications from
-- a queue; NULL ends it. The queue is GLib's.
use spovm4_labs.Base.{
  length, ◌==◌, if◌then◌else◌, ==_ne, ℕ, zero, suc, ◌<◌, ◌≡◌, refl, sym, ap, ◌∙◌, false, Option,
  none, some, List, [], ◌∷◌, ◌++◌, map, append-nil, append_assoc, arith,
}

-- What the code calls of a `GQueue`, and what the queue holds.
pub record QueueOperations (Q N : Type 0) : Type 0 where
  pub push_tail : N → Q → Q
  pub pop_head : Q → N × Q
  pub get_length : Q → ℕ
  pub contents : Q → List N
  pub contents-push_tail : (n : N) (q : Q) → contents (push_tail n q) ≡ contents q ++ n ∷ []
  pub contents-pop_head :
      (q : Q) (n : N) (ns : List N)
      → contents q ≡ n ∷ ns
      → ((pop_head q).0 ≡ n) × (contents (pop_head q).1 ≡ ns)
  pub length-contents : (q : Q) → get_length q ≡ length (contents q)

-- where the thread stands: it waits for a notification, it has ended, or the fuel is out
pub data Thread (Q S : Type 0) : Type 0 where
  waiting : Q → S → Thread Q S
  ended : Q → S → Thread Q S
  running : Thread Q S

abbrev pub listen_all : {S T : Type 0} → (T → S → S) → List T → S → S
listen_all task_listener [] s = s
listen_all task_listener (t ∷ ts) s = listen_all task_listener ts (task_listener t s)

module _ {Q T : Type 0} (ops : QueueOperations Q (Option T)) where
  unfoldable pub notify_executor : T → Q → Q
  notify_executor task q = ops.push_tail (some task) q

  -- without the wait for the thread's end
  unfoldable pub kill_executor : Q → Q
  kill_executor q = ops.push_tail none q

  abbrev pub notify_all : List T → Q → Q
  notify_all [] q = q
  notify_all (t ∷ ts) q = notify_all ts (notify_executor t q)

  contents-notify_all :
      (ts : List T) (q : Q) → ops.contents (notify_all ts q) ≡ ops.contents q ++ map some ts
  unfolding notify_executor
  contents-notify_all [] q = sym (append-nil (ops.contents q))
  contents-notify_all (t ∷ ts) q =
      contents-notify_all ts (ops.push_tail (some t) q)
      ∙ ap (λ l. l ++ map some ts) (ops.contents-push_tail (some t) q)
      ∙ append_assoc (ops.contents q) (some t ∷ []) (map some ts)

module _ {Q S T : Type 0} (ops : QueueOperations Q (Option T)) where
  -- `task_listener` as what it does to the state
  unfoldable pub executor_thread : (T → S → S) → ℕ → Q → S → Thread Q S
  executor_thread task_listener zero q s = running
  executor_thread task_listener (suc k) q s =
      if ops.get_length q == 0 then waiting q s else elim (ops.pop_head q).0 [
        | none ↦ ended (ops.pop_head q).1 s
        | some task ↦ executor_thread task_listener k (ops.pop_head q).1 (task_listener task s)
      ]

  executor_thread-drains :
      (task_listener : T → S → S) (k : ℕ) (ts : List T) (q : Q) (s : S)
      → ops.contents q ≡ map some ts ++ none ∷ []
      → length ts < k
      → (q' : Q) × (executor_thread task_listener k q s ≡ ended q' (listen_all task_listener ts s))
        × (ops.contents q' ≡ [])
  unfolding executor_thread
  executor_thread-drains f zero ts q s c l = absurd (omega arith)
  executor_thread-drains f (suc k) [] q s c l =
      let (head, rest) = ops.contents-pop_head q none [] c in
      let more : (ops.get_length q == 0) ≡ false =
        ==_ne (ops.get_length q) 0 (λ z. omega (arith, ops.length-contents q, ap length c)) in
      ((ops.pop_head q).1, rw (more, head) refl, rest)
  executor_thread-drains f (suc k) (t ∷ ts) q s c l =
      let (head, rest) = ops.contents-pop_head q (some t) (map some ts ++ none ∷ []) c in
      let more : (ops.get_length q == 0) ≡ false =
        ==_ne (ops.get_length q) 0 (λ z. omega (arith, ops.length-contents q, ap length c)) in
      let (q', run, empty) =
        executor_thread-drains f k ts (ops.pop_head q).1 (f t s) rest (omega arith) in
      (q', rw (more, head) run, empty)

  -- With more rounds than tasks, an executor that is killed behind some notifications on an empty
  -- queue ends, after the listener has had each task once, in their order, and leaves the queue
  -- empty.
  pub kill_executor-drains :
      (task_listener : T → S → S) (k : ℕ) (ts : List T) (q : Q) (s : S)
      → ops.contents q ≡ []
      → length ts < k
      → (q' : Q) × (executor_thread task_listener k (kill_executor ops (notify_all ops ts q)) s
          ≡ ended q' (listen_all task_listener ts s))
        × (ops.contents q' ≡ [])
  unfolding kill_executor
  kill_executor-drains f k ts q s empty l =
      executor_thread-drains f k ts (ops.push_tail none (notify_all ops ts q)) s
        (ops.contents-push_tail none (notify_all ops ts q)
          ∙ ap (λ l. l ++ none ∷ [])
              (contents-notify_all ops ts q ∙ ap (λ l. l ++ map some ts) empty))
        l
