-- ===== src/Tests/Locks.antt =====
-- The theorems on the locks, in states that three threads reach.
use tox4j.Base.{ℕ, ◌*◌, ◌≤◌, false, none, some, ◌≡◌, ◌≢◌, refl, arith}
use tox4j.Jni.Locks.{
  calls, ends, adds, running, closing, destroying, System, arrive, lock_manager, call_found,
  lock_instance, unlock_manager, return_function, move_out, lock_dying, unlock_dying, grow, leave,
  Reach, here, later,
}
use tox4j.Jni.Locks.Invariant.{refers}
use tox4j.Jni.Locks.Safety.{runs_alone, destroys_unreferenced}
use tox4j.Jni.Locks.Progress.{GoesOn, no_deadlock}
use tox4j.Jni.Locks.Finish.{Working, Finishes, Quiet, operations_finish}

-- Thread 0 has added an instance.
abbrev added : (s : System) × Reach s
added = (
  _,
  later 0
      (later 0 (later 0 (later 0 here (arrive adds refl)) (lock_manager adds refl refl))
        (grow refl))
      (leave refl),
)

-- Thread 1 is in a function on it.
abbrev called : (s : System) × Reach s
called = (
  _,
  later 1
      (later 1
        (later 1
          (later 1 (later 1 added.1 (arrive (calls 0) refl)) (lock_manager (calls 0) refl refl))
          (call_found 0 0 refl refl))
        (lock_instance 0 refl refl))
      (unlock_manager 0 refl),
)

-- Thread 2 has taken it out of the table and waits for its mutex.
abbrev contended : (s : System) × Reach s
contended = (
  _,
  later 2 (later 2 (later 2 called.1 (arrive (ends 0) refl)) (lock_manager (ends 0) refl refl))
      (move_out 0 0 refl refl),
)

-- The function has returned, and thread 2 is about to destroy the instance.
abbrev ending : (s : System) × Reach s
ending = (
  _,
  later 2 (later 2 (later 1 contended.1 (return_function 0 refl)) (lock_dying 0 refl refl))
      (unlock_dying 0 refl),
)

runs_alone_example :
    (contended.0.destroyed 0 ≡ false)
    × ((j : ℕ)
        → j ≢ 1
        → (contended.0.pc j ≢ running 0)
          × (contended.0.pc j ≢ closing 0)
          × (contended.0.pc j ≢ destroying 0))
runs_alone_example = runs_alone contended.1 1 0 refl

destroys_unreferenced_example :
    (ending.0.destroyed 0 ≡ false)
    × (ending.0.held 0 ≡ none)
    × ((n : ℕ) → ending.0.slots n ≢ some 0)
    × ((j : ℕ) → j ≢ 2 → refers (ending.0.pc j) ≢ some 0)
destroys_unreferenced_example = destroys_unreferenced ending.1 2 0 refl

no_deadlock_example : GoesOn contended.0
no_deadlock_example = no_deadlock contended.1 2 (λ q. cc)

quiet : Quiet 3 contended.0
quiet i h = ground arith

operations_finish_example :
    ((k : ℕ) (t : System) → Working k contended.0 t → k ≤ 6 * 3) × Finishes contended.0
operations_finish_example = operations_finish 3 contended.1 quiet
