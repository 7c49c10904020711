-- ===== src/Jni/Locks/Safety.antt =====
-- No function runs on an instance that another thread uses or that has been destroyed.
use tox4j.Base.{ℕ, false, none, some, ◌≡◌, ◌≢◌, arith}
use tox4j.Jni.Locks.{running, closing, destroying, System, Reach}
use tox4j.Jni.Locks.Invariant.{refers, Reach-Inv}

-- Under any interleaving of native methods, while a thread is in the function that with_instance calls
-- with an instance, the instance has not been destroyed, and no other thread is in a function on it or
-- is destroying it.
pub runs_alone :
    {s : System}
    → Reach s
    → (i m : ℕ) → s.pc i ≡ running m
    → (s.destroyed m ≡ false)
      × ((j : ℕ) → j ≢ i → (s.pc j ≢ running m) × (s.pc j ≢ closing m) × (s.pc j ≢ destroying m))
runs_alone {s} r i m e =
    let inv = Reach-Inv r in
    (
      ground (arith, inv.alive i m),
      λ j d. (
        λ q. ground (arith, inv.held_of i m, inv.held_of j m),
        λ q. ground (arith, inv.held_of i m, inv.held_of j m),
        λ q. ground (arith, inv.held_of i m, inv.bare j m),
      ),
    )

-- Under any interleaving, when a thread is about to destroy an instance, the instance has not been
-- destroyed before, its mutex is free, it is in no slot of the table, and no other thread has a
-- reference to it: kill and finalize destroy each instance at most once, and none that is in use.
pub destroys_unreferenced :
    {s : System}
    → Reach s
    → (i m : ℕ) → s.pc i ≡ destroying m
    → (s.destroyed m ≡ false)
      × (s.held m ≡ none)
      × ((n : ℕ) → s.slots n ≢ some m)
      × ((j : ℕ) → j ≢ i → refers (s.pc j) ≢ some m)
destroys_unreferenced {s} r i m e =
    let inv = Reach-Inv r in
    (
      ground (arith, inv.alive i m),
      inv.bare i m e,
      λ n. inv.out i m n (ground arith),
      λ j d q. ground (arith, inv.bare i m, inv.held_of j m, inv.manager_of i, inv.manager_of j),
    )
