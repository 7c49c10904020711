-- ===== src/Jni/Locks/Progress.antt =====
-- Every operation comes to its end: no deadlock, and a bound on the steps that are left.
use tox4j.Base.{ℕ, true, false, none, some, ◌≡◌, ◌≢◌, inl, inr, refl, arith, Option-cases}
use tox4j.Jni.Locks.{
  calls, ends, adds, Pc, idle, at_table, in_table, waits, entering, running, dying, closing,
  destroying, leaving, System, Step, lock_manager, call_refused, call_found, lock_instance,
  unlock_manager, return_function, end_refused, move_out, lock_dying, unlock_dying,
  destroy_instance, grow, leave, Reach,
}
use tox4j.Jni.Locks.Invariant.{Inv, Reach-Inv, has_manager, locked}

-- Some operation that is under way can go on.
abbrev pub GoesOn : System → Type 0
GoesOn s = (j : ℕ) × (s.pc j ≢ idle) × ((t : System) × Step j s t)

module _ {s : System} (inv : Inv s) where
  -- The mutex of an instance that another thread than the manager's holder has, is in a function.
  returns_from :
      (k m : ℕ) (p : Pc) → s.pc k ≡ p → locked p ≡ some m → has_manager p ≡ false → GoesOn s
  returns_from k m (running x) e l h = (k, (λ q. cc), (_, return_function x e))
  returns_from k m (entering x) e l h = cc
  returns_from k m (closing x) e l h = cc
  returns_from k m idle e l h = cc
  returns_from k m (at_table o) e l h = cc
  returns_from k m (in_table o) e l h = cc
  returns_from k m (waits x) e l h = cc
  returns_from k m (dying x) e l h = cc
  returns_from k m (destroying x) e l h = cc
  returns_from k m leaving e l h = cc

  -- The holder of the manager wants the mutex of an instance.
  wants_instance :
      (i m : ℕ)
      → s.pc i ≢ idle
      → has_manager (s.pc i) ≡ true
      → locked (s.pc i) ≡ none
      → (s.held m ≡ none → (t : System) × Step i s t)
      → GoesOn s
  wants_instance i m b h l lock = elim (Option-cases (s.held m)) [
    | inl free ↦ (i, b, lock free)
    | inr (k, taken) ↦
        returns_from k m (s.pc k) refl (inv.held_at k m taken)
          (ground (arith, inv.held_at k m, inv.manager_of i, inv.manager_of k, inv.manager_at k))
  ]

  finds :
      (i n : ℕ)
      → s.pc i ≢ idle
      → (s.slots n ≡ none → (t : System) × Step i s t)
      → ((m : ℕ) → s.slots n ≡ some m → (t : System) × Step i s t)
      → GoesOn s
  finds i n b refused found = elim (Option-cases (s.slots n)) [
    | inl e ↦ (i, b, refused e)
    | inr (m, e) ↦ (i, b, found m e)
  ]

  holder-GoesOn : (i : ℕ) (p : Pc) → s.pc i ≡ p → has_manager p ≡ true → GoesOn s
  holder-GoesOn i (in_table (calls n)) e h =
      finds i n (λ q. cc) (λ f. (_, call_refused n e f)) (λ m f. (_, call_found n m e f))
  holder-GoesOn i (in_table (ends n)) e h =
      finds i n (λ q. cc) (λ f. (_, end_refused n e f)) (λ m f. (_, move_out n m e f))
  holder-GoesOn i (in_table adds) e h = (i, (λ q. cc), (_, grow e))
  holder-GoesOn i (waits m) e h =
      wants_instance i m (λ q. cc) (ground arith) (ground arith) (λ f. (_, lock_instance m e f))
  holder-GoesOn i (dying m) e h =
      wants_instance i m (λ q. cc) (ground arith) (ground arith) (λ f. (_, lock_dying m e f))
  holder-GoesOn i (entering m) e h = (i, (λ q. cc), (_, unlock_manager m e))
  holder-GoesOn i (closing m) e h = (i, (λ q. cc), (_, unlock_dying m e))
  holder-GoesOn i (destroying m) e h = (i, (λ q. cc), (_, destroy_instance m e))
  holder-GoesOn i leaving e h = (i, (λ q. cc), (_, leave e))
  holder-GoesOn i idle e h = cc
  holder-GoesOn i (at_table o) e h = cc
  holder-GoesOn i (running m) e h = cc

  busy-GoesOn : (i : ℕ) (p : Pc) → s.pc i ≡ p → p ≢ idle → GoesOn s
  busy-GoesOn i idle e b = absurd (b refl)
  busy-GoesOn i (running m) e b = (i, (λ q. cc), (_, return_function m e))
  busy-GoesOn i (at_table o) e b = elim (Option-cases s.manager) [
    | inl free ↦ (i, (λ q. cc), (_, lock_manager o e free))
    | inr (k, taken) ↦ holder-GoesOn k (s.pc k) refl (inv.manager_at k taken)
  ]
  busy-GoesOn i p e b = holder-GoesOn i p e refl

-- Under any interleaving, if an operation is under way, some operation that is under way can take its
-- next step: the locks never leave all threads waiting. A function that runs is one that can return.
pub no_deadlock : {s : System} → Reach s → (i : ℕ) → s.pc i ≢ idle → GoesOn s
no_deadlock {s} r i b = busy-GoesOn (Reach-Inv r) i (s.pc i) refl b
