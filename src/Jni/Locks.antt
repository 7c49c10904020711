-- ===== src/Jni/Locks.antt =====
-- The locks of tox4j/ToxInstances.h and tox4j/with_instance.h, under any interleaving of threads.
--
-- The mutex of the manager guards the table; each live instance has a mutex of its own for its
-- subsystem and events. The three objects of an instance live and die together, so one number, never
-- used twice, names them. A step is one lock operation with what the thread does before the next.
-- The function that with_instance runs takes no lock of the same manager. What the operations
-- do to the table in full is Jni.Instances; here a slot is free or has a live instance, and `add` may
-- take any free slot or a new one. kill and finalize differ only in what they throw and in the free list.
pub mod Invariant
pub mod Safety
pub mod Progress
pub mod Finish
use tox4j.Base.{ℕ, suc, ◌<◌, Bool, true, false, Option, none, some, ◌≡◌, ◌==◌, if◌then◌else◌}

-- with_instance, kill or finalize at an index of the table; add.
pub data Operation : Type 0 where
  calls : ℕ → Operation
  ends : ℕ → Operation
  adds : Operation

-- Where a thread stands.
pub data Pc : Type 0 where
  idle : Pc  -- outside the library
  at_table : Operation → Pc  -- before the lock of the manager
  in_table : Operation → Pc  -- the manager is locked
  waits : ℕ → Pc  -- with_lock, before the lock of the instance
  entering : ℕ → Pc  -- both are locked, before `lock.unlock ()`
  running : ℕ → Pc  -- in the function, with the instance locked
  dying : ℕ → Pc  -- the instance is out of the table, before its lock
  closing : ℕ → Pc  -- before the destructor of `ilock`
  destroying : ℕ → Pc  -- before the destructor of `dying`
  leaving : Pc  -- before the manager is unlocked

pub record System : Type 0 where
  pub pc : ℕ → Pc
  pub manager : Option ℕ  -- the thread that holds the manager's mutex
  pub held : ℕ → Option ℕ  -- the thread that holds the mutex of an instance
  pub size : ℕ  -- of the table
  pub slots : ℕ → Option ℕ
  pub destroyed : ℕ → Bool
  pub next : ℕ  -- the number of the next instance that is made

abbrev pub update {ℓ} : {A : Type ℓ} → (ℕ → A) → ℕ → A → ℕ → A
update f i a j = if i == j then a else f j

abbrev pub go : System → ℕ → Pc → System
go s i p = record s { pc = update s.pc i p }

-- One step of the thread `i`.
pub data Step (i : ℕ) (s : System) : System → Type 0 where
  arrive : (o : Operation) → s.pc i ≡ idle → Step i s (go s i (at_table o))
  lock_manager :
      (o : Operation)
      → s.pc i ≡ at_table o
      → s.manager ≡ none
      → Step i s (go (record s { manager = some i }) i (in_table o))
  -- No instance: an exception for a call, nothing to end.
  call_refused :
      (n : ℕ) → s.pc i ≡ in_table (calls n) → s.slots n ≡ none → Step i s (go s i leaving)
  call_found :
      (n m : ℕ) → s.pc i ≡ in_table (calls n) → s.slots n ≡ some m → Step i s (go s i (waits m))
  lock_instance :
      (m : ℕ)
      → s.pc i ≡ waits m
      → s.held m ≡ none
      → Step i s (go (record s { held = update s.held m (some i) }) i (entering m))
  unlock_manager :
      (m : ℕ) → s.pc i ≡ entering m → Step i s (go (record s { manager = none }) i (running m))
  return_function :
      (m : ℕ) → s.pc i ≡ running m → Step i s (go (record s { held = update s.held m none }) i idle)
  end_refused : (n : ℕ) → s.pc i ≡ in_table (ends n) → s.slots n ≡ none → Step i s (go s i leaving)
  move_out :
      (n m : ℕ)
      → s.pc i ≡ in_table (ends n)
      → s.slots n ≡ some m
      → Step i s (go (record s { slots = update s.slots n none }) i (dying m))
  lock_dying :
      (m : ℕ)
      → s.pc i ≡ dying m
      → s.held m ≡ none
      → Step i s (go (record s { held = update s.held m (some i) }) i (closing m))
  unlock_dying :
      (m : ℕ)
      → s.pc i ≡ closing m
      → Step i s (go (record s { held = update s.held m none }) i (destroying m))
  destroy_instance :
      (m : ℕ)
      → s.pc i ≡ destroying m
      → Step i s (go (record s { destroyed = update s.destroyed m true }) i leaving)
  reuse :
      (n : ℕ)
      → s.pc i ≡ in_table adds
      → n < s.size
      → s.slots n ≡ none
      → Step i s
          (go (record s { slots = update s.slots n (some s.next); next = suc s.next }) i leaving)
  grow :
      s.pc i ≡ in_table adds
      → Step i s (
          go
            (record s {
              size = suc s.size;
              slots = update s.slots s.size (some s.next);
              next = suc s.next;
            })
            i
            leaving)
  leave : s.pc i ≡ leaving → Step i s (go (record s { manager = none }) i idle)

abbrev pub start : System
start = record {
  pc = λ _. idle;
  manager = none;
  held = λ _. none;
  size = 0;
  slots = λ _. none;
  destroyed = λ _. false;
  next = 0;
}

pub data Reach : System → Type 0 where
  here : Reach start
  later : {s t : System} (i : ℕ) → Reach s → Step i s t → Reach t
