-- ===== src/Jni/Locks/Invariant.antt =====
-- What holds in every reachable state of the locks.
use tox4j.Base.{ℕ, ◌<◌, ◌≤◌, Bool, true, false, Option, none, some, ◌≡◌, ◌≢◌, refl, arith}
use tox4j.Jni.Locks.{
  calls, ends, adds, Pc, idle, at_table, in_table, waits, entering, running, dying, closing,
  destroying, leaving, System, Step, arrive, lock_manager, call_refused, call_found, lock_instance,
  unlock_manager, return_function, end_refused, move_out, lock_dying, unlock_dying,
  destroy_instance, reuse, grow, leave, start, Reach, here, later,
}

-- Whether the thread holds the manager's mutex.
abbrev pub has_manager : Pc → Bool
has_manager idle = false
has_manager (at_table _) = false
has_manager (running _) = false
has_manager _ = true

-- The instance whose mutex the thread holds.
abbrev pub locked : Pc → Option ℕ
locked (entering m) = some m
locked (running m) = some m
locked (closing m) = some m
locked _ = none

-- The instance that the thread has moved out of the table.
abbrev pub removed : Pc → Option ℕ
removed (dying m) = some m
removed (closing m) = some m
removed (destroying m) = some m
removed _ = none

-- The instance that the thread has a reference to.
abbrev pub refers : Pc → Option ℕ
refers (waits m) = some m
refers (entering m) = some m
refers (running m) = some m
refers (dying m) = some m
refers (closing m) = some m
refers (destroying m) = some m
refers _ = none

pub record Inv (s : System) : Type 0 where
  pub manager_of : (i : ℕ) → has_manager (s.pc i) ≡ true → s.manager ≡ some i
  pub manager_at : (i : ℕ) → s.manager ≡ some i → has_manager (s.pc i) ≡ true
  pub held_of : (i m : ℕ) → locked (s.pc i) ≡ some m → s.held m ≡ some i
  pub held_at : (i m : ℕ) → s.held m ≡ some i → locked (s.pc i) ≡ some m
  pub alive : (i m : ℕ) → refers (s.pc i) ≡ some m → (s.destroyed m ≡ false) × (m < s.next)
  pub in_slot : (n m : ℕ) → s.slots n ≡ some m → (s.destroyed m ≡ false) × (m < s.next)
  pub within : (n m : ℕ) → s.slots n ≡ some m → n < s.size
  pub once : (n k m : ℕ) → s.slots n ≡ some m → s.slots k ≡ some m → n ≡ k
  pub out : (i m n : ℕ) → removed (s.pc i) ≡ some m → s.slots n ≢ some m
  pub bare : (i m : ℕ) → s.pc i ≡ destroying m → s.held m ≡ none
  pub unused : (m : ℕ) → s.next ≤ m → (s.destroyed m ≡ false) × (s.held m ≡ none)

Inv-start : Inv start
Inv-start = record {
  manager_of = λ i q. cc;
  manager_at = λ i q. cc;
  held_of = λ i m q. cc;
  held_at = λ i m q. cc;
  alive = λ i m q. cc;
  in_slot = λ n m q. cc;
  within = λ n m q. cc;
  once = λ n k m p q. cc;
  out = λ i m n q. cc;
  bare = λ i m q. cc;
  unused = λ m q. (refl, refl);
}

-- The premises of a step, for the catch-all clauses below, which cannot name them.
abbrev pub Guard : {p : ℕ} {s t : System} → Step p s t → Type 0
Guard {p} {s} (arrive o e) = s.pc p ≡ idle
Guard {p} {s} (lock_manager o e f) = (s.pc p ≡ at_table o) × (s.manager ≡ none)
Guard {p} {s} (call_refused n e f) = (s.pc p ≡ in_table (calls n)) × (s.slots n ≡ none)
Guard {p} {s} (call_found n m e f) = (s.pc p ≡ in_table (calls n)) × (s.slots n ≡ some m)
Guard {p} {s} (lock_instance m e f) = (s.pc p ≡ waits m) × (s.held m ≡ none)
Guard {p} {s} (unlock_manager m e) = s.pc p ≡ entering m
Guard {p} {s} (return_function m e) = s.pc p ≡ running m
Guard {p} {s} (end_refused n e f) = (s.pc p ≡ in_table (ends n)) × (s.slots n ≡ none)
Guard {p} {s} (move_out n m e f) = (s.pc p ≡ in_table (ends n)) × (s.slots n ≡ some m)
Guard {p} {s} (lock_dying m e f) = (s.pc p ≡ dying m) × (s.held m ≡ none)
Guard {p} {s} (unlock_dying m e) = s.pc p ≡ closing m
Guard {p} {s} (destroy_instance m e) = s.pc p ≡ destroying m
Guard {p} {s} (reuse n e lt f) = (s.pc p ≡ in_table adds) × (n < s.size) × (s.slots n ≡ none)
Guard {p} {s} (grow e) = s.pc p ≡ in_table adds
Guard {p} {s} (leave e) = s.pc p ≡ leaving

pub guard : {p : ℕ} {s t : System} (st : Step p s t) → Guard st
guard (arrive o e) = e
guard (lock_manager o e f) = (e, f)
guard (call_refused n e f) = (e, f)
guard (call_found n m e f) = (e, f)
guard (lock_instance m e f) = (e, f)
guard (unlock_manager m e) = e
guard (return_function m e) = e
guard (end_refused n e f) = (e, f)
guard (move_out n m e f) = (e, f)
guard (lock_dying m e f) = (e, f)
guard (unlock_dying m e) = e
guard (destroy_instance m e) = e
guard (reuse n e lt f) = (e, lt, f)
guard (grow e) = e
guard (leave e) = e

-- Each field, after a step of the thread `p`.
module _ {p : ℕ} {s : System} (inv : Inv s) where
  Step-manager_of :
      {t : System} → Step p s t → (i : ℕ) → has_manager (t.pc i) ≡ true → t.manager ≡ some i
  Step-manager_of (arrive o e) i q = ground (arith, inv.manager_of i)
  Step-manager_of st i q = ground (arith, guard st, inv.manager_of i, inv.manager_of p)

  Step-manager_at :
      {t : System} → Step p s t → (i : ℕ) → t.manager ≡ some i → has_manager (t.pc i) ≡ true
  Step-manager_at (arrive o e) i q = ground (arith, inv.manager_at i)
  Step-manager_at st i q = ground (arith, guard st, inv.manager_at i, inv.manager_of p)

  Step-held_of :
      {t : System} → Step p s t → (i m : ℕ) → locked (t.pc i) ≡ some m → t.held m ≡ some i
  Step-held_of (arrive o e) i m q = ground (arith, inv.held_of i m)
  Step-held_of st i m q = ground (arith, guard st, inv.held_of i m, inv.held_of p m)

  Step-held_at :
      {t : System} → Step p s t → (i m : ℕ) → t.held m ≡ some i → locked (t.pc i) ≡ some m
  Step-held_at (arrive o e) i m q = ground (arith, inv.held_at i m)
  Step-held_at st i m q = ground (arith, guard st, inv.held_at i m, inv.held_at p m)

  Step-alive :
      {t : System}
      → Step p s t
      → (i m : ℕ) → refers (t.pc i) ≡ some m
      → (t.destroyed m ≡ false) × (m < t.next)
  Step-alive (arrive o e) i m q = ground (arith, inv.alive i m)
  Step-alive (call_found n k e f) i m q = ground (arith, e, f, inv.alive i m, inv.in_slot n m)
  Step-alive (move_out n k e f) i m q = ground (arith, e, f, inv.alive i m, inv.in_slot n m)
  Step-alive st i m q = ground (
    arith,
    guard st,
    inv.alive i m,
    inv.alive p m,
    inv.manager_of i,
    inv.manager_of p,
    inv.held_of i m,
    inv.bare p m,
  )

  Step-in_slot :
      {t : System}
      → Step p s t
      → (n m : ℕ) → t.slots n ≡ some m
      → (t.destroyed m ≡ false) × (m < t.next)
  Step-in_slot (arrive o e) n m q = ground (arith, inv.in_slot n m)
  Step-in_slot st n m q =
      ground (arith, guard st, inv.in_slot n m, inv.out p m n, inv.unused s.next)

  Step-within : {t : System} → Step p s t → (n m : ℕ) → t.slots n ≡ some m → n < t.size
  Step-within (arrive o e) n m q = ground (arith, inv.within n m)
  Step-within st n m q = ground (arith, guard st, inv.within n m)

  Step-once :
      {t : System} → Step p s t → (n k m : ℕ) → t.slots n ≡ some m → t.slots k ≡ some m → n ≡ k
  Step-once (arrive o e) n k m q r = ground (arith, inv.once n k m)
  Step-once st n k m q r =
      ground (arith, guard st, inv.once n k m, inv.in_slot n m, inv.in_slot k m)

  Step-out :
      {t : System} → Step p s t → (i m n : ℕ) → removed (t.pc i) ≡ some m → t.slots n ≢ some m
  Step-out (arrive o e) i m n q r = ground (arith, inv.out i m n)
  Step-out (move_out k j e f) i m n q r = ground (arith, e, f, inv.out i m n, inv.once n k m)
  Step-out st i m n q r =
      ground (arith, guard st, inv.out i m n, inv.out p m n, inv.alive i m, inv.alive p m)

  Step-bare : {t : System} → Step p s t → (i m : ℕ) → t.pc i ≡ destroying m → t.held m ≡ none
  Step-bare (arrive o e) i m q = ground (arith, inv.bare i m)
  Step-bare st i m q = ground (arith, guard st, inv.bare i m, inv.manager_of i, inv.manager_of p)

  Step-unused :
      {t : System} → Step p s t → (m : ℕ) → t.next ≤ m → (t.destroyed m ≡ false) × (t.held m ≡ none)
  Step-unused (arrive o e) m q = ground (arith, inv.unused m)
  Step-unused st m q = ground (arith, guard st, inv.unused m, inv.alive p m)

  pub Step-Inv : {t : System} → Step p s t → Inv t
  Step-Inv st = record {
    manager_of = Step-manager_of st;
    manager_at = Step-manager_at st;
    held_of = Step-held_of st;
    held_at = Step-held_at st;
    alive = Step-alive st;
    in_slot = Step-in_slot st;
    within = Step-within st;
    once = Step-once st;
    out = Step-out st;
    bare = Step-bare st;
    unused = Step-unused st;
  }

pub Reach-Inv : {s : System} → Reach s → Inv s
Reach-Inv here = Inv-start
Reach-Inv (later i r st) = Step-Inv (Reach-Inv r) st
