-- ===== src/Jni/Instances/Effects.antt =====
-- The slots under the changes that the operations make to the table.
use tox4j.Base.{
  ℕ, suc, ◌-◌, ◌<◌, true, false, some, List, [], ◌∷◌, ◌≡◌, refl, arith, get_elem?, length,
  length-set, length-append, get_elem?-set_self, get_elem?-set_ne, get_elem?-append_one, ◌==◌,
  if◌then◌else◌,
}
use tox4j.Jni.Exceptions.{JavaException}
use tox4j.Jni.Instances.{Instance, Manager, is_valid, is_free, dead, make_instance}
use tox4j.Jni.Instances.Slots.{Slot, live, collected, dead as dead_slot, slot, slot_of}
use tox4j.Jni.Instances.Invariant.{IsConsistent, IsDeadAt, emptied, freed, reused, grown, in_range}

module _ {T V : Type 0} where
  -- The slot of n is changed by `f`, and no other.
  abbrev pub ChangesAt : ℕ → (Slot T V → Slot T V) → Manager T V → Manager T V → Type 0
  ChangesAt n f s t = (m : ℕ) → slot t m ≡ (if n == m then f (slot s m) else slot s m)

  pub slot-emptied :
      (n m : ℕ) (s : Manager T V) (i : Instance T V)
      → is_valid n s ≡ true
      → slot (emptied n i s) m
        ≡ (if n == m then (if is_free n s.freelist then collected else dead_slot) else slot s m)
  unfolding is_valid
  slot-emptied n m s i v = ground (
    arith,
    get_elem?-set_self s.instances (n - 1) dead,
    get_elem?-set_ne s.instances (n - 1) (m - 1) dead,
    length-set s.instances (n - 1) dead,
  )

  pub slot_at :
      (n : ℕ) (s : Manager T V) (i : Instance T V)
      → is_valid n s ≡ true
      → get_elem? s.instances (n - 1) ≡ some i
      → slot s n ≡ slot_of (some i) (is_free n s.freelist)
  slot_at n s i v e = rw (v, e)

  pub not_free_live :
      (n : ℕ) (s : Manager T V) (i : Instance T V)
      → IsConsistent s
      → get_elem? s.instances (n - 1) ≡ some i
      → i.live ≡ true
      → is_free n s.freelist ≡ false
  not_free_live n s i c e l = ground (arith, c.free_dead n)

  abbrev pub throwing : List JavaException → Manager T V → Manager T V
  throwing es s = record s { thrown = es }

  pub slot-throwing :
      (m : ℕ) (es : List JavaException) (s : Manager T V) → slot (throwing es s) m ≡ slot s m
  unfolding is_valid
  slot-throwing m es s = refl

  pub throwing-IsConsistent :
      (es : List JavaException) (s : Manager T V) → IsConsistent s → IsConsistent (throwing es s)
  throwing-IsConsistent es s c = record {
    valid = c.valid;
    free_dead = c.free_dead;
    distinct = c.distinct;
    small = c.small;
  }

  pub slot-freed :
      (n m : ℕ) (s : Manager T V) (i : Instance T V)
      → is_valid n s ≡ true
      → get_elem? s.instances (n - 1) ≡ some i
      → i.live ≡ false
      → slot (freed n s) m ≡ (if n == m then collected else slot s m)
  unfolding is_valid is_free
  slot-freed n m s i v e l = ground arith

  pub valid-IsDeadAt :
      (n : ℕ) (s : Manager T V) (i : Instance T V)
      → is_valid n s ≡ true
      → get_elem? s.instances (n - 1) ≡ some i
      → i.live ≡ false
      → IsDeadAt s n
  unfolding is_valid
  valid-IsDeadAt n s i v e l = ground arith

  pub is_valid-emptied :
      (n : ℕ) (s : Manager T V) (i : Instance T V)
      → is_valid n s ≡ true
      → (is_valid n (emptied n i s) ≡ true)
        × (get_elem? (emptied n i s).instances (n - 1) ≡ some dead)
  unfolding is_valid
  is_valid-emptied n s i v = ground (
    arith,
    length-set s.instances (n - 1) dead,
    get_elem?-set_self s.instances (n - 1) dead (in_range n s v),
  )

  pub slot-reused :
      (n m : ℕ) (rest : List ℕ) (x : T) (v : V) (s : Manager T V)
      → is_valid n s ≡ true
      → s.freelist ≡ n ∷ rest
      → slot (reused n rest (make_instance x v) s) m ≡ (if n == m then live x v else slot s m)
  unfolding is_valid is_free make_instance
  slot-reused n m rest x v s h e = ground (
    arith,
    get_elem?-set_self s.instances (n - 1) (make_instance x v),
    get_elem?-set_ne s.instances (n - 1) (m - 1) (make_instance x v),
    length-set s.instances (n - 1) (make_instance x v),
  )

  pub slot-grown :
      (m : ℕ) (x : T) (v : V) (s : Manager T V)
      → s.freelist ≡ []
      → suc (length s.instances) < 0x8000_0000
      → slot (grown (make_instance x v) s) m
        ≡ (if suc (length s.instances) == m then live x v else slot s m)
  unfolding is_valid is_free make_instance
  slot-grown m x v s e h = ground (
    arith,
    get_elem?-append_one s.instances (make_instance x v) (m - 1),
    length-append s.instances (make_instance x v ∷ []),
  )
