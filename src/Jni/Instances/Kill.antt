-- ===== src/Jni/Instances/Kill.antt =====
-- instance_manager::kill against its effect on the slots.
use tox4j.Base.{
  ℕ, ◌-◌, true, false, some, ◌≡◌, refl, inl, inr, arith, get_elem?, get_elem?-some, Bool-cases,
}
use tox4j.Base.Effect.{Returns, ok}
use tox4j.Jni.Instances.{Instance, Manager, is_valid_instance, is_valid, kill}
use tox4j.Jni.Instances.Slots.{slot, killed, deleting, kill_reports}
use tox4j.Jni.Instances.Invariant.{IsConsistent, emptied, in_range, emptied-IsConsistent}
use tox4j.Jni.Instances.Effects.{
  ChangesAt, slot-emptied, slot_at, not_free_live, throwing, slot-throwing, throwing-IsConsistent,
}

module _ {T V : Type 0} where
  pub kill_at :
      (n : ℕ) (s : Manager T V) (i : Instance T V)
      → is_valid n s ≡ true
      → get_elem? s.instances (n - 1) ≡ some i
      → is_valid_instance i ≡ true
      → kill n s ≡ ok (tt, emptied n i s)
  unfolding kill
  kill_at n s i v e w = ground arith

  pub kill_absent :
      (n : ℕ) (s : Manager T V)
      → is_valid n s ≡ false
      → kill n s ≡ ok (tt, throwing (kill_reports n (slot s n) s.thrown) s)
  unfolding kill
  kill_absent n s v = ground arith

  abbrev pub KillSpec : ℕ → Manager T V → Manager T V → Type 0
  KillSpec n s t =
      IsConsistent t
      × ChangesAt n killed s t
      × (t.deleted ≡ deleting (slot s n) s.deleted)
      × (t.thrown ≡ kill_reports n (slot s n) s.thrown)

  -- On a consistent table, close returns for every number and leaves the table consistent. It makes a
  -- live slot dead and changes no other slot; it destroys the subsystem that lived there and no other;
  -- it throws for a number without an object, an illegal state if it is negative and the killed
  -- exception if not, and throws nothing for an object that is dead already.
  pub kill_refines :
      (n : ℕ) (s : Manager T V) → IsConsistent s → Returns (kill n s) (λ _ t. KillSpec n s t)
  kill_refines n s c = elim (Bool-cases (is_valid n s)) [
    | inl v ↦
        let (i, e) = get_elem?-some s.instances (n - 1) (in_range n s v) in
        let w = c.valid (n - 1) i e in
        let here = slot_at n s i v e in
        rw (kill_at n s i v e w) (
          emptied-IsConsistent n s i c v,
          (λ m. ground (arith, slot-emptied n m s i v, here, not_free_live n s i c e, w)),
          ground (arith, here, w),
          ground (arith, here, w),
        )
    | inr v ↦ rw (kill_absent n s v) (
      throwing-IsConsistent (kill_reports n (slot s n) s.thrown) s c,
      (λ m. ground (arith, slot-throwing m (kill_reports n (slot s n) s.thrown) s)),
      ground arith,
      refl,
    )
  ]
