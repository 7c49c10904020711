-- ===== src/Jni/Instances/Finalize.antt =====
-- instance_manager::finalize against its effect on the slots.
use tox4j.Base.{
  ℕ, ◌-◌, true, false, some, ◌≡◌, refl, ◌⊎◌, inl, inr, arith, get_elem?, length, get_elem?-set_self,
  get_elem?-some, Bool-cases,
}
use tox4j.Base.Effect.{Returns, ok}
use tox4j.Jni.Instances.{Instance, Manager, is_valid_instance, is_valid, is_free, dead, finalize}
use tox4j.Jni.Instances.Slots.{absent, collected, slot, finalized, deleting, finalize_reports}
use tox4j.Jni.Instances.Invariant.{
  IsConsistent, emptied, freed, in_range, emptied-IsConsistent, freed-IsConsistent,
}
use tox4j.Jni.Instances.Effects.{
  ChangesAt, slot-emptied, slot_at, not_free_live, throwing, slot-throwing, throwing-IsConsistent,
  slot-freed, valid-IsDeadAt, is_valid-emptied,
}

module _ {T V : Type 0} where
  abbrev pub FinalizeSpec : ℕ → Manager T V → Manager T V → Type 0
  FinalizeSpec n s t =
      IsConsistent t
      × ChangesAt n finalized s t
      × (t.deleted ≡ deleting (slot s n) s.deleted)
      × (t.thrown ≡ finalize_reports n (length s.instances) (slot s n) s.thrown)

  pub finalize_live :
      (n : ℕ) (s : Manager T V) (i : Instance T V)
      → is_valid n s ≡ true
      → get_elem? s.instances (n - 1) ≡ some i
      → is_valid_instance i ≡ true
      → i.live ≡ true
      → is_free n s.freelist ≡ false
      → finalize n s ≡ ok (tt, freed n (emptied n i s))
  unfolding finalize
  finalize_live n s i v e w l f =
      ground (arith, in_range n s v, get_elem?-set_self s.instances (n - 1) dead)

  pub finalize_dead :
      (n : ℕ) (s : Manager T V) (i : Instance T V)
      → is_valid n s ≡ true
      → get_elem? s.instances (n - 1) ≡ some i
      → i.live ≡ false
      → is_free n s.freelist ≡ false
      → finalize n s ≡ ok (tt, freed n s)
  unfolding finalize
  finalize_dead n s i v e l f = ground (arith, in_range n s v)

  pub finalize_absent :
      (n : ℕ) (s : Manager T V)
      → is_valid n s ≡ false
      → finalize n s
        ≡ ok (tt, throwing (finalize_reports n (length s.instances) (slot s n) s.thrown) s)
  unfolding finalize
  finalize_absent n s v = ground arith

  -- A number on the freelist is valid, so the call is refused.
  pub finalize_free :
      (n : ℕ) (s : Manager T V) (i : Instance T V)
      → is_valid n s ≡ true
      → get_elem? s.instances (n - 1) ≡ some i
      → i.live ≡ false
      → is_free n s.freelist ≡ true
      → finalize n s
        ≡ ok (tt, throwing (finalize_reports n (length s.instances) (slot s n) s.thrown) s)
  unfolding finalize
  finalize_free n s i v e l f = ground (arith, slot_at n s i v e)

  finalize_refines_live :
      (n : ℕ) (s : Manager T V) (i : Instance T V)
      → IsConsistent s
      → is_valid n s ≡ true
      → get_elem? s.instances (n - 1) ≡ some i
      → i.live ≡ true
      → Returns (finalize n s) (λ _ t. FinalizeSpec n s t)
  finalize_refines_live n s i c v e l =
      let w = c.valid (n - 1) i e in
      let here = slot_at n s i v e in
      let f = not_free_live n s i c e l in
      let (v', e') = is_valid-emptied n s i v in
      rw (finalize_live n s i v e w l f) (
        freed-IsConsistent n (emptied n i s) (emptied-IsConsistent n s i c v)
            (valid-IsDeadAt n (emptied n i s) dead v' e' refl) f,
        (λ m. ground (
          arith,
          slot-freed n m (emptied n i s) dead v' e' refl,
          slot-emptied n m s i v,
          here,
          w,
        )),
        ground (arith, here, w),
        ground (arith, here, w),
      )

  finalize_refines_dead :
      (n : ℕ) (s : Manager T V) (i : Instance T V)
      → IsConsistent s
      → is_valid n s ≡ true
      → get_elem? s.instances (n - 1) ≡ some i
      → i.live ≡ false
      → is_free n s.freelist ≡ false
      → Returns (finalize n s) (λ _ t. FinalizeSpec n s t)
  finalize_refines_dead n s i c v e l f =
      let here = slot_at n s i v e in
      rw (finalize_dead n s i v e l f) (
        freed-IsConsistent n s c (valid-IsDeadAt n s i v e l) f,
        (λ m. ground (arith, slot-freed n m s i v e l, here)),
        ground (arith, here),
        ground (arith, here),
      )

  finalize_refines_refused :
      (n : ℕ) (s : Manager T V)
      → IsConsistent s
      → (slot s n ≡ absent) ⊎ (slot s n ≡ collected)
      → finalize n s
        ≡ ok (tt, throwing (finalize_reports n (length s.instances) (slot s n) s.thrown) s)
      → Returns (finalize n s) (λ _ t. FinalizeSpec n s t)
  finalize_refines_refused n s c a e =
      let es = finalize_reports n (length s.instances) (slot s n) s.thrown in
      rw e (
        throwing-IsConsistent es s c,
        (λ m. ground (arith, slot-throwing m es s)),
        ground arith,
        refl,
      )

  -- Where the instance is live, its number is not on the freelist.
  finalize_refines_at :
      (n : ℕ) (s : Manager T V) (i : Instance T V)
      → IsConsistent s
      → is_valid n s ≡ true
      → get_elem? s.instances (n - 1) ≡ some i
      → Returns (finalize n s) (λ _ t. FinalizeSpec n s t)
  finalize_refines_at n s i c v e = elim (Bool-cases i.live) [
    | inl l ↦ finalize_refines_live n s i c v e l
    | inr l ↦ elim (Bool-cases (is_free n s.freelist)) [
      | inl f ↦
          finalize_refines_refused n s c (inr (ground (arith, slot_at n s i v e)))
            (finalize_free n s i v e l f)
      | inr f ↦ finalize_refines_dead n s i c v e l f
    ]
  ]

  -- On a consistent table, the collection of an object returns for every number and leaves the table
  -- consistent. It makes the slot collected if there is an object, and changes no other slot; it
  -- destroys the subsystem that was still alive there and no other; it throws an illegal state for a
  -- number that is not 0 and has no object, and for an object that was collected already.
  pub finalize_refines :
      (n : ℕ) (s : Manager T V)
      → IsConsistent s
      → Returns (finalize n s) (λ _ t. FinalizeSpec n s t)
  finalize_refines n s c = elim (Bool-cases (is_valid n s)) [
    | inl v ↦
        let (i, e) = get_elem?-some s.instances (n - 1) (in_range n s v) in
        finalize_refines_at n s i c v e
    | inr v ↦ finalize_refines_refused n s c (inl (ground arith)) (finalize_absent n s v)
  ]
