-- ===== src/Jni/Instances/Add.antt =====
-- instance_manager::add against its effect on the slots.
use tox4j.Base.{
  ℕ, suc, ◌-◌, ◌<◌, true, false, some, List, [], ◌∷◌, ◌≡◌, refl, inl, inr, arith, get_elem?, length,
  length-append, get_elem?-some, get_elem?_beyond,
}
use tox4j.Base.Effect.{Returns, ok}
use tox4j.Jni.Instances.{
  Instance, Manager, is_valid_instance, is_valid, is_free, make_instance, add,
}
use tox4j.Jni.Instances.Slots.{absent, live, collected, slot, IsVacant}
use tox4j.Jni.Instances.Invariant.{
  IsConsistent, IsDeadAt, reused, grown, in_range, reused-IsConsistent, grown-IsConsistent,
}
use tox4j.Jni.Instances.Effects.{ChangesAt, slot-reused, slot-grown}

module _ {T V : Type 0} where
  pub add_reuses :
      (fresh : Instance T V) (n : ℕ) (rest : List ℕ) (s : Manager T V) (i : Instance T V)
      → s.freelist ≡ n ∷ rest
      → 0 < n
      → n < 0x8000_0000
      → get_elem? s.instances (n - 1) ≡ some i
      → i.live ≡ false
      → is_valid_instance i ≡ true
      → is_valid_instance fresh ≡ true
      → fresh.live ≡ true
      → add fresh s ≡ ok (n, reused n rest fresh s)
  unfolding add
  add_reuses fresh n rest s i q p h e l v w g = ground arith

  pub add_grows :
      (fresh : Instance T V) (s : Manager T V)
      → s.freelist ≡ []
      → is_valid_instance fresh ≡ true
      → suc (length s.instances) < 0x8000_0000
      → add fresh s ≡ ok (suc (length s.instances), grown fresh s)
  unfolding add
  add_grows fresh s q w h = ground (arith, length-append s.instances (fresh ∷ []))

  -- The number was that of no object, or of a collected one; now it is the new object's.
  abbrev pub AddSpec : T → V → ℕ → Manager T V → Manager T V → Type 0
  AddSpec x v n s t =
      IsConsistent t
      × IsVacant (slot s n)
      × ChangesAt n (λ _. live x v) s t
      × (t.deleted ≡ s.deleted)
      × (t.thrown ≡ s.thrown)

  -- The number at the end of the freelist is that of a dead instance.
  pub first_free :
      (n : ℕ) (rest : List ℕ) (s : Manager T V)
      → IsConsistent s
      → s.freelist ≡ n ∷ rest
      → IsDeadAt s n × (is_valid n s ≡ true) × (slot s n ≡ collected)
  unfolding is_valid is_free
  first_free n rest s c e = ground (arith, c.free_dead n, get_elem?_beyond s.instances (n - 1))

  pub add_refines_reuse :
      (x : T) (v : V) (n : ℕ) (rest : List ℕ) (s : Manager T V)
      → IsConsistent s
      → s.freelist ≡ n ∷ rest
      → Returns (add (make_instance x v) s) (λ k t. AddSpec x v k s t)
  unfolding make_instance
  add_refines_reuse x v n rest s c e =
      let (d, h, f) = first_free n rest s c e in
      let (i, g) = get_elem?-some s.instances (n - 1) (in_range n s h) in
      let l : i.live ≡ false = ground arith in
      rw (add_reuses (make_instance x v) n rest s i e d.0 d.1 g l (c.valid (n - 1) i g) refl refl) (
        reused-IsConsistent n rest (make_instance x v) s c e (in_range n s h) refl,
        inr f,
        (λ m. slot-reused n m rest x v s h e),
        refl,
        refl,
      )

  new_number : (s : Manager T V) → slot s (suc (length s.instances)) ≡ absent
  unfolding is_valid
  new_number s = ground arith

  pub add_refines_grow :
      (x : T) (v : V) (s : Manager T V)
      → IsConsistent s
      → s.freelist ≡ []
      → suc (length s.instances) < 0x8000_0000
      → Returns (add (make_instance x v) s) (λ k t. AddSpec x v k s t)
  unfolding make_instance
  add_refines_grow x v s c e h = rw (add_grows (make_instance x v) s e refl h) (
    grown-IsConsistent (make_instance x v) s c e refl h,
    inl (new_number s),
    (λ m. slot-grown m x v s e h),
    refl,
    refl,
  )

  -- On a consistent table with room for one more, adding a new instance returns a number that had no
  -- object or a collected one, makes its slot live with that instance, changes no other slot, destroys
  -- and throws nothing, and leaves the table consistent.
  pub add_refines :
      (x : T) (v : V) (s : Manager T V)
      → IsConsistent s
      → suc (length s.instances) < 0x8000_0000
      → Returns (add (make_instance x v) s) (λ k t. AddSpec x v k s t)
  add_refines x v s c h = go s.freelist refl
    where
      go :
          (l : List ℕ)
          → s.freelist ≡ l
          → Returns (add (make_instance x v) s) (λ k t. AddSpec x v k s t)
      go [] e = add_refines_grow x v s c e h
      go (n ∷ rest) e = add_refines_reuse x v n rest s c e
