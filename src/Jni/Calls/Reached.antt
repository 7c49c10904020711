-- ===== src/Jni/Calls/Reached.antt =====
-- with_instance against the slots of the table: which instance a native method reaches.
use tox4j.Base.{
  ℕ, ◌-◌, true, Option, none, some, List, ◌∷◌, ◌≡◌, refl, ◌∙◌, inl, inr, arith, get_elem?, set,
  ◌==◌, if◌then◌else◌, get_elem?-some, Bool-cases, length-set, get_elem?-set_self, get_elem?-set_ne,
}
use tox4j.Base.Effect.{Fault, fault, ok, Returns}
use tox4j.Jni.Exceptions.{JavaException, illegal_state, tox_killed, text}
use tox4j.Jni.Instances.{Instance, Manager, is_valid, is_valid_instance}
use tox4j.Jni.Instances.Slots.{Slot, absent, live, slot}
use tox4j.Jni.Instances.Invariant.{IsConsistent, in_range}
use tox4j.Jni.Instances.Effects.{ChangesAt, slot_at, throwing-IsConsistent, slot-throwing}
use tox4j.Jni.Calls.{Result, value, throws, Func, with_instance}

-- The exception of a method on an object that has no live instance.
abbrev pub unreached : {T V : Type 0} → ℕ → Slot T V → Option JavaException
unreached n (live t v) = none
unreached n absent =
    if n == 0
    then some (illegal_state n (text "Function called on incomplete object"))
    else some (tox_killed n (text "Tox function invoked on invalid tox instance"))
unreached n other = some (tox_killed n (text "Tox function invoked on killed tox instance"))

module _ {A : Type 0} where
  -- The exceptions of the function's result, on top of those there are.
  abbrev pub thrown_by : Result A → List JavaException → List JavaException
  thrown_by (value a) es = es
  thrown_by (throws e) es = e ∷ es

  abbrev pub value_or : A → Result A → A
  value_or default (value a) = a
  value_or default (throws e) = default

module _ {T V : Type 0} where
  -- The instance behind a live slot.
  abbrev pub LiveAt : ℕ → Manager T V → T → V → Type 0
  LiveAt n s x v =
      (is_valid n s ≡ true)
      × ((i : Instance T V) × (get_elem? s.instances (n - 1) ≡ some i)
          × (i.live ≡ true)
          × (i.tox ≡ some x)
          × (i.events ≡ some v)
          × (i.mutex ≡ some tt))

  pub live_at :
      (n : ℕ) (s : Manager T V) (x : T) (v : V)
      → IsConsistent s
      → slot s n ≡ live x v
      → LiveAt n s x v
  live_at n s x v c e = elim (Bool-cases (is_valid n s)) [
    | inl h ↦
        let (i, g) = get_elem?-some s.instances (n - 1) (in_range n s h) in
        let w = c.valid (n - 1) i g in
        let here = slot_at n s i h g in
        (
          h,
          (
            i,
            g,
            ground (arith, here, w),
            ground (arith, here, w),
            ground (arith, here, w),
            ground (arith, here, w),
          ),
        )
    | inr h ↦ ground arith
  ]

  -- The table after a function of the instance of number n.
  abbrev pub changed : ℕ → Instance T V → Manager T V → Manager T V
  changed n j s = record s { instances = set s.instances (n - 1) j }

  changed-IsConsistent :
      (n : ℕ) (s : Manager T V) (i j : Instance T V)
      → IsConsistent s
      → is_valid n s ≡ true
      → get_elem? s.instances (n - 1) ≡ some i
      → i.live ≡ true
      → is_valid_instance j ≡ true
      → IsConsistent (changed n j s)
  changed-IsConsistent n s i j c v e l w = record {
    valid = λ k h g. ground (
      arith,
      get_elem?-set_self s.instances (n - 1) j (in_range n s v),
      get_elem?-set_ne s.instances (n - 1) k j,
      c.valid k h,
    );
    free_dead =
        λ m f. ground (arith, get_elem?-set_ne s.instances (n - 1) (m - 1) j, c.free_dead m f);
    distinct = c.distinct;
    small = omega (arith, length-set s.instances (n - 1) j, c.small);
  }

  slot-changed :
      (n m : ℕ) (s : Manager T V) (j : Instance T V) (x : T) (v : V)
      → is_valid n s ≡ true
      → j.live ≡ true
      → j.tox ≡ some x
      → j.events ≡ some v
      → slot (changed n j s) m ≡ (if n == m then live x v else slot s m)
  unfolding is_valid
  slot-changed n m s j x v h l p q = ground (
    arith,
    get_elem?-set_self s.instances (n - 1) j,
    get_elem?-set_ne s.instances (n - 1) (m - 1) j,
    length-set s.instances (n - 1) j,
  )

module _ {T V A : Type 0} where
  -- On a consistent table, a native method whose object has no live instance throws and returns the
  -- default value, and changes nothing else: for an incomplete object the illegal state, for a
  -- number out of range and for a killed instance the killed exception with its text.
  pub with_instance-unreached :
      (default : A) (n : ℕ) (func : Func T V A) (s : Manager T V) (e : JavaException)
      → IsConsistent s
      → unreached n (slot s n) ≡ some e
      → with_instance default n func s ≡ ok (default, record s { thrown = e ∷ s.thrown })
  unfolding with_instance
  with_instance-unreached default n func s e c u = elim (Bool-cases (is_valid n s)) [
    | inl h ↦
        let (i, g) = get_elem?-some s.instances (n - 1) (in_range n s h) in
        ground (arith, slot_at n s i h g, c.valid (n - 1) i g)
    | inr h ↦ ground arith
  ]

  with_instance_live :
      (default : A) (n : ℕ) (func : Func T V A) (s : Manager T V) (i : Instance T V) (x y : T)
      (v w : V) (r : Result A)
      → is_valid n s ≡ true
      → get_elem? s.instances (n - 1) ≡ some i
      → i.live ≡ true
      → i.tox ≡ some x
      → i.events ≡ some v
      → i.mutex ≡ some tt
      → func x v ≡ ok (r, y, w)
      → with_instance default n func s
        ≡ ok (
          value_or default r,
          record (changed n (record i { tox = some y; events = some w }) s) {
            thrown = thrown_by r s.thrown;
          },
        )
  unfolding with_instance
  with_instance_live default n func s i x y v w r h e l p q m f = ground arith

  -- A function that ends the process ends it from inside a native method as well.
  pub with_instance-fault :
      (default : A) (n : ℕ) (func : Func T V A) (s : Manager T V) (x : T) (v : V) (e : Fault)
      → IsConsistent s
      → slot s n ≡ live x v
      → func x v ≡ fault e
      → with_instance default n func s ≡ fault e
  unfolding with_instance
  with_instance-fault default n func s x v e c l f =
      let (h, (i, g, a, p, q, m)) = live_at n s x v c l in ground arith

  abbrev pub ReachedSpec : ℕ → A → Result A → T → V → Manager T V → A → Manager T V → Type 0
  ReachedSpec n default r y w s a t =
      (a ≡ value_or default r)
      × IsConsistent t
      × ChangesAt n (λ _. live y w) s t
      × (t.deleted ≡ s.deleted)
      × (t.thrown ≡ thrown_by r s.thrown)

  -- On a consistent table, a native method whose object has a live instance runs on the subsystem
  -- and the events of that instance; if the function returns, the method returns its value, or the
  -- default and its exception; the table is consistent, no other instance changes, this one holds
  -- the subsystem and the events that the function left, and nothing is destroyed.
  pub with_instance_reaches :
      (default : A) (n : ℕ) (func : Func T V A) (s : Manager T V) (x y : T) (v w : V) (r : Result A)
      → IsConsistent s
      → slot s n ≡ live x v
      → func x v ≡ ok (r, y, w)
      → Returns (with_instance default n func s) (λ a t. ReachedSpec n default r y w s a t)
  with_instance_reaches default n func s x y v w r c e f =
      let (h, (i, g, l, p, q, m)) = live_at n s x v c e in
      let j : Instance T V = record i { tox = some y; events = some w } in
      let valid : is_valid_instance j ≡ true = ground arith in
      rw (with_instance_live default n func s i x y v w r h g l p q m f) (
        refl,
        throwing-IsConsistent (thrown_by r s.thrown) (changed n j s)
            (changed-IsConsistent n s i j c h g l valid),
        (λ k.
            slot-throwing k (thrown_by r s.thrown) (changed n j s)
            ∙ slot-changed n k s j y w h l refl refl),
        refl,
        refl,
      )
