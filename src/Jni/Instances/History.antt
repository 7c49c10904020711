-- ===== src/Jni/Instances/History.antt =====
-- Sequences of calls of the table of instances, and what becomes of the subsystems given to it.
--
-- Subsystems are counted under any weight: with the weight 1 at one subsystem and 0 elsewhere, an
-- equation of weights says how often that subsystem occurs.
use tox4j.Base.{
  ℕ, suc, ◌+◌, ◌-◌, ◌<◌, ◌≤◌, true, false, Option, none, some, List, [], ◌∷◌, ◌++◌, ◌≡◌, refl, inl,
  inr, arith, get_elem?, length, set, zero, length-set, length-append, get_elem?-some, Bool-cases,
}
use tox4j.Base.Effect.{Outcome, ok, fault, Returns}
use tox4j.Jni.Instances.{
  Instance, Manager, is_valid, is_free, dead, make_instance, add, kill, finalize,
}
use tox4j.Jni.Instances.Invariant.{IsConsistent, emptied, in_range}
use tox4j.Jni.Instances.Kill.{kill_at, kill_absent, kill_refines}
use tox4j.Jni.Instances.Finalize.{
  finalize_live, finalize_dead, finalize_free, finalize_absent, finalize_refines,
}
use tox4j.Jni.Instances.Effects.{not_free_live}
use tox4j.Jni.Instances.Add.{add_reuses, add_grows, add_refines, first_free}

module _ {T : Type 0} (weight : T → ℕ) where
  abbrev pub weigh : Option T → ℕ
  weigh none = 0
  weigh (some t) = weight t

  abbrev pub weigh_all : List T → ℕ
  weigh_all [] = 0
  weigh_all (t ∷ ts) = weight t + weigh_all ts

module _ {T V : Type 0} (weight : T → ℕ) where
  -- The weight of what the table owns, and with it that of what was destroyed.
  abbrev pub owned : List (Instance T V) → ℕ
  owned [] = 0
  owned (i ∷ is) = weigh weight i.tox + owned is

  abbrev pub accounted : Manager T V → ℕ
  accounted s = weigh_all weight s.deleted + owned s.instances

  -- A call added that weight, and the table did not grow by more than one.
  abbrev pub Keeps : ℕ → Manager T V → Manager T V → Type 0
  Keeps more s t =
      (accounted t ≡ more + accounted s) × (length t.instances ≤ suc (length s.instances))

  owned-set :
      (is : List (Instance T V)) (k : ℕ) (i j : Instance T V)
      → get_elem? is k ≡ some i
      → owned (set is k j) + weigh weight i.tox ≡ owned is + weigh weight j.tox
  owned-set [] k i j e = cc
  owned-set (h ∷ is) zero i j e = ground arith
  owned-set (h ∷ is) (suc k) i j e = omega (arith, owned-set is k i j e)

  owned-append : (is js : List (Instance T V)) → owned (is ++ js) ≡ owned is + owned js
  owned-append [] js = omega arith
  owned-append (i ∷ is) js = omega (arith, owned-append is js)

  accounted-emptied :
      (n : ℕ) (s : Manager T V) (i : Instance T V)
      → get_elem? s.instances (n - 1) ≡ some i
      → Keeps 0 s (emptied n i s)
  accounted-emptied n s i e =
      ground (arith, owned-set s.instances (n - 1) i dead e, length-set s.instances (n - 1) dead)

  -- Neither close nor the collection of an object makes a subsystem vanish, or destroys one twice.
  pub kill_accounted :
      (n : ℕ) (s : Manager T V) → IsConsistent s → Returns (kill n s) (λ _ t. Keeps 0 s t)
  kill_accounted n s c = elim (Bool-cases (is_valid n s)) [
    | inl v ↦
        let (i, e) = get_elem?-some s.instances (n - 1) (in_range n s v) in
        rw (kill_at n s i v e (c.valid (n - 1) i e)) (accounted-emptied n s i e)
    | inr v ↦ rw (kill_absent n s v) (omega arith)
  ]

  finalize_accounted_at :
      (n : ℕ) (s : Manager T V) (i : Instance T V)
      → IsConsistent s
      → is_valid n s ≡ true
      → get_elem? s.instances (n - 1) ≡ some i
      → Returns (finalize n s) (λ _ t. Keeps 0 s t)
  finalize_accounted_at n s i c v e = elim (Bool-cases i.live) [
    | inl l ↦
        rw (finalize_live n s i v e (c.valid (n - 1) i e) l (not_free_live n s i c e l))
          (accounted-emptied n s i e)
    | inr l ↦ elim (Bool-cases (is_free n s.freelist)) [
      | inl f ↦ rw (finalize_free n s i v e l f) (omega arith)
      | inr f ↦ rw (finalize_dead n s i v e l f) (omega arith)
    ]
  ]

  pub finalize_accounted :
      (n : ℕ) (s : Manager T V) → IsConsistent s → Returns (finalize n s) (λ _ t. Keeps 0 s t)
  finalize_accounted n s c = elim (Bool-cases (is_valid n s)) [
    | inl v ↦
        let (i, e) = get_elem?-some s.instances (n - 1) (in_range n s v) in
        finalize_accounted_at n s i c v e
    | inr v ↦ rw (finalize_absent n s v) (omega arith)
  ]

  add_accounted_grow :
      (x : T) (v : V) (s : Manager T V)
      → s.freelist ≡ []
      → suc (length s.instances) < 0x8000_0000
      → Returns (add (make_instance x v) s) (λ _ t. Keeps (weight x) s t)
  unfolding make_instance
  add_accounted_grow x v s e h = rw (add_grows (make_instance x v) s e refl h) (
      omega (
        arith,
        owned-append s.instances (make_instance x v ∷ []),
        length-append s.instances (make_instance x v ∷ []),
      ))

  add_accounted_reuse :
      (x : T) (v : V) (n : ℕ) (rest : List ℕ) (s : Manager T V)
      → IsConsistent s
      → s.freelist ≡ n ∷ rest
      → Returns (add (make_instance x v) s) (λ _ t. Keeps (weight x) s t)
  unfolding make_instance
  add_accounted_reuse x v n rest s c e =
      let (d, h, f) = first_free n rest s c e in
      let (i, g) = get_elem?-some s.instances (n - 1) (in_range n s h) in
      let l : i.live ≡ false = ground arith in
      rw (add_reuses (make_instance x v) n rest s i e d.0 d.1 g l (c.valid (n - 1) i g) refl refl) (
        ground (
          arith,
          owned-set s.instances (n - 1) i (make_instance x v) g,
          c.valid (n - 1) i g,
          l,
          length-set s.instances (n - 1) (make_instance x v),
        ))

  pub add_accounted :
      (x : T) (v : V) (s : Manager T V)
      → IsConsistent s
      → suc (length s.instances) < 0x8000_0000
      → Returns (add (make_instance x v) s) (λ _ t. Keeps (weight x) s t)
  add_accounted x v s c h = go s.freelist refl
    where
      go :
          (l : List ℕ)
          → s.freelist ≡ l
          → Returns (add (make_instance x v) s) (λ _ t. Keeps (weight x) s t)
      go [] e = add_accounted_grow x v s e h
      go (n ∷ rest) e = add_accounted_reuse x v n rest s c e

-- What Java calls: a constructor, close, and the collection of an object.
pub data Call (T V : Type 0) : Type 0 where
  adds : T → V → Call T V
  kills : ℕ → Call T V
  finalizes : ℕ → Call T V

module _ {T V : Type 0} where
  -- The table at the start of the process.
  abbrev pub no_instances : Manager T V
  no_instances = record { instances = []; freelist = []; deleted = []; thrown = [] }

  pub no_instances-IsConsistent : IsConsistent {T = T} {V = V} no_instances
  unfolding is_free
  no_instances-IsConsistent = record {
    valid = λ k i e. cc;
    free_dead = λ n e. cc;
    distinct = tt;
    small = omega arith;
  }

  pub step : Call T V → Manager T V → Outcome (Manager T V)
  step (adds x v) s = elim (add (make_instance x v) s) [ fault e ↦ fault e | ok (n, t) ↦ ok t ]
  step (kills n) s = elim (kill n s) [ fault e ↦ fault e | ok (u, t) ↦ ok t ]
  step (finalizes n) s = elim (finalize n s) [ fault e ↦ fault e | ok (u, t) ↦ ok t ]

  pub run : List (Call T V) → Manager T V → Outcome (Manager T V)
  run [] s = ok s
  run (c ∷ cs) s = elim (step c s) [ fault e ↦ fault e | ok t ↦ run cs t ]

  -- The weight of the subsystems that the calls give to the table.
  abbrev pub given : (T → ℕ) → List (Call T V) → ℕ
  given weight [] = 0
  given weight (adds x v ∷ cs) = weight x + given weight cs
  given weight (kills n ∷ cs) = given weight cs
  given weight (finalizes n ∷ cs) = given weight cs

  abbrev pub Ends : Outcome (Manager T V) → (Manager T V → Type 0) → Type 0
  Ends (ok t) P = P t
  Ends (fault e) P = ⊥

  -- What two descriptions of one call say together.
  both :
      {A : Type 0} (P Q : A → Manager T V → Type 0) (o : Outcome (A × Manager T V))
      → Returns o P
      → Returns o Q
      → Ends (elim o [ fault e ↦ fault e | ok (a, t) ↦ ok t ]) (λ t. (a : A) × (P a t × Q a t))
  both P Q (ok (a, t)) p q = (a, (p, q))
  both P Q (fault e) p q = elim p [ ]

  weaken :
      {P Q : Manager T V → Type 0} (o : Outcome (Manager T V))
      → ((t : Manager T V) → P t → Q t)
      → Ends o P
      → Ends o Q
  weaken (ok t) f p = f t p
  weaken (fault e) f p = elim p [ ]

  step_lem :
      (weight : T → ℕ) (c : Call T V) (s : Manager T V)
      → IsConsistent s
      → suc (length s.instances) < 0x8000_0000
      → Ends (step c s) (λ t. IsConsistent t × Keeps weight (given weight (c ∷ [])) s t)
  unfolding step
  step_lem weight (adds x v) s i h =
      weaken (step (adds x v) s) (λ t p. (p.1.0.0, omega (arith, p.1.1)))
        (both _ _ (add (make_instance x v) s) (add_refines x v s i h)
          (add_accounted weight x v s i h))
  step_lem weight (kills n) s i h =
      weaken (step (kills n) s) (λ t p. (p.1.0.0, p.1.1))
        (both _ _ (kill n s) (kill_refines n s i) (kill_accounted weight n s i))
  step_lem weight (finalizes n) s i h =
      weaken (step (finalizes n) s) (λ t p. (p.1.0.0, p.1.1))
        (both _ _ (finalize n s) (finalize_refines n s i) (finalize_accounted weight n s i))

  abbrev pub calls : List (Call T V) → ℕ
  calls [] = 0
  calls (c ∷ cs) = suc (calls cs)

  and_then :
      (P Q : Manager T V → Type 0) (o : Outcome (Manager T V))
      (f : Manager T V → Outcome (Manager T V))
      → Ends o P
      → ((t : Manager T V) → P t → Ends (f t) Q)
      → Ends (elim o [ fault e ↦ fault e | ok t ↦ f t ]) Q
  and_then P Q (ok t) f p q = q t p
  and_then P Q (fault e) f p q = elim p [ ]

  combine :
      (weight : T → ℕ) (c : Call T V) (cs : List (Call T V)) (s t u : Manager T V)
      → Keeps weight (given weight (c ∷ [])) s t
      → accounted weight u ≡ given weight cs + accounted weight t
      → accounted weight u ≡ given weight (c ∷ cs) + accounted weight s
  combine weight (adds x v) cs s t u p q = omega (arith, p)
  combine weight (kills n) cs s t u p q = omega (arith, p)
  combine weight (finalizes n) cs s t u p q = omega (arith, p)

  -- From a consistent table with room for the calls, any sequence of constructors, closes and
  -- collections runs to its end without a fault, leaves the table consistent, and at its end every
  -- subsystem occurs in the table and among the destroyed ones together, under any weight, exactly as
  -- often as before and as it was given by a constructor: none is lost, none is destroyed twice.
  pub run-accounted :
      (weight : T → ℕ) (cs : List (Call T V)) (s : Manager T V)
      → IsConsistent s
      → calls cs + length s.instances < 0x8000_0000
      → Ends
          (run cs s)
          (λ t. IsConsistent t × (accounted weight t ≡ given weight cs + accounted weight s))
  unfolding run
  run-accounted weight [] s i h = (i, omega arith)
  run-accounted weight (c ∷ cs) s i h =
      and_then _ _ (step c s) (run cs) (step_lem weight c s i (omega arith)) (λ t p.
        weaken (run cs t) (λ u q. (q.0, combine weight c cs s t u p.1 q.1))
          (run-accounted weight cs t p.0 (omega (arith, p.1))))
