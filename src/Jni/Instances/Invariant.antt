-- ===== src/Jni/Instances/Invariant.antt =====
-- The invariant of the table of instances, and that each operation keeps it.
use tox4j.Base.{
  ℕ, suc, subst, ◌-◌, ◌<◌, Bool, true, false, not, Option, none, some, List, [], ◌∷◌, ◌++◌, ◌≡◌,
  arith, get_elem?, length, set, length-set, length-append, get_elem?-set_self, get_elem?-set_ne,
  get_elem?-append_one,
}
use tox4j.Jni.Instances.{Instance, Manager, is_valid_instance, is_valid, is_free, dead}

abbrev pub AllDistinct : List ℕ → Type 0
AllDistinct [] = Unit {0}
AllDistinct (n ∷ ns) = (is_free n ns ≡ false) × AllDistinct ns

module _ {T V : Type 0} where
  abbrev pub is_dead_at : Option (Instance T V) → Bool
  is_dead_at none = false
  is_dead_at (some i) = not i.live

  -- A number on the freelist is that of a dead instance.
  abbrev pub IsDeadAt : Manager T V → ℕ → Type 0
  IsDeadAt s n = (0 < n) × (n < 0x8000_0000) × (is_dead_at (get_elem? s.instances (n - 1)) ≡ true)

  pub record IsConsistent (s : Manager T V) : Type 0 where
    pub valid :
        (k : ℕ) (i : Instance T V) → get_elem? s.instances k ≡ some i → is_valid_instance i ≡ true
    pub free_dead : (n : ℕ) → is_free n s.freelist ≡ true → IsDeadAt s n
    pub distinct : AllDistinct s.freelist
    pub small : length s.instances < 0x8000_0000

  -- The table after the end of the instance of the given number.
  abbrev pub emptied : ℕ → Instance T V → Manager T V → Manager T V
  emptied n i s = record s {
    instances = set s.instances (n - 1) dead;
    deleted = elim i.tox [ none ↦ s.deleted | some t ↦ t ∷ s.deleted ];
  }

  -- The table after the number of a dead instance went on the freelist, after a new instance took a
  -- number from there, and after one took a new number.
  abbrev pub freed : ℕ → Manager T V → Manager T V
  freed n s = record s { freelist = n ∷ s.freelist }

  abbrev pub reused : ℕ → List ℕ → Instance T V → Manager T V → Manager T V
  reused n rest fresh s = record s { instances = set s.instances (n - 1) fresh; freelist = rest }

  abbrev pub grown : Instance T V → Manager T V → Manager T V
  grown fresh s = record s { instances = s.instances ++ fresh ∷ [] }

  pub in_range : (n : ℕ) (s : Manager T V) → is_valid n s ≡ true → n - 1 < length s.instances
  unfolding is_valid
  in_range n s v = ground arith

  pub emptied-IsConsistent :
      (n : ℕ) (s : Manager T V) (i : Instance T V)
      → IsConsistent s
      → is_valid n s ≡ true
      → IsConsistent (emptied n i s)
  emptied-IsConsistent n s i c v = record {
    valid = λ k j e. ground (
      arith,
      get_elem?-set_self s.instances (n - 1) dead (in_range n s v),
      get_elem?-set_ne s.instances (n - 1) k dead,
      c.valid k j,
    );
    free_dead = λ m f. ground (
      arith,
      get_elem?-set_self s.instances (n - 1) dead (in_range n s v),
      get_elem?-set_ne s.instances (n - 1) (m - 1) dead,
      c.free_dead m f,
    );
    distinct = c.distinct;
    small = omega (arith, length-set s.instances (n - 1) dead, c.small);
  }

  pub freed-IsConsistent :
      (n : ℕ) (s : Manager T V)
      → IsConsistent s
      → IsDeadAt s n
      → is_free n s.freelist ≡ false
      → IsConsistent (freed n s)
  unfolding is_free
  freed-IsConsistent n s c d f = record {
    valid = c.valid;
    free_dead = λ m g. ground (arith, c.free_dead m);
    distinct = (f, c.distinct);
    small = c.small;
  }

  pub reused-IsConsistent :
      (n : ℕ) (rest : List ℕ) (fresh : Instance T V) (s : Manager T V)
      → IsConsistent s
      → s.freelist ≡ n ∷ rest
      → n - 1 < length s.instances
      → is_valid_instance fresh ≡ true
      → IsConsistent (reused n rest fresh s)
  unfolding is_free
  reused-IsConsistent n rest fresh s c e h w = record {
    valid = λ k j g. ground (
      arith,
      get_elem?-set_self s.instances (n - 1) fresh h,
      get_elem?-set_ne s.instances (n - 1) k fresh,
      c.valid k j,
    );
    free_dead = λ m f. ground (
      arith,
      get_elem?-set_ne s.instances (n - 1) (m - 1) fresh,
      c.free_dead m,
      distinct.0,
      c.free_dead n,
    );
    distinct = distinct.1;
    small = omega (arith, length-set s.instances (n - 1) fresh, c.small);
  }
    where
      distinct : AllDistinct (n ∷ rest)
      distinct = subst AllDistinct e c.distinct

  pub grown-IsConsistent :
      (fresh : Instance T V) (s : Manager T V)
      → IsConsistent s
      → s.freelist ≡ []
      → is_valid_instance fresh ≡ true
      → suc (length s.instances) < 0x8000_0000
      → IsConsistent (grown fresh s)
  unfolding is_free
  grown-IsConsistent fresh s c e w h = record {
    valid = λ k j g. ground (arith, get_elem?-append_one s.instances fresh k, c.valid k j);
    free_dead = λ m f. ground arith;
    distinct = c.distinct;
    small = omega (arith, length-append s.instances (fresh ∷ []));
  }
