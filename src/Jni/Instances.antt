-- ===== src/Jni/Instances.antt =====
-- tox4j/ToxInstances.h: tox_instance and instance_manager.
--
-- `T` is the subsystem (a Tox or a ToxAV) and `V` the type of its events. A unique_ptr is an Option.
-- `deleted` lists the subsystems that destructors have passed to the Deleter, the last one first,
-- and `thrown` the exceptions, the last one first. The mutexes are here only as objects that an instance owns: each
-- operation runs to its end before the next one.
pub mod Slots
pub mod Invariant
pub mod Effects
pub mod Add
pub mod Kill
pub mod Finalize
pub mod History
use tox4j.Base.{
  ℕ, ◌-◌, Bool, true, false, not, ◌&&◌, ◌||◌, Option, none, some, List, [], ◌∷◌, ◌++◌, ltb, leb,
  ◌==◌, is_negative, is_null, u32, length, get_elem?, set, if◌then◌else◌,
}
use tox4j.Base.Effect.{M, ok, fault, Fault, assert}
use tox4j.Base.Early.{E, goes, ◌>>=◌, ◌>>◌, return_if, finish, lift, body}
use tox4j.Jni.Exceptions.{JavaException, tox_killed, illegal_state, text, text_max}

pub record Instance (T V : Type 0) : Type 0 where
  pub live : Bool
  pub tox : Option T
  pub events : Option V
  pub mutex : Option (Unit {0})

pub record Manager (T V : Type 0) : Type 0 where
  pub instances : List (Instance T V)
  pub freelist : List ℕ
  pub deleted : List T
  pub thrown : List JavaException

unfoldable pub is_free : ℕ → List ℕ → Bool
is_free n [] = false
is_free n (m ∷ ms) = (m == n) || is_free n ms

-- The last element of the freelist is the head of the list.
module _ {T V : Type 0} where
  -- What assertValid asserts.
  abbrev pub is_valid_instance : Instance T V → Bool
  is_valid_instance i =
      if i.live
      then not (is_null i.tox) && (not (is_null i.events) && not (is_null i.mutex))
      else is_null i.tox && (is_null i.events && is_null i.mutex)

  -- The state that a move leaves behind.
  abbrev pub dead : Instance T V
  dead = record { live = false; tox = none; events = none; mutex = none }

  -- The constructor from three owned objects.
  unfoldable pub make_instance : T → V → Instance T V
  make_instance tox events = record {
    live = true;
    tox = some tox;
    events = some events;
    mutex = some tt;
  }

  -- `if (test) { throw…; return; }`: whether it did.
  abbrev pub throw_if : Bool → JavaException → M (Manager T V) Bool
  throw_if true e s = ok (true, record s { thrown = e ∷ s.thrown })
  throw_if false e s = ok (false, s)

  -- `instance_number > 0 && (size_t) instance_number <= instances.size ()`.
  unfoldable pub is_valid : ℕ → Manager T V → Bool
  is_valid n s = ltb 0 n && (not (is_negative n) && leb n (length s.instances))

  unfoldable pub set_free : ℕ → M (Manager T V) (Unit {0})
  set_free n s = ok (tt, record s { freelist = n ∷ s.freelist })

  abbrev pub empty : Manager T V → Bool
  empty s = length s.instances == 0

  abbrev pub size : Manager T V → ℕ
  size s = length s.instances

  -- `instances[instance_number - 1]`.
  unfoldable pub at : ℕ → M (Manager T V) (Instance T V)
  at n s = elim (get_elem? s.instances (n - 1)) [
    | none ↦ fault Fault.wild_call
    | some i ↦ ok (i, s)
  ]

  abbrev pub put_at : ℕ → Instance T V → M (Manager T V) (Unit {0})
  put_at n i s = ok (tt, record s { instances = set s.instances (n - 1) i })

  -- `remove`: the move constructor takes the members over, asserts that both sides are valid, and
  -- leaves a dead instance.
  unfoldable pub remove : ℕ → E (Manager T V) (Unit {0}) (Instance T V)
  unfolding at
  remove n = do
    i ← lift (at n)
    lift (put_at n dead)
    lift (assert (is_valid_instance i))
    λ s. ok (goes i, s)

  -- The destructor: the subsystem, if there is one, goes to the Deleter.
  abbrev pub destroy : Instance T V → M (Manager T V) (Unit {0})
  destroy i s = elim i.tox [
    | none ↦ ok (tt, s)
    | some t ↦ ok (tt, record s { deleted = t ∷ s.deleted })
  ]

  -- The last object that became free is used again; else the table grows. The move assignment asserts
  -- that the slot is dead, that the new instance is live, and that both are valid.
  unfoldable pub reuse : ℕ → List ℕ → Instance T V → M (Manager T V) ℕ
  unfolding at
  reuse n rest fresh = body do
    lift (assert (ltb 0 n && not (is_negative n)))
    lift λ s. ok (tt, record s { freelist = rest })
    slot ← lift (at n)
    lift (assert (not slot.live))
    lift (assert fresh.live)
    lift (assert (is_valid_instance slot && is_valid_instance fresh))
    lift (put_at n fresh)
    finish n

  unfoldable pub grow : Instance T V → M (Manager T V) ℕ
  grow fresh = body do
    lift (assert (is_valid_instance fresh))
    lift λ s. ok (tt, record s { instances = s.instances ++ fresh ∷ [] })
    count ← lift λ s. ok (size s, s)
    finish (u32 count)

  unfoldable pub add : Instance T V → M (Manager T V) ℕ
  unfolding reuse grow
  add fresh s = elim s.freelist [ [] ↦ grow fresh s | n ∷ rest ↦ reuse n rest fresh s ]

  -- The end of a live instance that was moved out of the table.
  unfoldable pub end_of : Instance T V → M (Manager T V) (Unit {0})
  end_of dying = body do
    lift (assert dying.live)
    lift (assert (is_valid_instance dying))
    lift (destroy dying)
    finish tt

  unfoldable pub kill : ℕ → M (Manager T V) (Unit {0})
  unfolding is_valid remove end_of
  kill n = body do
    negative ← lift (throw_if (is_negative n) (illegal_state n (text "Tox instance out of range")))
    return_if negative tt
    valid ← lift λ s. ok (is_valid n s, s)
    invalid ← lift (throw_if (not valid) (tox_killed n (text "close called on invalid instance")))
    return_if invalid tt
    dying ← remove n
    return_if (is_null dying.tox) tt
    lift (end_of dying)
    finish tt

  -- An instance that is live when its object is collected was leaked.
  unfoldable pub end_leaked : ℕ → E (Manager T V) (Unit {0}) (Unit {0})
  unfolding at remove end_of
  end_leaked n = do
    i ← lift (at n)
    if i.live then (remove n >>= λ dying. lift (end_of dying)) else lift (λ s. ok (tt, s))

  unfoldable pub finalize : ℕ → M (Manager T V) (Unit {0})
  unfolding is_valid is_free at end_leaked set_free
  finalize n = body do
    return_if (n == 0) tt
    is_empty ← lift λ s. ok (empty s, s)
    none_left ← lift (throw_if is_empty (illegal_state n (text "Tox instance manager is empty")))
    return_if none_left tt
    valid ← lift λ s. ok (is_valid n s, s)
    count ← lift λ s. ok (size s, s)
    invalid ←
        lift (
          throw_if (not valid) (illegal_state n (text_max "Tox instance out of range" (count - 1))))
    return_if invalid tt
    free ← lift λ s. ok (is_free n s.freelist, s)
    twice ← lift (throw_if free (illegal_state n (text "Tox instance already on free list")))
    return_if twice tt
    end_leaked n
    i ← lift (at n)
    lift (assert (not i.live))
    lift (set_free n)
    finish tt
