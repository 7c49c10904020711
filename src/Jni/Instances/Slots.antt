-- ===== src/Jni/Instances/Slots.antt =====
-- What the table of instances promises, by the number of an object: the three states that the
-- comment on tox_instance names, and the effect of each operation on them.
use tox4j.Jni.Exceptions.{JavaException, illegal_state, tox_killed, text, text_max}
use tox4j.Base.{
  ◌≡◌, ◌⊎◌, is_negative, ◌==◌, ℕ, ◌-◌, Bool, Option, none, some, List, ◌∷◌, get_elem?,
  if◌then◌else◌,
}
use tox4j.Jni.Instances.{Instance, Manager, is_valid, is_free}

pub data Slot (T V : Type 0) : Type 0 where
  absent : Slot T V
  live : T → V → Slot T V
  dead : Slot T V
  collected : Slot T V

module _ {T V : Type 0} where
  abbrev pub slot_of_live : Option T → Option V → Slot T V
  slot_of_live (some t) (some v) = live t v
  slot_of_live (some t) none = absent
  slot_of_live none v = absent

  abbrev pub slot_of : Option (Instance T V) → Bool → Slot T V
  slot_of none free = absent
  slot_of (some i) free =
      if i.live then slot_of_live i.tox i.events else if free then collected else dead

  abbrev pub slot : Manager T V → ℕ → Slot T V
  slot s n =
      if is_valid n s
      then slot_of (get_elem? s.instances (n - 1)) (is_free n s.freelist)
      else absent

  -- A killed object is dead; its number is not given away.
  abbrev pub killed : Slot T V → Slot T V
  killed (live t v) = dead
  killed other = other

  -- A collected object's number may be given to a new one.
  abbrev pub finalized : Slot T V → Slot T V
  finalized absent = absent
  finalized other = collected

  -- The subsystem that an operation destroys is the one that lived there.
  abbrev pub deleting : Slot T V → List T → List T
  deleting (live t v) ts = t ∷ ts
  deleting other ts = ts

  -- A number that may be given to a new object.
  abbrev pub IsVacant : Slot T V → Type 0
  IsVacant x = (x ≡ absent) ⊎ (x ≡ collected)

  -- What a call on the slot throws: close, and the collection of the object (0 is the number of an
  -- object whose constructor failed).
  abbrev pub kill_reports : ℕ → Slot T V → List JavaException → List JavaException
  kill_reports n absent es =
      (if is_negative n
        then illegal_state n (text "Tox instance out of range")
        else tox_killed n (text "close called on invalid instance"))
      ∷ es
  kill_reports n other es = es

  abbrev pub finalize_reports : ℕ → ℕ → Slot T V → List JavaException → List JavaException
  finalize_reports n size absent es =
      if n == 0
      then es
      else if size == 0
      then illegal_state n (text "Tox instance manager is empty") ∷ es
      else illegal_state n (text_max "Tox instance out of range" (size - 1)) ∷ es
  finalize_reports n size collected es =
      illegal_state n (text "Tox instance already on free list") ∷ es
  finalize_reports n size other es = es
