-- ===== src/Core/Transfers/Handled/Edits.antt =====
-- The ways in which a step changes the table: not at all, at one key, or by dropping one key.
use tox4j.Base.{ℕ, none, some, Option, ◌≡◌, sym, inl, inr, arith, Bool-cases, subst, if◌then◌else◌}
use tox4j.Base.StdMap.{lookup, insert, erase, IsSorted, pair_key, pair_beq, pair_beq_iff}
use tox4j.Base.StdMap.Laws.{lookup-insert, lookup-erase, insert-IsSorted, erase-IsSorted}
use tox4j.Core.State.{PauseReason, FileTransfer, Transfers}
use tox4j.Core.Transfers.{Move, stays, ends}

module _ (garbage : PauseReason) where
  -- Every entry made at most one move, and the keys are in order.
  abbrev pub EditsTable : Transfers → Transfers → Type 0
  EditsTable m n = IsSorted n × ((k : ℕ × ℕ) → Move garbage (lookup k m) (lookup k n))

  -- The entry at one key is `e` now, and the others are what they were.
  one_edit :
      (k j : ℕ × ℕ) (e : Option FileTransfer) (m n : Transfers)
      → Move garbage (lookup k m) e
      → lookup j n ≡ (if pair_beq k j then e else lookup j m)
      → Move garbage (lookup j m) (lookup j n)
  one_edit k j e m n p q = elim (Bool-cases (pair_beq k j)) [
    | inl b ↦
        let now : lookup j n ≡ e = ground arith in
        let at : k ≡ j = (pair_beq_iff k j).0 b in
        subst (λ i. Move garbage (lookup i m) (lookup j n)) at
          (subst (λ x. Move garbage (lookup k m) x) (sym now) p)
    | inr b ↦
        let now : lookup j n ≡ lookup j m = ground arith in
        subst (λ x. Move garbage (lookup j m) x) (sym now) (stays (lookup j m))
  ]

  pub insert_edit :
      (k : ℕ × ℕ) (d : Option FileTransfer) (v : FileTransfer) (m n : Transfers)
      → IsSorted m
      → lookup k m ≡ d
      → Move garbage d (some v)
      → n ≡ insert k v m
      → EditsTable m n
  insert_edit k d v m n s l p q =
      let here : Move garbage (lookup k m) (some v) =
        subst (λ x. Move garbage x (some v)) (sym l) p in
      subst (EditsTable m) (sym q) (
        insert-IsSorted k v m s,
        λ j. one_edit k j (some v) m (insert k v m) here (lookup-insert k j v m),
      )

  pub erase_edit :
      (k : ℕ × ℕ) (t : FileTransfer) (m n : Transfers)
      → IsSorted m
      → lookup k m ≡ some t
      → n ≡ erase k m
      → EditsTable m n
  erase_edit k t m n s l q =
      let here : Move garbage (lookup k m) none =
        subst (λ x. Move garbage x none) (sym l) (ends t) in
      subst (EditsTable m) (sym q)
        (erase-IsSorted k m s, λ j. one_edit k j none m (erase k m) here (lookup-erase k j m s))

  pub same_edit : (m n : Transfers) → IsSorted m → n ≡ m → EditsTable m n
  same_edit m n s q = subst (EditsTable m) (sym q) (s, λ k. stays (lookup k m))
