-- ===== src/Av/Creation/Exclusive.antt =====
-- new_toxav_new, new_toxav_kill and new_tox_kill, in any order: the sessions of each new_Tox.
use tox4j.Base.{
  ℕ, zero, suc, ◌+◌, false, true, none, some, List, [], ◌∷◌, ◌≡◌, arith, ◌==◌, get_elem?, inl, inr,
  Option-cases, subst, of_bool,
}
use tox4j.Base.StdMap.{lookup, nat_key, IsSorted}
use tox4j.Base.StdMap.Laws.{lookup-insert, lookup-erase, insert-IsSorted, erase-IsSorted}
use tox4j.Base.StdMap.All.{All, All-lookup}
use tox4j.Base.Effect.{Outcome, ok, fault, ok_first}
use tox4j.Core.Api.{ToxApi}
use tox4j.Core.State.{NewTox}
use tox4j.Av.State.{NewToxAv, AvApi}
use tox4j.Av.Creation.{Toxes, new_toxav_new, new_toxav_kill, new_tox_kill}

-- The Toxes that are alive, and the sessions.
pub record Sessions (Tox U Av V : Type 0) : Type 0 where
  pub toxes : Toxes Tox U
  pub sessions : List (NewToxAv Av V)

-- A new session for the Tox at an address, the end of a session by its place in the list, and the
-- end of a Tox.
pub data SessionRequest : Type 0 where
  opens : ℕ → SessionRequest
  closes : ℕ → SessionRequest
  ends : ℕ → SessionRequest

module _ {Av V : Type 0} where
  unfoldable pub sessions_of : ℕ → List (NewToxAv Av V) → ℕ
  sessions_of a [] = 0
  sessions_of a (av ∷ avs) = of_bool (av.tox == a) + sessions_of a avs

  abbrev pub without : ℕ → List (NewToxAv Av V) → List (NewToxAv Av V)
  without i [] = []
  without zero (av ∷ avs) = avs
  without (suc i) (av ∷ avs) = av ∷ without i avs

  pub sessions_of-without :
      (a i : ℕ) (avs : List (NewToxAv Av V)) (av : NewToxAv Av V)
      → get_elem? avs i ≡ some av
      → sessions_of a avs ≡ of_bool (av.tox == a) + sessions_of a (without i avs)
  unfolding sessions_of
  sessions_of-without a i [] av e = cc
  sessions_of-without a zero (x ∷ avs) av e = ground arith
  sessions_of-without a (suc i) (x ∷ avs) av e = ground (arith, sessions_of-without a i avs av)

module _ {Tox U Av V : Type 0} (api : ToxApi Tox) (av_api : AvApi Tox Av) where
  unfoldable pub session_step : SessionRequest → Sessions Tox U Av V → Outcome (Sessions Tox U Av V)
  session_step (opens address) s = elim (new_toxav_new {V = V} api av_api (some address) s.toxes) [
    | fault x ↦ fault x
    | ok ((none, _), toxes) ↦ ok (record s { toxes = toxes })
    | ok ((some av, _), toxes) ↦ ok (record { toxes = toxes; sessions = av ∷ s.sessions })
  ]
  session_step (closes i) s = elim (get_elem? s.sessions i) [
    | none ↦ ok s
    | some av ↦ elim (new_toxav_kill av s.toxes) [
      | fault x ↦ fault x
      | ok (_, toxes) ↦ ok (record { toxes = toxes; sessions = without i s.sessions })
    ]
  ]
  session_step (ends address) s = elim (new_tox_kill address s.toxes) [
    | fault x ↦ fault x
    | ok (_, toxes) ↦ ok (record s { toxes = toxes })
  ]

  unfoldable pub session_run :
      List SessionRequest → Sessions Tox U Av V → Outcome (Sessions Tox U Av V)
  unfolding session_step
  session_run [] s = ok s
  session_run (r ∷ rs) s = elim (session_step r s) [ fault x ↦ fault x | ok t ↦ session_run rs t ]

  -- `has_av` says whether there is a session, and there is at most one. No two Toxes share an address.
  abbrev pub IsExclusive : Sessions Tox U Av V → Type 0
  IsExclusive s =
      IsSorted s.toxes
      × ((a : ℕ) (tox : NewTox Tox U)
          → lookup a s.toxes ≡ some tox
          → sessions_of a s.sessions ≡ of_bool tox.has_av)

  opens-IsExclusive :
      (address : ℕ) (s t : Sessions Tox U Av V) (old : NewTox Tox U)
      → IsExclusive s
      → lookup address s.toxes ≡ some old
      → session_step (opens address) s ≡ ok t
      → IsExclusive t
  unfolding session_step sessions_of new_toxav_new
  opens-IsExclusive address s t old x o e = (
    ground (arith, x.0, insert-IsSorted address (record old { has_av = true }) s.toxes x.0),
    λ a tox l. ground (
      arith,
      x.1 a tox,
      x.1 address old,
      lookup-insert address a (record old { has_av = true }) s.toxes,
    ),
  )

  closes-IsExclusive :
      (i : ℕ) (s t : Sessions Tox U Av V) (av : NewToxAv Av V) (old : NewTox Tox U)
      → IsExclusive s
      → get_elem? s.sessions i ≡ some av
      → lookup av.tox s.toxes ≡ some old
      → session_step (closes i) s ≡ ok t
      → IsExclusive t
  unfolding session_step new_toxav_kill
  closes-IsExclusive i s t av old x g o e = (
    ground (arith, insert-IsSorted av.tox (record old { has_av = false }) s.toxes x.0),
    λ a tox l. ground (
      arith,
      x.1 a tox,
      x.1 av.tox old,
      sessions_of-without a i s.sessions av,
      sessions_of-without av.tox i s.sessions av,
      lookup-insert av.tox a (record old { has_av = false }) s.toxes,
    ),
  )

  ends-IsExclusive :
      (address : ℕ) (s t : Sessions Tox U Av V)
      → IsExclusive s
      → session_step (ends address) s ≡ ok t
      → IsExclusive t
  unfolding session_step new_tox_kill
  ends-IsExclusive address s t x e = (
    ground (arith, erase-IsSorted address s.toxes x.0),
    λ a tox l. ground (arith, x.1 a tox, lookup-erase address a s.toxes x.0),
  )

  step-IsExclusive :
      (r : SessionRequest) (s t : Sessions Tox U Av V)
      → IsExclusive s
      → session_step r s ≡ ok t
      → IsExclusive t
  unfolding session_step new_toxav_new new_toxav_kill
  step-IsExclusive (opens address) s t x e = elim (Option-cases (lookup address s.toxes)) [
    | inl o ↦ absurd (ground arith)
    | inr (old, o) ↦ opens-IsExclusive address s t old x o e
  ]
  step-IsExclusive (closes i) s t x e = elim (Option-cases (get_elem? s.sessions i)) [
    | inl g ↦ subst IsExclusive (ground arith) x
    | inr (av, g) ↦ elim (Option-cases (lookup av.tox s.toxes)) [
      | inl o ↦ absurd (ground arith)
      | inr (old, o) ↦ closes-IsExclusive i s t av old x g o e
    ]
  ]
  step-IsExclusive (ends address) s t x e = ends-IsExclusive address s t x e

  run-IsExclusive :
      (rs : List SessionRequest) (s t : Sessions Tox U Av V)
      → IsExclusive s
      → session_run rs s ≡ ok t
      → IsExclusive t
  unfolding session_run
  run-IsExclusive [] s t x e = subst IsExclusive (ground arith) x
  run-IsExclusive (r ∷ rs) s t x e =
      let (u, p, q) = ok_first (session_step r s) (session_run rs) t e in
      run-IsExclusive rs u t (step-IsExclusive r s u x p) q

  -- From Toxes without sessions, at different addresses, after any sequence of new_toxav_new,
  -- new_toxav_kill and new_tox_kill that returns, each Tox that is alive has one session if its has_av is
  -- set, and none if it is not.
  pub sessions_counted :
      (rs : List SessionRequest) (toxes : Toxes Tox U) (t : Sessions Tox U Av V)
      → IsSorted toxes
      → All (λ tox. tox.has_av ≡ false) toxes
      → session_run rs (record { toxes = toxes; sessions = [] }) ≡ ok t
      → (a : ℕ) (tox : NewTox Tox U) → lookup a t.toxes ≡ some tox
      → sessions_of a t.sessions ≡ of_bool tox.has_av
  unfolding sessions_of
  sessions_counted rs toxes t i none_yet e =
      (run-IsExclusive rs (record { toxes = toxes; sessions = [] }) t
        (i, λ a tox l. ground (arith, All-lookup (λ tox. tox.has_av ≡ false) a toxes none_yet l))
        e).1
