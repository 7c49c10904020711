-- ===== src/Av/Creation/Orphans.antt =====
-- A session keeps a pointer to its new_Tox (new_ToxAV::tox), which new_toxav_kill writes through: when the
-- Tox may be ended.
use tox4j.Base.{
  ℕ, true, false, none, some, List, [], ◌∷◌, ◌≡◌, ◌≢◌, arith, get_elem?, refl, subst, inl, inr,
  Option-cases,
}
use tox4j.Base.StdMap.{lookup, nat_key, IsSorted}
use tox4j.Base.StdMap.Laws.{lookup-insert, lookup-erase, insert-IsSorted, erase-IsSorted}
use tox4j.Base.Effect.{Fault, ok, fault, wild_call, Outcome-cases}
use tox4j.Core.State.{NewTox}
use tox4j.Core.Api.{ToxApi}
use tox4j.Av.State.{NewToxAv, AvApi}
use tox4j.Av.Creation.{Toxes, new_toxav_new, new_toxav_kill, new_tox_kill}
use tox4j.Av.Creation.Exclusive.{
  Sessions, SessionRequest, opens, closes, ends, sessions_of, sessions_of-without, session_step,
  session_run,
}

module _ {Tox U Av V : Type 0} (api : ToxApi Tox) (av_api : AvApi Tox Av) where
  -- A session is opened on a Tox that is alive, and a Tox is ended when it has no session.
  abbrev pub Admits : SessionRequest → Sessions Tox U Av V → Type 0
  Admits (opens address) s = lookup address s.toxes ≢ none
  Admits (closes i) s = Unit {0}
  Admits (ends address) s = (lookup address s.toxes ≢ none) × (sessions_of address s.sessions ≡ 0)

  -- Each request is admitted in the state that the ones before it leave.
  abbrev pub IsCareful : List SessionRequest → Sessions Tox U Av V → Type 0
  IsCareful [] s = Unit {0}
  IsCareful (r ∷ rs) s =
      Admits r s × ((t : Sessions Tox U Av V) → session_step api av_api r s ≡ ok t → IsCareful rs t)

  -- Each session is that of a Tox that is alive.
  abbrev pub IsRooted : Sessions Tox U Av V → Type 0
  IsRooted s = IsSorted s.toxes × ((a : ℕ) → lookup a s.toxes ≡ none → sessions_of a s.sessions ≡ 0)

  opens-IsRooted :
      (address : ℕ) (s t : Sessions Tox U Av V)
      → IsRooted s
      → lookup address s.toxes ≢ none
      → session_step api av_api (opens address) s ≡ ok t
      → IsRooted t
  unfolding session_step new_toxav_new sessions_of
  opens-IsRooted address s t r l e = elim (Option-cases (lookup address s.toxes)) [
    | inl o ↦ absurd (l o)
    | inr (old, o) ↦ (
      ground (arith, r.0, insert-IsSorted address (record old { has_av = true }) s.toxes r.0),
      λ a n. ground (arith, r.1 a, lookup-insert address a (record old { has_av = true }) s.toxes),
    )
  ]

  closes-IsRooted :
      (i : ℕ) (s t : Sessions Tox U Av V)
      → IsRooted s
      → session_step api av_api (closes i) s ≡ ok t
      → IsRooted t
  unfolding session_step new_toxav_kill
  closes-IsRooted i s t r e = elim (Option-cases (get_elem? s.sessions i)) [
    | inl g ↦ subst IsRooted (ground arith) r
    | inr (av, g) ↦ elim (Option-cases (lookup av.tox s.toxes)) [
      | inl o ↦ absurd (ground arith)
      | inr (old, o) ↦ (
        ground (arith, insert-IsSorted av.tox (record old { has_av = false }) s.toxes r.0),
        λ a n. ground (
          arith,
          r.1 a,
          sessions_of-without a i s.sessions av,
          lookup-insert av.tox a (record old { has_av = false }) s.toxes,
        ),
      )
    ]
  ]

  ends-IsRooted :
      (address : ℕ) (s t : Sessions Tox U Av V)
      → IsRooted s
      → sessions_of address s.sessions ≡ 0
      → session_step api av_api (ends address) s ≡ ok t
      → IsRooted t
  unfolding session_step new_tox_kill
  ends-IsRooted address s t r d e = (
    ground (arith, erase-IsSorted address s.toxes r.0),
    λ a n. ground (arith, r.1 a, lookup-erase address a s.toxes r.0),
  )

  step-IsRooted :
      (r : SessionRequest) (s t : Sessions Tox U Av V)
      → IsRooted s
      → Admits r s
      → session_step api av_api r s ≡ ok t
      → IsRooted t
  step-IsRooted (opens address) s t i d e = opens-IsRooted address s t i d e
  step-IsRooted (closes n) s t i d e = closes-IsRooted n s t i e
  step-IsRooted (ends address) s t i d e = ends-IsRooted address s t i d.1 e

  -- An admitted request does not fault.
  step_faultless :
      (r : SessionRequest) (s : Sessions Tox U Av V) (x : Fault)
      → IsRooted s
      → Admits r s
      → session_step api av_api r s ≢ fault x
  unfolding session_step new_toxav_new new_toxav_kill new_tox_kill
  step_faultless (opens address) s x i d e = ground arith
  step_faultless (closes n) s x i d e = elim (Option-cases (get_elem? s.sessions n)) [
    | inl g ↦ ground arith
    | inr (av, g) ↦ ground (arith, i.1 av.tox, sessions_of-without av.tox n s.sessions av)
  ]
  step_faultless (ends address) s x i d e = ground (arith, d)

  run_returns :
      (rs : List SessionRequest) (s : Sessions Tox U Av V)
      → IsRooted s
      → IsCareful rs s
      → (t : Sessions Tox U Av V) × (session_run api av_api rs s ≡ ok t)
  unfolding session_run
  run_returns [] s i c = (s, refl)
  run_returns (r ∷ rs) s i c = elim (Outcome-cases (session_step api av_api r s)) [
    | inl (x, e) ↦ absurd (step_faultless r s x i c.0 e)
    | inr (t, e) ↦ rw (e, session_run) (run_returns rs t (step-IsRooted r s t i c.0 e) (c.1 t e))
  ]

  -- From Toxes at different addresses without sessions, any sequence of new_toxav_new, new_toxav_kill and
  -- new_tox_kill returns in which a session is opened only on a Tox that is alive, and a Tox is ended
  -- only when it is alive and has no session: no access goes through a pointer to a Tox that is gone.
  pub careful_returns :
      (rs : List SessionRequest) (toxes : Toxes Tox U)
      → IsSorted toxes
      → IsCareful rs (record { toxes = toxes; sessions = [] })
      → (t : Sessions Tox U Av V) × (session_run api av_api rs
            (record { toxes = toxes; sessions = [] })
          ≡ ok t)
  unfolding sessions_of
  careful_returns rs toxes i c =
      run_returns rs (record { toxes = toxes; sessions = [] }) (i, λ a n. refl) c

  -- new_tox_kill does not look at has_av: it ends a Tox that has a session, and then the end of this
  -- session writes through the pointer to the Tox that is gone.
  pub orphan_faults :
      (i : ℕ) (av : NewToxAv Av V) (tox : NewTox Tox U) (s : Sessions Tox U Av V)
      → IsSorted s.toxes
      → get_elem? s.sessions i ≡ some av
      → lookup av.tox s.toxes ≡ some tox
      → session_run api av_api (ends av.tox ∷ closes i ∷ []) s ≡ fault wild_call
  unfolding session_run session_step new_tox_kill new_toxav_kill
  orphan_faults i av tox s o g l = ground (arith, lookup-erase av.tox av.tox s.toxes o)
