-- ===== src/Tests/Instances.antt =====
-- The theorems on the table of instances, at tables with one object.
use tox4j.Base.{ℕ, ◌+◌, List, [], ◌∷◌, ◌≡◌, refl, arith}
use tox4j.Base.Effect.{Returns}
use tox4j.Jni.Instances.{Manager, make_instance, add, kill, finalize}
use tox4j.Jni.Instances.Invariant.{IsConsistent, grown, grown-IsConsistent}
use tox4j.Jni.Instances.Kill.{KillSpec, kill_refines}
use tox4j.Jni.Instances.Finalize.{FinalizeSpec, finalize_refines}
use tox4j.Jni.Instances.Add.{AddSpec, add_refines}
use tox4j.Jni.Instances.History.{
  Call, adds, kills, finalizes, no_instances, no_instances-IsConsistent, run, Ends, accounted,
  given, run-accounted,
}

-- The object 1, with the subsystem 7 and the events 0.
abbrev one : Manager ℕ ℕ
unfolding make_instance
one = grown (make_instance 7 0) no_instances

one-IsConsistent : IsConsistent one
unfolding make_instance
one-IsConsistent =
    grown-IsConsistent (make_instance 7 0) no_instances no_instances-IsConsistent refl refl
      (omega arith)

kill_refines_example : Returns (kill 1 one) (λ _ t. KillSpec 1 one t)
kill_refines_example = kill_refines 1 one one-IsConsistent

finalize_refines_example : Returns (finalize 1 one) (λ _ t. FinalizeSpec 1 one t)
finalize_refines_example = finalize_refines 1 one one-IsConsistent

add_refines_example : Returns (add (make_instance 8 0) one) (λ n t. AddSpec 8 0 n one t)
unfolding one
add_refines_example = add_refines 8 0 one one-IsConsistent (omega arith)

-- Two objects; the first is closed twice and collected, and its number is used again.
abbrev story : List (Call ℕ ℕ)
story = adds 5 0 ∷ adds 6 0 ∷ kills 1 ∷ kills 1 ∷ finalizes 1 ∷ adds 7 0 ∷ finalizes 2 ∷ []

run-accounted_example : Ends (run story no_instances) (λ t.
    IsConsistent t
    × (accounted (λ x. x) t ≡ given (λ x. x) story + accounted {V = ℕ} (λ x. x) no_instances))
run-accounted_example =
    run-accounted (λ x. x) story no_instances no_instances-IsConsistent (omega arith)
