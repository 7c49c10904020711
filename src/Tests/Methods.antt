-- ===== src/Tests/Methods.antt =====
-- The theorems on the native methods, on a table with one instance of the small toxcore.
use tox4j.Base.{ℕ, true, some, none, [], ◌∷◌, ◌≡◌, refl, arith}
use tox4j.Base.Effect.{ok, Returns}
use tox4j.Core.Enums.{Bytes, ToxErrSendMessage}
use tox4j.Core.State.{new_file_number}
use tox4j.Core.Lifecycle.{new_tox_new}
use tox4j.Core.Messages.{new_tox_send_message}
use tox4j.Core.Iteration.{new_tox_iteration}
use tox4j.Core.Handlers.{handle}
use tox4j.Base.StdMap.{lookup, insert}
use tox4j.Jni.Exceptions.{tox_killed, text}
use tox4j.Jni.Instances.{make_instance, is_valid, is_free}
use tox4j.Jni.Instances.Slots.{live, slot}
use tox4j.Jni.Instances.Invariant.{IsConsistent, grown, grown-IsConsistent}
use tox4j.Jni.Instances.History.{no_instances, no_instances-IsConsistent}
use tox4j.Jni.Calls.{Result, value, with_instance}
use tox4j.Jni.Calls.Reached.{ReachedSpec, with_instance_reaches, with_instance-unreached}
use tox4j.Jni.Errors.{handle_send_message_error}
use tox4j.Jni.Errors.Numbers.{number_of_send_message}
use tox4j.Jni.Errors.Codes.{handle_send_message_error-IsFaithful}
use tox4j.Jni.Events.{CoreEvents, no_events}
use tox4j.Jni.Methods.{Table, same, with_error_handling, on_session}
use tox4j.Jni.Methods.Connection.{tox_iteration}
use tox4j.Jni.Methods.Creation.{tox_new}
use tox4j.Jni.Methods.Creation.Created.{NewSpec, options_of, tox_new_lem}
use tox4j.Jni.Methods.Iterated.{tox_iteration_lem}
use tox4j.Jni.Methods.Reported.{ReportSpec, method_reports}
use tox4j.Tests.{api, garbage, new_tox, session}
use tox4j.Tests.Files.{table, after_iteration}

-- The object 1.
abbrev pub one : Table Bytes
one = grown (make_instance (new_tox table) no_events) no_instances

pub one-IsConsistent : IsConsistent one
unfolding make_instance
one-IsConsistent =
    grown-IsConsistent (make_instance (new_tox table) no_events) no_instances
      no_instances-IsConsistent refl refl (omega arith)

pub one_live : slot one 1 ≡ live (new_tox table) no_events
unfolding make_instance is_valid is_free
one_live = refl

with_instance-unreached_example :
    with_instance {A = ℕ} 0 2 (on_session (λ s. ok (5, s))) one
    ≡ ok (
      0,
      record one {
        thrown = tox_killed 2 (text "Tox function invoked on invalid tox instance") ∷ [];
      },
    )
unfolding is_valid
with_instance-unreached_example =
    with_instance-unreached 0 2 (on_session (λ s. ok (5, s))) one
      (tox_killed 2 (text "Tox function invoked on invalid tox instance")) one-IsConsistent refl

with_instance_reaches_example :
    Returns
      (with_instance {A = ℕ} 0 1 (on_session (λ s. ok (5, s))) one)
      (λ a t. ReachedSpec {A = ℕ} 1 0 (value 5) (new_tox table) no_events one a t)
unfolding on_session
with_instance_reaches_example =
    with_instance_reaches 0 1 (on_session (λ s. ok (5, s))) one (new_tox table) (new_tox table)
      no_events no_events (value 5) one-IsConsistent one_live refl

method_reports_example :
    (r : Result ℕ) × ReportSpec {A = ℕ} {B = ℕ} "core" "SendMessage" ToxErrSendMessage.ok
      handle_send_message_error same ToxErrSendMessage.ok 17 r
    × Returns
        (with_instance 0 1
          (with_error_handling "SendMessage" handle_send_message_error number_of_send_message same
            (new_tox_send_message api 1 (some (104 ∷ [])) 1))
          one)
        (λ b u. ReachedSpec 1 0 r (new_tox table) no_events one b u)
unfolding new_tox_send_message
method_reports_example =
    method_reports "SendMessage" ToxErrSendMessage.ok handle_send_message_error
      number_of_send_message same 0 1 (new_tox_send_message api 1 (some (104 ∷ [])) 1) one
      (new_tox table) no_events 17 ToxErrSendMessage.ok (session table)
      handle_send_message_error-IsFaithful one-IsConsistent one_live refl

tox_iteration_lem_example :
    Returns
      (tox_iteration api (λ v. 1 ∷ []) garbage 1 one)
      (λ b u. ReachedSpec 1 none (value (some (1 ∷ []))) after_iteration.new_tox no_events one b u)
unfolding new_tox_iteration handle lookup new_file_number insert
tox_iteration_lem_example =
    tox_iteration_lem api (λ v. 1 ∷ []) garbage 1 one (new_tox table) no_events after_iteration
      one-IsConsistent one_live refl

-- A proxy at port 3128.
tox_new_lem_example : Returns (tox_new api true true none true true 1 (some (104 ∷ [])) 3128 one) (
    NewSpec
      (new_tox_new {U = CoreEvents} api true
        (some (options_of true true 1 (some (104 ∷ [])) 3128))
        none
        0)
      one)
tox_new_lem_example =
    tox_new_lem api true none true true 1 (some (104 ∷ [])) 3128 one one-IsConsistent (omega arith)
      (omega arith) (omega arith)
