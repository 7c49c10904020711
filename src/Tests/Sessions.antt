-- ===== src/Tests/Sessions.antt =====
-- The theorems on sessions and their native methods, with the small toxcore and toxav.
use tox4j.Base.{inr, none, true, ℕ, List, some, [], ◌∷◌, ◌≡◌, refl, arith, false}
use tox4j.Base.StdMap.{lookup, insert, nat_key}
use tox4j.Base.Effect.{ok, fault, wild_call}
use tox4j.Av.State.{AvSession}
use tox4j.Av.Handlers.{on_audio}
use tox4j.Core.Enums.{Bytes}
use tox4j.Jni.Instances.History.{no_instances, no_instances-IsConsistent}
use tox4j.Av.Creation.{Toxes, no_av_callbacks, make_new_toxav, new_toxav_new, new_toxav_kill}
use tox4j.Av.Creation.Exclusive.{
  Sessions, SessionRequest, opens, closes, ends, session_step, session_run, sessions_of,
  sessions_counted,
}
use tox4j.Av.Creation.Orphans.{IsCareful, careful_returns, orphan_faults}
use tox4j.Jni.Events.{CoreEvents, no_events}
use tox4j.Jni.Methods.Served.Requests.{send_message}
use tox4j.Jni.Methods.Served.Histories.{CoreRequest, creates, kills, iterates, calls}
use tox4j.Jni.Av.Events.{AvEvents, no_av_events}
use tox4j.Jni.Av.Creation.{Tables, tox_av_new}
use tox4j.Jni.Av.Creation.Opened.{OpenSpec, opened, tox_av_new_lem}
use tox4j.Jni.Av.Received.{AudioSpec, on_audio_decides}
use tox4j.Tests.Methods.{one, one-IsConsistent, one_live}
use tox4j.Tests.Files.{table}
use tox4j.Tests.{api, garbage, new_tox}
use tox4j.Tests.Calls.{av_api, answered}

-- An instance is made, hears what toxcore has, sends a message, and is closed.
abbrev lived : List CoreRequest
lived =
    creates true none true true 0 none 0
    ∷ iterates garbage 1
    ∷ calls 1 (send_message 1 (some (104 ∷ [])))
    ∷ kills 1
    ∷ []

-- Two Toxes; the first gets a session, is refused a second one, and gets another after the end of its
-- first.
abbrev two_toxes : Toxes Bytes CoreEvents
two_toxes = (3, new_tox []) ∷ (5, new_tox []) ∷ []

abbrev with_session : Sessions Bytes CoreEvents ℕ ℕ
with_session = record {
  toxes = (3, record (new_tox []) { has_av = true }) ∷ (5, new_tox []) ∷ [];
  sessions =
      record {
        av = 0;
        tox = 3;
        call_to_friend = [];
        friend_to_call = [];
        callbacks = no_av_callbacks;
      }
      ∷ [];
}

abbrev story : List SessionRequest
story = opens 3 ∷ opens 3 ∷ closes 0 ∷ opens 3 ∷ []

run_story :
    session_run api av_api story (record { toxes = two_toxes; sessions = [] }) ≡ ok with_session
unfolding session_run session_step new_toxav_new new_toxav_kill lookup insert make_new_toxav
run_story = refl

sessions_counted_example : sessions_of 3 with_session.sessions ≡ 1
unfolding lookup sessions_of
sessions_counted_example =
    sessions_counted api av_api story two_toxes with_session ((refl, tt), (tt, tt))
      (refl, (refl, tt)) run_story 3 (record (new_tox []) { has_av = true }) refl

-- The first Tox gets a session, the session is ended, and then the Tox.
abbrev tidy : List SessionRequest
tidy = opens 3 ∷ closes 0 ∷ ends 3 ∷ []

tidy-IsCareful :
    IsCareful {Av = ℕ} {V = ℕ} api av_api tidy (record { toxes = two_toxes; sessions = [] })
unfolding session_step new_toxav_new new_toxav_kill lookup insert make_new_toxav sessions_of
tidy-IsCareful = (
  (λ e. ground arith),
  (λ t e. (tt, (λ u d. (((λ l. ground arith), ground arith), (λ v c. tt))))),
)

careful_returns_example :
    (t : Sessions Bytes CoreEvents ℕ ℕ) × (session_run api av_api tidy
        (record { toxes = two_toxes; sessions = [] })
      ≡ ok t)
careful_returns_example =
    careful_returns api av_api tidy two_toxes ((refl, tt), (tt, tt)) tidy-IsCareful

orphan_faults_example :
    session_run {V = ℕ} api av_api (ends 3 ∷ closes 0 ∷ []) with_session ≡ fault wild_call
unfolding lookup make_new_toxav
orphan_faults_example =
    orphan_faults api av_api 0 (make_new_toxav 0 3) (record (new_tox []) { has_av = true })
      with_session ((refl, tt), (tt, tt)) refl refl

abbrev tables : Tables Bytes ℕ
tables = record { core = one; av = no_instances }

tox_av_new_lem_example :
    OpenSpec 3 1 (new_tox table) no_events tables false (some 0) (tox_av_new api av_api 3 1 tables)
tox_av_new_lem_example =
    tox_av_new_lem api av_api 3 1 tables (new_tox table) no_events one-IsConsistent
      no_instances-IsConsistent (omega arith) one_live

-- A call with the friend 1, of which toxav tells a frame.
abbrev in_call : AvSession ℕ AvEvents
unfolding no_av_events
in_call = record {
  new_toxav = record (opened 0 3) {
    call_to_friend = (7, 1) ∷ [];
    friend_to_call = (1, answered) ∷ [];
  };
  user_data = no_av_events;
}

on_audio_decides_example :
    AudioSpec av_api 7 (λ i. i) in_call (on_audio av_api 7 (λ i. i) 480 in_call)
unfolding in_call lookup
on_audio_decides_example =
    on_audio_decides av_api 7 480 (λ i. i) in_call (inr refl) (λ f call k. ground arith)
