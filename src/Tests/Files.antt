-- ===== src/Tests/Files.antt =====
-- The theorems on file transfers, on a table with one transfer.
mod Moves
use tox4j.Base.{true, false, none, List, [], ◌∷◌, ◌≡◌, ◌≢◌, ◌↔◌, ◌⊎◌, refl, arith}
use tox4j.Base.Effect.{Outcome, ok, fault, assertion_failed}
use tox4j.Base.StdMap.{lookup, insert, pair_key}
use tox4j.Base.StdMap.All.{All}
use tox4j.Core.Enums.{Bytes}
use tox4j.Core.Api.{OldFileControl}
use tox4j.Core.State.{Session, Transfers, new_file_number}
use tox4j.Core.Handlers.{file_control, handle}
use tox4j.Core.Handlers.Controls.{file_control_aborts}
use tox4j.Core.Iteration.{wants_chunk, new_tox_iteration}
use tox4j.Core.Iteration.Requests.{due}
use tox4j.Core.Iteration.Settled.{iteration_settles}
use tox4j.Jni.Events.{CoreEvents}
use tox4j.Tests.{api, garbage, ten_bytes, new_tox, session}

-- The transfer to friend 1 with the number 0.
abbrev pub table : Transfers
table = ((1, 0), ten_bytes) ∷ []

-- The state and the result of a call.
abbrev pub state_after :
    {A : Type 0} → Outcome (A × Session Bytes CoreEvents) → Session Bytes CoreEvents
state_after (ok (a, s)) = s
state_after (fault x) = session []

abbrev pub result_of : {A : Type 0} → A → Outcome (A × Session Bytes CoreEvents) → A
result_of a (ok (b, s)) = b
result_of a (fault x) = a

file_control_aborts_example :
    (file_control 1 true 0 OldFileControl.pause (session table) ≡ fault assertion_failed) ↔ (
      (lookup (1, 0) table ≡ none)
      ⊎ ((OldFileControl.pause ≢ OldFileControl.accept)
          × (OldFileControl.pause ≢ OldFileControl.finished)))
unfolding new_file_number
file_control_aborts_example =
    file_control_aborts 1 true 0 OldFileControl.pause (session table) (λ e. ground arith)
      (λ e. ground arith)

abbrev pub after_iteration : Session Bytes CoreEvents
unfolding new_tox_iteration
after_iteration = state_after (new_tox_iteration api garbage (session table))

iteration_settles_example :
    All (λ e. wants_chunk e ≡ false) after_iteration.new_tox.transfers
    × ((x : Bytes) → due api x after_iteration.new_tox.transfers ≡ [])
unfolding after_iteration handle lookup new_file_number insert
iteration_settles_example = iteration_settles api garbage (session table) after_iteration refl

-- The friend's file 3 is received; its number is 0x103.
abbrev incoming : Transfers
incoming = ((1, 0x103), ten_bytes) ∷ []

abbrev chunks : List Bytes
chunks = (1 ∷ 2 ∷ []) ∷ (3 ∷ []) ∷ []
