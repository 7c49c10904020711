-- ===== src/Tests/Files/Moves.antt =====
-- The theorems on the client's file operations, and on sequences of them.
use tox4j.Base.{Bool, true, false, some, List, [], ◌∷◌, ◌++◌, ◌≡◌, ◌≢◌, ◌↔◌, inr, refl, arith}
use tox4j.Base.Effect.{Outcome, ok, fault, Returns}
use tox4j.Base.StdMap.{lookup, insert, pair_key}
use tox4j.Core.Enums.{
  Bytes, ToxErrFileControl, ToxErrFileSend, ToxErrFileSendChunk, tox_file_control_pause,
}
use tox4j.Core.State.{FileTransfer, Session, new_file_number}
use tox4j.Core.Handlers.{handle}
use tox4j.Core.Iteration.{new_tox_iteration}
use tox4j.Core.Handlers.Receive.{receive, concat, append_at, receive_assembles}
use tox4j.Core.Files.{new_tox_file_control, new_tox_file_send, new_tox_file_send_chunk}
use tox4j.Core.Files.Control.{Admits, file_control_keeps_table, file_control_admitted}
use tox4j.Core.Files.Offers.{SendReason, Entered, file_send_decides}
use tox4j.Core.Files.Chunk.{advance, Reason, file_send_chunk_decides}
use tox4j.Core.Transfers.{IsSoundEntry}
use tox4j.Core.Transfers.Histories.{Call, iterates, controls, sends, sends_chunk, run, run_sound}
use tox4j.Core.Lifecycle.{no_callbacks}
use tox4j.Jni.Events.{CoreEvents}
use tox4j.Tests.{api, garbage, ten_bytes, session}
use tox4j.Tests.Files.{table, state_after, result_of}

abbrev left_by : Outcome (Session Bytes CoreEvents) → Session Bytes CoreEvents
left_by (ok s) = s
left_by (fault x) = session []

-- A file of four bytes is sent, the friend accepts it, and it is sent in one chunk.
abbrev story : List Call
story =
    sends 1 0 4 (some (120 ∷ [])) 1
    ∷ iterates
    ∷ controls 1 0 tox_file_control_pause
    ∷ sends_chunk 1 0 (some (1 ∷ 2 ∷ 3 ∷ 4 ∷ [])) 4
    ∷ iterates
    ∷ []

abbrev story_end : Session Bytes CoreEvents
story_end = left_by (run api garbage story (session []))

story_runs : run api garbage story (session []) ≡ ok story_end
unfolding run new_tox_file_send lookup new_tox_iteration handle insert new_file_number
    new_tox_file_control new_tox_file_send_chunk
story_runs = refl

run_sound_example : IsSoundEntry garbage (lookup (1, 0) story_end.new_tox.transfers)
run_sound_example = run_sound api garbage story (session []) story_end (1, 0) refl story_runs

-- PAUSE of a running transfer.
abbrev control_end : Session Bytes CoreEvents
control_end = state_after (new_tox_file_control api 1 0 tox_file_control_pause (session table))

abbrev control_result : Bool × ToxErrFileControl
control_result =
    result_of (false, ToxErrFileControl.ok)
      (new_tox_file_control api 1 0 tox_file_control_pause (session table))

file_control_keeps_table_example :
    (control_end.new_tox.transfers ≡ table)
    × (control_end.new_tox.connected ≡ false)
    × (control_end.user_data ≡ (session table).user_data)
    × ((control_result.0 ≡ true) ↔ (control_result.1 ≡ ToxErrFileControl.ok))
    × (control_result.0 ≡ false → control_end ≡ session table)
unfolding new_tox_file_control lookup
file_control_keeps_table_example =
    file_control_keeps_table api 1 0 tox_file_control_pause (session table) control_end
      control_result refl

file_control_admitted_example :
    (control_result.1 ≡ ToxErrFileControl.ok) ↔ Admits tox_file_control_pause ten_bytes
unfolding new_tox_file_control lookup
file_control_admitted_example =
    file_control_admitted api 1 0 tox_file_control_pause (session table) control_end control_result
      ten_bytes refl refl refl refl

file_send_decides_example :
    Returns (new_tox_file_send api garbage 1 0 9 (some (120 ∷ [])) 1 (session [])) (λ r t.
      SendReason api 1 0 (some (120 ∷ [])) 1 0 (session []) r.1
      × (r.1 ≢ ToxErrFileSend.ok → (r.0 ≡ 0) × (t.new_tox.transfers ≡ []))
      × (r.1 ≡ ToxErrFileSend.ok → (r.0 ≡ 0) × Entered (1, 0) 9 [] t.new_tox.transfers))
unfolding lookup
file_send_decides_example =
    file_send_decides api garbage 1 0 9 (some (120 ∷ [])) 1 0 (session []) refl (λ e. ground arith)
      (inr (omega arith, refl))

abbrev three : Bytes
three = 1 ∷ 2 ∷ 3 ∷ []

file_send_chunk_decides_example :
    Returns (new_tox_file_send_chunk api 1 0 (some three) 3 (session table)) (λ r t.
      Reason api 1 0 (some three) 3 (session table) r.1
      × ((r.0 ≡ true) ↔ (r.1 ≡ ToxErrFileSendChunk.ok))
      × (r.1 ≢ ToxErrFileSendChunk.ok → t ≡ session table)
      × ((transfer : FileTransfer)
          → r.1 ≡ ToxErrFileSendChunk.ok
          → lookup (1, 0) table ≡ some transfer
          → t.new_tox.transfers ≡ insert (1, 0) (advance 3 transfer) table))
file_send_chunk_decides_example =
    file_send_chunk_decides api 1 0 (some three) 3 (session table) (omega arith) (λ e. ground arith)
      (λ t n b. ground arith) (λ t n. refl)

-- A client whose file holds the two bytes that have come.
abbrev collecting : Session Bytes Bytes
collecting = record {
  new_tox = record {
    tox = 120 ∷ [];
    connected = false;
    has_av = false;
    transfers = ((1, 0x103), ten_bytes) ∷ [];
    callbacks = record (no_callbacks) { file_receive_chunk = some (λ _ _. append_at) };
  };
  user_data = 8 ∷ 9 ∷ [];
}

receive_assembles_example :
    Returns
      (receive api 1 3 (three ∷ three ∷ []) collecting)
      (λ _ t. t.user_data ≡ (8 ∷ 9 ∷ []) ++ concat (three ∷ three ∷ []))
unfolding lookup
receive_assembles_example =
    receive_assembles api 1 3 (three ∷ three ∷ []) collecting ten_bytes (refl, refl, refl)
      (λ t. refl) refl (omega arith)
