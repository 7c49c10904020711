-- ===== src/Tests/Delivery.antt =====
-- A file of three bytes on its way to a friend, in a toxcore that is the bytes that it was given.
use tox4j.Base.{[], ◌∷◌, ◌++◌, refl, arith, take}
use tox4j.Base.Effect.{Returns}
use tox4j.Base.StdMap.{lookup, pair_key}
use tox4j.Core.Enums.{Bytes}
use tox4j.Core.Api.{ToxApi, CoreCall, Activity}
use tox4j.Core.Files.Delivery.{Steady}
use tox4j.Core.Files.Delivery.Offered.{IsComplete, send_file, file_sent}
use tox4j.Jni.Events.Registered.{all_callbacks-IsRegistered}
use tox4j.Tests.{api, garbage, session}

abbrev pub sending_api : ToxApi Bytes
sending_api = record api {
  tox_do = λ t. Activity.calls t (CoreCall.friend_message 1 [] 0) (λ u. Activity.returns u);
  tox_new_file_sender = λ t f n name k. (0, []);
  tox_file_send_data = λ t f n b k. (0, t ++ take k b);
}

abbrev Alive : Bytes → Type 0
Alive t = Unit {0}

steady : Steady sending_api 1 0 (λ t. t) Alive
steady = record {
  limit = 4;
  some_data = omega arith;
  no_files = λ t g. (refl, (tt, refl));
  exists = λ t g. refl;
  online = λ t g. refl;
  data_size = λ t g. refl;
  takes = λ t b n g. (ground arith, tt, refl);
  finishes = λ t g. (refl, tt, refl);
}

abbrev content : Bytes
content = 7 ∷ 8 ∷ 9 ∷ []

file_sent_example :
    Returns
      (send_file sending_api garbage 1 content 0 (97 ∷ []) 1 (session []))
      (λ _ t. IsComplete sending_api garbage 1 content 0 (λ t. t) t)
unfolding lookup
file_sent_example =
    file_sent sending_api garbage 1 content 0 (97 ∷ []) 1 0 [] (session []) (λ t. t) Alive
      (omega arith) (omega arith) refl refl refl (omega arith) refl all_callbacks-IsRegistered
      (omega arith) steady tt refl
