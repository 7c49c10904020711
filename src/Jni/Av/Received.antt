-- ===== src/Jni/Av/Received.antt =====
-- The samples of an audio frame: from toxav's callback (tox/av.cpp) to the event (ToxAv/lifecycle.cpp).
use tox4j.Base.{
  ℕ, zero, suc, ◌+◌, ◌*◌, ◌/◌, ◌<◌, ◌≤◌, none, some, [], ◌∷◌, ◌++◌, ◌≡◌, ◌↔◌, ◌⊎◌, inl, inr, refl,
  arith, u8, u32, length, ltb, get_elem?, if◌then◌else◌, Option-cases,
}
use tox4j.Base.StdMap.{lookup, nat_key}
use tox4j.Base.Effect.{Outcome, ok, fault, assertion_failed, wild_call}
use tox4j.Av.State.{AvCall, AvSession, AvApi, get_call, get_friend_number}
use tox4j.Av.Handlers.{on_audio}
use tox4j.Jni.Av.Events.{AvEvents, ReceiveAudioFrame}
use tox4j.Jni.Av.Callbacks.{widened, add_pcm, tox4j_receive_audio_frame_cb}

length-add_pcm : (pcm : ℕ → ℕ) (i n : ℕ) → length (add_pcm pcm i n) ≡ n
unfolding add_pcm
length-add_pcm pcm i zero = refl
length-add_pcm pcm i (suc n) = omega (arith, length-add_pcm pcm (i + 1) n)

get_elem?-add_pcm :
    (pcm : ℕ → ℕ) (i n k : ℕ)
    → get_elem? (add_pcm pcm i n) k ≡ (if ltb k n then some (widened (pcm (i + k))) else none)
unfolding add_pcm
get_elem?-add_pcm pcm i zero k = ground arith
get_elem?-add_pcm pcm i (suc n) zero = let e : i + 0 ≡ i = omega arith in rw e (ground arith)
get_elem?-add_pcm pcm i (suc n) (suc k) =
    let e : i + suc k ≡ i + 1 + k = omega arith in
    rw e (ground (arith, get_elem?-add_pcm pcm (i + 1) n k))

mul_zero : (n : ℕ) → n * 0 ≡ 0
mul_zero n = omega arith

mul_one : (n : ℕ) → n * 1 ≡ n
mul_one n = omega arith

mul_more : (n c : ℕ) → n * suc (suc c) ≡ n * c + n + n
mul_more n c = omega arith

mul_grows : (a d : ℕ) → a ≤ a * suc d
mul_grows a d = let e : a * suc d ≡ a * d + a = omega arith in omega (arith, e)

-- The product of three settings in two steps of 32 bits.
u32_mul : (a d : ℕ) → a * d < 0x1_0000_0000 → u32 (u32 a * d) ≡ a * d
u32_mul a zero h = ground (arith, mul_zero a, mul_zero (u32 a))
u32_mul a (suc d) h =
    let small : u32 a ≡ a = ground (arith, mul_grows a d) in rw small (ground arith)

-- So many times a number is no more than it.
mul_within : (n c : ℕ) → (n * c ≤ n) ↔ ((n ≡ 0) ⊎ (c ≤ 1))
mul_within n zero = ground (arith, mul_zero n)
mul_within n (suc zero) = ground (arith, mul_one n)
mul_within n (suc (suc c)) = ground (arith, mul_more n c)

module _ {Tox Av : Type 0} (api : AvApi Tox Av) where
  -- A frame of a call, for all its channels together, by the peer's settings: so many channels, and so
  -- many samples per second, for so many milliseconds.
  abbrev pub peer_channels : AvSession Av AvEvents → AvCall → ℕ
  peer_channels s call = (api.toxav_get_peer_csettings s.new_toxav.av call.index).audio_channels

  abbrev pub peer_rate : AvSession Av AvEvents → AvCall → ℕ
  peer_rate s call = (api.toxav_get_peer_csettings s.new_toxav.av call.index).audio_sample_rate

  abbrev pub frame_samples : AvSession Av AvEvents → AvCall → ℕ
  frame_samples s call =
      peer_channels s call * peer_rate s call * call.settings.audio_frame_duration / 1000

  -- The settings fit the types that they are handed on in.
  abbrev pub Fits : AvSession Av AvEvents → AvCall → Type 0
  Fits s call =
      (peer_channels s call < 0x100)
      × (peer_channels s call * peer_rate s call * call.settings.audio_frame_duration
          < 0x1_0000_0000)

  -- The call that the session knows by an index.
  abbrev pub IsCall : ℕ → AvSession Av AvEvents → ℕ → AvCall → Type 0
  IsCall i s f call =
      (lookup i s.new_toxav.call_to_friend ≡ some f)
      × (lookup f s.new_toxav.friend_to_call ≡ some call)

  -- The event of a frame: which samples of the memory it holds, and that these are within the frame only
  -- if it has one channel, or no samples.
  abbrev pub IsFrame : AvSession Av AvEvents → ℕ → AvCall → (ℕ → ℕ) → ReceiveAudioFrame → Type 0
  IsFrame s f call pcm event =
      (event.friend_number ≡ f)
      × (event.channels ≡ peer_channels s call)
      × (event.sampling_rate ≡ peer_rate s call)
      × ((k : ℕ)
          → get_elem? event.pcm k ≡ (
              if ltb k (frame_samples s call * peer_channels s call)
              then some (widened (pcm k))
              else none))
      × ((length event.pcm ≤ frame_samples s call)
          ↔ ((frame_samples s call ≡ 0) ⊎ (peer_channels s call ≤ 1)))

  abbrev pub with_event : AvSession Av AvEvents → ReceiveAudioFrame → AvSession Av AvEvents
  with_event s event = record s {
    user_data = record (s.user_data) {
      receive_audio_frame = s.user_data.receive_audio_frame ++ event ∷ [];
    };
  }

  abbrev pub AudioSpec :
      ℕ → (ℕ → ℕ) → AvSession Av AvEvents → Outcome (Unit {0} × AvSession Av AvEvents) → Type 0
  AudioSpec i pcm s (fault assertion_failed) = (f : ℕ) (call : AvCall) → ¬ IsCall i s f call
  AudioSpec i pcm s (fault wild_call) =
      ((f : ℕ) × (call : AvCall) × IsCall i s f call)
      × (s.new_toxav.callbacks.receive_audio_frame ≡ none)
  AudioSpec i pcm s (ok (u, t)) =
      (f : ℕ) × (call : AvCall) × IsCall i s f call
      × ((event : ReceiveAudioFrame) × IsFrame s f call pcm event × (t ≡ with_event s event))

  abbrev frame_event : AvSession Av AvEvents → ℕ → AvCall → (ℕ → ℕ) → ReceiveAudioFrame
  frame_event s f call pcm = record {
    friend_number = f;
    pcm = add_pcm pcm 0 (frame_samples s call * peer_channels s call);
    channels = peer_channels s call;
    sampling_rate = peer_rate s call;
  }

  frame_event-IsFrame :
      (f : ℕ) (pcm : ℕ → ℕ) (s : AvSession Av AvEvents) (call : AvCall)
      → Fits s call
      → IsFrame s f call pcm (frame_event s f call pcm)
  frame_event-IsFrame f pcm s call b = (
    refl,
    refl,
    refl,
    λ k. ground (arith, get_elem?-add_pcm pcm 0 (frame_samples s call * peer_channels s call) k),
    ground (
      arith,
      length-add_pcm pcm 0 (frame_samples s call * peer_channels s call),
      mul_within (frame_samples s call) (peer_channels s call),
    ),
  )

  on_audio_at :
      (i f size : ℕ) (pcm : ℕ → ℕ) (s : AvSession Av AvEvents) (call : AvCall)
      → s.new_toxav.callbacks.receive_audio_frame ≡ some tox4j_receive_audio_frame_cb
      → IsCall i s f call
      → Fits s call
      → on_audio api i pcm size s ≡ ok (tt, with_event s (frame_event s f call pcm))
  unfolding on_audio get_call get_friend_number tox4j_receive_audio_frame_cb
  on_audio_at i f size pcm s call c k b =
      let small : u8 (peer_channels s call) ≡ peer_channels s call = ground (arith, b.0) in
      let product =
        u32_mul (peer_channels s call * peer_rate s call) call.settings.audio_frame_duration b.1 in
      ground (arith, small, product)

  -- What becomes of a frame that toxav hands over, on every branch, for a session in which the callback for
  -- frames is that of toxAvNew or none, and the settings of a call fit their types. The index has no call
  -- that the session knows: the process ends with a failed assertion. There is one, and no callback: it ends
  -- with the access through the missing one. Otherwise one event for the call's friend comes to the end of
  -- the list, and nothing else changes. The event holds the samples at the memory that toxav told, from the
  -- first one on, as many as a frame has for all channels together, once more times the channels: they are
  -- within the frame exactly if there is one channel or none, or the frame is empty.
  pub on_audio_decides :
      (i size : ℕ) (pcm : ℕ → ℕ) (s : AvSession Av AvEvents)
      → (s.new_toxav.callbacks.receive_audio_frame ≡ none)
        ⊎ (s.new_toxav.callbacks.receive_audio_frame ≡ some tox4j_receive_audio_frame_cb)
      → ((f : ℕ) (call : AvCall) → IsCall i s f call → Fits s call)
      → AudioSpec i pcm s (on_audio api i pcm size s)
  unfolding on_audio get_call get_friend_number
  on_audio_decides i size pcm s c b = elim (Option-cases (lookup i s.new_toxav.call_to_friend)) [
    | inl k ↦
        let o : on_audio api i pcm size s ≡ fault assertion_failed = ground arith in
        rw o (λ f call q. ground arith)
    | inr (f, k) ↦ elim (Option-cases (lookup f s.new_toxav.friend_to_call)) [
      | inl l ↦
          let o : on_audio api i pcm size s ≡ fault assertion_failed = ground arith in
          rw o (λ g call q. ground arith)
      | inr (call, l) ↦ elim c [
        | inl missing ↦
            let o : on_audio api i pcm size s ≡ fault wild_call = ground arith in
            rw o ((f, call, (k, l)), missing)
        | inr e ↦
            let fits = b f call (k, l) in
            rw (on_audio_at i f size pcm s call e (k, l) fits) (
              f,
              call,
              (k, l),
              (frame_event s f call pcm, frame_event-IsFrame f pcm s call fits, refl),
            )
      ]
    ]
  ]
