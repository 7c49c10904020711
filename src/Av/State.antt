-- ===== src/Av/State.antt =====
-- tox/av.cpp: av_call, new_ToxAV and its two maps, with the old toxav as a parameter.
--
-- The object that all client callbacks get as user_data stands beside the new_ToxAV. The maps are
-- only looked up and walked by friend, so an int32_t key is its bit pattern.
use tox4j.Base.{ℕ, Bool, false, Option, none, some, List}
use tox4j.Base.Effect.{M, ok, fault, wild_call, assert_some}
use tox4j.Base.StdMap.{StdMap, lookup, insert, nat_key}
use tox4j.Core.Enums.{Bytes}

-- TOXAV_CALL_STATE.
pub data CallState : Type 0 where
  ringing sending_none sending_a sending_v sending_av paused end error : CallState

-- ToxAvCSettings. The call type is the integer that the code switches on.
pub record Settings : Type 0 where
  pub call_type : ℕ
  pub video_bitrate : ℕ
  pub max_video_width : ℕ
  pub max_video_height : ℕ
  pub audio_bitrate : ℕ
  pub audio_frame_duration : ℕ
  pub audio_sample_rate : ℕ
  pub audio_channels : ℕ

-- `ToxAvCSettings ()`.
abbrev pub zero_settings : Settings
zero_settings = record {
  call_type = 0;
  video_bitrate = 0;
  max_video_width = 0;
  max_video_height = 0;
  audio_bitrate = 0;
  audio_frame_duration = 0;
  audio_sample_rate = 0;
  audio_channels = 0;
}

pub record AvCall : Type 0 where
  pub index : ℕ  -- int32_t
  pub settings : Settings
  pub state : CallState
  pub audio_event_pending : Bool
  pub video_event_pending : Bool

-- The constructor from a call index.
unfoldable pub av_call : ℕ → AvCall
av_call call_index = record {
  index = call_index;
  settings = zero_settings;
  state = CallState.end;
  audio_event_pending = false;
  video_event_pending = false;
}

pub record AvCallbacks (U : Type 0) : Type 0 where
  pub call : Option (ℕ → Bool → Bool → U → U)
  pub call_state : Option (ℕ → CallState → U → U)
  pub request_audio_frame : Option (ℕ → U → U)
  pub request_video_frame : Option (ℕ → U → U)
  pub receive_audio_frame : Option (ℕ → (ℕ → ℕ) → ℕ → ℕ → ℕ → U → U)
  pub receive_video_frame : Option (ℕ → ℕ → ℕ → Bytes → Bytes → Bytes → Option Bytes → U → U)

abbrev pub Calls : Type 0
Calls = StdMap ℕ AvCall

-- `std::map::insert`, which leaves an entry that is there.
unfoldable pub insert_new : ℕ → AvCall → Calls → Calls
insert_new friend_number call known = elim (lookup friend_number known) [
  | none ↦ insert friend_number call known
  | some _ ↦ known
]

-- The pointer `tox` is the address of a new_Tox.
pub record NewToxAv (Av U : Type 0) : Type 0 where
  pub av : Av
  pub tox : ℕ
  pub call_to_friend : StdMap ℕ ℕ
  pub friend_to_call : Calls
  pub callbacks : AvCallbacks U

pub record AvSession (Av U : Type 0) : Type 0 where
  pub new_toxav : NewToxAv Av U
  pub user_data : U

-- The calls that toxav makes inside `toxav_do`. A pointer to samples is what the memory holds from
-- there on; the number of samples comes with it.
pub data AvEvent : Type 0 where
  invite ringing start cancel reject end request_timeout peer_timeout peer_cs_change
        self_cs_change :
      AvEvent

pub data AvCallIn : Type 0 where
  call_state : AvEvent → ℕ → AvCallIn
  audio : ℕ → (ℕ → ℕ) → ℕ → AvCallIn
  video : ℕ → AvCallIn

pub data AvActivity (Av : Type 0) : Type 0 where
  returns : Av → AvActivity Av
  calls : Av → AvCallIn → (Av → AvActivity Av) → AvActivity Av

-- The functions and constants of the old toxav that the code uses.
pub record AvApi (Tox Av : Type 0) : Type 0 where
  pub toxav_new : Tox → ℕ → Option Av
  pub toxav_get_peer_id : Av → ℕ → ℕ → ℕ
  pub toxav_prepare_transmission : Av → ℕ → ℕ → Av
  pub toxav_get_peer_csettings : Av → ℕ → Settings
  pub toxav_do_interval : Av → ℕ
  pub toxav_do : Av → AvActivity Av
  pub toxav_call : Av → ℕ → Settings → ℕ → (ℕ × ℕ) × Av
  pub toxav_answer : Av → ℕ → Settings → ℕ × Av
  pub toxav_prepare_audio_frame : Av → ℕ → ℕ → List ℕ → ℕ → (ℕ × Bytes) × Av
  pub toxav_send_audio : Av → ℕ → Bytes → ℕ → ℕ × Av
  pub av_default_settings : Settings
  pub av_type_audio : ℕ
  pub av_type_video : ℕ

module _ {Av U : Type 0} where
  abbrev pub set_av : Av → AvSession Av U → AvSession Av U
  set_av t s = record s { new_toxav = record (s.new_toxav) { av = t } }

  abbrev pub set_calls : Calls → AvSession Av U → AvSession Av U
  set_calls m s = record s { new_toxav = record (s.new_toxav) { friend_to_call = m } }

  abbrev pub set_maps : StdMap ℕ ℕ → Calls → AvSession Av U → AvSession Av U
  set_maps m n s = record s {
    new_toxav = record (s.new_toxav) { call_to_friend = m; friend_to_call = n };
  }

  abbrev pub av_call_back : Option (U → U) → M (AvSession Av U) (Unit {0})
  av_call_back none s = fault wild_call
  av_call_back (some f) s = ok (tt, record s { user_data = f s.user_data })

  abbrev pub av_callbacks : (AvCallbacks U → Option (U → U)) → M (AvSession Av U) (Unit {0})
  av_callbacks cb s = av_call_back (cb s.new_toxav.callbacks) s

  -- get_call, and a write through the reference that it returns.
  unfoldable pub get_call : ℕ → M (AvSession Av U) AvCall
  get_call friend_number s = assert_some (lookup friend_number s.new_toxav.friend_to_call) s

  abbrev pub put_call : ℕ → AvCall → M (AvSession Av U) (Unit {0})
  put_call friend_number call s =
      ok (tt, set_calls (insert friend_number call s.new_toxav.friend_to_call) s)

  unfoldable pub get_friend_number : ℕ → M (AvSession Av U) ℕ
  get_friend_number call_idx s = assert_some (lookup call_idx s.new_toxav.call_to_friend) s

  abbrev pub read_av : {A : Type 0} → (Av → A) → M (AvSession Av U) A
  read_av f s = ok (f s.new_toxav.av, s)

  abbrev pub call_av : {A : Type 0} → (Av → A × Av) → M (AvSession Av U) A
  call_av f s = let (a, t) = f s.new_toxav.av in ok (a, set_av t s)
