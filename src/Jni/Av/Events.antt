-- ===== src/Jni/Av/Events.antt =====
-- protobuf/Av.proto: the events that an A/V iteration hands to Java.
--
-- An int32 is its bit pattern, and an optional field an Option.
use tox4j.Base.{ℕ, Bool, Option, List, []}
use tox4j.Core.Enums.{Bytes}

pub record Call : Type 0 where
  pub friend_number : ℕ
  pub audio_enabled : Bool
  pub video_enabled : Bool

pub data CallStateKind : Type 0 where
  ringing sending_none sending_a sending_v sending_av paused end error : CallStateKind

pub record CallStateChange : Type 0 where
  pub friend_number : ℕ
  pub state : CallStateKind

pub record RequestAudioFrame : Type 0 where
  pub friend_number : ℕ

pub record RequestVideoFrame : Type 0 where
  pub friend_number : ℕ

pub record ReceiveAudioFrame : Type 0 where
  pub friend_number : ℕ
  pub pcm : List ℕ
  pub channels : ℕ
  pub sampling_rate : ℕ

pub record ReceiveVideoFrame : Type 0 where
  pub friend_number : ℕ
  pub width : ℕ
  pub height : ℕ
  pub y : Bytes
  pub u : Bytes
  pub v : Bytes
  pub a : Option Bytes

pub record AvEvents : Type 0 where
  pub call : List Call
  pub call_state : List CallStateChange
  pub request_audio_frame : List RequestAudioFrame
  pub request_video_frame : List RequestVideoFrame
  pub receive_audio_frame : List ReceiveAudioFrame
  pub receive_video_frame : List ReceiveVideoFrame

-- A new object, and what Clear leaves.
unfoldable pub no_av_events : AvEvents
no_av_events = record {
  call = [];
  call_state = [];
  request_audio_frame = [];
  request_video_frame = [];
  receive_audio_frame = [];
  receive_video_frame = [];
}
