-- ===== src/Av/Enums.antt =====
-- tox/av.h: the enumerations of the error codes.
--
-- A control of a call comes from a cast of an integer and stays that integer.

pub data ToxAvErrNew : Type 0 where
  ok null malloc multiple : ToxAvErrNew

pub data ToxAvErrCall : Type 0 where
  ok malloc friend_not_found friend_not_connected friend_already_in_call invalid_bit_rate :
      ToxAvErrCall

pub data ToxAvErrAnswer : Type 0 where
  ok malloc friend_not_found friend_not_calling invalid_bit_rate : ToxAvErrAnswer

pub data ToxAvErrCallControl : Type 0 where
  ok friend_not_found friend_not_in_call not_paused denied already_paused : ToxAvErrCallControl

pub data ToxAvErrBitRate : Type 0 where
  ok invalid : ToxAvErrBitRate

pub data ToxAvErrSendFrame : Type 0 where
  ok null friend_not_found friend_not_in_call not_requested invalid : ToxAvErrSendFrame
