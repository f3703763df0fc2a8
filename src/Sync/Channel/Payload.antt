-- ===== src/Sync/Channel/Payload.antt =====
-- `channel_payload_is_send` of src/sync_primitives.rs: which values may go through a channel. A scalar
-- stands for its variant; the entries of a map are its keys and values in turn.
use mux_runtime.Common.{Bool, true, false, ◌&&◌, Option, none, some, Result, ok, err}
use mux_runtime.Sync.Handles.{SyncError, value_null, not_sendable}

mutual
  pub data Payload : Type 0 where
    scalar : Payload
    list : Payloads → Payload
    map : Payloads → Payload
    set : Payloads → Payload
    tuple : Payload → Payload → Payload
    absent : Payload
    present : Payload → Payload
    success : Payload → Payload
    failure : Payload → Payload
    -- an object, with the answer of `process::is_sendable_output`
    object : Bool → Payload
    opaque : Payload
    boxed_enum : Payload

  pub data Payloads : Type 0 where
    nil : Payloads
    cons : Payload → Payloads → Payloads

unfoldable mutual
  pub channel_payload_is_send : Payload → Bool
  channel_payload_is_send scalar = true
  channel_payload_is_send (list vs) = all_send vs
  channel_payload_is_send (map vs) = all_send vs
  channel_payload_is_send (set vs) = all_send vs
  channel_payload_is_send (tuple a b) = channel_payload_is_send a && channel_payload_is_send b
  channel_payload_is_send absent = true
  channel_payload_is_send (present v) = channel_payload_is_send v
  channel_payload_is_send (success v) = channel_payload_is_send v
  channel_payload_is_send (failure v) = channel_payload_is_send v
  channel_payload_is_send (object sendable) = sendable
  channel_payload_is_send opaque = false
  channel_payload_is_send boxed_enum = false

  pub all_send : Payloads → Bool
  all_send nil = true
  all_send (cons v vs) = channel_payload_is_send v && all_send vs

-- `channel_value`: `none` is the null pointer
unfoldable pub channel_value : Option Payload → Result SyncError Payload
unfolding channel_payload_is_send
channel_value none = err value_null
channel_value (some v) = elim (channel_payload_is_send v) [ true ↦ ok v | false ↦ err not_sendable ]
