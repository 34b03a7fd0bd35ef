-- ===== src/Window/Reconnect.antt =====
-- src/win32/native_reconnect_state.h and .cpp: the port to open again after its loss. The port's
-- options are those of src/transport/serial_types.h.
use serial_value_matcher_nat.Base.{
  String, Bool, true, false, not, ◌&&◌, Option, none, some, if◌then◌else◌,
}
use serial_value_matcher_nat.Transport.Types.{SerialOpenOptions}

pub record NativeReconnectState : Type 0 where
  pub last_open_options : Option SerialOpenOptions
  pub reconnect_port_name : String
  pub waiting : Bool

abbrev pub clear_waiting : NativeReconnectState → NativeReconnectState
clear_waiting s = record s { reconnect_port_name = ""; waiting = false }

abbrev pub remember_successful_open :
    SerialOpenOptions → NativeReconnectState → NativeReconnectState
remember_successful_open options s = clear_waiting (record s { last_open_options = some options })

abbrev pub start_waiting : String → NativeReconnectState → NativeReconnectState
start_waiting port_name s = record s { reconnect_port_name = port_name; waiting = true }

abbrev pub has_last_open_options : NativeReconnectState → Bool
has_last_open_options s = elim s.last_open_options [ none ↦ false | some options ↦ true ]

unfoldable pub should_try_reconnect : NativeReconnectState → Bool → Bool
should_try_reconnect s serial_open = s.waiting && (has_last_open_options s && not serial_open)

unfoldable pub reconnect_options : NativeReconnectState → Option SerialOpenOptions
reconnect_options s = elim s.last_open_options [
  | none ↦ none
  | some options ↦
      if s.waiting then some (record options { port_name = s.reconnect_port_name }) else none
]

-- `markReconnectFailed` and `markReconnectSucceeded`.
abbrev pub mark_reconnect_ended : NativeReconnectState → NativeReconnectState
mark_reconnect_ended s = record s { waiting = false }

unfoldable pub update_data_terminal_ready :
    Bool → NativeReconnectState → Bool × NativeReconnectState
update_data_terminal_ready enabled s = elim s.last_open_options [
  | none ↦ (false, s)
  | some options ↦ (
    true,
    record s { last_open_options = some (record options { data_terminal_ready = enabled }) },
  )
]

unfoldable pub update_request_to_send : Bool → NativeReconnectState → Bool × NativeReconnectState
update_request_to_send enabled s = elim s.last_open_options [
  | none ↦ (false, s)
  | some options ↦
      (true, record s { last_open_options = some (record options { request_to_send = enabled }) })
]
