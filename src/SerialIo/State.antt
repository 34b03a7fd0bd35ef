-- ===== src/SerialIo/State.antt =====
-- src/win32/native_serial_io_state.h and .cpp: the owner of the port and the last snapshot of the
-- write queue, and what they allow.
use serial_value_matcher_nat.Base.{Bool, true, false, not, ◌&&◌, Option, some, if◌then◌else◌}
use serial_value_matcher_nat.Transport.WriteQueue.State.{
  SerialWriteQueueSnapshot, snapshot_empty, snapshot_full, snapshot,
}

pub data NativeSerialIoOwner : Type 0 where
  none manual_send file_send modbus_scan : NativeSerialIoOwner

abbrev pub eq_owner : NativeSerialIoOwner → NativeSerialIoOwner → Bool
eq_owner NativeSerialIoOwner.none NativeSerialIoOwner.none = true
eq_owner NativeSerialIoOwner.manual_send NativeSerialIoOwner.manual_send = true
eq_owner NativeSerialIoOwner.file_send NativeSerialIoOwner.file_send = true
eq_owner NativeSerialIoOwner.modbus_scan NativeSerialIoOwner.modbus_scan = true
eq_owner _ _ = false

pub record NativeSerialIoState : Type 0 where
  pub owner : NativeSerialIoOwner
  pub write_queue_snapshot : Option SerialWriteQueueSnapshot

abbrev pub new_io_state : NativeSerialIoState
new_io_state = record { owner = NativeSerialIoOwner.none; write_queue_snapshot = Option.none }

abbrev pub is_idle : NativeSerialIoState → Bool
is_idle s = eq_owner s.owner NativeSerialIoOwner.none

abbrev pub is_busy : NativeSerialIoState → Bool
is_busy s = not (is_idle s)

abbrev pub is_owned_by : NativeSerialIoState → NativeSerialIoOwner → Bool
is_owned_by s owner = eq_owner s.owner owner

abbrev pub has_pending_serial_writes : NativeSerialIoState → Bool
has_pending_serial_writes s = elim s.write_queue_snapshot [
  | Option.none ↦ false
  | some snapshot ↦ not (snapshot_empty snapshot)
]

abbrev pub serial_write_queue_has_backpressure : NativeSerialIoState → Bool
serial_write_queue_has_backpressure s = elim s.write_queue_snapshot [
  | Option.none ↦ false
  | some snapshot ↦ snapshot_full snapshot
]

abbrev pub allows_manual_send : NativeSerialIoState → Bool
allows_manual_send s = is_idle s && not (serial_write_queue_has_backpressure s)

abbrev pub allows_file_send : NativeSerialIoState → Bool
allows_file_send s = is_idle s && not (has_pending_serial_writes s)

abbrev pub allows_modbus_scan : NativeSerialIoState → Bool
allows_modbus_scan s = is_idle s && not (has_pending_serial_writes s)

unfoldable pub allows_owner : NativeSerialIoOwner → NativeSerialIoState → Bool
allows_owner NativeSerialIoOwner.manual_send s = allows_manual_send s
allows_owner NativeSerialIoOwner.file_send s = allows_file_send s
allows_owner NativeSerialIoOwner.modbus_scan s = allows_modbus_scan s
allows_owner NativeSerialIoOwner.none s = false

unfoldable pub can_acquire : NativeSerialIoState → NativeSerialIoOwner → Bool
unfolding allows_owner
can_acquire s owner = allows_owner owner s

unfoldable pub try_acquire : NativeSerialIoState → NativeSerialIoOwner → Bool × NativeSerialIoState
try_acquire s owner =
    if not (can_acquire s owner) then (false, s) else (true, record s { owner = owner })

unfoldable pub release : NativeSerialIoState → NativeSerialIoOwner → Bool × NativeSerialIoState
release s owner =
    if not (eq_owner s.owner owner)
    then (false, s)
    else (true, record s { owner = NativeSerialIoOwner.none })

unfoldable pub force_release : NativeSerialIoState → NativeSerialIoState
force_release s = record s { owner = NativeSerialIoOwner.none }

unfoldable pub update_write_queue_snapshot :
    NativeSerialIoState → SerialWriteQueueSnapshot → NativeSerialIoState
update_write_queue_snapshot s snapshot = record s { write_queue_snapshot = some snapshot }

unfoldable pub allows_serial_poll : NativeSerialIoState → Bool
allows_serial_poll s =
    not (eq_owner s.owner NativeSerialIoOwner.modbus_scan)
    && not (eq_owner s.owner NativeSerialIoOwner.manual_send)

unfoldable pub allows_line_control : NativeSerialIoState → Bool
allows_line_control s = is_idle s && not (has_pending_serial_writes s)

unfoldable pub should_defer_disconnect : NativeSerialIoState → Bool
should_defer_disconnect s = eq_owner s.owner NativeSerialIoOwner.modbus_scan
