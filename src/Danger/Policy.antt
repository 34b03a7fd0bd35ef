-- ===== src/Danger/Policy.antt =====
-- src/core/dangerous_operation_policy.h and .cpp: the classification of an operation, what is shown
-- and recorded of it, and the states of its confirmation.
use serial_value_matcher_nat.Base.{
  ℕ, String, Bool, true, false, ◌&&◌, ◌||◌, List, [], ◌==◌, if◌then◌else◌, is_empty, ℤ, ltb_ℤ, eq_ℤ,
  pos, negsuc, empty_text, text_append,
}
use serial_value_matcher_nat.Base.Decimal.{size_text, int_text, bool_text, set_value}

pub data DangerousOperationKind : Type 0 where
  manual_serial_write timed_serial_write file_serial_send : DangerousOperationKind
  command_sequence_write modbus_broadcast_write modbus_register_write : DangerousOperationKind

pub data DangerousOperationConfirmationState : Type 0 where
  not_required required_state confirmed cancelled : DangerousOperationConfirmationState
  prompt_failed : DangerousOperationConfirmationState

pub record DangerousOperationRequest : Type 0 where
  pub kind : DangerousOperationKind
  pub payload_bytes : ℕ
  pub command_count : ℕ
  pub repeat_count : ℤ
  pub slave_id : ℤ
  pub function_code : ℕ
  pub address : ℤ
  pub quantity : ℤ

pub record DangerousOperationPolicyResult : Type 0 where
  pub kind : DangerousOperationKind
  pub requires_confirmation : Bool
  pub reason : String
  pub summary : String
  pub metadata : List (String × String)

pub record DangerousOperationAuditEvent : Type 0 where
  pub kind : DangerousOperationKind
  pub state : DangerousOperationConfirmationState
  pub summary : String
  pub metadata : List (String × String)

abbrev pub dangerous_operation_kind_name : DangerousOperationKind → String
dangerous_operation_kind_name DangerousOperationKind.manual_serial_write = "manual_serial_write"
dangerous_operation_kind_name DangerousOperationKind.timed_serial_write = "timed_serial_write"
dangerous_operation_kind_name DangerousOperationKind.file_serial_send = "file_serial_send"
dangerous_operation_kind_name DangerousOperationKind.command_sequence_write =
    "command_sequence_write"
dangerous_operation_kind_name DangerousOperationKind.modbus_broadcast_write =
    "modbus_broadcast_write"
dangerous_operation_kind_name DangerousOperationKind.modbus_register_write = "modbus_register_write"

abbrev pub dangerous_operation_confirmation_state_name :
    DangerousOperationConfirmationState → String
dangerous_operation_confirmation_state_name DangerousOperationConfirmationState.not_required =
    "not_required"
dangerous_operation_confirmation_state_name DangerousOperationConfirmationState.required_state =
    "required"
dangerous_operation_confirmation_state_name DangerousOperationConfirmationState.confirmed =
    "confirmed"
dangerous_operation_confirmation_state_name DangerousOperationConfirmationState.cancelled =
    "cancelled"
dangerous_operation_confirmation_state_name DangerousOperationConfirmationState.prompt_failed =
    "prompt_failed"

unfoldable pub is_modbus_write_function : ℕ → Bool
is_modbus_write_function function_code =
    function_code == 0x05
    || (function_code == 0x06 || (function_code == 0x0F || function_code == 0x10))

unfoldable pub is_dangerous_register_write_function : ℕ → Bool
is_dangerous_register_write_function function_code = function_code == 0x06 || function_code == 0x10

abbrev pub dangerous_operation_confirmation_satisfied : DangerousOperationConfirmationState → Bool
dangerous_operation_confirmation_satisfied DangerousOperationConfirmationState.not_required = true
dangerous_operation_confirmation_satisfied DangerousOperationConfirmationState.confirmed = true
dangerous_operation_confirmation_satisfied _ = false

unfoldable pub dangerous_operation_confirmation_state_from_dialog_result :
    ℤ → DangerousOperationConfirmationState
dangerous_operation_confirmation_state_from_dialog_result (pos n) =
    if n == 1 || n == 6
    then DangerousOperationConfirmationState.confirmed
    else if n == 2 || n == 7
    then DangerousOperationConfirmationState.cancelled
    else if n == 0
    then DangerousOperationConfirmationState.prompt_failed
    else DangerousOperationConfirmationState.cancelled
dangerous_operation_confirmation_state_from_dialog_result (negsuc n) =
    DangerousOperationConfirmationState.cancelled

-- What the summary says after the operation's name.
unfoldable pub summary_details : DangerousOperationKind → DangerousOperationRequest → String
summary_details DangerousOperationKind.manual_serial_write request = text_append " bytes=" (
    text_append (size_text request.payload_bytes) (
      if ltb_ℤ (pos 1) request.repeat_count
      then text_append " repeat=" (int_text request.repeat_count)
      else ""))
summary_details DangerousOperationKind.timed_serial_write request = text_append " bytes=" (
    text_append (size_text request.payload_bytes) (
      if ltb_ℤ (pos 1) request.repeat_count
      then text_append " repeat=" (int_text request.repeat_count)
      else ""))
summary_details DangerousOperationKind.file_serial_send request =
    text_append " bytes=" (size_text request.payload_bytes)
summary_details DangerousOperationKind.command_sequence_write request = text_append " commands=" (
    text_append (size_text request.command_count)
      (text_append " bytes=" (size_text request.payload_bytes)))
summary_details _ request = text_append " slave=" (
    text_append (int_text request.slave_id) (
      text_append " fc=" (
        text_append (size_text request.function_code) (
          text_append " address=" (
            text_append (int_text request.address)
              (text_append " quantity=" (int_text request.quantity)))))))

unfoldable pub base_summary : DangerousOperationRequest → String
base_summary request =
    text_append (dangerous_operation_kind_name request.kind) (summary_details request.kind request)

unfoldable pub base_metadata : DangerousOperationRequest → List (String × String)
base_metadata request = set_value "is_broadcast_slave" (bool_text (eq_ℤ request.slave_id (pos 0))) (
    set_value "is_modbus_write_function"
      (bool_text (is_modbus_write_function request.function_code))
      (set_value "quantity" (int_text request.quantity) (
        set_value "address" (int_text request.address) (
          set_value "function_code" (size_text request.function_code) (
            set_value "slave_id" (int_text request.slave_id) (
              set_value "repeat_count" (int_text request.repeat_count) (
                set_value "command_count" (size_text request.command_count) (
                  set_value "payload_bytes" (size_text request.payload_bytes) (
                    set_value "operation_kind" (dangerous_operation_kind_name request.kind)
                      [])))))))))

unfoldable pub required : DangerousOperationRequest → String → DangerousOperationPolicyResult
required request reason = record {
  kind = request.kind;
  requires_confirmation = true;
  reason = reason;
  summary = base_summary request;
  metadata =
      set_value "confirmation_reason" reason
        (set_value "requires_confirmation" "true" (base_metadata request));
}

unfoldable pub safe : DangerousOperationRequest → DangerousOperationPolicyResult
safe request = record {
  kind = request.kind;
  requires_confirmation = false;
  reason = "";
  summary = base_summary request;
  metadata = set_value "requires_confirmation" "false" (base_metadata request);
}

abbrev pub eq_kind : DangerousOperationKind → DangerousOperationKind → Bool
eq_kind DangerousOperationKind.manual_serial_write DangerousOperationKind.manual_serial_write = true
eq_kind DangerousOperationKind.timed_serial_write DangerousOperationKind.timed_serial_write = true
eq_kind DangerousOperationKind.file_serial_send DangerousOperationKind.file_serial_send = true
eq_kind DangerousOperationKind.command_sequence_write
      DangerousOperationKind.command_sequence_write =
    true
eq_kind DangerousOperationKind.modbus_broadcast_write
      DangerousOperationKind.modbus_broadcast_write =
    true
eq_kind DangerousOperationKind.modbus_register_write DangerousOperationKind.modbus_register_write =
    true
eq_kind _ _ = false

unfoldable pub evaluate_dangerous_operation :
    DangerousOperationRequest → DangerousOperationPolicyResult
unfolding required safe is_modbus_write_function is_dangerous_register_write_function
evaluate_dangerous_operation request =
    if eq_kind request.kind DangerousOperationKind.file_serial_send
    then required request "file send is a batch serial write operation"
    else if eq_kind request.kind DangerousOperationKind.timed_serial_write
    then required request "timed send can repeat writes without further user action"
    else if eq_kind request.kind DangerousOperationKind.command_sequence_write
    then required request "command sequence can perform multiple write operations"
    else if eq_ℤ request.slave_id (pos 0) && is_modbus_write_function request.function_code
    then required (record request { kind = DangerousOperationKind.modbus_broadcast_write })
        "broadcast Modbus write can affect every device on the bus"
    else if eq_kind request.kind DangerousOperationKind.modbus_broadcast_write
    then required request "broadcast Modbus write can affect every device on the bus"
    else if eq_kind request.kind DangerousOperationKind.modbus_register_write
        || is_dangerous_register_write_function request.function_code
    then required (record request { kind = DangerousOperationKind.modbus_register_write })
        "Modbus register write can change device state"
    else safe request

unfoldable pub make_dangerous_operation_audit_event :
    DangerousOperationPolicyResult
    → DangerousOperationKind
    → DangerousOperationConfirmationState
    → DangerousOperationAuditEvent
make_dangerous_operation_audit_event policy kind state = record {
  kind = if empty_text policy.summary && is_empty policy.metadata then kind else policy.kind;
  state = state;
  summary = policy.summary;
  metadata =
      set_value "confirmation_result" (dangerous_operation_confirmation_state_name state)
        policy.metadata;
}
