-- ===== src/Sequence/Budget.antt =====
-- What a valid step is, and the time it puts on the budget.
use serial_value_matcher_nat.Base.{
  ℕ, ◌+◌, ◌-◌, ◌*◌, ◌/◌, ◌^◌, ◌≤◌, ◌<◌, ◌≡◌, refl, ◌↔◌, ◌⊎◌, inl, inr, true, false, ◌&&◌, List,
  arith, ltb, if◌then◌else◌, length, ℤ, pos_part, ◌+ℤ◌, ◌-ℤ◌, ◌*ℤ◌, ◌≤ℤ◌, ltb_ℤ, pos-add, pos-mul,
  pos, negsuc,
}
use native.Mathlib.Nat.{div-lt_iff_lt-mul}
use serial_value_matcher_nat.Modbus.Request.{is_supported_read_function}
use serial_value_matcher_nat.Sequence.Types.{
  AssertionKind, SerialWriteCommand, DelayCommand, WaitForResponseCommand, ModbusReadCommand,
  AssertionCommand, CommandAction, CommandSequenceSafetyLimits,
}
use serial_value_matcher_nat.Sequence.Validate.{
  add_budget, unsafe, Verdict, charge, valid_command_timeout, validate_serial_write, validate_delay,
  validate_wait_for_response, validate_modbus_read, validate_assertion, validate_action,
}

-- A number of milliseconds that a command may wait.
abbrev pub IsTimeout : CommandSequenceSafetyLimits → ℤ → Type 0
IsTimeout limits ms = (pos 1 ≤ℤ ms) × (ms ≤ℤ limits.max_command_timeout_ms)

-- Bytes that are there and within the limit.
abbrev pub IsPayload : CommandSequenceSafetyLimits → List ℕ → Type 0
IsPayload limits bytes = (0 < length bytes) × (length bytes ≤ limits.max_payload_bytes)

pub record IsSafeRead (limits : CommandSequenceSafetyLimits) (c : ModbusReadCommand) : Type 0 where
  pub slave_low : pos 1 ≤ℤ c.slave_id
  pub slave_high : c.slave_id ≤ℤ pos 247
  pub function_read : (c.function_code ≡ 3) ⊎ (c.function_code ≡ 4)
  pub start_low : pos 0 ≤ℤ c.start_address
  pub quantity_low : pos 1 ≤ℤ c.quantity
  pub quantity_high : c.quantity ≤ℤ limits.max_modbus_quantity
  pub retry_low : pos 0 ≤ℤ c.retry_count
  pub retry_high : c.retry_count ≤ℤ limits.max_modbus_retries
  pub in_time : IsTimeout limits c.response_timeout_ms

abbrev pub IsSafeAssertion : CommandSequenceSafetyLimits → AssertionCommand → AssertionKind → Type 0
IsSafeAssertion limits c AssertionKind.last_serial_write_accepted = Unit
IsSafeAssertion limits c AssertionKind.last_response_contains = IsPayload limits c.expected_payload
IsSafeAssertion limits c AssertionKind.last_modbus_read_succeeded = Unit
IsSafeAssertion limits c AssertionKind.register_equals = pos 0 ≤ℤ c.register_address

abbrev pub IsSafe : CommandSequenceSafetyLimits → CommandAction → Type 0
IsSafe limits (CommandAction.serial_write c) =
    IsPayload limits c.payload × IsTimeout limits c.timeout_ms
IsSafe limits (CommandAction.delay c) =
    (pos 0 ≤ℤ c.duration_ms) × (c.duration_ms ≤ℤ limits.max_delay_ms)
IsSafe limits (CommandAction.wait_for_response c) =
    IsPayload limits c.expected_payload × IsTimeout limits c.timeout_ms
IsSafe limits (CommandAction.modbus_read c) = IsSafeRead limits c
IsSafe limits (CommandAction.assertion c) = IsSafeAssertion limits c c.kind

-- The longest that a step may take, in milliseconds.
abbrev pub step_budget : CommandAction → ℕ
step_budget (CommandAction.serial_write c) = pos_part c.timeout_ms
step_budget (CommandAction.delay c) = pos_part c.duration_ms
step_budget (CommandAction.wait_for_response c) = pos_part c.timeout_ms
step_budget (CommandAction.modbus_read c) =
    pos_part c.response_timeout_ms * (pos_part c.retry_count + 1)
step_budget (CommandAction.assertion c) = 0

-- A verdict that lets a step of `ms` milliseconds pass on a budget of `b`, or refuses it.
abbrev pub Passes : ℕ → ℕ → Verdict → Type 0
Passes b ms v = (v.0.ok ≡ true) × (v.1 ≡ pos (b + ms)) × (b + ms < 2 ^ 31)

charge-Passes :
    (b ms i : ℕ)
    → b < 2 ^ 31
    → Passes b ms (charge (pos b) (pos ms) i)
      ⊎ (((charge (pos b) (pos ms) i).0.ok ≡ false) × (2 ^ 31 ≤ b + ms))
unfolding charge add_budget ◌+ℤ◌ ◌-ℤ◌
charge-Passes b ms i h = ground arith

charged :
    (b i : ℕ) (v : ℤ)
    → b < 2 ^ 31
    → pos 0 ≤ℤ v
    → Passes b (pos_part v) (charge (pos b) v i)
      ⊎ (((charge (pos b) v i).0.ok ≡ false) × (2 ^ 31 ≤ b + pos_part v))
charged b i (pos n) h k = charge-Passes b n i h
charged b i (negsuc n) h k = absurd (omega (arith, k))

-- Each step passes exactly when it is safe and its time fits in an `int` with the budget so far.
abbrev pub Judges : CommandSequenceSafetyLimits → ℕ → CommandAction → Verdict → Type 0
Judges limits b action v =
    (IsSafe limits action × Passes b (step_budget action) v)
    ⊎ ((v.0.ok ≡ false) × ((IsSafe limits action → ⊥) ⊎ (2 ^ 31 ≤ b + step_budget action)))

serial_write-Judges :
    (limits : CommandSequenceSafetyLimits) (b i : ℕ) (c : SerialWriteCommand)
    → b < 2 ^ 31
    → Judges limits b (CommandAction.serial_write c) (validate_serial_write c i limits (pos b))
unfolding validate_serial_write valid_command_timeout
serial_write-Judges limits b i c h = ground (arith, charged b i c.timeout_ms h)

delay-Judges :
    (limits : CommandSequenceSafetyLimits) (b i : ℕ) (c : DelayCommand)
    → b < 2 ^ 31
    → Judges limits b (CommandAction.delay c) (validate_delay c i limits (pos b))
unfolding validate_delay
delay-Judges limits b i c h = ground (arith, charged b i c.duration_ms h)

wait_for_response-Judges :
    (limits : CommandSequenceSafetyLimits) (b i : ℕ) (c : WaitForResponseCommand)
    → b < 2 ^ 31
    → Judges limits b
        (CommandAction.wait_for_response c)
        (validate_wait_for_response c i limits (pos b))
unfolding validate_wait_for_response valid_command_timeout
wait_for_response-Judges limits b i c h = ground (arith, charged b i c.timeout_ms h)

-- The last two tests of a read: the time of all its attempts goes on the budget.
abbrev pub charge_attempts : ℤ → ℤ → ℕ → ℤ → Verdict
charge_attempts timeout retries i b =
    if ltb_ℤ (pos 0) (retries +ℤ pos 1)
      && ltb ((2 ^ 31 - 1) / pos_part (retries +ℤ pos 1)) (pos_part timeout)
    then (unsafe i "Command sequence timeout budget overflowed.", b)
    else charge b (timeout *ℤ (retries +ℤ pos 1)) i

attempts_fit :
    (b t r i : ℕ)
    → b < 2 ^ 31
    → Passes b (t * (r + 1)) (charge_attempts (pos t) (pos r) i (pos b))
      ⊎ (((charge_attempts (pos t) (pos r) i (pos b)).0.ok ≡ false) × (2 ^ 31 ≤ b + t * (r + 1)))
attempts_fit b t r i h =
    rw (pos-add r 1, pos-mul t (r + 1)) ground
      (
        arith,
        charge-Passes b (t * (r + 1)) i h,
        div-lt_iff_lt-mul {k = r + 1} {x = 2147483647} {y = t} (omega arith),
      )

attempts_charged :
    (b i : ℕ) (t r : ℤ)
    → b < 2 ^ 31
    → pos 0 ≤ℤ t
    → pos 0 ≤ℤ r
    → Passes b (pos_part t * (pos_part r + 1)) (charge_attempts t r i (pos b))
      ⊎ (((charge_attempts t r i (pos b)).0.ok ≡ false)
          × (2 ^ 31 ≤ b + pos_part t * (pos_part r + 1)))
attempts_charged b i (pos t) (pos r) h k l = attempts_fit b t r i h
attempts_charged b i (pos t) (negsuc r) h k l = absurd (omega (arith, l))
attempts_charged b i (negsuc t) r h k l = absurd (omega (arith, k))

IsSafeRead-iff :
    (limits : CommandSequenceSafetyLimits) (c : ModbusReadCommand)
    → IsSafeRead limits c ↔ (
        (pos 1 ≤ℤ c.slave_id)
        × (c.slave_id ≤ℤ pos 247)
        × ((c.function_code ≡ 3) ⊎ (c.function_code ≡ 4))
        × (pos 0 ≤ℤ c.start_address)
        × (pos 1 ≤ℤ c.quantity)
        × (c.quantity ≤ℤ limits.max_modbus_quantity)
        × (pos 0 ≤ℤ c.retry_count)
        × (c.retry_count ≤ℤ limits.max_modbus_retries)
        × IsTimeout limits c.response_timeout_ms)
IsSafeRead-iff limits c = (
  λ h. (
    h.slave_low, h.slave_high, h.function_read, h.start_low, h.quantity_low, h.quantity_high,
    h.retry_low, h.retry_high, h.in_time,
  ),
  λ h. record {
    slave_low = h.0;
    slave_high = h.1;
    function_read = h.2;
    start_low = h.3;
    quantity_low = h.4;
    quantity_high = h.5;
    retry_low = h.6;
    retry_high = h.7;
    in_time = h.8;
  },
)

modbus_read_guards :
    (limits : CommandSequenceSafetyLimits) (i : ℕ) (c : ModbusReadCommand) (b : ℤ)
    → (IsSafeRead limits c
        × (validate_modbus_read c i limits b
            ≡ charge_attempts c.response_timeout_ms c.retry_count i b))
      ⊎ ((IsSafeRead limits c → ⊥) × ((validate_modbus_read c i limits b).0.ok ≡ false))
unfolding validate_modbus_read valid_command_timeout is_supported_read_function
modbus_read_guards limits i c b = ground (arith, IsSafeRead-iff limits c)

modbus_read-Judges :
    (limits : CommandSequenceSafetyLimits) (b i : ℕ) (c : ModbusReadCommand)
    → b < 2 ^ 31
    → Judges limits b (CommandAction.modbus_read c) (validate_modbus_read c i limits (pos b))
modbus_read-Judges limits b i c h = elim (modbus_read_guards limits i c (pos b)) [
  | inl safe ↦
      let waits : pos 0 ≤ℤ c.response_timeout_ms = omega (arith, safe.0.in_time.0) in
      rw (safe.1, Judges) ground
        (
          arith,
          attempts_charged b i c.response_timeout_ms c.retry_count h waits safe.0.retry_low,
          safe,
        )
  | inr refused ↦ inr (refused.1, inl refused.0)
]

assertion_guards :
    (limits : CommandSequenceSafetyLimits) (i : ℕ) (c : AssertionCommand) (k : AssertionKind)
    → (IsSafe limits (CommandAction.assertion (record c { kind = k }))
        × ((validate_assertion (record c { kind = k }) i limits).ok ≡ true))
      ⊎ (((validate_assertion (record c { kind = k }) i limits).ok ≡ false)
          × (IsSafe limits (CommandAction.assertion (record c { kind = k })) → ⊥))
unfolding validate_assertion
assertion_guards limits i c AssertionKind.last_serial_write_accepted = inl (tt, refl)
assertion_guards limits i c AssertionKind.last_response_contains = ground arith
assertion_guards limits i c AssertionKind.last_modbus_read_succeeded = inl (tt, refl)
assertion_guards limits i c AssertionKind.register_equals = ground arith

pub action-Judges :
    (limits : CommandSequenceSafetyLimits) (b i : ℕ) (action : CommandAction)
    → b < 2 ^ 31
    → Judges limits b action (validate_action action i limits (pos b))
unfolding validate_action
action-Judges limits b i (CommandAction.serial_write c) h = serial_write-Judges limits b i c h
action-Judges limits b i (CommandAction.delay c) h = delay-Judges limits b i c h
action-Judges limits b i (CommandAction.wait_for_response c) h =
    wait_for_response-Judges limits b i c h
action-Judges limits b i (CommandAction.modbus_read c) h = modbus_read-Judges limits b i c h
action-Judges limits b i (CommandAction.assertion c) h =
    ground (arith, assertion_guards limits i c c.kind)
