-- ===== src/Transport/WriteQueue/State.antt =====
-- src/transport/serial_write_queue.h: the data of the queue, its snapshot and what it reports.
-- `size_t` and `uint64_t` are numbers below 2 ^ 64 whose sums and differences wrap.
use serial_value_matcher_nat.Base.{
  ℕ, ◌+◌, ◌*◌, ◌%◌, ◌^◌, ℤ, Bool, true, false, not, ◌&&◌, ◌||◌, ◌==◌, ltb, leb, Option, none, some,
  List, [], length, is_empty,
}
use serial_value_matcher_nat.Transport.Types.{
  SerialDeadline, unassigned_serial_operation_id, unassigned_serial_session_generation,
}

abbrev pub word : ℕ
word = 2 ^ 64

pub record SerialWriteQueueLimits : Type 0 where
  pub request_capacity : ℕ
  pub byte_capacity : ℕ

-- The defaults of the source: 64 requests and 256 KiB.
abbrev pub default_limits : SerialWriteQueueLimits
default_limits = record { request_capacity = 64; byte_capacity = 256 * 1024 }

abbrev pub limits_valid : SerialWriteQueueLimits → Bool
limits_valid l = ltb 0 l.request_capacity && ltb 0 l.byte_capacity

pub data SerialWriteCancellationState : Type 0 where
  active requested : SerialWriteCancellationState

pub data SerialWriteResultStatus : Type 0 where
  accepted rejected_invalid rejected_full sent failed : SerialWriteResultStatus
  timeout cancelled disconnected closed : SerialWriteResultStatus

abbrev pub is_rejected : SerialWriteResultStatus → Bool
is_rejected SerialWriteResultStatus.rejected_invalid = true
is_rejected SerialWriteResultStatus.rejected_full = true
is_rejected _ = false

abbrev pub is_terminal : SerialWriteResultStatus → Bool
is_terminal SerialWriteResultStatus.sent = true
is_terminal SerialWriteResultStatus.failed = true
is_terminal SerialWriteResultStatus.timeout = true
is_terminal SerialWriteResultStatus.cancelled = true
is_terminal SerialWriteResultStatus.disconnected = true
is_terminal SerialWriteResultStatus.closed = true
is_terminal _ = false

pub record SerialWriteCancellationToken : Type 0 where
  pub request_id : ℕ
  pub generation : ℕ

pub record SerialWriteRequest : Type 0 where
  pub id : ℕ
  pub generation : ℕ
  pub cancellation_token : SerialWriteCancellationToken
  pub payload : List ℕ
  pub payload_bytes : ℕ
  pub timeout_ms : ℤ
  pub deadline : SerialDeadline
  pub cancellation_state : SerialWriteCancellationState

pub record SerialWriteResult : Type 0 where
  pub request_id : ℕ
  pub generation : ℕ
  pub status : SerialWriteResultStatus
  pub byte_count : ℕ
  pub deadline : SerialDeadline

pub record ActiveReservation : Type 0 where
  pub request_id : ℕ
  pub generation : ℕ
  pub payload_bytes : ℕ
  pub deadline : SerialDeadline

pub record SerialWriteQueue : Type 0 where
  pub limits : SerialWriteQueueLimits
  pub generation : ℕ
  pub next_request_id : ℕ
  pub pending_bytes : ℕ
  pub high_water_count : ℕ
  pub high_water_bytes : ℕ
  pub pending : List SerialWriteRequest
  pub active : Option ActiveReservation

pub record SerialWriteQueueSnapshot : Type 0 where
  pub generation : ℕ
  pub capacity : ℕ
  pub byte_capacity : ℕ
  pub pending_count : ℕ
  pub active_count : ℕ
  pub active_request_id : ℕ
  pub pending_bytes : ℕ
  pub active_bytes : ℕ
  pub high_water_count : ℕ
  pub high_water_bytes : ℕ
  pub next_request_id : ℕ

abbrev pub counted_count : SerialWriteQueueSnapshot → ℕ
counted_count s = (s.pending_count + s.active_count) % word

abbrev pub counted_bytes : SerialWriteQueueSnapshot → ℕ
counted_bytes s = (s.pending_bytes + s.active_bytes) % word

abbrev pub snapshot_empty : SerialWriteQueueSnapshot → Bool
snapshot_empty s = counted_count s == 0

abbrev pub snapshot_full : SerialWriteQueueSnapshot → Bool
snapshot_full s =
    s.capacity == 0
    || (s.byte_capacity == 0
        || (leb s.capacity (counted_count s) || leb s.byte_capacity (counted_bytes s)))

unfoldable pub new : SerialWriteQueueLimits → SerialWriteQueue
new limits = record {
  limits = limits;
  generation = unassigned_serial_session_generation;
  next_request_id = 1;
  pending_bytes = 0;
  high_water_count = 0;
  high_water_bytes = 0;
  pending = [];
  active = none;
}

abbrev pub active_count : Option ActiveReservation → ℕ
active_count none = 0
active_count (some a) = 1

abbrev pub active_id : Option ActiveReservation → ℕ
active_id none = unassigned_serial_operation_id
active_id (some a) = a.request_id

abbrev pub active_bytes : Option ActiveReservation → ℕ
active_bytes none = 0
active_bytes (some a) = a.payload_bytes

abbrev pub has_active : Option ActiveReservation → Bool
has_active none = false
has_active (some a) = true

unfoldable pub empty : SerialWriteQueue → Bool
empty q = is_empty q.pending && not (has_active q.active)

unfoldable pub snapshot : SerialWriteQueue → SerialWriteQueueSnapshot
snapshot q = record {
  generation = q.generation;
  capacity = q.limits.request_capacity;
  byte_capacity = q.limits.byte_capacity;
  pending_count = length q.pending;
  active_count = active_count q.active;
  active_request_id = active_id q.active;
  pending_bytes = q.pending_bytes;
  active_bytes = active_bytes q.active;
  high_water_count = q.high_water_count;
  high_water_bytes = q.high_water_bytes;
  next_request_id = q.next_request_id;
}

unfoldable pub full : SerialWriteQueue → Bool
unfolding snapshot
full q = snapshot_full (snapshot q)
