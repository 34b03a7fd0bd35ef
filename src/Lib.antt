-- ===== src/Lib.antt =====
-- A model of the serial value matcher's core, and what it guarantees.
--
-- The program reads and writes a serial port and scans Modbus RTU devices for registers. Bytes to
-- send wait in a write queue; a Modbus scan cuts a register range into read requests, sends them
-- one by one with retries, and checks and decodes each response. The window keeps one owner of the
-- port at a time and acts only on the results of the write it waits for.
--
-- The parts, their files here and the code they model:
--   * Base, with its children: Boolean tests, lists, signed integers, texts and bit operations that
--     the other modules share.
--   * Transport.Types: src/transport/serial_types.h (identities, statuses, results).
--   * Transport.WriteQueue.State, Enqueue and Settle: src/transport/serial_write_queue.h and .cpp.
--     The queue is a record of the class's members; each method is a function from a state to a
--     state with its results (enqueue, beginGeneration, activateNext, cancelPending,
--     cancelAllPending, completeActive). The other children hold its invariant, what its results
--     conserve, and the line that it implements.
--   * Modbus.Frame, Request, Response and Plan: src/core/modbus_core.h and .cpp (crc16Modbus,
--     appendCrc16Modbus, validateRtuFrame, buildReadRequest, parseReadResponse, buildScanPlan).
--   * Scan.Types, Attempt and Execute: src/core/modbus_scan_executor_core.h and .cpp
--     (ScanExecutor::execute). The transport, the clock and the callbacks are parameters: functions
--     on a state of the caller's. Each loop body is a function that says whether the loop stops.
--   * SerialIo.State and Decisions: src/win32/native_serial_io_state.h and .cpp. Its owner decides
--     whether a manual send, a file send or a scan may use the port and the write queue.
--   * Danger.Policy: src/core/dangerous_operation_policy.h and .cpp. A map of texts is a list of
--     entries in the order of their first assignment; Base.Decimal has the texts of numbers.
--   * Send.Parse, Print and Payload: src/win32/native_send_codec.h and .cpp. Text to bytes and
--     back, in hexadecimal, decimal and binary (nativeParse...Payload, nativeBytesTo...), and the
--     payload of a send (nativeBuildSendPayload). The code pages of the system are a parameter.
--   * Sequence.Types, Validate, Step, Run and Execute: src/command_sequence/command_sequence.h and
--     .cpp. Its validateCommandSequence and executeCommandSequence; a step runs on the back ends
--     of its context, functions on a state of the caller's, and a Modbus read on Scan.Execute.
--   * Rtu.State, Write, Read and Exchange: src/transport/serial_rtu_transport.h and .cpp
--     (SerialRtuTransport::exchange). The stages of the function are functions on the exchange, the
--     members of the transport and the world; each says whether the exchange has returned.
--   * Protocol.Checks: src/core/protocol_core.cpp (sum8, xor8, lrc8).
--   * Window.FrameScheduler, FileSend, Preferences, Reconnect and LogScroll:
--     native_frame_scheduler, native_file_send_state, native_ui_preferences,
--     native_reconnect_state and native_log_scroll_state, each a .h and a .cpp of src/win32.
--   * Storage.Numbers, Types, Records, ScanRecords and SettingRecords: the records of
--     src/native_storage/native_store_record_codec.cpp (...FromRecord, recordFrom...) and their types
--     in src/native_storage/native_session_store.h. A record is a list of texts of bytes.
--
-- Numbers. Bytes and unsigned words are natural numbers, with the wrap-around of a cast written
-- out. An `int` is a signed integer without bounds: the guards of the code keep the sums far from
-- 2 ^ 31, but for `retryCount + 1` in the executor and in the validation of a read, where a plan with
-- the largest `int` is left out, and for `startAddress + quantity - 1` of a read in a command
-- sequence, whose validation bounds the address from below only: a sum beyond the largest `int` is
-- left out. A queue's counters are 64-bit words and its guards on them are modelled; the counters of
-- the frame scheduler are `int`s in the code and numbers here, and what is said of their balance is
-- said for fewer than 2 ^ 31 calls.
--
-- Fuel. The loop of buildScanPlan takes fuel, 4097: each round takes a register off a range of at
-- most 4096, so the fuel is more than the rounds there can be. The loop of a delay takes a round
-- more than its milliseconds, and each round sleeps at least one of them. The read loop of an
-- exchange takes its timeout in ticks and 261 more: each round sleeps for a tick or more, or takes
-- one of at most 260 bytes. The other loops are structural: over bytes, blocks, decimal digits
-- (twenty hold a 64-bit number) and the attempts left.
--
-- Not modelled: the serial port and the files of the operating system, the threads around them, the
-- window, the storage but for its records, the records of matches and rules, the analysis of
-- candidates and the reports.
pub mod Base
pub mod Transport
pub mod Modbus
pub mod Scan
pub mod SerialIo
pub mod Danger
pub mod Send
pub mod Sequence
pub mod Rtu
pub mod Protocol
pub mod Window
pub mod Storage
