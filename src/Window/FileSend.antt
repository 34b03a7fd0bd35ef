-- ===== src/Window/FileSend.antt =====
-- src/win32/native_file_send_state.h and .cpp: a file sent in chunks, and its progress. The files are
-- the system's: functions on a state `World`. A `uintmax_t` has 64 bits.
use serial_value_matcher_nat.Base.{
  ℕ, ◌+◌, ◌-◌, ◌*◌, ◌/◌, ◌%◌, ◌^◌, min, String, Bool, true, false, not, ◌&&◌, ◌||◌, Option, none,
  some, List, [], ◌∷◌, leb, ◌==◌, if◌then◌else◌, is_empty,
}

pub data NativeFileSendOpenStatus : Type 0 where
  ready file_size_failed open_failed : NativeFileSendOpenStatus

pub record NativeFileSendOpenResult : Type 0 where
  pub status : NativeFileSendOpenStatus
  pub total_bytes : ℕ

pub data NativeFileSendReadStatus : Type 0 where
  ready end read_failed invalid_chunk_size not_active : NativeFileSendReadStatus

pub record NativeFileSendChunk : Type 0 where
  pub status : NativeFileSendReadStatus
  pub bytes : List ℕ

pub record NativeFileSendState : Type 0 where
  pub path : String
  pub total_bytes : ℕ
  pub sent_bytes : ℕ
  pub active : Bool

abbrev pub new_file_send : NativeFileSendState
new_file_send = record { path = ""; total_bytes = 0; sent_bytes = 0; active = false }

-- `file_size` with its error as none, and the stream: opened, read (the bytes, and whether it is
-- bad after it) and closed if it is open.
pub record Files (World : Type 0) : Type 0 where
  pub file_size : String → World → Option ℕ × World
  pub open_stream : String → World → Bool × World
  pub read_stream : ℕ → World → (List ℕ × Bool) × World
  pub close_stream : World → World

unfoldable pub progress_permille : NativeFileSendState → ℕ
progress_permille s =
    if s.total_bytes == 0 then 0 else min 1000 (s.sent_bytes * 1000 % 2 ^ 64 / s.total_bytes)

unfoldable pub mark_bytes_written : ℕ → NativeFileSendState → NativeFileSendState
mark_bytes_written byte_count s =
    let remaining = s.total_bytes - s.sent_bytes in
    if s.total_bytes == 0 || leb s.total_bytes s.sent_bytes
    then record s { sent_bytes = s.total_bytes }
    else record s { sent_bytes = s.sent_bytes + min byte_count remaining }

unfoldable pub done : NativeFileSendState → Bool
done s = s.active && leb s.total_bytes s.sent_bytes

abbrev pub set_path : String → NativeFileSendState → NativeFileSendState
set_path path s = record s { path = path }

module _ {World : Type 0} (files : Files World) where
  unfoldable pub close : NativeFileSendState → World → NativeFileSendState × World
  close s world = (record s { active = false }, files.close_stream world)

  unfoldable pub open_file :
      String → NativeFileSendState → World → NativeFileSendOpenResult × NativeFileSendState × World
  unfolding close
  open_file path s world =
      let closed = close s world in
      let sized = files.file_size path closed.1 in
      let opened = files.open_stream path sized.1 in
      let named = record closed.0 { path = path; sent_bytes = 0 } in
      elim sized.0 [
        | none ↦ (
          record { status = NativeFileSendOpenStatus.file_size_failed; total_bytes = 0 },
          record named { total_bytes = 0 },
          sized.1,
        )
        | some size ↦
            if not opened.0
            then (
              record { status = NativeFileSendOpenStatus.open_failed; total_bytes = 0 },
              record named { total_bytes = 0 },
              opened.1,
            )
            else (
              record { status = NativeFileSendOpenStatus.ready; total_bytes = size },
              record named { total_bytes = size; active = true },
              opened.1,
            )
      ]

  unfoldable pub read_next_chunk : ℕ → NativeFileSendState → World → NativeFileSendChunk × World
  read_next_chunk chunk_bytes s world =
      let read = files.read_stream chunk_bytes world in
      if not s.active
      then (record { status = NativeFileSendReadStatus.not_active; bytes = [] }, world)
      else if chunk_bytes == 0
      then (record { status = NativeFileSendReadStatus.invalid_chunk_size; bytes = [] }, world)
      else if read.0.1
      then (record { status = NativeFileSendReadStatus.read_failed; bytes = [] }, read.1)
      else if is_empty read.0.0
      then (record { status = NativeFileSendReadStatus.end; bytes = [] }, read.1)
      else (record { status = NativeFileSendReadStatus.ready; bytes = read.0.0 }, read.1)

-- The calls that change the state.
pub data FileSendCall : Type 0 where
  opens : String → FileSendCall
  wrote : ℕ → FileSendCall
  names : String → FileSendCall
  closes : FileSendCall

module _ {World : Type 0} (files : Files World) where
  unfoldable pub send_call :
      FileSendCall → NativeFileSendState → World → NativeFileSendState × World
  unfolding open_file close mark_bytes_written
  send_call (FileSendCall.opens path) s world =
      let opened = open_file files path s world in (opened.1, opened.2)
  send_call (FileSendCall.wrote n) s world = (mark_bytes_written n s, world)
  send_call (FileSendCall.names path) s world = (set_path path s, world)
  send_call FileSendCall.closes s world = close files s world

  unfoldable pub send_calls :
      List FileSendCall → NativeFileSendState → World → NativeFileSendState × World
  unfolding send_call
  send_calls [] s world = (s, world)
  send_calls (c ∷ calls) s world = let next = send_call c s world in send_calls calls next.0 next.1
