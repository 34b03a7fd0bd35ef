-- ===== src/Window/FrameScheduler.antt =====
-- src/win32/native_frame_scheduler.h and .cpp: requests to repaint, and the frames that they share.
-- A set of reasons is the word of its bits. The counters, each an `int`, are numbers without bounds.
use serial_value_matcher_nat.Base.{
  ℕ, ◌+◌, Bool, true, false, not, Option, some, List, [], ◌∷◌, ◌==◌, if◌then◌else◌, ℤ,
}
use Prim.Native.Nat.{bit_and, bit_or}

pub data NativeFrameReason : Type 0 where
  resize splitter_drag tab_switch log_flush status progress settle : NativeFrameReason

abbrev pub reason_bits : NativeFrameReason → ℕ
reason_bits NativeFrameReason.resize = 1
reason_bits NativeFrameReason.splitter_drag = 2
reason_bits NativeFrameReason.tab_switch = 4
reason_bits NativeFrameReason.log_flush = 8
reason_bits NativeFrameReason.status = 16
reason_bits NativeFrameReason.progress = 32
reason_bits NativeFrameReason.settle = 64

unfoldable pub native_frame_has_reason : ℕ → NativeFrameReason → Bool
native_frame_has_reason value reason = not (bit_and value (reason_bits reason) == 0)

pub record NativeFrameSchedulerStats : Type 0 where
  pub requested_frames : ℕ
  pub post_requests : ℕ
  pub coalesced_requests : ℕ
  pub consumed_frames : ℕ
  pub post_failures : ℕ

-- The sizes that a snapshot has: of the client area, and of the workbench.
pub record NativeFrameSnapshot : Type 0 where
  pub reasons : ℕ
  pub client_size : Option (ℤ × ℤ)
  pub workbench_height : Option ℤ

abbrev pub no_frame : NativeFrameSnapshot
no_frame = record { reasons = 0; client_size = Option.none; workbench_height = Option.none }

pub record NativeFrameScheduler : Type 0 where
  pub pending : NativeFrameSnapshot
  pub stats : NativeFrameSchedulerStats
  pub frame_queued : Bool

abbrev pub new_scheduler : NativeFrameScheduler
new_scheduler = record {
  pending = no_frame;
  stats = record {
    requested_frames = 0;
    post_requests = 0;
    coalesced_requests = 0;
    consumed_frames = 0;
    post_failures = 0;
  };
  frame_queued = false;
}

-- Does the caller post a message for the frame, and the scheduler after the request.
unfoldable pub request_frame :
    NativeFrameReason → NativeFrameScheduler → Bool × NativeFrameScheduler
request_frame reason s =
    let pending = record s.pending { reasons = bit_or s.pending.reasons (reason_bits reason) } in
    let stats = record s.stats { requested_frames = s.stats.requested_frames + 1 } in
    if s.frame_queued
    then (
      false,
      record {
        pending = pending;
        stats = record stats { coalesced_requests = stats.coalesced_requests + 1 };
        frame_queued = true;
      },
    )
    else (
      true,
      record {
        pending = pending;
        stats = record stats { post_requests = stats.post_requests + 1 };
        frame_queued = true;
      },
    )

abbrev pub remember_client_size : ℤ → ℤ → NativeFrameScheduler → NativeFrameScheduler
remember_client_size client_width client_height s = record s {
  pending = record s.pending { client_size = some (client_width, client_height) };
}

unfoldable pub request_resize : ℤ → ℤ → NativeFrameScheduler → Bool × NativeFrameScheduler
unfolding request_frame
request_resize client_width client_height s =
    request_frame NativeFrameReason.resize (remember_client_size client_width client_height s)

unfoldable pub request_splitter_drag :
    ℤ → ℤ → ℤ → NativeFrameScheduler → Bool × NativeFrameScheduler
unfolding request_frame
request_splitter_drag client_width client_height workbench_height s =
    let sized = remember_client_size client_width client_height s in
    request_frame NativeFrameReason.splitter_drag
      (record sized { pending = record sized.pending { workbench_height = some workbench_height } })

unfoldable pub consume_frame : NativeFrameScheduler → NativeFrameSnapshot × NativeFrameScheduler
consume_frame s = (
  s.pending,
  record s {
    pending = no_frame;
    stats =
        if s.pending.reasons == 0
        then s.stats
        else record s.stats { consumed_frames = s.stats.consumed_frames + 1 };
    frame_queued = false;
  },
)

unfoldable pub mark_post_failed : NativeFrameScheduler → NativeFrameScheduler
mark_post_failed s =
    if s.frame_queued
    then record s {
      stats = record s.stats { post_failures = s.stats.post_failures + 1 };
      frame_queued = false;
    }
    else s

-- The calls of the window. `request` is one of requestTabSwitch, requestLogFlush, requestStatus,
-- requestProgress and requestSettle, which differ in their reason.
pub data FrameCall : Type 0 where
  resize : ℤ → ℤ → FrameCall
  splitter_drag : ℤ → ℤ → ℤ → FrameCall
  request : NativeFrameReason → FrameCall
  consume post_failed : FrameCall

unfoldable pub call : FrameCall → NativeFrameScheduler → NativeFrameScheduler
unfolding request_resize request_splitter_drag request_frame consume_frame mark_post_failed
call (FrameCall.resize width height) s = (request_resize width height s).1
call (FrameCall.splitter_drag width height workbench) s =
    (request_splitter_drag width height workbench s).1
call (FrameCall.request reason) s = (request_frame reason s).1
call FrameCall.consume s = (consume_frame s).1
call FrameCall.post_failed s = mark_post_failed s

unfoldable pub run_calls : List FrameCall → NativeFrameScheduler → NativeFrameScheduler
unfolding call
run_calls [] s = s
run_calls (c ∷ calls) s = run_calls calls (call c s)
