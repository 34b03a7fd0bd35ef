-- ===== src/Window/Examples.antt =====
-- Frames and a file send on concrete calls.
use serial_value_matcher_nat.Base.{ℕ, ◌≡◌, refl, true, false, some, List, [], ◌∷◌, arith, pos}
use serial_value_matcher_nat.Window.FrameScheduler.{
  NativeFrameReason, native_frame_has_reason, new_scheduler, FrameCall, call, run_calls,
}
use serial_value_matcher_nat.Window.FrameLaws.{
  IsBalanced, IsCounted, run_calls-IsBalanced, run_calls-requested,
}
use serial_value_matcher_nat.Window.LogScroll.{
  new_log_scroll, LogScrollCall, toggle_pause, note_hidden_line, follow_decision, decide_follow,
  log_scroll_call, log_scroll_calls,
}
use serial_value_matcher_nat.Window.LogScrollLaws.{IsFollowedBy, log_scroll_calls-IsFollowedBy}
use serial_value_matcher_nat.Window.FileSend.{
  new_file_send, Files, progress_permille, FileSendCall, send_calls,
}
use serial_value_matcher_nat.Window.FileSendLaws.{IsProgress, send_calls-IsProgress}

abbrev some_calls : List FrameCall
some_calls =
    FrameCall.resize (pos 640) (pos 480)
    ∷ FrameCall.post_failed
    ∷ FrameCall.request NativeFrameReason.status
    ∷ []

some_calls-reasons : (run_calls some_calls new_scheduler).pending.reasons ≡ 17
unfolding run_calls
some_calls-reasons = refl

run_calls-IsBalanced_example :
    IsBalanced (run_calls some_calls new_scheduler)
    × IsCounted (run_calls some_calls new_scheduler).stats
run_calls-IsBalanced_example = run_calls-IsBalanced some_calls (omega arith)

run_calls-requested_example :
    native_frame_has_reason
      (run_calls some_calls
        (call (FrameCall.request NativeFrameReason.log_flush) new_scheduler)).pending.reasons
      NativeFrameReason.log_flush
    ≡ true
run_calls-requested_example =
    run_calls-requested NativeFrameReason.log_flush some_calls new_scheduler (tt, (tt, (tt, tt)))

-- A file of 2500 bytes.
abbrev one_file : Files ℕ
one_file = record {
  file_size = λ path w. (some 2500, w);
  open_stream = λ path w. (true, w);
  read_stream = λ n w. ((7 ∷ [], false), w);
  close_stream = λ w. w;
}

abbrev two_chunks : List FileSendCall
two_chunks = FileSendCall.opens "file" ∷ FileSendCall.wrote 1024 ∷ FileSendCall.wrote 1024 ∷ []

two_chunks-permille : progress_permille (send_calls one_file two_chunks new_file_send 0).0 ≡ 819
unfolding progress_permille send_calls
two_chunks-permille = refl

send_calls-IsProgress_example : IsProgress (send_calls one_file two_chunks new_file_send 0).0
send_calls-IsProgress_example = send_calls-IsProgress one_file two_chunks 0

abbrev scrolled : List LogScrollCall
scrolled =
    LogScrollCall.hides_line
    ∷ LogScrollCall.decides false
    ∷ LogScrollCall.toggles
    ∷ LogScrollCall.toggles
    ∷ []

scrolled-hidden : (log_scroll_calls scrolled new_log_scroll).hidden_line_count ≡ 0
unfolding log_scroll_calls log_scroll_call toggle_pause note_hidden_line follow_decision
    decide_follow
scrolled-hidden = refl

log_scroll_calls-IsFollowedBy_example :
    IsFollowedBy (log_scroll_calls scrolled new_log_scroll) false
log_scroll_calls-IsFollowedBy_example = log_scroll_calls-IsFollowedBy scrolled false
