-- ===== src/Window/LogScroll.antt =====
-- src/win32/native_log_scroll_state.h and .cpp: does the log view follow the newest line. The
-- counter of hidden lines is a `size_t` of 64 bits.
use serial_value_matcher_nat.Base.{
  ℕ, ◌+◌, ◌^◌, ◌%◌, Bool, true, false, not, List, [], ◌∷◌, ◌&&◌, if◌then◌else◌,
}

pub record NativeLogFollowDecision : Type 0 where
  pub should_follow : Bool
  pub should_show_history_notice : Bool

pub record NativeLogScrollState : Type 0 where
  pub paused : Bool
  pub auto_follow : Bool
  pub history_read_notice_shown : Bool
  pub hidden_line_count : ℕ

abbrev pub new_log_scroll : NativeLogScrollState
new_log_scroll = record {
  paused = false;
  auto_follow = true;
  history_read_notice_shown = false;
  hidden_line_count = 0;
}

abbrev pub follow_latest : NativeLogScrollState → NativeLogScrollState
follow_latest s = record s { auto_follow = true; history_read_notice_shown = false }

abbrev pub pause : NativeLogScrollState → NativeLogScrollState
pause s = record s { paused = true }

abbrev pub resume : NativeLogScrollState → NativeLogScrollState
resume s = record s { paused = false; hidden_line_count = 0 }

-- The new value of `paused`, and the state.
unfoldable pub toggle_pause : NativeLogScrollState → Bool × NativeLogScrollState
toggle_pause s =
    if s.paused
    then (false, follow_latest (record s { paused = false; hidden_line_count = 0 }))
    else (true, record s { paused = true })

abbrev pub reset : NativeLogScrollState → NativeLogScrollState
reset s = follow_latest (record s { paused = false; hidden_line_count = 0 })

abbrev pub clear_content : NativeLogScrollState → NativeLogScrollState
clear_content s = follow_latest (record s { hidden_line_count = 0 })

abbrev pub mark_history_read : NativeLogScrollState → NativeLogScrollState
mark_history_read s = record s { auto_follow = false; history_read_notice_shown = true }

abbrev pub note_at_bottom : NativeLogScrollState → NativeLogScrollState
note_at_bottom s = follow_latest s

-- The new count, and the state.
unfoldable pub note_hidden_line : NativeLogScrollState → ℕ × NativeLogScrollState
note_hidden_line s =
    let count = (s.hidden_line_count + 1) % 2 ^ 64 in
    (count, record s { hidden_line_count = count })

unfoldable pub should_follow_after_viewport_change : NativeLogScrollState → Bool → Bool
should_follow_after_viewport_change s was_at_bottom =
    not s.paused && (s.auto_follow && was_at_bottom)

-- The end of `followDecision`, with the state after `noteAtBottom`.
unfoldable pub decide_follow :
    NativeLogScrollState → Bool → NativeLogFollowDecision × NativeLogScrollState
decide_follow s at_bottom =
    if s.auto_follow && at_bottom
    then (record { should_follow = true; should_show_history_notice = false }, s)
    else (
      record {
        should_follow = false;
        should_show_history_notice = not s.history_read_notice_shown;
      },
      mark_history_read s,
    )

unfoldable pub follow_decision :
    NativeLogScrollState → Bool → NativeLogFollowDecision × NativeLogScrollState
follow_decision s at_bottom = decide_follow (if at_bottom then note_at_bottom s else s) at_bottom

pub data LogScrollCall : Type 0 where
  toggles pauses resumes resets clears follows reads_history at_bottom hides_line : LogScrollCall
  decides : Bool → LogScrollCall

unfoldable pub log_scroll_call : LogScrollCall → NativeLogScrollState → NativeLogScrollState
log_scroll_call LogScrollCall.toggles s = (toggle_pause s).1
log_scroll_call LogScrollCall.pauses s = pause s
log_scroll_call LogScrollCall.resumes s = resume s
log_scroll_call LogScrollCall.resets s = reset s
log_scroll_call LogScrollCall.clears s = clear_content s
log_scroll_call LogScrollCall.follows s = follow_latest s
log_scroll_call LogScrollCall.reads_history s = mark_history_read s
log_scroll_call LogScrollCall.at_bottom s = note_at_bottom s
log_scroll_call LogScrollCall.hides_line s = (note_hidden_line s).1
log_scroll_call (LogScrollCall.decides bottom) s = (follow_decision s bottom).1

unfoldable pub log_scroll_calls : List LogScrollCall → NativeLogScrollState → NativeLogScrollState
log_scroll_calls [] s = s
log_scroll_calls (c ∷ cs) s = log_scroll_calls cs (log_scroll_call c s)
