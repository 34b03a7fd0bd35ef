-- ===== src/Window/LogScrollLaws.antt =====
-- What the state of the log view keeps over any calls.
use serial_value_matcher_nat.Base.{◌≡◌, refl, Bool, true, false, not, List, [], ◌∷◌, arith, ◌&&◌}
use serial_value_matcher_nat.Window.LogScroll.{
  NativeLogScrollState, new_log_scroll, toggle_pause, note_hidden_line, decide_follow,
  follow_decision, LogScrollCall, log_scroll_call, log_scroll_calls,
}

-- A state whose notice has been shown exactly while the view does not follow.
abbrev IsNoticed : NativeLogScrollState → Type 0
IsNoticed s = s.history_read_notice_shown ≡ not s.auto_follow

call-IsNoticed :
    (c : LogScrollCall) (s : NativeLogScrollState) → IsNoticed s → IsNoticed (log_scroll_call c s)
unfolding log_scroll_call toggle_pause note_hidden_line decide_follow follow_decision
call-IsNoticed LogScrollCall.toggles s h = ground (arith, h)
call-IsNoticed LogScrollCall.pauses s h = h
call-IsNoticed LogScrollCall.resumes s h = h
call-IsNoticed LogScrollCall.resets s h = refl
call-IsNoticed LogScrollCall.clears s h = refl
call-IsNoticed LogScrollCall.follows s h = refl
call-IsNoticed LogScrollCall.reads_history s h = refl
call-IsNoticed LogScrollCall.at_bottom s h = refl
call-IsNoticed LogScrollCall.hides_line s h = h
call-IsNoticed (LogScrollCall.decides true) s h = refl
call-IsNoticed (LogScrollCall.decides false) s h = ground (arith, h)

calls-IsNoticed :
    (cs : List LogScrollCall) (s : NativeLogScrollState)
    → IsNoticed s
    → IsNoticed (log_scroll_calls cs s)
unfolding log_scroll_calls
calls-IsNoticed [] s h = h
calls-IsNoticed (c ∷ cs) s h = calls-IsNoticed cs (log_scroll_call c s) (call-IsNoticed c s h)

-- What a decision says of the view before and after it.
pub record IsFollowedBy (s : NativeLogScrollState) (at_bottom : Bool) : Type 0 where
  pub follows : (follow_decision s at_bottom).0.should_follow ≡ at_bottom
  pub stays : (follow_decision s at_bottom).1.auto_follow ≡ at_bottom
  pub notice :
      (follow_decision s at_bottom).0.should_show_history_notice ≡ (s.auto_follow && not at_bottom)

noticed-IsFollowedBy :
    (s : NativeLogScrollState) (at_bottom : Bool) → IsNoticed s → IsFollowedBy s at_bottom
unfolding follow_decision decide_follow
noticed-IsFollowedBy s true h = record { follows = refl; stays = refl; notice = ground arith }
noticed-IsFollowedBy s false h = record {
  follows = ground arith;
  stays = ground arith;
  notice = ground (arith, h);
}

-- After any calls from a new state, a decision follows the newest line exactly when the view is at
-- the bottom, the state then follows exactly in that case, and the notice about reading the
-- history is shown exactly when the view was following and is no longer at the bottom.
pub log_scroll_calls-IsFollowedBy :
    (cs : List LogScrollCall) (at_bottom : Bool)
    → IsFollowedBy (log_scroll_calls cs new_log_scroll) at_bottom
log_scroll_calls-IsFollowedBy cs at_bottom =
    noticed-IsFollowedBy (log_scroll_calls cs new_log_scroll) at_bottom
      (calls-IsNoticed cs new_log_scroll refl)
