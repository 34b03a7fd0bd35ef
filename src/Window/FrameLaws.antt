-- ===== src/Window/FrameLaws.antt =====
-- What the frame scheduler keeps over any calls.
use serial_value_matcher_nat.Base.{
  ℕ, zero, suc, ◌+◌, ◌*◌, ◌/◌, ◌%◌, ◌≤◌, ◌<◌, min, max, ◌≡◌, refl, ap, ◌≢◌, inl, inr, true, List,
  [], ◌∷◌, arith, ◌==◌, if◌then◌else◌, ==_iff, Bool-cases, All, length, ◌^◌,
}
use serial_value_matcher_nat.Window.FrameScheduler.{
  NativeFrameReason, reason_bits, native_frame_has_reason, NativeFrameSchedulerStats,
  NativeFrameScheduler, new_scheduler, request_frame, request_resize, request_splitter_drag,
  consume_frame, mark_post_failed, FrameCall, call, run_calls,
}
use Prim.Native.Nat.{bit_and, bit_or}
use serial_value_matcher_nat.Base.Bits.{bit_and_low, bit_or_low, bit_and-zero_fuel}

abbrev queued_count : NativeFrameScheduler → ℕ
queued_count s = if s.frame_queued then 1 else 0

-- Every request is posted or coalesced, and every post that failed or is queued was made.
pub record IsBalanced (s : NativeFrameScheduler) : Type 0 where
  pub requests : s.stats.requested_frames ≡ s.stats.post_requests + s.stats.coalesced_requests
  pub posts : s.stats.post_failures + queued_count s ≤ s.stats.post_requests
  pub queued : s.frame_queued ≡ true → s.pending.reasons ≢ 0
  pub consumed :
      s.stats.consumed_frames + (if s.pending.reasons == 0 then 0 else 1) ≤ s.stats.requested_frames

bit_or-half :
    (x b : ℕ) → (bit_or x b / 2 ≡ bit_or (x / 2) (b / 2)) × (bit_or x b % 2 ≡ max (x % 2) (b % 2))
bit_or-half x b = (omega (arith, bit_or_low x b), omega (arith, bit_or_low x b))

-- One bit at a time of `&` on an `|`.
bit_and-bit_or_low :
    (x b r : ℕ)
    → bit_and (bit_or x b) r
      ≡ bit_and (bit_or (x / 2) (b / 2)) (r / 2) * 2 + min (max (x % 2) (b % 2)) (r % 2)
bit_and-bit_or_low x b r =
    let halves = bit_or-half x b in
    omega (arith, bit_and_low (bit_or x b) r, halves.1, ap (λ (t : ℕ). bit_and t (r / 2)) halves.0)

-- Bits that are set stay set when others are added, and the added ones are set.
bit_and-bit_or :
    (n x b r : ℕ)
    → r ≤ n
    → (bit_and x r ≤ bit_and (bit_or x b) r) × (bit_and b r ≤ bit_and (bit_or x b) r)
bit_and-bit_or zero x b r h =
    let e : r ≡ 0 = omega (arith, h) in
    rw (e) (
      omega (arith, bit_and-zero_fuel x x (omega arith)),
      omega (arith, bit_and-zero_fuel b b (omega arith)),
    )
bit_and-bit_or (suc n) x b r h = elim (Bool-cases (r == 0)) [
  | inl e ↦ rw ((==_iff r 0).0 e) (
    omega (arith, bit_and-zero_fuel x x (omega arith)),
    omega (arith, bit_and-zero_fuel b b (omega arith)),
  )
  | inr more ↦
      let half : r / 2 ≤ n = ground (arith, h, more) in
      let later = bit_and-bit_or n (x / 2) (b / 2) (r / 2) half in
      (
        omega (arith, bit_and_low x r, bit_and-bit_or_low x b r, later.0),
        omega (arith, bit_and_low b r, bit_and-bit_or_low x b r, later.1),
      )
]

reason_itself : (r : NativeFrameReason) → bit_and (reason_bits r) (reason_bits r) ≡ reason_bits r
reason_itself NativeFrameReason.resize = refl
reason_itself NativeFrameReason.splitter_drag = refl
reason_itself NativeFrameReason.tab_switch = refl
reason_itself NativeFrameReason.log_flush = refl
reason_itself NativeFrameReason.status = refl
reason_itself NativeFrameReason.progress = refl
reason_itself NativeFrameReason.settle = refl

reason_positive : (r : NativeFrameReason) → 0 < reason_bits r
reason_positive NativeFrameReason.resize = omega arith
reason_positive NativeFrameReason.splitter_drag = omega arith
reason_positive NativeFrameReason.tab_switch = omega arith
reason_positive NativeFrameReason.log_flush = omega arith
reason_positive NativeFrameReason.status = omega arith
reason_positive NativeFrameReason.progress = omega arith
reason_positive NativeFrameReason.settle = omega arith

-- The bits of a reason are in a word that they were added to.
has_reason-added :
    (bits : ℕ) (r : NativeFrameReason)
    → native_frame_has_reason (bit_or bits (reason_bits r)) r ≡ true
unfolding native_frame_has_reason
has_reason-added bits r = ground (
  arith,
  (bit_and-bit_or (reason_bits r) bits (reason_bits r) (reason_bits r) (omega arith)).1,
  reason_itself r,
  reason_positive r,
)

has_reason-kept :
    (bits more : ℕ) (r : NativeFrameReason)
    → native_frame_has_reason bits r ≡ true
    → native_frame_has_reason (bit_or bits more) r ≡ true
unfolding native_frame_has_reason
has_reason-kept bits more r h =
    ground (arith, (bit_and-bit_or (reason_bits r) bits more (reason_bits r) (omega arith)).0, h)

has_reason-nonzero :
    (bits : ℕ) (r : NativeFrameReason) → native_frame_has_reason bits r ≡ true → bits ≢ 0
unfolding native_frame_has_reason
has_reason-nonzero bits r h e =
    let none = ap (λ (t : ℕ). bit_and t (reason_bits r)) e in ground (arith, h, none)

request_frame-IsBalanced :
    (reason : NativeFrameReason) (s : NativeFrameScheduler)
    → IsBalanced s
    → IsBalanced (request_frame reason s).1
unfolding request_frame
request_frame-IsBalanced reason s b =
    let added = has_reason-nonzero _ reason (has_reason-added s.pending.reasons reason) in
    record {
      requests = ground (arith, b.requests);
      posts = ground (arith, b.posts);
      queued = λ h. ground (arith, added);
      consumed = ground (arith, b.consumed);
    }

call-IsBalanced : (c : FrameCall) (s : NativeFrameScheduler) → IsBalanced s → IsBalanced (call c s)
unfolding call request_resize request_splitter_drag consume_frame mark_post_failed
call-IsBalanced (FrameCall.resize width height) s b =
    request_frame-IsBalanced NativeFrameReason.resize _
      (record { requests = b.requests; posts = b.posts; queued = b.queued; consumed = b.consumed })
call-IsBalanced (FrameCall.splitter_drag width height workbench) s b =
    request_frame-IsBalanced NativeFrameReason.splitter_drag _
      (record { requests = b.requests; posts = b.posts; queued = b.queued; consumed = b.consumed })
call-IsBalanced (FrameCall.request reason) s b = request_frame-IsBalanced reason s b
call-IsBalanced FrameCall.consume s b = record {
  requests = ground (arith, b.requests);
  posts = ground (arith, b.posts);
  queued = λ h. cc h;
  consumed = ground (arith, b.consumed);
}
call-IsBalanced FrameCall.post_failed s b = record {
  requests = ground (arith, b.requests);
  posts = ground (arith, b.posts);
  queued = ground (arith, b.queued);
  consumed = ground (arith, b.consumed);
}

call-requested_frames :
    (c : FrameCall) (s : NativeFrameScheduler)
    → (call c s).stats.requested_frames ≤ s.stats.requested_frames + 1
unfolding call request_resize request_splitter_drag request_frame consume_frame mark_post_failed
call-requested_frames (FrameCall.resize width height) s = ground arith
call-requested_frames (FrameCall.splitter_drag width height workbench) s = ground arith
call-requested_frames (FrameCall.request reason) s = ground arith
call-requested_frames FrameCall.consume s = ground arith
call-requested_frames FrameCall.post_failed s = ground arith

run_calls-requested_frames :
    (calls : List FrameCall) (s : NativeFrameScheduler)
    → (run_calls calls s).stats.requested_frames ≤ s.stats.requested_frames + length calls
unfolding run_calls
run_calls-requested_frames [] s = omega arith
run_calls-requested_frames (c ∷ calls) s =
    omega (arith, run_calls-requested_frames calls (call c s), call-requested_frames c s)

-- Counters that an `int` holds.
pub record IsCounted (s : NativeFrameSchedulerStats) : Type 0 where
  pub requested_fit : s.requested_frames < 2 ^ 31
  pub posted_fit : s.post_requests < 2 ^ 31
  pub coalesced_fit : s.coalesced_requests < 2 ^ 31
  pub consumed_fit : s.consumed_frames < 2 ^ 31
  pub failed_fit : s.post_failures < 2 ^ 31

run-IsBalanced :
    (calls : List FrameCall) (s : NativeFrameScheduler)
    → IsBalanced s
    → IsBalanced (run_calls calls s)
unfolding run_calls
run-IsBalanced [] s b = b
run-IsBalanced (c ∷ calls) s b = run-IsBalanced calls (call c s) (call-IsBalanced c s b)

-- Over fewer than 2 ^ 31 calls on a new scheduler no counter leaves the `int` that it is, every request is posted or coalesced, no more posts are queued or
-- have failed than were made, a queued frame has a reason, and no more frames are consumed than
-- were requested.
pub run_calls-IsBalanced :
    (calls : List FrameCall)
    → length calls < 2 ^ 31
    → IsBalanced (run_calls calls new_scheduler) × IsCounted (run_calls calls new_scheduler).stats
run_calls-IsBalanced calls few =
    let counted = run_calls-requested_frames calls new_scheduler in
    let b = run-IsBalanced calls new_scheduler (record {
      requests = refl;
      posts = omega arith;
      queued = λ h. cc h;
      consumed = omega arith;
    }) in
    let fewer : (run_calls calls new_scheduler).stats.requested_frames < 2 ^ 31 =
      omega (arith, counted, few) in
    (
      b,
      record {
        requested_fit = fewer;
        posted_fit = omega (arith, b.requests, fewer);
        coalesced_fit = omega (arith, b.requests, fewer);
        consumed_fit = omega (arith, b.consumed, fewer);
        failed_fit = omega (arith, b.requests, b.posts, fewer);
      },
    )

-- No frame is consumed by the calls.
abbrev pub IsWaiting : FrameCall → Type 0
IsWaiting FrameCall.consume = ⊥
IsWaiting (FrameCall.resize width height) = Unit
IsWaiting (FrameCall.splitter_drag width height workbench) = Unit
IsWaiting (FrameCall.request reason) = Unit
IsWaiting FrameCall.post_failed = Unit

call-keeps :
    (c : FrameCall) (r : NativeFrameReason) (s : NativeFrameScheduler)
    → IsWaiting c
    → native_frame_has_reason s.pending.reasons r ≡ true
    → native_frame_has_reason (call c s).pending.reasons r ≡ true
unfolding call request_resize request_splitter_drag request_frame consume_frame mark_post_failed
call-keeps (FrameCall.resize width height) r s w h =
    ground (arith, has_reason-kept s.pending.reasons 1 r h)
call-keeps (FrameCall.splitter_drag width height workbench) r s w h =
    ground (arith, has_reason-kept s.pending.reasons 2 r h)
call-keeps (FrameCall.request reason) r s w h =
    ground (arith, has_reason-kept s.pending.reasons (reason_bits reason) r h)
call-keeps FrameCall.consume r s w h = absurd w
call-keeps FrameCall.post_failed r s w h = ground (arith, h)

-- A requested frame keeps its reason until a frame is consumed, whatever is requested or fails to be
-- posted in between.
pub run_calls-requested :
    (reason : NativeFrameReason) (calls : List FrameCall) (s : NativeFrameScheduler)
    → All IsWaiting calls
    → native_frame_has_reason
        (run_calls calls (call (FrameCall.request reason) s)).pending.reasons
        reason
      ≡ true
unfolding run_calls call request_frame
run_calls-requested reason calls s waiting =
    keeps calls (call (FrameCall.request reason) s) waiting
      (ground (arith, has_reason-added s.pending.reasons reason))
  where
    keeps :
        (calls : List FrameCall) (t : NativeFrameScheduler)
        → All IsWaiting calls
        → native_frame_has_reason t.pending.reasons reason ≡ true
        → native_frame_has_reason (run_calls calls t).pending.reasons reason ≡ true
    keeps [] t w h = h
    keeps (c ∷ calls) t w h = keeps calls (call c t) w.1 (call-keeps c reason t w.0 h)
