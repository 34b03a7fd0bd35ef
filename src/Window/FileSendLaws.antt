-- ===== src/Window/FileSendLaws.antt =====
-- The progress of a file send.
use serial_value_matcher_nat.Base.{
  ℕ, ◌*◌, ◌/◌, ◌%◌, ◌^◌, ◌≤◌, ◌<◌, min, ◌≡◌, ◌↔◌, true, List, [], ◌∷◌, arith,
}
use serial_value_matcher_nat.Window.FileSend.{
  NativeFileSendState, new_file_send, Files, progress_permille, mark_bytes_written, done, close,
  open_file, FileSendCall, send_call, send_calls,
}
use native.Mathlib.Nat.{le-div_iff_mul-le}

-- The progress of a state: what is sent of what there is, the permille, and the end.
pub record IsProgress (s : NativeFileSendState) : Type 0 where
  pub within : s.sent_bytes ≤ s.total_bytes
  pub permille_within : progress_permille s ≤ 1000
  pub permille_full :
      0 < s.total_bytes
      → s.total_bytes * 1000 < 2 ^ 64
      → (progress_permille s ≡ 1000) ↔ (s.sent_bytes ≡ s.total_bytes)
  pub done_full : (done s ≡ true) ↔ ((s.active ≡ true) × (s.sent_bytes ≡ s.total_bytes))

min_full :
    (sent total : ℕ)
    → 0 < total
    → total * 1000 < 2 ^ 64
    → sent ≤ total
    → (min 1000 (sent * 1000 % 2 ^ 64 / total) ≡ 1000) ↔ (sent ≡ total)
min_full sent total some_bytes fits within =
    let exact : sent * 1000 % 2 ^ 64 ≡ sent * 1000 = omega (arith, fits, within) in
    let full = le-div_iff_mul-le {k = total} {x = 1000} {y = sent * 1000} some_bytes in
    rw (exact) ground (arith, full)

within-IsProgress : (s : NativeFileSendState) → s.sent_bytes ≤ s.total_bytes → IsProgress s
unfolding progress_permille done
within-IsProgress s h = record {
  within = h;
  permille_within = ground arith;
  permille_full = λ some_bytes fits.
      ground (arith, min_full s.sent_bytes s.total_bytes some_bytes fits h, some_bytes);
  done_full = ground (arith, h);
}

module _ {World : Type 0} (files : Files World) where
  send_call-within :
      (c : FileSendCall) (s : NativeFileSendState) (world : World)
      → s.sent_bytes ≤ s.total_bytes
      → (send_call files c s world).0.sent_bytes ≤ (send_call files c s world).0.total_bytes
  unfolding send_call open_file close mark_bytes_written
  send_call-within (FileSendCall.opens path) s world h = ground (arith, h)
  send_call-within (FileSendCall.wrote n) s world h = ground (arith, h)
  send_call-within (FileSendCall.names path) s world h = h
  send_call-within FileSendCall.closes s world h = h

  -- Over any calls on a new state no more bytes are sent than the file has, the permille is at most
  -- 1000, for a file that is not empty and of fewer than 2 ^ 64 / 1000 bytes it is 1000 exactly when
  -- all bytes are sent, and the send is done exactly when it is active and all bytes are sent.
  pub send_calls-IsProgress :
      (calls : List FileSendCall) (world : World)
      → IsProgress (send_calls files calls new_file_send world).0
  unfolding send_calls
  send_calls-IsProgress calls world =
      within-IsProgress (send_calls files calls new_file_send world).0
        (run_from calls new_file_send world (omega arith))
    where
      run_from :
          (calls : List FileSendCall) (s : NativeFileSendState) (world : World)
          → s.sent_bytes ≤ s.total_bytes
          → (send_calls files calls s world).0.sent_bytes
            ≤ (send_calls files calls s world).0.total_bytes
      run_from [] s world h = h
      run_from (c ∷ calls) s world h =
          let next = send_call files c s world in
          run_from calls next.0 next.1 (send_call-within c s world h)
