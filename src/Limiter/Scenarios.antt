-- ===== src/Limiter/Scenarios.antt =====
-- A key that may make two requests in a minute, and a stream of tokens.
use iterabase_mono.Common.{ℕ, String, ◌≤◌, ◌+◌, ◌≡◌, refl, false, List, [], ◌∷◌, arith}
use iterabase_mono.Limiter.{
  new_tpm_batcher, count_of, sum, send_last, add_tokens, receive, flush, BatcherEvent, added,
  received, ticked, closed, step_batcher, run_batcher, same_member, remove_expired, current,
  add_member, sliding_window, check_and_increment,
}
use iterabase_mono.Limiter.LetThrough.{let_through, recent, AreDistinct, let_through-le}
use iterabase_mono.Limiter.Batched.{given, stop-flushed}

-- How the script prints the times of a minute.
abbrev printed : ℕ → String
printed n = "1.7e+15"

abbrev three_requests : List (ℕ × ℕ)
three_requests = (100000000, 7) ∷ (100000001, 8) ∷ (100000002, 9) ∷ []

third_refused : let_through printed 2 three_requests [] ≡ 100000000 ∷ 100000001 ∷ []
unfolding let_through check_and_increment sliding_window same_member remove_expired current
    add_member
third_refused = refl

-- A minute after the first request there is room for one.
room_again :
    let_through printed 1 ((100000000, 7) ∷ (160000000, 8) ∷ []) [] ≡ 100000000 ∷ 160000000 ∷ []
unfolding let_through check_and_increment sliding_window same_member remove_expired current
    add_member
room_again = refl

-- Two checks that draw the same number, at times that are printed alike, are one member: the second is let
-- through and not counted.
collided :
    let_through printed 2 ((100000000, 7) ∷ (100000001, 7) ∷ (100000002, 7) ∷ []) []
    ≡ 100000000 ∷ 100000001 ∷ 100000002 ∷ []
unfolding let_through check_and_increment sliding_window same_member remove_expired current
    add_member
collided = refl

three-AreDistinct : AreDistinct printed three_requests
unfolding same_member
three-AreDistinct = ((refl, (refl, tt)), ((refl, tt), (tt, tt)))

let_through-le_example : recent 50000000 (let_through printed 2 three_requests []) ≤ 2
let_through-le_example =
    let_through-le printed 2 50000000 three_requests (omega arith)
      (omega arith, (omega arith, (omega arith, tt))) three-AreDistinct

abbrev stream : List BatcherEvent
stream = added 5 ∷ received ∷ added 3 ∷ ticked ∷ added 2 ∷ []

stream_running : (run_batcher stream new_tpm_batcher).stopped ≡ false
unfolding run_batcher step_batcher add_tokens receive flush sum send_last count_of
stream_running = refl

stop-flushed_example :
    let end = step_batcher closed (run_batcher stream new_tpm_batcher) in
    (end.pending ≡ 0) × (end.tokens_ch ≡ []) × (sum end.flushed + end.dropped ≡ given stream)
stop-flushed_example = stop-flushed stream stream_running
