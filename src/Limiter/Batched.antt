-- ===== src/Limiter/Batched.antt =====
-- The tokens of the TPMBatcher of inference-gateway/internal/ratelimit/redis.go.
use iterabase_mono.Common.{
  ℕ, ◌+◌, ◌≡◌, refl, ap, inl, inr, Bool, true, false, List, [], ◌∷◌, ltb, ◌==◌, arith, Bool-cases,
  if◌then◌else◌,
}
use iterabase_mono.Limiter.{
  TpmBatcher, new_tpm_batcher, count_of, sum, send_last, add_tokens, receive_from, receive, flush,
  stop, BatcherEvent, added, received, ticked, closed, step_batcher, run_batcher,
}

-- The tokens that the batcher was given.
unfoldable pub given : List BatcherEvent → ℕ
given [] = 0
given (added t ∷ es) = t + given es
given (received ∷ es) = given es
given (ticked ∷ es) = given es
given (closed ∷ es) = given es

-- The tokens that are flushed, dropped, pending or in the channel.
abbrev pub accounted : TpmBatcher → ℕ
accounted b = sum b.flushed + b.dropped + (b.pending + sum b.tokens_ch)

abbrev given_by : BatcherEvent → ℕ
given_by e = given (e ∷ [])

sum-send_last : (t : ℕ) (ts : List ℕ) → sum (send_last t ts) ≡ sum ts + t
unfolding sum send_last
sum-send_last t [] = omega arith
sum-send_last t (x ∷ xs) = let rest = sum-send_last t xs in omega (arith, rest)

add_tokens-accounted : (t : ℕ) (b : TpmBatcher) → accounted (add_tokens t b) ≡ t + accounted b
unfolding add_tokens
add_tokens-accounted t b = elim (Bool-cases (ltb (count_of b.tokens_ch) 256)) [
  | inl room ↦ let grown = sum-send_last t b.tokens_ch in rw room (omega (arith, grown))
  | inr full ↦ rw full (omega arith)
]

receive_from-accounted :
    (ts : List ℕ) (b : TpmBatcher) → b.tokens_ch ≡ ts → accounted (receive_from ts b) ≡ accounted b
unfolding sum
receive_from-accounted [] b e = refl
receive_from-accounted (t ∷ ts) b e =
    let counted : sum b.tokens_ch ≡ t + sum ts = ap sum e in omega (arith, counted)

receive-accounted : (b : TpmBatcher) → accounted (receive b) ≡ accounted b
unfolding receive
receive-accounted b = receive_from-accounted b.tokens_ch b refl

flush-accounted : (b : TpmBatcher) → accounted (flush b) ≡ accounted b
unfolding flush sum
flush-accounted b = elim (Bool-cases (b.pending + sum b.tokens_ch == 0)) [
  | inl nothing ↦ rw nothing (ground (arith, nothing))
  | inr some_left ↦ rw some_left (omega arith)
]

stop-accounted : (b : TpmBatcher) → accounted (stop b) ≡ accounted b
unfolding flush stop
stop-accounted b = flush-accounted b

unless-accounted :
    (over : Bool) (b next : TpmBatcher)
    → accounted next ≡ accounted b
    → accounted (if over then b else next) ≡ accounted b
unless-accounted true b next h = refl
unless-accounted false b next h = h

step_batcher-accounted :
    (e : BatcherEvent) (b : TpmBatcher) → accounted (step_batcher e b) ≡ given_by e + accounted b
unfolding step_batcher given
step_batcher-accounted (added t) b = let h = add_tokens-accounted t b in omega (arith, h)
step_batcher-accounted received b =
    let h = unless-accounted b.stopped b (receive b) (receive-accounted b) in omega (arith, h)
step_batcher-accounted ticked b =
    let h = unless-accounted b.stopped b (flush b) (flush-accounted b) in omega (arith, h)
step_batcher-accounted closed b =
    let h = unless-accounted b.stopped b (stop b) (stop-accounted b) in omega (arith, h)

run-accounted :
    (es : List BatcherEvent) (b : TpmBatcher)
    → accounted (run_batcher es b) ≡ given es + accounted b
unfolding run_batcher given
run-accounted [] b = omega arith
run-accounted (added t ∷ es) b =
    let now = step_batcher-accounted (added t) b in
    let later = run-accounted es (step_batcher (added t) b) in omega (arith, now, later)
run-accounted (received ∷ es) b =
    let now = step_batcher-accounted received b in
    let later = run-accounted es (step_batcher received b) in omega (arith, now, later)
run-accounted (ticked ∷ es) b =
    let now = step_batcher-accounted ticked b in
    let later = run-accounted es (step_batcher ticked b) in omega (arith, now, later)
run-accounted (closed ∷ es) b =
    let now = step_batcher-accounted closed b in
    let later = run-accounted es (step_batcher closed b) in omega (arith, now, later)

-- After any events of a batcher that is not stopped, Stop leaves nothing pending and nothing in the channel, and
-- the tokens that were added are those that were flushed and those that were dropped at a full channel.
pub stop-flushed :
    (es : List BatcherEvent)
    → let b = run_batcher es new_tpm_batcher in
      b.stopped ≡ false
      → let end = step_batcher closed b in
        (end.pending ≡ 0) × (end.tokens_ch ≡ []) × (sum end.flushed + end.dropped ≡ given es)
unfolding step_batcher stop sum
stop-flushed es running =
    let b = run_batcher es new_tpm_batcher in
    let all = run-accounted es new_tpm_batcher in
    elim (Bool-cases (b.pending + sum b.tokens_ch == 0)) [
      | inl nothing ↦
          rw (running, nothing) (ground (arith, nothing), refl, ground (arith, nothing, all))
      | inr some_left ↦ rw (running, some_left) (refl, refl, omega (arith, all))
    ]
