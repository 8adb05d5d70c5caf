-- ===== src/Limiter.antt =====
-- The rate limiter of inference-gateway/internal/ratelimit/redis.go for one key: CheckRPM, CheckTPM and
-- IncrementTPM over the key's sorted set in Redis, with the script that they run, and the TPMBatcher. The time
-- is in microseconds after the epoch, and the first window after the epoch is cut off at it. How the script
-- prints a number, and the number it draws, are arguments. The expiry of a whole key is left out.
pub mod Window
pub mod LetThrough
pub mod Batched
pub mod Scenarios
use iterabase_mono.Common.{
  ℕ, String, ◌+◌, ◌-◌, Bool, true, false, not, ◌&&◌, List, [], ◌∷◌, leb, ltb, ◌==◌, ◌==ₛ◌,
  if◌then◌else◌,
}

-- "count:now:random", with `now` as it is printed.
pub record Member : Type 0 where
  pub count : ℕ
  pub now : String
  pub random : ℕ

-- A member with its score.
pub record Entry : Type 0 where
  pub member : Member
  pub score : ℕ

pub record Outcome : Type 0 where
  pub allowed : Bool
  pub limit : ℕ
  pub remaining : ℕ
  pub reset_at : ℕ

abbrev pub window_size : ℕ
window_size = 60000000

unfoldable pub same_member : Member → Member → Bool
same_member m n = m.count == n.count && (m.now ==ₛ n.now && m.random == n.random)

-- ZREMRANGEBYSCORE from -inf to the start of the window, the start included.
unfoldable pub remove_expired : ℕ → List Entry → List Entry
remove_expired start [] = []
remove_expired start (e ∷ es) =
    let rest = remove_expired start es in if leb e.score start then rest else e ∷ rest

-- The sum of the counts of ZRANGEBYSCORE from the start of the window, the start included. Every
-- member is the script's, so it starts with its count.
unfoldable pub current : ℕ → List Entry → ℕ
current start [] = 0
current start (e ∷ es) =
    let rest = current start es in if leb start e.score then e.member.count + rest else rest

-- ZADD: an entry of the same member is given the new score.
unfoldable pub add_member : Entry → List Entry → List Entry
add_member e [] = e ∷ []
add_member e (x ∷ xs) =
    let rest = add_member e xs in if same_member e.member x.member then e ∷ xs else x ∷ rest

-- The script: the sum, whether the entry was added, and the set.
unfoldable pub sliding_window :
    (ℕ → String) → (start now limit count random : ℕ) → List Entry → ℕ × Bool × List Entry
sliding_window print start now limit count random es =
    let kept = remove_expired start es in
    let used = current start kept in
    let e : Entry = record {
      member = record { count = count; now = print now; random = random };
      score = now;
    } in
    if not (limit == 0) && ltb limit (used + count)
    then (used, false, kept)
    else (used, true, add_member e kept)

-- A `remaining` below 0 is set to 0.
abbrev pub remaining_of : (limit used count : ℕ) → Bool → ℕ
remaining_of limit used count true = limit - used - count
remaining_of limit used count false = limit - used

unfoldable pub check_and_increment :
    (ℕ → String) → (now limit count random : ℕ) → List Entry → Outcome × List Entry
check_and_increment print now limit count random es =
    let (used, allowed, after) =
      sliding_window print (now - window_size) now limit count random es in
    (
      record {
        allowed = allowed;
        limit = limit;
        remaining = if limit == 0 then 0 else remaining_of limit used count allowed;
        reset_at = now + window_size;
      },
      after,
    )

-- The check without the script: nothing is removed.
unfoldable pub check : (now limit : ℕ) → List Entry → Outcome
check now limit es =
    let used = current (now - window_size) es in
    record {
      allowed = ltb used limit;
      limit = limit;
      remaining = limit - used;
      reset_at = now + window_size;
    }

abbrev pub check_rpm : (ℕ → String) → (now limit random : ℕ) → List Entry → Outcome × List Entry
check_rpm print now limit random es = check_and_increment print now limit 1 random es

abbrev pub check_tpm : (now limit : ℕ) → List Entry → Outcome
check_tpm now limit es = check now limit es

unfoldable pub increment_tpm : (ℕ → String) → (now tokens random : ℕ) → List Entry → List Entry
increment_tpm print now tokens random es =
    if tokens == 0 then es else (check_and_increment print now 0 tokens random es).1

-- The batcher, with the calls of IncrementTPM it has made and the tokens that found the channel full.
pub record TpmBatcher : Type 0 where
  pub pending : ℕ
  pub tokens_ch : List ℕ
  pub flushed : List ℕ
  pub dropped : ℕ
  pub stopped : Bool

abbrev pub new_tpm_batcher : TpmBatcher
new_tpm_batcher = record { pending = 0; tokens_ch = []; flushed = []; dropped = 0; stopped = false }

unfoldable pub count_of : List ℕ → ℕ
count_of [] = 0
count_of (_ ∷ ts) = count_of ts + 1

unfoldable pub sum : List ℕ → ℕ
sum [] = 0
sum (t ∷ ts) = t + sum ts

unfoldable pub send_last : ℕ → List ℕ → List ℕ
send_last t [] = t ∷ []
send_last t (x ∷ xs) = x ∷ send_last t xs

-- `Add`: the channel has room for 256.
unfoldable pub add_tokens : ℕ → TpmBatcher → TpmBatcher
add_tokens t b =
    if ltb (count_of b.tokens_ch) 256
    then record b { tokens_ch = send_last t b.tokens_ch }
    else record b { dropped = b.dropped + t }

abbrev pub receive_from : List ℕ → TpmBatcher → TpmBatcher
receive_from [] b = b
receive_from (t ∷ ts) b = record b { pending = b.pending + t; tokens_ch = ts }

-- `case tokens := <-b.tokensCh` of the loop.
unfoldable pub receive : TpmBatcher → TpmBatcher
receive b = receive_from b.tokens_ch b

abbrev pub drain_tokens : TpmBatcher → TpmBatcher
drain_tokens b = record b { pending = b.pending + sum b.tokens_ch; tokens_ch = [] }

abbrev pub increment_pending : TpmBatcher → TpmBatcher
increment_pending b =
    if b.pending == 0 then b else record b { pending = 0; flushed = b.pending ∷ b.flushed }

unfoldable pub flush : TpmBatcher → TpmBatcher
flush b = increment_pending (drain_tokens b)

-- `Stop`: the loop drains the channel and ends, and the rest is flushed.
unfoldable pub stop : TpmBatcher → TpmBatcher
stop b = record (increment_pending (drain_tokens b)) { stopped = true }

pub data BatcherEvent : Type 0 where
  added : ℕ → BatcherEvent
  received ticked closed : BatcherEvent

-- The loop takes no event once it has ended.
unfoldable pub step_batcher : BatcherEvent → TpmBatcher → TpmBatcher
step_batcher (added t) b = add_tokens t b
step_batcher received b = if b.stopped then b else receive b
step_batcher ticked b = if b.stopped then b else flush b
step_batcher closed b = if b.stopped then b else stop b

unfoldable pub run_batcher : List BatcherEvent → TpmBatcher → TpmBatcher
run_batcher [] b = b
run_batcher (e ∷ es) b = run_batcher es (step_batcher e b)
