-- ===== src/Runtime/Calls.antt =====
-- The calls of control-plane/internal/runtime/store.go that write, in any order, each in a transaction.
use iterabase_mono.Common.{ℕ, String, List, [], ◌∷◌}
use iterabase_mono.Common.Result.{Result, ok, err}
use iterabase_mono.Runtime.Rows.{Payload, Database, CreateRunInput, StoreError}
use iterabase_mono.Runtime.Statements.{Tx, ◌>>◌, pure}
use iterabase_mono.Runtime.Transitions.{
  create_run, start_run, succeed_run, fail_run, abort_run, await_approval, resume_from_approval,
  start_step, succeed_step, fail_step, skip_step,
}
use iterabase_mono.Runtime.Settlement.{
  start_turn, settle_turn, settle_turn_and_advance, append_event,
}

pub data Op : Type 0 where
  creating : String → (ℕ → String) → CreateRunInput → Op
  starting_run succeeding_run failing_run aborting_run awaiting_run resuming_run : String → Op
  starting_step succeeding_step failing_step skipping_step : String → Op
  starting_turn : String → String → String → String → Op
  settling : String → String → ℕ → Op
  advancing : String → String → Op
  appending : String → String → String → String → Payload → Op

abbrev pub done : {A : Type 0} → Tx A → Tx (Unit {0})
done m = m >> pure tt

-- One operation at a time.
unfoldable pub perform : ℕ → Op → Tx (Unit {0})
perform now (creating id ids input) = done (create_run now id ids input)
perform now (starting_run id) = done (start_run now id)
perform now (succeeding_run id) = done (succeed_run now id)
perform now (failing_run id) = done (fail_run now id)
perform now (aborting_run id) = done (abort_run now id)
perform now (awaiting_run id) = done (await_approval now id)
perform now (resuming_run id) = done (resume_from_approval now id)
perform now (starting_step id) = done (start_step now id)
perform now (succeeding_step id) = done (succeed_step now id)
perform now (failing_step id) = done (fail_step now id)
perform now (skipping_step id) = done (skip_step now id)
perform now (starting_turn id run step name) = done (start_turn now id run step name)
perform now (settling id reason count) = done (settle_turn now id reason count)
perform now (advancing id reason) = done (settle_turn_and_advance now id reason)
perform now (appending run turn step kind payload) =
    done (append_event now run turn step kind payload)

-- A transaction that fails is rolled back.
abbrev pub committed : Database → Result StoreError (Unit {0} × Database) → Database
committed db (err e) = db
committed db (ok (_, db')) = db'

-- A sequence of operations with the times of their transactions.
unfoldable pub after : List (ℕ × Op) → Database → Database
after [] db = db
after ((now, op) ∷ ops) db = after ops (committed db (perform now op db))
