-- ===== src/Gateway/Delivery.antt =====
-- Which result a dispatch of control-plane/internal/gateway/runnerpool.go takes, over everything that
-- may happen to its connection while it waits.
use iterabase_mono.Common.{
  String, ◌≡◌, ◌≢◌, refl, sym, ap, ◌∙◌, subst, inl, inr, false, Option, none, some, List, [], ◌∷◌,
  arith, eq_iff, Bool-cases, Option-cases, ◌==ₛ◌, if◌then◌else◌,
}
use iterabase_mono.Common.Dict.{lookup, delete, lookup-insert, lookup-delete}
use iterabase_mono.Gateway.Runner.{
  DispatchResult, lost, Pending, RunnerConn, register_tool, retire_tool, begin_dispatch,
  end_dispatch, offer, deliver, lose_all, close_runner, lose_pending,
}

pub data Event : Type 0 where
  reported : String → DispatchResult → Event
  begun ended : String → Event
  registered retired : String → String → Event
  closed stream_over : Event

unfoldable pub handle : Event → RunnerConn → RunnerConn
unfolding deliver begin_dispatch end_dispatch register_tool retire_tool close_runner lose_pending
handle (reported invocation r) rc = (deliver invocation r rc).0
handle (begun invocation) rc = (begin_dispatch invocation rc).0
handle (ended invocation) rc = end_dispatch invocation rc
handle (registered name digest) rc = register_tool name digest rc
handle (retired name digest) rc = retire_tool name digest rc
handle closed rc = close_runner rc
handle stream_over rc = lose_pending rc

unfoldable pub handle_all : List Event → RunnerConn → RunnerConn
unfolding handle
handle_all [] rc = rc
handle_all (e ∷ es) rc = handle_all es (handle e rc)

-- The first report of the invocation, or the end of the stream, whichever comes first.
unfoldable pub first_result : String → List Event → Option DispatchResult
first_result invocation [] = none
first_result invocation (reported other r ∷ es) =
    if other ==ₛ invocation then some r else first_result invocation es
first_result invocation (stream_over ∷ es) = some lost
first_result invocation (_ ∷ es) = first_result invocation es

-- An invocation is dispatched once: no other dispatch begins or ends under its id.
abbrev pub IsForeign : String → Event → Type 0
IsForeign invocation (begun other) = other ≢ invocation
IsForeign invocation (ended other) = other ≢ invocation
IsForeign invocation _ = Unit

abbrev pub AreForeign : String → List Event → Type 0
AreForeign invocation [] = Unit
AreForeign invocation (e ∷ es) = IsForeign invocation e × AreForeign invocation es

abbrev settle : Option DispatchResult → Option DispatchResult → Option DispatchResult
settle none later = later
settle (some r) later = some r

lookup-lose_all :
    (key : String) (m : Pending) (ch : Option DispatchResult)
    → lookup key m ≡ some ch
    → lookup key (lose_all m) ≡ some (offer ch lost)
unfolding lookup lose_all
lookup-lose_all key [] ch e = cc
lookup-lose_all key ((other, c) ∷ rest) ch e = elim (Bool-cases (other ==ₛ key)) [
  | inl same ↦
      let f : some c ≡ some ch = rw same at e in
      let q : c ≡ ch = ground (arith, f) in rw same (ap (λ x. some (offer x lost)) q)
  | inr differs ↦ rw differs (lookup-lose_all key rest ch (rw differs at e))
]

lookup-deliver :
    (invocation other : String) (r : DispatchResult) (rc : RunnerConn) (ch : Option DispatchResult)
    → lookup invocation rc.pending ≡ some ch
    → lookup invocation (deliver other r rc).0.pending
      ≡ some (if other ==ₛ invocation then offer ch r else ch)
unfolding deliver
lookup-deliver invocation other r rc ch e = elim (Bool-cases (other ==ₛ invocation)) [
  | inl same ↦
      let q = (eq_iff other invocation).0 same in
      let f : lookup other rc.pending ≡ some ch =
        subst (λ k. lookup k rc.pending ≡ some ch) (sym q) e in
      rw (f, deliver) (lookup-insert other invocation (offer ch r) rc.pending ∙ rw same)
  | inr differs ↦ elim (Option-cases (lookup other rc.pending)) [
    | inl f ↦ rw (f, deliver) (rw differs e)
    | inr (c, f) ↦
        rw (f, deliver) (lookup-insert other invocation (offer c r) rc.pending ∙ rw differs e)
  ]
]

lookup-begin_dispatch :
    (invocation other : String) (rc : RunnerConn) (ch : Option DispatchResult)
    → other ≢ invocation
    → lookup invocation rc.pending ≡ some ch
    → lookup invocation (begin_dispatch other rc).0.pending ≡ some ch
unfolding begin_dispatch
lookup-begin_dispatch invocation other rc ch d e = elim (Bool-cases rc.closed) [
  | inl shut ↦ rw shut e
  | inr live ↦ rw live (
      lookup-insert other invocation none rc.pending
      ∙ ground (arith, e, d, eq_iff other invocation))
]

settle-offer :
    (ch later : Option DispatchResult) (r : DispatchResult)
    → settle (offer ch r) later ≡ settle ch (some r)
settle-offer none later r = refl
settle-offer (some old) later r = refl

handle_all-settle :
    (invocation : String) (es : List Event) (rc : RunnerConn) (ch : Option DispatchResult)
    → AreForeign invocation es
    → lookup invocation rc.pending ≡ some ch
    → lookup invocation (handle_all es rc).pending ≡ some (settle ch (first_result invocation es))
unfolding handle_all first_result
handle_all-settle invocation [] rc none f e = e
handle_all-settle invocation [] rc (some r) f e = e
handle_all-settle invocation (reported other r ∷ es) rc ch f e =
    let now = lookup-deliver invocation other r rc ch e in
    let later = handle_all-settle invocation es (deliver other r rc).0 _ f.1 now in
    later ∙ elim (Bool-cases (other ==ₛ invocation)) [
      | inl same ↦ rw same (ap some (settle-offer ch _ r))
      | inr differs ↦ rw differs
    ]
handle_all-settle invocation (begun other ∷ es) rc ch f e =
    handle_all-settle invocation es (begin_dispatch other rc).0 ch f.1
      (lookup-begin_dispatch invocation other rc ch f.0 e)
handle_all-settle invocation (ended other ∷ es) rc ch f e =
    handle_all-settle invocation es (end_dispatch other rc) ch f.1 (
      unfold end_dispatch in
      lookup-delete other invocation rc.pending ∙ ground (arith, e, f.0, eq_iff other invocation))
handle_all-settle invocation (registered name digest ∷ es) rc ch f e =
    handle_all-settle invocation es (register_tool name digest rc) ch f.1
      (unfold register_tool in e)
handle_all-settle invocation (retired name digest ∷ es) rc ch f e =
    handle_all-settle invocation es (retire_tool name digest rc) ch f.1 (unfold retire_tool in e)
handle_all-settle invocation (closed ∷ es) rc ch f e =
    handle_all-settle invocation es (close_runner rc) ch f.1 (unfold close_runner in e)
handle_all-settle invocation (stream_over ∷ es) rc ch f e =
    handle_all-settle invocation es (lose_pending rc) (offer ch lost) f.1
      (unfold lose_pending in lookup-lose_all invocation rc.pending ch e)
    ∙ ap some (settle-offer ch _ lost)

-- On an open connection a dispatch finds in its channel the runner's first report of the invocation, or
-- the loss of the stream where that came first, whatever else happens to the connection; a later report
-- never replaces it.
pub dispatch-first_result :
    (invocation : String) (es : List Event) (rc : RunnerConn)
    → rc.closed ≡ false
    → AreForeign invocation es
    → lookup invocation (handle_all es (begin_dispatch invocation rc).0).pending
      ≡ some (first_result invocation es)
dispatch-first_result invocation es rc live f =
    handle_all-settle invocation es (begin_dispatch invocation rc).0 none f (
      unfold begin_dispatch in
      rw live (
        lookup-insert invocation invocation none rc.pending
        ∙ ground (arith, eq_iff invocation invocation)))

-- Once its dispatch has ended, a report of the invocation is refused and changes nothing, and the entries
-- of the other invocations are as they were.
pub deliver-end_dispatch :
    (invocation : String) (r : DispatchResult) (rc : RunnerConn)
    → let rc' = end_dispatch invocation rc in
      (deliver invocation r rc' ≡ (rc', false))
      × ((other : String) → other ≢ invocation → lookup other rc'.pending ≡ lookup other rc.pending)
unfolding deliver end_dispatch
deliver-end_dispatch invocation r rc = (
  (let gone : lookup invocation (delete invocation rc.pending) ≡ none =
        lookup-delete invocation invocation rc.pending
        ∙ ground (arith, eq_iff invocation invocation) in
      rw (gone, deliver)),
  λ other d. lookup-delete invocation other rc.pending ∙ ground (arith, d, eq_iff invocation other),
)
