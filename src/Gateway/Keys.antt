-- ===== src/Gateway/Keys.antt =====
-- What the statements of the invocation ledger in control-plane/internal/gateway/store.go do, and the keys that it holds.
use mathlib.Core.Bool.{true≢false}
use mathlib.Core.Option.{none-ne-some, some-injective}
use iterabase_mono.Common.{
  ℕ, String, ◌≡◌, refl, sym, ap, ◌∙◌, ◌⊎◌, inl, inr, Bool, true, false, ◌||◌, Option, none, some,
  List, [], ◌∷◌, arith, eq_iff, Bool-cases, Option-cases, ◌==ₛ◌,
}
use iterabase_mono.Common.Dict.{lookup, insert, has_key}
use iterabase_mono.Common.Result.{Result, ok, err, ok-injective, Result-cases}
use iterabase_mono.Gateway.Ledger.{
  CallerScope, InvocationState, ToolVersion, InvocationKey, ErrorJson, Invocation, Request, Ledger,
  LedgerError, null_refs, duplicate_id, invalid_transition, same_key, same_scope,
  get_invocation_by_key, begin_invocation, new_invocation, update_row, is_open,
  renew_dispatch_lease, mark_running, finish_invocation, finished_invocation, update_where,
  recover_read_only, recover_writes, orphan_read, orphan_write, failed_orphan, unknown_orphan,
  LedgerOp, begin, renew, mark, finish, sweep_reads, sweep_writes, kept_or, apply, apply_all,
}

-- Whether some row has this key.
unfoldable pub knows : InvocationKey → Ledger → Bool
knows key [] = false
knows key (e ∷ l) = same_key e.1.key key || knows key l

pub known_row :
    (key : InvocationKey) (l : Ledger)
    → knows key l ≡ true
    → (e : String × Invocation) × (get_invocation_by_key key l ≡ some e)
unfolding knows get_invocation_by_key
known_row key [] h = cc
known_row key (e ∷ l) h = elim (Bool-cases (same_key e.1.key key)) [
  | inl same ↦ (e, rw same refl)
  | inr differs ↦ let (f, q) = known_row key l (ground (arith, h, differs)) in (f, rw differs q)
]

text_self : (a : String) → a ==ₛ a ≡ true
text_self a = (eq_iff a a).1 refl

scope_self : (s : CallerScope) → same_scope s s ≡ true
scope_self CallerScope.turn = refl
scope_self CallerScope.workflow_step = refl

pub same_key_self : (key : InvocationKey) → same_key key key ≡ true
unfolding same_key
same_key_self key =
    rw
      (
        text_self key.attempt_id,
        scope_self key.caller_scope,
        text_self key.caller_scope_id,
        text_self key.tool_call_id,
        text_self key.tool_version_digest,
        text_self key.idempotency_key,
      )
      refl

pub knows-fresh :
    (key : InvocationKey) (id : String) (row : Invocation) (l : Ledger)
    → has_key l id ≡ false
    → knows key (insert id row l) ≡ (knows key l || same_key row.key key)
unfolding knows insert lookup
knows-fresh key id row [] h = ground arith
knows-fresh key id row ((other, inv) ∷ l) h = elim (Bool-cases (other ==ₛ id)) [
  | inl same ↦ absurd (true≢false (rw same at h))
  | inr differs ↦ rw differs (ground (arith, knows-fresh key id row l (rw differs at h)))
]

knows-written :
    (key : InvocationKey) (id : String) (old new : Invocation) (l : Ledger)
    → lookup id l ≡ some old
    → new.key ≡ old.key
    → knows key (insert id new l) ≡ knows key l
unfolding knows insert lookup
knows-written key id old new [] found same_row = absurd (none-ne-some old found)
knows-written key id old new ((other, inv) ∷ l) found same_row = elim (Bool-cases (other ==ₛ id)) [
  | inl same ↦
      let q : inv ≡ old = some-injective inv old (rw same at found) in
      rw same (
        ap (λ k. same_key k key || knows key l) (same_row ∙ ap (λ (x : Invocation). x.key) (sym q)))
  | inr differs ↦ rw differs (
      ap (λ b. same_key inv.key key || b)
        (knows-written key id old new l (rw differs at found) same_row))
]

pub refused :
    {A : Type 0} (a : A) (e : LedgerError) → ◌≡◌ {A = Result LedgerError A} (err e) (ok a) → ⊥
refused a e h = cc

-- What an update of one row that affected it did.
pub update_row_inv :
    (id : String) (test : Invocation → Bool) (change : Invocation → Invocation) (l l' : Ledger)
    → update_row id test change l ≡ ok l'
    → (inv : Invocation) × (lookup id l ≡ some inv)
      × (test inv ≡ true)
      × (l' ≡ insert id (change inv) l)
unfolding update_row
update_row_inv id test change l l' h = elim (Option-cases (lookup id l)) [
  | inl e ↦ absurd (refused l' invalid_transition (rw (e, update_row) at h))
  | inr (inv, e) ↦ elim (Bool-cases (test inv)) [
    | inl allowed ↦ (
      inv,
      e,
      allowed,
      sym (ok-injective (insert id (change inv) l) l' (rw (e, update_row, allowed) at h)),
    )
    | inr other ↦ absurd (refused l' invalid_transition (rw (e, update_row, other) at h))
  ]
]

knows-update_where :
    (key : InvocationKey) (test : Invocation → Bool) (change : Invocation → Invocation) (l : Ledger)
    → ((inv : Invocation) → (change inv).key ≡ inv.key)
    → knows key (update_where test change l) ≡ knows key l
unfolding knows update_where
knows-update_where key test change [] same = refl
knows-update_where key test change (e ∷ l) same = elim (Bool-cases (test e.1)) [
  | inl hit ↦ rw hit (
      rw (same e.1)
        (ap (λ b. same_key e.1.key key || b) (knows-update_where key test change l same)))
  | inr miss ↦
      rw miss (ap (λ b. same_key e.1.key key || b) (knows-update_where key test change l same))
]

pub finish_invocation_inv :
    (now : ℕ) (id : String) (state : InvocationState) (result : Option String) (refs : String)
    (error : Option ErrorJson) (l l' : Ledger)
    → finish_invocation now id state result refs error l ≡ ok l'
    → (inv : Invocation) × (lookup id l ≡ some inv)
      × (is_open inv.state ≡ true)
      × (l' ≡ insert id (finished_invocation now state result refs error inv) l)
unfolding finish_invocation
finish_invocation_inv now id state result refs error l l' h =
    elim (Result-cases
      (update_row id (λ x. is_open x.state) (finished_invocation now state result refs error) l)) [
        | inl (e, q) ↦ absurd (refused l' e (rw (q, finish_invocation) at h))
        | inr (l0, q) ↦ elim (Bool-cases (refs ==ₛ "")) [
          | inl nil ↦ absurd (refused l' null_refs (rw (q, finish_invocation, nil) at h))
          | inr given ↦
              let e = ok-injective l0 l' (rw (q, finish_invocation, given) at h) in
              let (inv, found, was, made) =
                update_row_inv id (λ x. is_open x.state)
                  (finished_invocation now state result refs error) l l0 q in
              (inv, found, was, sym e ∙ made)
        ]
      ]

-- A row that was there, or the new one.
pub begin_invocation_inv :
    (now : ℕ) (id : String) (key : InvocationKey) (tv : ToolVersion) (pool : Option String)
    (request : Request) (lease : ℕ) (instance_id : String) (l l' : Ledger)
    (row : String × Invocation) (inserted : Bool)
    → begin_invocation now id key tv pool request lease instance_id l ≡ ok (row, inserted, l')
    → ((inserted ≡ false) × (l' ≡ l) × (get_invocation_by_key key l ≡ some row))
      ⊎ ((inserted ≡ true)
          × (get_invocation_by_key key l ≡ none)
          × (has_key l id ≡ false)
          × (row ≡ (id, new_invocation now key tv pool request lease instance_id))
          × (l' ≡ insert id (new_invocation now key tv pool request lease instance_id) l))
unfolding begin_invocation
begin_invocation_inv now id key tv pool request lease instance_id l l' row inserted h =
    let inv = new_invocation now key tv pool request lease instance_id in
    elim (Option-cases (get_invocation_by_key key l)) [
      | inl e ↦ elim (Bool-cases (has_key l id)) [
        | inl used ↦
            absurd (refused (row, inserted, l') duplicate_id (rw (e, begin_invocation, used) at h))
        | inr new ↦
            let q = sym (
              ok-injective ((id, inv), true, insert id inv l) (row, inserted, l')
                (rw (e, begin_invocation, new) at h)) in
            inr (ap (λ p. p.1) q, e, new, ap (λ p. p.0) q, ap (λ p. p.2) q)
      ]
      | inr (old, e) ↦
          let q =
            sym
              (ok-injective (old, false, l) (row, inserted, l') (rw (e, begin_invocation) at h)) in
          inl (ap (λ p. p.1) q, ap (λ p. p.2) q, e ∙ ap some (sym (ap (λ p. p.0) q)))
    ]

-- A key that is in the ledger stays there.
abbrev pub KeepsKeys : (Ledger → Ledger) → Type 0
KeepsKeys f = (key : InvocationKey) (l : Ledger) → knows key l ≡ true → knows key (f l) ≡ true

updated-KeepsKeys :
    (id : String) (test : Invocation → Bool) (change : Invocation → Invocation)
    (key : InvocationKey) (l l' : Ledger)
    → ((inv : Invocation) → (change inv).key ≡ inv.key)
    → update_row id test change l ≡ ok l'
    → knows key l ≡ true
    → knows key l' ≡ true
updated-KeepsKeys id test change key l l' same h known =
    let (inv, found, allowed, e) = update_row_inv id test change l l' h in
    ap (knows key) e ∙ knows-written key id inv (change inv) l found (same inv) ∙ known

pub kept_or-KeepsKeys :
    (op : Ledger → Result LedgerError Ledger)
    → ((key : InvocationKey) (l l' : Ledger)
        → op l ≡ ok l'
        → knows key l ≡ true
        → knows key l' ≡ true)
    → KeepsKeys (λ l. kept_or l (op l))
kept_or-KeepsKeys op k key l known = elim (Result-cases (op l)) [
  | inl (e, q) ↦ rw q known
  | inr (l', q) ↦ rw q (k key l l' q known)
]

pub finish_invocation-knows :
    (now : ℕ) (id : String) (state : InvocationState) (result : Option String) (refs : String)
    (error : Option ErrorJson) (key : InvocationKey) (l l' : Ledger)
    → finish_invocation now id state result refs error l ≡ ok l'
    → knows key l ≡ true
    → knows key l' ≡ true
finish_invocation-knows now id state result refs error key l l' h known =
    let (inv, found, was, e) = finish_invocation_inv now id state result refs error l l' h in
    ap (knows key) e
    ∙ knows-written key id inv (finished_invocation now state result refs error inv) l found refl
    ∙ known

pub mark_running-knows :
    (now : ℕ) (id runner : String) (lease : ℕ) (instance_id : String) (key : InvocationKey)
    (l l' : Ledger)
    → mark_running now id runner lease instance_id l ≡ ok l'
    → knows key l ≡ true
    → knows key l' ≡ true
unfolding mark_running
mark_running-knows now id runner lease instance_id key l l' h known =
    updated-KeepsKeys id _ _ key l l' (λ inv. refl) h known

pub renew_dispatch_lease-knows :
    (id instance_id : String) (lease : ℕ) (key : InvocationKey) (l l' : Ledger)
    → renew_dispatch_lease id instance_id lease l ≡ ok l'
    → knows key l ≡ true
    → knows key l' ≡ true
unfolding renew_dispatch_lease
renew_dispatch_lease-knows id instance_id lease key l l' h known =
    updated-KeepsKeys id _ _ key l l' (λ inv. refl) h known

apply-KeepsKeys : (op : LedgerOp) → KeepsKeys (apply op)
unfolding apply recover_read_only recover_writes
apply-KeepsKeys (begin now id key tv pool request lease instance_id) k l known =
    elim (Result-cases (begin_invocation now id key tv pool request lease instance_id l)) [
      | inl (e, q) ↦ rw (q, apply) known
      | inr ((row, inserted, l'), q) ↦
          rw (q, apply)
            (elim (begin_invocation_inv now id key tv pool request lease instance_id l l' row
              inserted q) [
                | inl (old, e, found) ↦ ap (knows k) e ∙ known
                | inr (new, missed, fresh, made, e) ↦
                    ap (knows k) e ∙ knows-fresh k id _ l fresh ∙ ground (arith, known)
              ])
    ]
apply-KeepsKeys (renew id instance_id lease) k l known =
    kept_or-KeepsKeys (renew_dispatch_lease id instance_id lease)
      (renew_dispatch_lease-knows id instance_id lease) k l known
apply-KeepsKeys (mark now id runner lease instance_id) k l known =
    kept_or-KeepsKeys (mark_running now id runner lease instance_id)
      (mark_running-knows now id runner lease instance_id) k l known
apply-KeepsKeys (finish now id state result refs error) k l known =
    kept_or-KeepsKeys (finish_invocation now id state result refs error)
      (finish_invocation-knows now id state result refs error) k l known
apply-KeepsKeys (sweep_reads now) k l known =
    knows-update_where k (orphan_read now) (failed_orphan now) l (λ inv. refl) ∙ known
apply-KeepsKeys (sweep_writes now) k l known =
    knows-update_where k (orphan_write now) (unknown_orphan now) l (λ inv. refl) ∙ known

pub apply_all-KeepsKeys : (ops : List LedgerOp) → KeepsKeys (apply_all ops)
unfolding apply_all
apply_all-KeepsKeys [] key l known = known
apply_all-KeepsKeys (op ∷ ops) key l known =
    apply_all-KeepsKeys ops key (apply op l) (apply-KeepsKeys op key l known)
