-- ===== src/Gateway/Choice.antt =====
-- pick, add, remove, runnerOwnsInvocation and propagateCancel of
-- control-plane/internal/gateway/runnerpool.go: which connection each of them finds.
use iterabase_mono.Common.{
  ℕ, String, ◌≡◌, ◌↔◌, ◌⊎◌, refl, sym, ap, ◌∙◌, subst, inl, inr, Bool, true, false, Option, none,
  some, List, [], ◌∷◌, ◌++◌, arith, eq_iff, Bool-cases, ◌==ₛ◌, ◌==◌, ==_self,
}
use iterabase_mono.Gateway.Runner.{
  RunnerConn, serves, RunnerPool, add_runner, remove_first, remove_runner, pick_from, pick,
  is_pending, owns, runner_owns_invocation, cancel_target, propagate_cancel,
}

abbrev pub IsIn : ℕ → List ℕ → Type 0
IsIn a [] = ⊥
IsIn a (b ∷ bs) = (b ≡ a) ⊎ IsIn a bs

-- The first connection that passes a test: every one before it fails.
abbrev pub IsFirst : (ℕ → Bool) → ℕ → List ℕ → Type 0
IsFirst test a [] = ⊥
IsFirst test a (b ∷ bs) = ((b ≡ a) × (test a ≡ true)) ⊎ ((test b ≡ false) × IsFirst test a bs)

-- What a search for a first connection answers.
abbrev pub Finds : (ℕ → Bool) → List ℕ → Option ℕ → Type 0
Finds test conns found =
    ((found ≡ none) × ((a : ℕ) → IsIn a conns → test a ≡ false))
    ⊎ ((a : ℕ) × (found ≡ some a) × IsFirst test a conns)

Finds-skip :
    (test : ℕ → Bool) (b : ℕ) (bs : List ℕ) (found : Option ℕ)
    → test b ≡ false
    → Finds test bs found
    → Finds test (b ∷ bs) found
Finds-skip test b bs found miss (inl (e, all_miss)) = inl (
  e,
  λ a. elim [ inl same ↦ subst (λ c. test c ≡ false) same miss | inr later ↦ all_miss a later ],
)
Finds-skip test b bs found miss (inr (a, e, first)) = inr (a, e, inr (miss, first))

pick_from-Finds :
    (tool digest : String) (conns : List ℕ) (h : ℕ → RunnerConn)
    → Finds (λ a. serves tool digest (h a)) conns (pick_from tool digest conns h)
unfolding pick_from
pick_from-Finds tool digest [] h = inl (refl, λ a held. absurd held)
pick_from-Finds tool digest (a ∷ as') h = elim (Bool-cases (serves tool digest (h a))) [
  | inl hit ↦ inr (a, rw hit, inl (refl, hit))
  | inr miss ↦
      let later = pick_from-Finds tool digest as' h in Finds-skip _ a as' _ miss (rw miss later)
]

-- pick returns the first connection of the pool that serves the tool version, and none exactly when no
-- connection serves it.
pub pick-Finds :
    (tool digest : String) (p : RunnerPool)
    → Finds (λ a. serves tool digest (p.heap a)) p.conns (pick tool digest p)
unfolding pick
pick-Finds tool digest p = pick_from-Finds tool digest p.conns p.heap

cancel_target-Finds :
    (invocation : String) (conns : List ℕ) (h : ℕ → RunnerConn)
    → Finds (λ a. is_pending invocation (h a)) conns (cancel_target invocation conns h)
unfolding cancel_target
cancel_target-Finds invocation [] h = inl (refl, λ a held. absurd held)
cancel_target-Finds invocation (a ∷ as') h = elim (Bool-cases (is_pending invocation (h a))) [
  | inl hit ↦ inr (a, rw hit, inl (refl, hit))
  | inr miss ↦
      let later = cancel_target-Finds invocation as' h in Finds-skip _ a as' _ miss (rw miss later)
]

-- A cancel is sent to the first connection on which the invocation is pending, and to none exactly when
-- it is pending nowhere.
pub propagate_cancel-Finds :
    (invocation : String) (p : RunnerPool)
    → Finds (λ a. is_pending invocation (p.heap a)) p.conns (propagate_cancel invocation p)
unfolding propagate_cancel
propagate_cancel-Finds invocation p = cancel_target-Finds invocation p.conns p.heap

-- A connection of the pool, of the runner, on which the invocation is pending.
abbrev pub Owner : String → String → List ℕ → (ℕ → RunnerConn) → Type 0
Owner runner_id invocation conns h =
    (a : ℕ) × IsIn a conns × ((h a).runner_id ≡ runner_id) × (is_pending invocation (h a) ≡ true)

Owner-skip :
    (runner_id invocation : String) (b : ℕ) (bs : List ℕ) (h : ℕ → RunnerConn)
    → Owner runner_id invocation bs h
    → Owner runner_id invocation (b ∷ bs) h
Owner-skip runner_id invocation b bs h (a, held, mine, waits) = (a, inr held, mine, waits)

owns-Owner :
    (runner_id invocation : String) (conns : List ℕ) (h : ℕ → RunnerConn)
    → (owns runner_id invocation conns h ≡ true) ↔ Owner runner_id invocation conns h
unfolding owns
owns-Owner runner_id invocation [] h = (λ e. cc e, λ o. absurd o.1)
owns-Owner runner_id invocation (b ∷ bs) h = (
  λ e. elim (Bool-cases ((h b).runner_id ==ₛ runner_id)) [
    | inr other ↦
        Owner-skip runner_id invocation b bs h
          ((owns-Owner runner_id invocation bs h).0 (rw other at e))
    | inl mine ↦ elim (Bool-cases (is_pending invocation (h b))) [
      | inl held ↦ (b, inl refl, (eq_iff _ _).0 mine, held)
      | inr gone ↦
          let q = rw mine at e in
          Owner-skip runner_id invocation b bs h
            ((owns-Owner runner_id invocation bs h).0 (rw gone at q))
    ]
  ],
  λ o. elim o.1 [
    | inl same ↦
        let mine = (eq_iff _ _).1 (ap (λ c. (h c).runner_id) same ∙ o.2) in
        let held = ap (λ c. is_pending invocation (h c)) same ∙ o.3 in rw mine (rw held)
    | inr there ↦ ground (arith, (owns-Owner runner_id invocation bs h).1 (o.0, there, o.2, o.3))
  ],
)

-- A runner owns an invocation exactly when some registered connection of that runner has it pending.
pub runner_owns_invocation-Owner :
    (runner_id invocation : String) (p : RunnerPool)
    → (runner_owns_invocation runner_id invocation p ≡ true)
      ↔ Owner runner_id invocation p.conns p.heap
unfolding runner_owns_invocation
runner_owns_invocation-Owner runner_id invocation p = owns-Owner runner_id invocation p.conns p.heap

-- Further connections, in order.
unfoldable pub add_runners : List ℕ → RunnerPool → RunnerPool
add_runners [] p = p
add_runners (a ∷ as') p = add_runners as' (add_runner a p)

remove_first-middle :
    (a : ℕ) (before behind : List ℕ)
    → ¬ IsIn a before
    → remove_first a (before ++ a ∷ behind) ≡ before ++ behind
unfolding remove_first
remove_first-middle a [] behind fresh = rw (==_self a)
remove_first-middle a (b ∷ bs) behind fresh =
    let rest = remove_first-middle a bs behind (λ held. fresh (inr held)) in
    elim (Bool-cases (b == a)) [
      | inl same ↦ absurd (fresh (inl (ground (arith, same))))
      | inr other ↦ rw other (ap (λ xs. b ∷ xs) rest)
    ]

append_assoc : (xs ys zs : List ℕ) → (xs ++ ys) ++ zs ≡ xs ++ (ys ++ zs)
append_assoc [] ys zs = refl
append_assoc (x ∷ xs) ys zs = ap (λ l. x ∷ l) (append_assoc xs ys zs)

abbrev with_conns : List ℕ → RunnerPool → RunnerPool
with_conns conns p = record p { conns = conns }

add_runner-middle :
    (c a : ℕ) (before behind : List ℕ) (p : RunnerPool)
    → add_runner c (with_conns (before ++ a ∷ behind) p)
      ≡ with_conns (before ++ a ∷ (behind ++ c ∷ [])) p
unfolding add_runner
add_runner-middle c a before behind p =
    ap (λ l. with_conns l p) (append_assoc before (a ∷ behind) (c ∷ []))

remove_runner-middle :
    (a : ℕ) (before behind others : List ℕ) (p : RunnerPool)
    → ¬ IsIn a before
    → remove_runner a (add_runners others (with_conns (before ++ a ∷ behind) p))
      ≡ add_runners others (with_conns (before ++ behind) p)
unfolding remove_runner add_runners add_runner
remove_runner-middle a before behind [] p fresh =
    ap (λ l. with_conns l p) (remove_first-middle a before behind fresh)
remove_runner-middle a before behind (c ∷ cs) p fresh =
    ap (λ q. remove_runner a (add_runners cs q)) (add_runner-middle c a before behind p)
    ∙ remove_runner-middle a before (behind ++ c ∷ []) cs p fresh
    ∙ ap (λ l. add_runners cs (with_conns l p)) (sym (append_assoc before behind (c ∷ [])))

-- Removing a connection that was added when it was not registered leaves the pool as if it had never been
-- added, whatever connections were added after it.
pub remove_runner-add_runner :
    (a : ℕ) (others : List ℕ) (p : RunnerPool)
    → ¬ IsIn a p.conns
    → remove_runner a (add_runners others (add_runner a p)) ≡ add_runners others p
unfolding add_runner
remove_runner-add_runner a others p fresh =
    remove_runner-middle a p.conns [] others p fresh
    ∙ ap (λ l. add_runners others (with_conns l p)) (append_nil p.conns)
  where
    append_nil : (xs : List ℕ) → xs ++ [] ≡ xs
    append_nil [] = refl
    append_nil (x ∷ xs) = ap (λ l. x ∷ l) (append_nil xs)
