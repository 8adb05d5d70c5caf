-- ===== src/Limiter/Window.antt =====
-- The bound of the window of inference-gateway/internal/ratelimit/redis.go.
use iterabase_mono.Common.{
  ℕ, String, ◌≤◌, ◌<◌, ◌+◌, ◌-◌, ◌≡◌, refl, inl, inr, false, List, [], ◌∷◌, leb, ltb, ◌==◌, arith,
  Bool-cases,
}
use iterabase_mono.Limiter.{
  Entry, window_size, same_member, remove_expired, current, add_member, sliding_window,
  check_and_increment, check_rpm,
}

unfoldable pub total : List Entry → ℕ
total [] = 0
total (e ∷ es) = e.member.count + total es

unfoldable pub NoneExpired : ℕ → List Entry → Type 0
NoneExpired start [] = Unit
NoneExpired start (e ∷ es) = (start < e.score) × NoneExpired start es

kept : (start : ℕ) (es : List Entry) → NoneExpired start (remove_expired start es)
unfolding NoneExpired remove_expired
kept start [] = tt
kept start (e ∷ es) = elim (Bool-cases (leb e.score start)) [
  | inl old ↦ rw old (kept start es)
  | inr new ↦ rw new (ground (arith, new), kept start es)
]

current-total : (start : ℕ) (es : List Entry) → NoneExpired start es → current start es ≡ total es
unfolding NoneExpired current total
current-total start [] h = refl
current-total start (e ∷ es) h = ground (arith, h.0, current-total start es h.1)

total-add_member-le :
    (e : Entry) (es : List Entry) → total (add_member e es) ≤ e.member.count + total es
unfolding total add_member
total-add_member-le e [] = omega arith
total-add_member-le e (x ∷ xs) = elim (Bool-cases (same_member e.member x.member)) [
  | inl same ↦ rw same (omega arith)
  | inr other ↦ let rest = total-add_member-le e xs in rw other (omega (arith, rest))
]

total-remove_expired-le : (start : ℕ) (es : List Entry) → total (remove_expired start es) ≤ total es
unfolding total remove_expired
total-remove_expired-le start [] = omega arith
total-remove_expired-le start (e ∷ es) = elim (Bool-cases (leb e.score start)) [
  | inl old ↦ let rest = total-remove_expired-le start es in rw old (omega (arith, rest))
  | inr new ↦ let rest = total-remove_expired-le start es in rw new (omega (arith, rest))
]

pub check_rpm-remaining :
    (print : ℕ → String) (now limit random : ℕ) (es : List Entry)
    → 0 < limit
    → total es ≤ limit
    → let x = check_rpm print now limit random es in x.0.remaining + total x.1 ≤ limit
unfolding check_and_increment sliding_window
check_rpm-remaining print now limit random es positive within =
    let start = now - window_size in
    let left = remove_expired start es in
    let used = current-total start left (kept start es) in
    let smaller = total-remove_expired-le start es in
    let limited : (limit == 0) ≡ false = ground arith in
    elim (Bool-cases (ltb limit (current start left + 1))) [
      | inl full ↦ rw (limited, full) (ground (arith, full, used, smaller, within))
      | inr free ↦
          let grown =
            total-add_member-le
              (record {
                member = record { count = 1; now = print now; random = random };
                score = now;
              })
              left in
          rw (limited, free) (ground (arith, free, used, grown))
    ]
