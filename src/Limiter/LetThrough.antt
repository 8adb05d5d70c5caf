-- ===== src/Limiter/LetThrough.antt =====
-- The requests that CheckRPM of inference-gateway/internal/ratelimit/redis.go lets through in one window.
use iterabase_mono.Common.{
  ℕ, String, ◌≤◌, ◌<◌, ◌+◌, ◌-◌, ◌≡◌, refl, inl, inr, ◌⊎◌, subst, sym, ap, true, false, List, [],
  ◌∷◌, All, leb, ltb, ◌==◌, arith, Bool-cases, if◌then◌else◌,
}
use iterabase_mono.Limiter.{
  Member, Entry, window_size, same_member, remove_expired, current, add_member, sliding_window,
  check_and_increment, check_rpm,
}
use iterabase_mono.Limiter.Window.{total, check_rpm-remaining}

-- The times of the requests that a series of checks lets through, each check with its time and its random
-- number.
unfoldable pub let_through : (ℕ → String) → ℕ → List (ℕ × ℕ) → List Entry → List ℕ
let_through print limit [] es = []
let_through print limit ((now, random) ∷ calls) es =
    let x = check_rpm print now limit random es in
    let rest = let_through print limit calls x.1 in if x.0.allowed then now ∷ rest else rest

-- How many of the times lie after the start of a window.
unfoldable pub recent : ℕ → List ℕ → ℕ
recent start [] = 0
recent start (t ∷ ts) = (if ltb start t then 1 else 0) + recent start ts

-- The count of the entries after the start of a window.
unfoldable live : ℕ → List Entry → ℕ
live start [] = 0
live start (e ∷ es) = (if ltb start e.score then e.member.count else 0) + live start es

abbrev member_of : (ℕ → String) → ℕ × ℕ → Member
member_of print (now, random) = record { count = 1; now = print now; random = random }

-- No two checks write the same member.
abbrev pub AreDistinct : (ℕ → String) → List (ℕ × ℕ) → Type 0
AreDistinct print [] = Unit
AreDistinct print (c ∷ cs) =
    All (λ d. same_member (member_of print d) (member_of print c) ≡ false) cs × AreDistinct print cs

abbrev IsFresh : Member → List Entry → Type 0
IsFresh m es = All (λ x. same_member m x.member ≡ false) es

live-total-le : (s : ℕ) (es : List Entry) → live s es ≤ total es
unfolding live total
live-total-le s [] = omega arith
live-total-le s (e ∷ es) = ground (arith, live-total-le s es)

live-remove_expired :
    (s start : ℕ) (es : List Entry) → start ≤ s → live s (remove_expired start es) ≡ live s es
unfolding live remove_expired
live-remove_expired s start [] h = refl
live-remove_expired s start (e ∷ es) h = elim (Bool-cases (leb e.score start)) [
  | inl old ↦ rw old (ground (arith, h, old, live-remove_expired s start es h))
  | inr new ↦ rw new (ground (arith, live-remove_expired s start es h))
]

remove_expired-IsFresh :
    (m : Member) (start : ℕ) (es : List Entry) → IsFresh m es → IsFresh m (remove_expired start es)
unfolding remove_expired
remove_expired-IsFresh m start [] h = tt
remove_expired-IsFresh m start (e ∷ es) h = elim (Bool-cases (leb e.score start)) [
  | inl old ↦ rw old (remove_expired-IsFresh m start es h.1)
  | inr new ↦ rw new (h.0, remove_expired-IsFresh m start es h.1)
]

live-add_member :
    (s : ℕ) (e : Entry) (es : List Entry)
    → IsFresh e.member es
    → live s (add_member e es) ≡ (if ltb s e.score then e.member.count else 0) + live s es
unfolding live add_member
live-add_member s e [] h = refl
live-add_member s e (x ∷ xs) h =
    let rest = live-add_member s e xs h.1 in rw h.0 (omega (arith, rest))

add_member-IsFresh :
    (m : Member) (e : Entry) (es : List Entry)
    → same_member m e.member ≡ false
    → IsFresh m es
    → IsFresh m (add_member e es)
unfolding add_member
add_member-IsFresh m e [] differs h = (differs, tt)
add_member-IsFresh m e (x ∷ xs) differs h = elim (Bool-cases (same_member e.member x.member)) [
  | inl same ↦ rw same (differs, h.1)
  | inr other ↦ rw other (h.0, add_member-IsFresh m e xs differs h.1)
]

abbrev entry_of : (ℕ → String) → ℕ × ℕ → Entry
entry_of print c = record { member = member_of print c; score = c.0 }

check_rpm-cases :
    (print : ℕ → String) (now limit random : ℕ) (es : List Entry)
    → 0 < limit
    → let x = check_rpm print now limit random es in
      let left = remove_expired (now - window_size) es in
      ((x.0.allowed ≡ false) × (x.1 ≡ left))
      ⊎ ((x.0.allowed ≡ true) × (x.1 ≡ add_member (entry_of print (now, random)) left))
unfolding check_and_increment sliding_window
check_rpm-cases print now limit random es positive =
    let start = now - window_size in
    let limited : (limit == 0) ≡ false = ground arith in
    elim (Bool-cases (ltb limit (current start (remove_expired start es) + 1))) [
      | inl full ↦ inl (rw (limited, full) (refl, refl))
      | inr free ↦ inr (rw (limited, free) (refl, refl))
    ]

AreFresh-after :
    (print : ℕ → String) (e : Entry) (start : ℕ) (cs : List (ℕ × ℕ)) (es : List Entry)
    → All (λ d. same_member (member_of print d) e.member ≡ false) cs
    → All (λ d. IsFresh (member_of print d) es) cs
    → All (λ d. IsFresh (member_of print d) (add_member e (remove_expired start es))) cs
AreFresh-after print e start [] es differ fresh = tt
AreFresh-after print e start (d ∷ ds) es differ fresh = (
  add_member-IsFresh (member_of print d) e (remove_expired start es) differ.0
      (remove_expired-IsFresh (member_of print d) start es fresh.0),
  AreFresh-after print e start ds es differ.1 fresh.1,
)

AreFresh-left :
    (print : ℕ → String) (start : ℕ) (cs : List (ℕ × ℕ)) (es : List Entry)
    → All (λ d. IsFresh (member_of print d) es) cs
    → All (λ d. IsFresh (member_of print d) (remove_expired start es)) cs
AreFresh-left print start [] es fresh = tt
AreFresh-left print start (d ∷ ds) es fresh = (
  remove_expired-IsFresh (member_of print d) start es fresh.0,
  AreFresh-left print start ds es fresh.1,
)

live-let_through-le :
    (print : ℕ → String) (limit s : ℕ) (calls : List (ℕ × ℕ)) (es : List Entry)
    → 0 < limit
    → total es ≤ limit
    → All (λ c. c.0 ≤ s + window_size) calls
    → AreDistinct print calls
    → All (λ c. IsFresh (member_of print c) es) calls
    → live s es + recent s (let_through print limit calls es) ≤ limit
unfolding let_through recent
live-let_through-le print limit s [] es positive within inside distinct fresh =
    let all = live-total-le s es in omega (arith, all, within)
live-let_through-le print limit s ((now, random) ∷ calls) es positive within inside distinct fresh =
    let start = now - window_size in
    let left = remove_expired start es in
    let e = entry_of print (now, random) in
    let bound = check_rpm-remaining print now limit random es positive within in
    let next = (check_rpm print now limit random es).1 in
    let smaller : total next ≤ limit = omega (arith, bound) in
    let kept = live-remove_expired s start es (omega (arith, inside.0)) in
    elim (check_rpm-cases print now limit random es positive) [
      | inl (denied, same) ↦
          let later =
            live-let_through-le print limit s calls next positive smaller inside.1 distinct.1 (
              subst (λ m. All (λ c. IsFresh (member_of print c) m) calls) (sym same)
                (AreFresh-left print start calls es fresh.1)) in
          let held = ap (live s) same in rw denied (omega (arith, later, held, kept))
      | inr (allowed, same) ↦
          let later =
            live-let_through-le print limit s calls next positive smaller inside.1 distinct.1 (
              subst (λ m. All (λ c. IsFresh (member_of print c) m) calls) (sym same)
                (AreFresh-after print e start calls es distinct.0 fresh.1)) in
          let held = ap (live s) same in
          let grown =
            live-add_member s e left
              (remove_expired-IsFresh (member_of print (now, random)) start es fresh.0) in
          elim (Bool-cases (ltb s now)) [
            | inl inner ↦ rw (allowed, inner) (ground (arith, later, held, kept, grown, inner))
            | inr outer ↦ rw (allowed, outer) (ground (arith, later, held, kept, grown, outer))
          ]
    ]

-- Of the checks of a key's requests with a positive limit, in any order of their times and with distinct
-- members, no more than the limit are let through in the last window: those after its start, where no check is
-- later than its end.
pub let_through-le :
    (print : ℕ → String) (limit start : ℕ) (calls : List (ℕ × ℕ))
    → 0 < limit
    → All (λ c. c.0 ≤ start + window_size) calls
    → AreDistinct print calls
    → recent start (let_through print limit calls []) ≤ limit
unfolding total live
let_through-le print limit start calls positive inside distinct =
    let h =
      live-let_through-le print limit start calls [] positive (omega arith) inside distinct
        (nothing_held calls) in
    omega (arith, h)
  where
    nothing_held : (cs : List (ℕ × ℕ)) → All (λ c. IsFresh (member_of print c) []) cs
    nothing_held [] = tt
    nothing_held (c ∷ cs) = (tt, nothing_held cs)
