-- ===== src/Workflow/Walk/Correct.antt =====
-- `walk` of control-plane/internal/workflow/graph.go against reachability.
use iterabase_mono.Common.{
  ℕ, zero, suc, ◌+◌, ◌≤◌, ◌<◌, String, ◌≡◌, ◌∙◌, ap, sym, subst, ◌⊎◌, ◌↔◌, inl, inr, true, false,
  ◌||◌, List, [], ◌∷◌, ◌++◌, length, length-append, contains, contains-append, arith, eq_iff,
  Bool-cases, List-cases, ◌==ₛ◌, if◌then◌else◌,
}
use iterabase_mono.Common.Dict.{lookup}
use iterabase_mono.Workflow.Walk.{Adjacency, neighbours, Search, scan, walk_loop, targets, walk}

-- Along the adjacency lists.
pub data Reaches (adj : Adjacency) (start : String) : String → Type 0 where
  here : Reaches adj start start
  step :
      {u v : String}
      → Reaches adj start u
      → contains (neighbours adj u) v ≡ true
      → Reaches adj start v

-- How many of the names are not seen.
unseen : List String → List String → ℕ
unseen seen [] = 0
unseen seen (x ∷ xs) = if contains seen x then unseen seen xs else suc (unseen seen xs)

unseen-cons-le : (seen xs : List String) (a : String) → unseen (a ∷ seen) xs ≤ unseen seen xs
unfolding unseen
unseen-cons-le seen [] a = omega arith
unseen-cons-le seen (x ∷ xs) a = ground (arith, unseen-cons-le seen xs a)

unseen-cons-lt :
    (seen xs : List String) (a : String)
    → contains seen a ≡ false
    → contains xs a ≡ true
    → unseen (a ∷ seen) xs < unseen seen xs
unfolding unseen
unseen-cons-lt seen [] a new listed = cc
unseen-cons-lt seen (x ∷ xs) a new listed = elim (Bool-cases (x ==ₛ a)) [
  | inl same ↦ rw ((eq_iff x a).0 same) (ground (arith, unseen-cons-le seen xs a, eq_iff a a))
  | inr other ↦
      ground (arith, unseen-cons-lt seen xs a new (rw other at listed), eq_iff a x, eq_iff x a)
]

neighbours-targets :
    (adj : Adjacency) (u v : String)
    → contains (neighbours adj u) v ≡ true
    → contains (targets adj) v ≡ true
unfolding neighbours lookup
neighbours-targets [] u v h = h
neighbours-targets ((k, xs) ∷ adj) u v h =
    contains-append xs (targets adj) v ∙ elim (Bool-cases (k ==ₛ u)) [
      | inl same ↦ let q : contains xs v ≡ true = rw same at h in rw q
      | inr other ↦ let q = neighbours-targets adj u v (rw other at h) in rw q (ground arith)
    ]

unseen-le-length : (seen xs : List String) → unseen seen xs ≤ length xs
unfolding unseen
unseen-le-length seen [] = omega arith
unseen-le-length seen (x ∷ xs) = ground (arith, unseen-le-length seen xs)

-- One loop over names of the universe `all`.
record Scanned (all names : List String) (s t : Search) : Type 0 where
  work : length t.queue + unseen t.seen all ≤ length s.queue + unseen s.seen all
  old_seen : (a : String) → contains s.seen a ≡ true → contains t.seen a ≡ true
  old_queued : (a : String) → contains s.queue a ≡ true → contains t.queue a ≡ true
  all_seen : (a : String) → contains names a ≡ true → contains t.seen a ≡ true
  new_seen :
      (a : String)
      → contains t.seen a ≡ true
      → (contains s.seen a ≡ true) ⊎ ((contains names a ≡ true) × (contains t.queue a ≡ true))
  new_queued :
      (a : String)
      → contains t.queue a ≡ true
      → (contains s.queue a ≡ true) ⊎ (contains names a ≡ true)

abbrev Within : List String → List String → Type 0
Within names all = (a : String) → contains names a ≡ true → contains all a ≡ true

Within-tail : (x : String) (xs all : List String) → Within (x ∷ xs) all → Within xs all
Within-tail x xs all h a m = h a (rw m (ground arith))

Scanned-old :
    (all xs : List String) (x : String) (s t : Search)
    → contains s.seen x ≡ true
    → Scanned all xs s t
    → Scanned all (x ∷ xs) s t
Scanned-old all xs x s t old r = record {
  work = r.work;
  old_seen = r.old_seen;
  old_queued = r.old_queued;
  all_seen = λ a h. elim (Bool-cases (x ==ₛ a)) [
    | inl same ↦ r.old_seen a (subst (λ y. contains s.seen y ≡ true) ((eq_iff x a).0 same) old)
    | inr other ↦ r.all_seen a (rw other at h)
  ];
  new_seen =
      λ a h. elim (r.new_seen a h) [ inl o ↦ inl o | inr (n, q) ↦ inr (rw n (ground arith), q) ];
  new_queued = λ a h. elim (r.new_queued a h) [ inl o ↦ inl o | inr n ↦ inr (rw n (ground arith)) ];
}

-- The search after a new name.
abbrev found : String → Search → Search
found x s = record s { seen = x ∷ s.seen; queue = s.queue ++ x ∷ [] }

queued-found :
    (x a : String) (s : Search) → contains (found x s).queue a ≡ (contains s.queue a || x ==ₛ a)
queued-found x a s = contains-append s.queue (x ∷ []) a ∙ ground arith

Scanned-found :
    (all xs : List String) (x : String) (s t : Search)
    → contains s.seen x ≡ false
    → contains all x ≡ true
    → Scanned all xs (found x s) t
    → Scanned all (x ∷ xs) s t
Scanned-found all xs x s t new listed r = record {
  work =
      omega (arith, r.work, unseen-cons-lt s.seen all x new listed, length-append s.queue (x ∷ []));
  old_seen = λ a h. r.old_seen a (rw h (ground arith));
  old_queued = λ a h. r.old_queued a (rw queued-found (rw h));
  all_seen = λ a h. elim (Bool-cases (x ==ₛ a)) [
    | inl same ↦ r.old_seen a (rw same)
    | inr other ↦ r.all_seen a (rw other at h)
  ];
  new_seen = λ a h. elim (r.new_seen a h) [
    | inl o ↦ elim (Bool-cases (x ==ₛ a)) [
      | inl same ↦ inr (rw same, r.old_queued a (rw queued-found (rw same (ground arith))))
      | inr other ↦ inl (rw other at o)
    ]
    | inr (n, q) ↦ inr (rw n (ground arith), q)
  ];
  new_queued = λ a h. elim (r.new_queued a h) [
    | inl o ↦ ground (arith, queued-found x a s, o)
    | inr n ↦ inr (rw n (ground arith))
  ];
}

scan-Scanned :
    (all names : List String) (s : Search) → Within names all → Scanned all names s (scan names s)
unfolding scan
scan-Scanned all [] s sub = record {
  work = omega arith;
  old_seen = λ a h. h;
  old_queued = λ a h. h;
  all_seen = λ a h. cc;
  new_seen = λ a h. inl h;
  new_queued = λ a h. inl h;
}
scan-Scanned all (x ∷ xs) s sub = elim (Bool-cases (contains s.seen x)) [
  | inl old ↦
      rw old (Scanned-old all xs x s _ old (scan-Scanned all xs s (Within-tail x xs all sub)))
  | inr new ↦ rw new (
      Scanned-found all xs x s _ new (sub x (ground (arith, eq_iff x x)))
        (scan-Scanned all xs (found x s) (Within-tail x xs all sub)))
]

module _ (adj : Adjacency) (start : String) where
  record Inv (s : Search) : Type 0 where
    source : contains s.seen start ≡ true
    queued : (a : String) → contains s.queue a ≡ true → contains s.seen a ≡ true
    sound : (a : String) → contains s.seen a ≡ true → Reaches adj start a
    closed :
        (u v : String)
        → contains s.seen u ≡ true
        → contains (neighbours adj u) v ≡ true
        → (contains s.queue u ≡ true) ⊎ (contains s.seen v ≡ true)

  -- With an empty queue the set is closed under the lists.
  complete :
      (s : Search)
      → Inv s
      → s.queue ≡ []
      → (a : String) → Reaches adj start a
      → contains s.seen a ≡ true
  complete s v e a here = v.source
  complete s v e a (step {u} r h) = elim (v.closed u a (complete s v e u r) h) [
    | inl waiting ↦ let q = subst (λ xs. contains xs u ≡ true) e waiting in cc q
    | inr m ↦ m
  ]

  module _ (s : Search) (cur : String) (rest : List String) (e : s.queue ≡ cur ∷ rest)
      (v : Inv s) where
    -- The search after the round that takes `cur` off the queue.
    abbrev after : Search
    after = scan (neighbours adj cur) (record s { queue = rest })

    scanned : Scanned (targets adj) (neighbours adj cur) (record s { queue = rest }) after
    scanned =
        scan-Scanned (targets adj) (neighbours adj cur) (record s { queue = rest })
          (λ a. neighbours-targets adj cur a)

    was_queued : (a : String) → contains (cur ∷ rest) a ≡ true → contains s.seen a ≡ true
    was_queued a h = v.queued a (rw e h)

    cur_seen : contains s.seen cur ≡ true
    cur_seen = was_queued cur (ground (arith, eq_iff cur cur))

    Inv-after : Inv after
    Inv-after = record {
      source = r.old_seen start v.source;
      queued = λ a h. elim (r.new_queued a h) [
        | inl later ↦ r.old_seen a (was_queued a (rw later (ground arith)))
        | inr listed ↦ r.all_seen a listed
      ];
      sound = λ a h. elim (r.new_seen a h) [
        | inl old ↦ v.sound a old
        | inr (listed, _) ↦ step (v.sound cur cur_seen) listed
      ];
      closed = λ u w m edge. elim (r.new_seen u m) [
        | inr (_, waiting) ↦ inl waiting
        | inl old ↦ elim (v.closed u w old edge) [
          | inr there ↦ inr (r.old_seen w there)
          | inl waiting ↦ elim (Bool-cases (cur ==ₛ u)) [
            | inl same ↦ inr (
                r.all_seen w (
                  subst (λ x. contains (neighbours adj x) w ≡ true) (sym ((eq_iff cur u).0 same))
                    edge))
            | inr other ↦
                let q : contains (cur ∷ rest) u ≡ true =
                  subst (λ xs. contains xs u ≡ true) e waiting in
                inl (r.old_queued u (rw other at q))
          ]
        ]
      ];
    }
      where
        r : Scanned (targets adj) (neighbours adj cur) (record s { queue = rest }) after
        r = scanned

  abbrev Decides : List String → Type 0
  Decides seen = (a : String) → (contains seen a ≡ true) ↔ Reaches adj start a

  loop-Decides :
      (fuel : ℕ) (s : Search)
      → Inv s
      → length s.queue + unseen s.seen (targets adj) ≤ fuel
      → Decides (walk_loop fuel adj s)
  unfolding walk_loop
  loop-Decides zero s v h = elim (List-cases s.queue) [
    | inl empty ↦ λ a. (v.sound a, complete s v empty a)
    | inr (cur, rest, e) ↦ absurd (omega (arith, ap length e))
  ]
  loop-Decides (suc fuel) s v h = elim (List-cases s.queue) [
    | inl empty ↦ rw (empty, walk_loop) (λ a. (v.sound a, complete s v empty a))
    | inr (cur, rest, e) ↦
        rw (e, walk_loop)
          (loop-Decides fuel (after s cur rest e v) (Inv-after s cur rest e v)
            (omega (arith, (scanned s cur rest e v).work, ap length e)))
  ]

  start-Inv : Inv (record { seen = start ∷ []; queue = start ∷ [] })
  start-Inv = record {
    source = ground (arith, eq_iff start start);
    queued = λ a h. h;
    sound = λ a h. subst (Reaches adj start) ((eq_iff start a).0 (ground (arith, h))) here;
    closed = λ u w m edge. inl m;
  }

  -- `walk` returns exactly the names that can be reached from its start.
  pub contains-walk : (a : String) → (contains (walk start adj) a ≡ true) ↔ Reaches adj start a
  unfolding walk
  contains-walk =
      loop-Decides (suc (length (targets adj))) _ start-Inv
        (omega (arith, unseen-le-length (start ∷ []) (targets adj)))
