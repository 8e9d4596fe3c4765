-- ===== src/Domain/Relationships/Cycles.antt =====
-- The cycle check decides reachability: it answers `true` exactly when the existing edges lead from
-- the new edge's target back to its source.
use culturago_stellar.Base.{
  ℕ, zero, suc, ◌≤◌, ◌≡◌, ◌≢◌, refl, sym, ◌⊎◌, ◌↔◌, inl, inr, Bool, true, false, Option, some,
  String, List, [], ◌∷◌, ◌==◌, text_eq, JsMap, includes, length, Bool-cases, arith, eq_iff,
  eq_of_beq, ne_of_beq, subst,
}
use culturago_stellar.Domain.Relationships.{
  RelationshipType, RelationshipType-discrete, relationship_type_eq, member_of, teacher_at,
  director_of, founder_of, targets, adjacency_of, push_all, search_loop, search_fuel, creates_cycle,
  cyclical_types,
}
use culturago_stellar.Domain.Relationships.Search.{
  successors, targets-successors, search_loop-ends, open_edges,
}

abbrev pub Edge : String → String → List (String × String) → Type 0
Edge x y [] = ⊥
Edge x y ((from, to) ∷ edges) = ((from ≡ x) × (to ≡ y)) ⊎ Edge x y edges

-- The edges lead from one entity to another.
pub data Leads (edges : List (String × String)) : String → String → Type 0 where
  here : {x : String} → Leads edges x x
  hop : {x y z : String} → Edge x y edges → Leads edges y z → Leads edges x z

abbrev Member : String → List String → Type 0
Member x [] = ⊥
Member x (y ∷ ys) = (y ≡ x) ⊎ Member x ys

includes→Member : (x : String) (ys : List String) → includes ys x ≡ true → Member x ys
includes→Member x [] h = cc
includes→Member x (y ∷ ys) h = ground (arith, eq_iff y x, includes→Member x ys)

successors→Edge :
    (x y : String) (edges : List (String × String)) → Member y (successors x edges) → Edge x y edges
successors→Edge x y [] h = h
successors→Edge x y ((from, to) ∷ edges) h = elim (Bool-cases (from == x)) [
  | inl e ↦ elim (hit e h) [
    | inl p ↦ inl (eq_of_beq e, p)
    | inr m ↦ inr (successors→Edge x y edges m)
  ]
  | inr e ↦ inr (successors→Edge x y edges (rw e at h))
]
  where
    hit :
        (from == x) ≡ true
        → Member y (successors x ((from, to) ∷ edges))
        → (to ≡ y) ⊎ Member y (successors x edges)
    hit e m = rw e at m

Edge→successors :
    (x y : String) (edges : List (String × String)) → Edge x y edges → Member y (successors x edges)
Edge→successors x y [] h = h
Edge→successors x y ((from, to) ∷ edges) (inl (e, p)) = ground (arith, eq_iff from x)
Edge→successors x y ((from, to) ∷ edges) (inr h) = ground (arith, Edge→successors x y edges h)

Member-push_all :
    (z : String) (xs stack : List String)
    → Member z (push_all xs stack)
    → Member z xs ⊎ Member z stack
unfolding push_all
Member-push_all z [] stack h = inr h
Member-push_all z (x ∷ xs) stack h = ground (arith, Member-push_all z xs (x ∷ stack) h)

push_all-Member :
    (z : String) (xs stack : List String)
    → Member z xs ⊎ Member z stack
    → Member z (push_all xs stack)
unfolding push_all
push_all-Member z [] stack (inr h) = h
push_all-Member z [] stack (inl h) = elim h [ ]
push_all-Member z (x ∷ xs) stack h = ground (arith, push_all-Member z xs (x ∷ stack))

module _ (edges : List (String × String)) (goal : String) where
  -- What the search keeps: the goal is not visited, and the successors of what is visited are
  -- visited or wait on the stack.
  record Inv (visited stack : List String) : Type 0 where
    clean : ¬ Member goal visited
    closed : (x y : String) → Member x visited → Edge x y edges → Member y visited ⊎ Member y stack

  closed-Leads :
      (visited : List String)
      → Inv visited []
      → {x y : String} → Leads edges x y
      → Member x visited
      → Member y visited
  closed-Leads visited v here m = m
  closed-Leads visited v (hop {x} {y} {z} e l) m =
      closed-Leads visited v l (elim (v.closed x y m e) [ inl n ↦ n | inr n ↦ absurd n ])

  abbrev adjacency : JsMap (List String)
  adjacency = adjacency_of [] edges

  target→Edge : (x y : String) → Member y (targets x adjacency) → Edge x y edges
  target→Edge x y m = successors→Edge x y edges (subst (Member y) (targets-successors x edges) m)

  Edge→target : (x y : String) → Edge x y edges → Member y (targets x adjacency)
  Edge→target x y e =
      subst (Member y) (sym (targets-successors x edges)) (Edge→successors x y edges e)

  skip-Inv :
      (current : String) (visited stack : List String)
      → Member current visited
      → Inv visited (current ∷ stack)
      → Inv visited stack
  skip-Inv current visited stack m v = record {
    clean = v.clean;
    closed = λ x y n e. elim (v.closed x y n e) [
      | inl in_visited ↦ inl in_visited
      | inr (inl same) ↦ inl (subst (λ z. Member z visited) same m)
      | inr (inr in_stack) ↦ inr in_stack
    ];
  }

  expand-Inv :
      (current : String) (visited stack : List String)
      → current ≢ goal
      → Inv visited (current ∷ stack)
      → Inv (current ∷ visited) (push_all (targets current adjacency) stack)
  expand-Inv current visited stack n v = record {
    clean = λ m. elim m [ inl same ↦ n same | inr old ↦ v.clean old ];
    closed = λ x y m e. elim m [
      | inl same ↦ inr (
          push_all-Member y (targets current adjacency) stack
            (inl (Edge→target current y (subst (λ z. Edge z y edges) (sym same) e))))
      | inr old ↦ elim (v.closed x y old e) [
        | inl in_visited ↦ inl (inr in_visited)
        | inr (inl now) ↦ inl (inl now)
        | inr (inr in_stack) ↦
            inr (push_all-Member y (targets current adjacency) stack (inr in_stack))
      ]
    ];
  }

  sound :
      (fuel : ℕ) (visited stack : List String)
      → search_loop fuel adjacency goal visited stack ≡ some true
      → (x : String) × Member x stack × Leads edges x goal
  unfolding search_loop
  sound zero visited stack h = cc
  sound (suc fuel) visited [] h = cc
  sound (suc fuel) visited (current ∷ stack) h = elim (Bool-cases (current == goal)) [
    | inl e ↦ (current, inl refl, subst (λ z. Leads edges current z) (eq_of_beq e) here)
    | inr e ↦ elim (Bool-cases (includes visited current)) [
      | inl old ↦ let (x, m, l) = sound fuel visited stack (rw (e, old) at h) in (x, inr m, l)
      | inr new ↦
          let (x, m, l) =
            sound fuel (current ∷ visited) (push_all (targets current adjacency) stack)
              (rw (e, new) at h) in
          elim (Member-push_all x (targets current adjacency) stack m) [
            | inl t ↦ (current, inl refl, hop (target→Edge current x t) l)
            | inr t ↦ (x, inr t, l)
          ]
    ]
  ]

  -- What waits on the stack has no way to the goal when the search says so.
  complete :
      (fuel : ℕ) (visited stack : List String)
      → search_loop fuel adjacency goal visited stack ≡ some false
      → Inv visited stack
      → (y : String) → Member y visited ⊎ Member y stack
      → ¬ Leads edges y goal
  unfolding search_loop
  complete zero visited stack h v y m l = cc
  complete (suc fuel) visited [] h v y (inl m) l = v.clean (closed-Leads visited v l m)
  complete (suc fuel) visited [] h v y (inr m) l = elim m [ ]
  complete (suc fuel) visited (current ∷ stack) h v y m l = elim (Bool-cases (current == goal)) [
    | inl e ↦ absurd (not_false (rw e at h))
    | inr e ↦ elim (Bool-cases (includes visited current)) [
      | inl old ↦
          complete fuel visited stack (rw (e, old) at h)
            (skip-Inv current visited stack (includes→Member current visited old) v) y
            (skipped (includes→Member current visited old) m) l
      | inr new ↦
          complete fuel (current ∷ visited) (push_all (targets current adjacency) stack)
            (rw (e, new) at h) (expand-Inv current visited stack (ne_of_beq e) v) y (expanded m) l
    ]
  ]
    where
      not_false : ¬ (◌≡◌ {A = Option Bool} (some true) (some false))
      not_false q = cc

      skipped :
          Member current visited
          → Member y visited ⊎ Member y (current ∷ stack)
          → Member y visited ⊎ Member y stack
      skipped old (inl a) = inl a
      skipped old (inr (inl same)) = inl (subst (λ z. Member z visited) same old)
      skipped old (inr (inr a)) = inr a

      expanded :
          Member y visited ⊎ Member y (current ∷ stack)
          → Member y (current ∷ visited) ⊎ Member y (push_all (targets current adjacency) stack)
      expanded (inl a) = inl (inr a)
      expanded (inr (inl same)) = inl (inl same)
      expanded (inr (inr a)) = inr (push_all-Member y (targets current adjacency) stack (inr a))

open_edges-le : (edges : List (String × String)) → open_edges [] edges ≤ length edges
open_edges-le [] = omega arith
open_edges-le ((from, to) ∷ edges) = omega (arith, open_edges-le edges)

search_answers :
    (from to : String) (edges : List (String × String))
    → (answer : Bool) × (search_loop (search_fuel edges) (adjacency_of [] edges) from [] (to ∷ [])
        ≡ some answer)
      × ((answer ≡ true) ↔ Leads edges to from)
search_answers from to edges = decide found.0 found.1
  where
    found :
        (answer : Bool) × (search_loop (search_fuel edges) (adjacency_of [] edges) from [] (to ∷ [])
          ≡ some answer)
    found =
        search_loop-ends (search_fuel edges) edges from [] (to ∷ [])
          (omega (arith, open_edges-le edges))

    start : Inv edges from [] (to ∷ [])
    start = record { clean = λ m. m; closed = λ x y m e. absurd m }

    decide :
        (b : Bool)
        → search_loop (search_fuel edges) (adjacency_of [] edges) from [] (to ∷ []) ≡ some b
        → (answer : Bool) × (search_loop
              (search_fuel edges)
              (adjacency_of [] edges)
              from
              []
              (to ∷ [])
            ≡ some answer)
          × ((answer ≡ true) ↔ Leads edges to from)
    decide true h =
        (true, h, (λ _. reached (sound edges from (search_fuel edges) [] (to ∷ []) h), λ _. refl))
      where
        reached : (x : String) × Member x (to ∷ []) × Leads edges x from → Leads edges to from
        reached (x, inl same, l) = subst (λ z. Leads edges z from) (sym same) l
        reached (x, inr m, l) = elim m [ ]
    decide false h = (
      false,
      h,
      (
        λ q. cc,
        λ l.
            absurd
              (complete edges from (search_fuel edges) [] (to ∷ []) h start to (inr (inl refl)) l),
      ),
    )

hierarchical :
    (type : RelationshipType)
    → (includes cyclical_types type ≡ true)
      ↔ ((type ≡ member_of) ⊎ (type ≡ teacher_at) ⊎ (type ≡ director_of) ⊎ (type ≡ founder_of))
unfolding cyclical_types RelationshipType-discrete
hierarchical type = (λ h. ground arith, λ h. ground arith)

-- The cycle check always ends, and answers `true` exactly when the type is one of the four
-- hierarchical ones and the edges already lead from the new edge's target to its source, so that the
-- new edge would close a cycle.
pub creates_cycle_decides :
    (type : RelationshipType) (from to : String) (edges : List (String × String))
    → (answer : Bool) × (creates_cycle type from to edges ≡ some answer)
      × ((answer ≡ true) ↔ (
          ((type ≡ member_of) ⊎ (type ≡ teacher_at) ⊎ (type ≡ director_of) ⊎ (type ≡ founder_of))
          × Leads edges to from))
unfolding creates_cycle
creates_cycle_decides type from to edges = elim (Bool-cases (includes cyclical_types type)) [
  | inl h ↦
      let (answer, e, iff) = search_answers from to edges in
      (answer, rw h e, (λ a. ((hierarchical type).0 h, iff.0 a), λ p. iff.1 p.1))
  | inr h ↦ (false, rw h, (λ a. cc, λ p. absurd (not_both h ((hierarchical type).1 p.0))))
]
  where
    not_both : includes cyclical_types type ≡ false → includes cyclical_types type ≡ true → ⊥
    not_both a b = cc
