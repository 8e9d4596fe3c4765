-- ===== src/Domain/Relationships/Search.antt =====
-- The depth-first search of the cycle check: it ends within its fuel, and answers by reachability.
use culturago_stellar.Base.{
  ℕ, zero, suc, ◌+◌, ◌<◌, ◌≡◌, refl, sym, ap, ◌∙◌, inl, inr, Bool, true, false, some, String, List,
  [], ◌∷◌, ◌++◌, ◌==◌, text_eq, includes, if◌then◌else◌, JsMap, get, set, get-set, length,
  Bool-cases, arith, eq_iff, eq_of_beq,
}
use mathlib.Core.List.{append-nil, append_assoc}
use culturago_stellar.Domain.Relationships.{targets, adjacency_of, push_all, search_loop}

-- The targets of the edges from `x`, in order.
abbrev pub successors : String → List (String × String) → List String
successors x [] = []
successors x ((from, to) ∷ edges) =
    if from == x then to ∷ successors x edges else successors x edges

targets-set :
    (x from : String) (list : List String) (m : JsMap (List String))
    → targets x (set from list m) ≡ (if from == x then list else targets x m)
targets-set x from list m = ground (arith, get-set from x list m)

one_more :
    (x from to : String) (m : JsMap (List String)) (rest : List String)
    → (if from == x then targets from m ++ to ∷ [] else targets x m) ++ rest
      ≡ targets x m ++ (if from == x then to ∷ rest else rest)
one_more x from to m rest = elim (Bool-cases (from == x)) [
  | inl e ↦
      let same : from ≡ x = eq_of_beq e in
      rw e (rw same (append_assoc (targets x m) (to ∷ []) rest))
  | inr e ↦ rw e
]

targets-adjacency_of :
    (x : String) (m : JsMap (List String)) (edges : List (String × String))
    → targets x (adjacency_of m edges) ≡ targets x m ++ successors x edges
unfolding adjacency_of
targets-adjacency_of x m [] = sym (append-nil (targets x m))
targets-adjacency_of x m ((from, to) ∷ edges) =
    targets-adjacency_of x (set from (targets from m ++ to ∷ []) m) edges
    ∙ ap (λ l. l ++ successors x edges) (targets-set x from (targets from m ++ to ∷ []) m)
    ∙ one_more x from to m (successors x edges)

-- The map that the first loop builds answers with the successors.
pub targets-successors :
    (x : String) (edges : List (String × String))
    → targets x (adjacency_of [] edges) ≡ successors x edges
unfolding get
targets-successors x edges = targets-adjacency_of x [] edges

-- How many edges leave an entity that is not visited yet.
abbrev pub open_edges : List String → List (String × String) → ℕ
open_edges visited [] = 0
open_edges visited ((from, to) ∷ edges) =
    if includes visited from then open_edges visited edges else suc (open_edges visited edges)

open_edges-visit :
    (x : String) (visited : List String) (edges : List (String × String))
    → includes visited x ≡ false
    → open_edges visited edges ≡ open_edges (x ∷ visited) edges + length (successors x edges)
open_edges-visit x visited [] h = omega arith
open_edges-visit x visited ((from, to) ∷ edges) h =
    ground (arith, eq_iff from x, eq_iff x from, open_edges-visit x visited edges h)

length-push_all : (xs stack : List String) → length (push_all xs stack) ≡ length xs + length stack
unfolding push_all
length-push_all [] stack = omega arith
length-push_all (x ∷ xs) stack = omega (arith, length-push_all xs (x ∷ stack))

-- The loop ends within its fuel: what is on the stack and what can still be pushed bound the rounds.
pub search_loop-ends :
    (fuel : ℕ) (edges : List (String × String)) (goal : String) (visited stack : List String)
    → length stack + open_edges visited edges < fuel
    → (answer : Bool) × (search_loop fuel (adjacency_of [] edges) goal visited stack ≡ some answer)
unfolding search_loop
search_loop-ends zero edges goal visited stack h = elim h [ ]
search_loop-ends (suc fuel) edges goal visited [] h = (false, refl)
search_loop-ends (suc fuel) edges goal visited (current ∷ stack) h =
    elim (Bool-cases (current == goal)) [
      | inl e ↦ (true, rw e)
      | inr e ↦ rw e (elim (Bool-cases (includes visited current)) [
        | inl old ↦ rw old (search_loop-ends fuel edges goal visited stack (omega arith))
        | inr new ↦ rw new (
            search_loop-ends fuel edges goal (current ∷ visited)
              (push_all (targets current (adjacency_of [] edges)) stack)
              (omega (
                arith,
                length-push_all (targets current (adjacency_of [] edges)) stack,
                ap length (targets-successors current edges),
                open_edges-visit current visited edges new,
              )))
      ])
    ]
