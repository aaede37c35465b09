-- ===== src/Tasks/Graph/Soundness.antt =====
-- The walk of `_dependency_reaches_task` answers whether the target is reached.
use litehive.Base.{
  ℕ, zero, suc, ◌≡◌, refl, ap, subst, ◌↔◌, inl, inr, Bool-cases, Bool, true, false, ◌||◌, some,
  List, [], ◌∷◌, elem, ◌==◌, reversed, elem-append, elem-reversed, arith,
}
use litehive.Base.Text.{Text, text_eq, text_beq_iff}
use litehive.Tasks.Graph.Walks.{pushed, marked, reaches_walk}
use litehive.Tasks.Graph.Paths.{Reaches}

module _ (succ : Text → List Text) (target : Text) where
  -- From some node of the list the target is reached.
  abbrev pub FromSome : List Text → Type 0
  FromSome stack = (a : Text) × (elem a stack ≡ true) × Reaches succ a target

  from_pushed :
      (s : Text) (stack seen : List Text)
      → FromSome (pushed succ s stack seen)
      → FromSome (s ∷ stack)
  unfolding pushed
  from_pushed s stack seen (a, at_a, path) = elim (Bool-cases (elem s seen)) [
    | inl old ↦ (a, ground (arith, at_a, old), path)
    | inr new ↦ elim (Bool-cases (elem a (succ s))) [
      | inl edge ↦ (s, ground (arith, text_beq_iff s s), Reaches.along s a target edge path)
      | inr off ↦ (
        a,
        ground (
          arith,
          at_a,
          new,
          off,
          elem-append a (reversed (succ s)) stack,
          elem-reversed a (succ s),
        ),
        path,
      )
    ]
  ]

  pub reaches_walk-FromSome :
      (n : ℕ) (stack seen : List Text)
      → reaches_walk succ target n stack seen ≡ some true
      → FromSome stack
  unfolding reaches_walk
  reaches_walk-FromSome zero stack seen h = cc
  reaches_walk-FromSome (suc n) [] seen h = cc
  reaches_walk-FromSome (suc n) (s ∷ stack) seen h = elim (Bool-cases (s == target)) [
    | inl found ↦ (
      s,
      ground (arith, text_beq_iff s s),
      subst (λ x. Reaches succ s x) ((text_beq_iff s target).0 found) (Reaches.here s),
    )
    | inr other ↦ from_pushed s stack seen (
        reaches_walk-FromSome n (pushed succ s stack seen) (marked succ s seen)
          (ground (arith, h, other)))
  ]

  -- What a seen node points to is seen or on the stack, and the target is not seen.
  pub record Closed (stack seen : List Text) : Type 0 where
    pub apart : elem target seen ≡ false
    pub edges :
        (a b : Text)
        → elem a seen ≡ true
        → elem b (succ a) ≡ true
        → elem b seen || elem b stack ≡ true

  Closed-apart :
      (seen : List Text) → Closed [] seen → (a : Text) → Reaches succ a target → elem a seen ≡ false
  Closed-apart seen inv a (Reaches.here _) = inv.apart
  Closed-apart seen inv a (Reaches.along _ b _ edge path) =
      ground (arith, inv.edges a b, edge, Closed-apart seen inv b path)

  elem-marked :
      (s x : Text) (stack seen : List Text)
      → elem x seen || elem x (s ∷ stack) ≡ true
      → elem x (marked succ s seen) || elem x (pushed succ s stack seen) ≡ true
  unfolding pushed marked
  elem-marked s x stack seen h = elim (Bool-cases (x == s)) [
    | inl same ↦ ground (arith, same, ap (λ y. elem y seen) ((text_beq_iff x s).0 same))
    | inr other ↦ ground (arith, h, other, elem-append x (reversed (succ s)) stack)
  ]

  edge-pushed :
      (s b : Text) (stack seen : List Text)
      → elem s seen ≡ false
      → elem b (succ s) ≡ true
      → elem b (pushed succ s stack seen) ≡ true
  unfolding pushed
  edge-pushed s b stack seen new edge =
      ground (arith, new, edge, elem-append b (reversed (succ s)) stack, elem-reversed b (succ s))

  Closed-pushed :
      (s : Text) (stack seen : List Text)
      → s == target ≡ false
      → Closed (s ∷ stack) seen
      → Closed (pushed succ s stack seen) (marked succ s seen)
  unfolding marked
  Closed-pushed s stack seen other inv = record {
    apart = ground (arith, other, inv.apart, text_beq_iff target s, text_beq_iff s target);
    edges = λ a b at_a edge. elim (Bool-cases (elem a seen)) [
      | inl old ↦ elem-marked s b stack seen (inv.edges a b old edge)
      | inr new ↦
          let fresh : elem s seen ≡ false = ground (arith, at_a, new) in
          let same : a ≡ s = (text_beq_iff a s).0 (ground (arith, at_a, new, fresh)) in
          ground (
            arith,
            edge-pushed s b stack seen fresh (subst (λ x. elem b (succ x) ≡ true) same edge),
          )
    ];
  }

  pub reaches_walk-apart :
      (n : ℕ) (stack seen : List Text)
      → Closed stack seen
      → reaches_walk succ target n stack seen ≡ some false
      → (a : Text) → elem a seen || elem a stack ≡ true
      → Reaches succ a target
      → ⊥
  unfolding reaches_walk
  reaches_walk-apart zero stack seen inv h a found path = cc
  reaches_walk-apart (suc n) [] seen inv h a found path =
      ground (arith, found, Closed-apart seen inv a path)
  reaches_walk-apart (suc n) (s ∷ stack) seen inv h a found path =
      let other : s == target ≡ false = ground (arith, h) in
      reaches_walk-apart n (pushed succ s stack seen) (marked succ s seen)
        (Closed-pushed s stack seen other inv) (ground (arith, h, other)) a
        (elem-marked s a stack seen found) path

  -- A walk from one node that ends has said whether the target is reached from it.
  pub reaches_walk-Reaches :
      (n : ℕ) (a : Text) (answer : Bool)
      → reaches_walk succ target n (a ∷ []) [] ≡ some answer
      → (answer ≡ true) ↔ Reaches succ a target
  reaches_walk-Reaches n a true h = (
    (λ _.
        let start = reaches_walk-FromSome n (a ∷ []) [] h in
        subst (λ x. Reaches succ x target) ((text_beq_iff start.0 a).0 (ground (arith, start.1)))
          start.2),
    (λ _. refl),
  )
  reaches_walk-Reaches n a false h = (
    (λ e. cc),
    (λ path. absurd (
        reaches_walk-apart n (a ∷ []) [] (record { apart = refl; edges = λ x b at_x edge. cc }) h a
          (ground (arith, text_beq_iff a a)) path)),
  )
