-- ===== src/Tasks/Graph/Work.antt =====
-- A walk ends: each round takes a node off the stack, and the edges of a node are pushed once.
use litehive.Base.{
  ℕ, zero, suc, ◌+◌, ◌≤◌, ◌<◌, ◌≡◌, refl, ap, inl, inr, Bool-cases, true, false, is_some, List, [],
  ◌∷◌, elem, ◌==◌, length, reversed, length-append, length-reversed, if◌then◌else◌, arith,
}
use litehive.Base.Text.{Text, text_eq, text_beq_iff}
use litehive.Tasks.Graph.Walks.{pushed, marked, reaches_walk, count_walk, work}

-- No node outside the list has an edge.
abbrev pub Covers : (Text → List Text) → List Text → Type 0
Covers succ keys = (x : Text) → elem x keys ≡ false → succ x ≡ []

module _ (succ : Text → List Text) where
  work-marked : (s : Text) (keys seen : List Text) → work succ keys (s ∷ seen) ≤ work succ keys seen
  unfolding work
  work-marked s [] seen = omega arith
  work-marked s (k ∷ keys) seen = ground (arith, work-marked s keys seen)

  work-edges :
      (s : Text) (keys seen : List Text)
      → elem s keys ≡ true
      → elem s seen ≡ false
      → work succ keys (s ∷ seen) + length (succ s) ≤ work succ keys seen
  unfolding work
  work-edges s [] seen known new = cc
  work-edges s (k ∷ keys) seen known new = elim (Bool-cases (s == k)) [
    | inl same ↦
        let e : s ≡ k = (text_beq_iff s k).0 same in
        ground (
          arith,
          work-marked s keys seen,
          e,
          text_beq_iff k s,
          ap (λ x. length (succ x)) e,
          ap (λ x. elem x seen) e,
        )
    | inr other ↦ ground (arith, work-edges s keys seen, text_beq_iff k s, text_beq_iff s k)
  ]

  module _ (keys : List Text) (covers : Covers succ keys) where
    -- A round does less than was left.
    pub pushed-work :
        (s : Text) (stack seen : List Text)
        → length (pushed succ s stack seen) + work succ keys (marked succ s seen)
          ≤ length stack + work succ keys seen
    unfolding pushed marked
    pushed-work s stack seen = elim (Bool-cases (elem s seen)) [
      | inl old ↦ rw old (omega arith)
      | inr new ↦ rw new (elim (Bool-cases (elem s keys)) [
        | inl known ↦ omega (
          arith,
          work-edges s keys seen known new,
          length-append (reversed (succ s)) stack,
          length-reversed (succ s),
        )
        | inr unknown ↦ omega (
          arith,
          work-marked s keys seen,
          length-append (reversed (succ s)) stack,
          length-reversed (succ s),
          ap (λ xs. length xs) (covers s unknown),
        )
      ])
    ]

    pub reaches_walk-is_some :
        (target : Text) (n : ℕ) (stack seen : List Text)
        → length stack + work succ keys seen < n
        → is_some (reaches_walk succ target n stack seen) ≡ true
    unfolding reaches_walk
    reaches_walk-is_some target zero stack seen h = ground arith
    reaches_walk-is_some target (suc n) [] seen h = refl
    reaches_walk-is_some target (suc n) (s ∷ stack) seen h = ground (
      arith,
      pushed-work s stack seen,
      reaches_walk-is_some target n (pushed succ s stack seen) (marked succ s seen),
    )

    pub count_walk-is_some :
        (n : ℕ) (stack seen : List Text) (counted : ℕ)
        → length stack + work succ keys seen < n
        → is_some (count_walk succ n stack seen counted) ≡ true
    unfolding count_walk
    count_walk-is_some zero stack seen counted h = ground arith
    count_walk-is_some (suc n) [] seen counted h = refl
    count_walk-is_some (suc n) (s ∷ stack) seen counted h =
        count_walk-is_some n (pushed succ s stack seen) (marked succ s seen)
          (if elem s seen then counted else suc counted) (omega (arith, pushed-work s stack seen))
