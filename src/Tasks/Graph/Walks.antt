-- ===== src/Tasks/Graph/Walks.antt =====
-- The loops of `_dependency_reaches_task` and of `_dependent_task_count`, over the edges `succ`. The
-- head of the list is the top of the stack (`stack.pop()` takes the last item, so that `extend`
-- reverses), and a walk that is out of fuel has no result.
use litehive.Base.{
  ℕ, zero, suc, ◌+◌, Bool, true, false, Option, none, some, List, [], ◌∷◌, ◌++◌, elem, ◌==◌, length,
  reversed, if◌then◌else◌,
}
use litehive.Base.Text.{Text, text_eq}

module _ (succ : Text → List Text) where
  -- One round's `continue`, or `seen.add` and `stack.extend`.
  unfoldable pub pushed : Text → List Text → List Text → List Text
  pushed current stack seen = if elem current seen then stack else reversed (succ current) ++ stack

  unfoldable pub marked : Text → List Text → List Text
  marked current seen = if elem current seen then seen else current ∷ seen

  unfoldable pub reaches_walk : Text → ℕ → List Text → List Text → Option Bool
  unfolding pushed marked
  reaches_walk target zero stack seen = none
  reaches_walk target (suc n) [] seen = some false
  reaches_walk target (suc n) (current ∷ stack) seen =
      let rest = reaches_walk target n (pushed current stack seen) (marked current seen) in
      if current == target then some true else rest

  unfoldable pub count_walk : ℕ → List Text → List Text → ℕ → Option ℕ
  unfolding pushed marked
  count_walk zero stack seen counted = none
  count_walk (suc n) [] seen counted = some counted
  count_walk (suc n) (current ∷ stack) seen counted =
      count_walk n (pushed current stack seen) (marked current seen)
        (if elem current seen then counted else suc counted)

  -- The edges that leave nodes not seen yet, of those listed.
  unfoldable pub work : List Text → List Text → ℕ
  work [] seen = 0
  work (k ∷ keys) seen = (if elem k seen then 0 else length (succ k)) + work keys seen
