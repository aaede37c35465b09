-- ===== src/Lifecycle/Transitions/First.antt =====
-- How to reason about `evaluate`: what holds of every rule that applies holds of the result.
use litehive.Base.{true, ◌≡◌, List, [], ◌∷◌, inl, inr, Bool-cases, and_left, and_right, All}
use litehive.Base.Text.{Text}
use litehive.Domain.Common.{PipelineState}
use litehive.Lifecycle.Events.{Event, is_instance, class_of, class_of-is_instance}
use litehive.Lifecycle.State.{TaskState}
use litehive.Lifecycle.Transitions.{
  no_transition, Result, raise, Rule, Transition, matches_from, allows, applies, fire, evaluate,
}

module _ (now : Text) (current : PipelineState) (e : Event) (s : TaskState) where
  -- Every rule that applies gives a result in `Q`.
  abbrev pub Gives : (Result Transition → Type 0) → Rule → Type 0
  Gives Q r = applies r current e s ≡ true → Q (fire r now e s)

  pub evaluate_all :
      (Q : Result Transition → Type 0) (rs : List Rule)
      → All (Gives Q) rs
      → Q (raise (no_transition current e))
      → Q (evaluate rs now current e s)
  unfolding evaluate
  evaluate_all Q [] h missing = missing
  evaluate_all Q (r ∷ rs) h missing = elim (Bool-cases (applies r current e s)) [
    | inl y ↦ rw y (h.0 y)
    | inr n ↦ rw n (evaluate_all Q rs h.1 missing)
  ]

-- What it means that a rule applies.
pub applies_from :
    (r : Rule) (current : PipelineState) (e : Event) (s : TaskState)
    → applies r current e s ≡ true
    → matches_from r.from_state current ≡ true
unfolding applies
applies_from r current e s h = and_left _ _ h

pub applies_class :
    (r : Rule) (current : PipelineState) (e : Event) (s : TaskState)
    → applies r current e s ≡ true
    → class_of e ≡ r.on_event
unfolding applies
applies_class r current e s h =
    class_of-is_instance e r.on_event
      (and_left _ _ (and_right (matches_from r.from_state current) _ h))

pub applies_guard :
    (r : Rule) (current : PipelineState) (e : Event) (s : TaskState)
    → applies r current e s ≡ true
    → allows r.when s e ≡ true
unfolding applies
applies_guard r current e s h =
    and_right (is_instance e r.on_event) _ (and_right (matches_from r.from_state current) _ h)
