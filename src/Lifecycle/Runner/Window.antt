-- ===== src/Lifecycle/Runner/Window.antt =====
-- litehive/lifecycle/persistence.py: the window of outcomes that the recovery budget looks at.
use litehive.Base.{
  ℕ, zero, suc, ◌≤◌, true, false, not, ◌&&◌, ◌≡◌, refl, ◌∙◌, List, [], ◌∷◌, ◌++◌, drop, length,
  ◌==◌, arith,
}
use litehive.Base.Text.{Text, text_eq, text_beq_iff}
use litehive.Domain.Recovery.{RecoveryOutcome, budget_key}
use litehive.Lifecycle.State.{window_unconsumed_for}

-- No two outcomes are about the same budget key.
abbrev pub Once : List RecoveryOutcome → Type 0
Once [] = Unit
Once (o ∷ os) = (window_unconsumed_for os (budget_key o.trigger) ≡ true) × Once os

pub window_unconsumed_for-append :
    (os : List RecoveryOutcome) (o : RecoveryOutcome) (k : Text)
    → window_unconsumed_for (os ++ o ∷ []) k
      ≡ window_unconsumed_for os k && not (budget_key o.trigger == k)
unfolding window_unconsumed_for
window_unconsumed_for-append [] o k = ground arith
window_unconsumed_for-append (p ∷ os) o k = ground (arith, window_unconsumed_for-append os o k)

pub Once-append :
    (os : List RecoveryOutcome) (o : RecoveryOutcome)
    → Once os
    → window_unconsumed_for os (budget_key o.trigger) ≡ true
    → Once (os ++ o ∷ [])
unfolding window_unconsumed_for
Once-append [] o h fresh = (refl, tt)
Once-append (p ∷ os) o h fresh =
    let k = budget_key o.trigger in
    let j = budget_key p.trigger in
    let later : window_unconsumed_for os k ≡ true = ground (arith, fresh) in
    let other : (k == j) ≡ false = ground (arith, fresh, text_beq_iff k j, text_beq_iff j k) in
    (window_unconsumed_for-append os o j ∙ ground (arith, other, h.0), Once-append os o h.1 later)

pub drop-append :
    (n : ℕ) (os : List RecoveryOutcome) (o : RecoveryOutcome)
    → n ≤ length os
    → drop n (os ++ o ∷ []) ≡ drop n os ++ o ∷ []
drop-append zero os o h = refl
drop-append (suc n) [] o h = absurd (omega (arith, h))
drop-append (suc n) (p ∷ os) o h = drop-append n os o (omega (arith, h))
