-- ===== src/Tasks/Gate.antt =====
-- litehive/tasks/normalization.py: no full-mode task gets past grooming without the criteria that it
-- needs.
use litehive.Base.{
  ℕ, ◌≤◌, ◌≡◌, refl, ap, sym, ◌∙◌, ◌↔◌, ◌⊎◌, inl, inr, Bool-cases, Bool, true, false, not, ◌&&◌,
  Option, none, some, is_some, List, [], ◌∷◌, ◌++◌, length, leb, ◌==◌, if◌then◌else◌, arith,
}
use litehive.Base.Text.{Text, lit, text_eq, strip, truthy, text_beq_iff}
use litehive.Domain.Common.{PipelineStatus}
use litehive.Domain.Task.{TaskRecord}
use litehive.Tasks.FailedRuns.{nonempty}
use litehive.Tasks.Normalization.{
  signal, required_reason, single_mode, acceptance_criteria_requirement_signals,
  missing_acceptance_criteria_reason, implementation_entry_stage, past_grooming,
  reroute_stage_for_acceptance_criteria,
}

-- What makes criteria needed, said of the fields.
abbrev pub Small : TaskRecord → Type 0
Small t =
    (t.depends_on ≡ [])
    × ((strip t.goal ≡ []) ⊎ (strip t.goal ≡ strip t.title))
    × (t.priority == lit "high" ≡ false)
    × (length t.plan ≤ 1)

abbrev pub Groomed : TaskRecord → Type 0
Groomed t = (nonempty t.acceptance_criteria ≡ true) ⊎ Small t

four_signals :
    (a b c d : Bool) (la lb lc ld : Text)
    → (signal a la ++ (signal b lb ++ (signal c lc ++ signal d ld)) ≡ [])
      ↔ ((a ≡ false) × (b ≡ false) × (c ≡ false) × (d ≡ false))
four_signals true b c d la lb lc ld = ((λ h. cc), (λ h. cc))
four_signals false true c d la lb lc ld = ((λ h. cc), (λ h. cc))
four_signals false false true d la lb lc ld = ((λ h. cc), (λ h. cc))
four_signals false false false true la lb lc ld = ((λ h. cc), (λ h. cc))
four_signals false false false false la lb lc ld = ((λ h. (refl, refl, refl, refl)), (λ h. refl))

nonempty-nil : {A : Type 0} (xs : List A) → (nonempty xs ≡ false) ↔ (xs ≡ [])
nonempty-nil [] = ((λ _. refl), (λ _. refl))
nonempty-nil (x ∷ xs) = ((λ h. cc), (λ h. cc))

truthy-nil : (s : Text) → (truthy s ≡ false) ↔ (s ≡ [])
truthy-nil [] = ((λ _. refl), (λ _. refl))
truthy-nil (c ∷ s) = ((λ h. cc), (λ h. cc))

explicit_goal :
    (goal title : Text)
    → (truthy goal && not (goal == title) ≡ false) ↔ ((goal ≡ []) ⊎ (goal ≡ title))
explicit_goal goal title = (
  (λ h. elim (Bool-cases (truthy goal)) [
    | inr none_ ↦ inl ((truthy-nil goal).0 none_)
    | inl some_ ↦ inr ((text_beq_iff goal title).0 (ground (arith, h, some_)))
  ]),
  (λ ok. elim ok [
    | inl none_ ↦ ground (arith, (truthy-nil goal).1 none_)
    | inr same ↦ ground (arith, (text_beq_iff goal title).1 same)
  ]),
)

signals-Small : (t : TaskRecord) → (acceptance_criteria_requirement_signals t ≡ []) ↔ Small t
unfolding acceptance_criteria_requirement_signals
signals-Small t =
    let a = nonempty t.depends_on in
    let b = truthy (strip t.goal) && not (strip t.goal == strip t.title) in
    let c = t.priority == lit "high" in
    let d = leb 2 (length t.plan) in
    let four =
      four_signals a b c d (lit "dependencies") (lit "an explicit goal") (lit "high priority")
        (lit "a multi-step plan") in
    let goal = explicit_goal (strip t.goal) (strip t.title) in
    (
      (λ h.
          let all = four.0 h in
          ((nonempty-nil t.depends_on).0 all.0, goal.0 all.1, all.2, short (length t.plan) all.3)),
      (λ ok.
          four.1
            ((nonempty-nil t.depends_on).1 ok.0, goal.1 ok.1, ok.2, not_long (length t.plan) ok.3)),
    )
  where
    short : (n : ℕ) → leb 2 n ≡ false → n ≤ 1
    short n h = ground arith

    not_long : (n : ℕ) → n ≤ 1 → leb 2 n ≡ false
    not_long n h = ground arith

required_reason-nil : (signals : List Text) → (required_reason signals ≡ none) ↔ (signals ≡ [])
required_reason-nil [] = ((λ _. refl), (λ _. refl))
required_reason-nil (s ∷ ss) = ((λ h. cc), (λ h. cc))

missing-Groomed : (t : TaskRecord) → (missing_acceptance_criteria_reason t ≡ none) ↔ Groomed t
unfolding missing_acceptance_criteria_reason
missing-Groomed t = elim (Bool-cases (nonempty t.acceptance_criteria)) [
  | inl given ↦ rw given ((λ _. inl refl), (λ _. refl))
  | inr lacking ↦ rw lacking (
    (λ h. inr (
        (signals-Small t).0
          ((required_reason-nil (acceptance_criteria_requirement_signals t)).0 h))),
    (λ ok. elim ok [
      | inl given ↦ cc
      | inr small ↦
          (required_reason-nil (acceptance_criteria_requirement_signals t)).1
            ((signals-Small t).1 small)
    ]),
  )
]

absurd_of : {P : Type 0} → true ≡ false → P
absurd_of h = cc

-- The gate on Booleans: the mode is single, the stage lies past grooming, a reason is missing.
abbrev gate : Bool → Bool → Bool → PipelineStatus → PipelineStatus
gate single past lacking p =
    if single then p else if past then (if lacking then PipelineStatus.grooming else p) else p

gate-facts :
    (single lacking : Bool) (p : PipelineStatus)
    → let stage = gate single (past_grooming p) lacking p in
      (single ≡ false → past_grooming stage ≡ true → lacking ≡ false)
      × (lacking ≡ false → stage ≡ p)
      × ((stage ≡ p) ⊎ (stage ≡ PipelineStatus.grooming))
      × (gate single (past_grooming stage) lacking stage ≡ stage)
gate-facts true lacking p = ((λ h. cc), (λ _. refl), inl refl, refl)
gate-facts false false p = elim (Bool-cases (past_grooming p)) [
  | inl past ↦ rw past ((λ _ _. refl), (λ _. refl), inl refl, (rw past refl))
  | inr early ↦ rw early ((λ _ _. refl), (λ _. refl), inl refl, (rw early refl))
]
gate-facts false true p = elim (Bool-cases (past_grooming p)) [
  | inl past ↦ rw past ((λ _ h. cc), (λ h. cc), inr refl, refl)
  | inr early ↦ rw early ((λ _ h. absurd_of (sym h ∙ early)), (λ h. cc), inl refl, (rw early refl))
]

is_some-none : (o : Option Text) → is_some o ≡ false → o ≡ none
is_some-none none h = refl
is_some-none (some r) h = cc

-- A task of the full mode whose stage, after the gate, lies past grooming has criteria or is too small
-- to need them. The gate moves no task that is groomed, moves others to grooming alone, and gives the
-- same answer when it is asked again. The stage at which a task enters implementation is what the
-- gate answers for a task that stands there.
pub reroute_stage-Groomed :
    (t : TaskRecord)
    → let stage = reroute_stage_for_acceptance_criteria t in
      (single_mode t.pipeline_mode ≡ false → past_grooming stage ≡ true → Groomed t)
      × (Groomed t → stage ≡ t.pipeline_status)
      × ((stage ≡ t.pipeline_status) ⊎ (stage ≡ PipelineStatus.grooming))
      × (reroute_stage_for_acceptance_criteria (record t { pipeline_status = stage }) ≡ stage)
      × (implementation_entry_stage t
          ≡ reroute_stage_for_acceptance_criteria
              (record t { pipeline_status = PipelineStatus.implementing }))
unfolding reroute_stage_for_acceptance_criteria implementation_entry_stage
reroute_stage-Groomed t =
    let facts =
      gate-facts (single_mode t.pipeline_mode) (is_some (missing_acceptance_criteria_reason t))
        t.pipeline_status in
    (
      (λ full past.
          (missing-Groomed t).0
            (is_some-none (missing_acceptance_criteria_reason t) (facts.0 full past))),
      (λ ok. facts.1 (ap is_some ((missing-Groomed t).1 ok))),
      facts.2,
      facts.3,
      refl,
    )
