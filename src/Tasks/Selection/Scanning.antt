-- ===== src/Tasks/Selection/Scanning.antt =====
-- litehive/tasks/queue_selection.py: what the loop over the queue leaves, and that sorting what is
-- ready keeps its order.
use litehive.Base.{
  ℕ, suc, ◌≤◌, ◌<◌, ◌≡◌, refl, ap, sym, ◌∙◌, inl, inr, Bool-cases, Bool, true, false, Option, none,
  some, or_else, All, All-append, List, [], ◌∷◌, ◌++◌, elem, filter, if◌then◌else◌, arith,
}
use litehive.Base.Text.{Text, text_eq, text_beq_iff}
use litehive.Base.Dict.{Dict, lookup}
use litehive.Domain.Task.{TaskRecord}
use litehive.Tasks.Eligibility.{is_task_eligible_for_execution}
use litehive.Tasks.Dependencies.{task_blockers}
use litehive.Tasks.Selection.Ranking.{
  Candidate, eligible, key_leb, insert_by_key, sort_by_key, task_selection_key,
}
use litehive.Tasks.Selection.Resolve.{Scan, remove_first, consider, visit, scan, first_candidate}

-- The indices of the candidates rise from `lo` and stay under `hi`.
abbrev pub Ascending : ℕ → ℕ → List Candidate → Type 0
Ascending lo hi [] = Unit
Ascending lo hi (c ∷ cs) =
    (lo ≤ c.0.queue_index) × (c.0.queue_index < hi) × Ascending (suc c.0.queue_index) hi cs

Ascending-wider : (lo hi : ℕ) (cs : List Candidate) → Ascending lo hi cs → Ascending lo (suc hi) cs
Ascending-wider lo hi [] h = tt
Ascending-wider lo hi (c ∷ cs) (low, high, rest) =
    (low, omega (arith, high), Ascending-wider (suc c.0.queue_index) hi cs rest)

Ascending-append :
    (lo hi : ℕ) (cs : List Candidate) (c : Candidate)
    → lo ≤ hi
    → c.0.queue_index ≡ hi
    → Ascending lo hi cs
    → Ascending lo (suc hi) (cs ++ c ∷ [])
Ascending-append lo hi [] c low at_hi h = (omega (arith, at_hi), omega (arith, at_hi), tt)
Ascending-append lo hi (d ∷ ds) c low at_hi (dl, dh, rest) =
    (dl, omega (arith, dh), Ascending-append (suc d.0.queue_index) hi ds c dh at_hi rest)

insert_by_key-Ascending :
    (hi : ℕ) (c : Candidate) (ds : List Candidate)
    → Ascending (suc c.0.queue_index) hi ds
    → insert_by_key c ds ≡ c ∷ ds
unfolding insert_by_key key_leb
insert_by_key-Ascending hi c [] h = refl
insert_by_key-Ascending hi c (d ∷ ds) (low, high, rest) = ground (arith, low)

pub sort_by_key-Ascending :
    (lo hi : ℕ) (cs : List Candidate) → Ascending lo hi cs → sort_by_key cs ≡ cs
unfolding sort_by_key
sort_by_key-Ascending lo hi [] h = refl
sort_by_key-Ascending lo hi (c ∷ cs) (low, high, rest) =
    ap (insert_by_key c) (sort_by_key-Ascending (suc c.0.queue_index) hi cs rest)
    ∙ insert_by_key-Ascending hi c cs rest

module _ (tasks : Dict Text TaskRecord) where
  -- The task, if it is there, may run, and waits for nothing.
  abbrev pub ready_if : TaskRecord → List Text → Option TaskRecord
  ready_if t [] = some t
  ready_if t (b ∷ bs) = none

  abbrev pub ready : Option TaskRecord → Option TaskRecord
  ready none = none
  ready (some t) =
      if is_task_eligible_for_execution t then ready_if t (task_blockers t tasks) else none

  -- The first of the queue that is ready.
  abbrev pub first_ready : List Text → Option TaskRecord
  first_ready [] = none
  first_ready (id ∷ ids) = or_else (ready (lookup id tasks)) (first_ready ids)

  abbrev pub may_run : Text → Bool
  may_run id = eligible (lookup id tasks)

  abbrev Kept : List Text → Type 0
  Kept = All (λ id. may_run id ≡ true)

  remove_first-Kept :
      (id : Text) (kept ids : List Text)
      → may_run id ≡ false
      → Kept kept
      → remove_first id (kept ++ id ∷ ids) ≡ kept ++ ids
  unfolding remove_first
  remove_first-Kept id [] ids h all = ground (arith, text_beq_iff id id)
  remove_first-Kept id (x ∷ xs) ids h (first, all) = ground (
    arith,
    h,
    first,
    remove_first-Kept id xs ids h all,
    ap may_run,
    λ (e : x ≡ id). ap may_run e,
    text_beq_iff x id,
  )

  consider-ready :
      (index : ℕ) (t : TaskRecord) (blockers : List Text) (s : Scan)
      → first_candidate (consider tasks index t blockers s).ready_candidates
        ≡ or_else (first_candidate s.ready_candidates) (ready_if t blockers)
  unfolding consider
  consider-ready index t [] s =
      elim s.ready_candidates
        as (λ cs.
          first_candidate (cs ++ (task_selection_key t index s.queue tasks, t) ∷ [])
          ≡ or_else (first_candidate cs) (some t)) [ [] ↦ refl | c ∷ cs ↦ refl ]
  consider-ready index t (b ∷ bs) s = ground arith

  or_else-none : (o : Option TaskRecord) → or_else o none ≡ o
  or_else-none none = refl
  or_else-none (some t) = refl

  visit-ready :
      (index : ℕ) (id : Text) (o : Option TaskRecord) (s : Scan)
      → first_candidate (visit tasks index id o s).ready_candidates
        ≡ or_else (first_candidate s.ready_candidates) (ready o)
  unfolding visit
  visit-ready index id none s = sym (or_else-none (first_candidate s.ready_candidates))
  visit-ready index id (some t) s = elim (Bool-cases (is_task_eligible_for_execution t)) [
    | inl able ↦ rw able (consider-ready index t (task_blockers t tasks) s)
    | inr not_ ↦ rw not_ (sym (or_else-none (first_candidate s.ready_candidates)))
  ]

  consider-Ascending :
      (index : ℕ) (t : TaskRecord) (blockers : List Text) (s : Scan)
      → 1 ≤ index
      → Ascending 1 index s.ready_candidates
      → Ascending 1 (suc index) (consider tasks index t blockers s).ready_candidates
  unfolding consider task_selection_key
  consider-Ascending index t [] s from h =
      Ascending-append 1 index s.ready_candidates (task_selection_key t index s.queue tasks, t) from
        refl h
  consider-Ascending index t (b ∷ bs) s from h = elim (Bool-cases (elem t.id s.blocked_task_ids)) [
    | inl old ↦ rw old (Ascending-wider 1 index s.ready_candidates h)
    | inr new ↦ rw new (Ascending-wider 1 index s.ready_candidates h)
  ]

  visit-Ascending :
      (index : ℕ) (id : Text) (o : Option TaskRecord) (s : Scan)
      → 1 ≤ index
      → Ascending 1 index s.ready_candidates
      → Ascending 1 (suc index) (visit tasks index id o s).ready_candidates
  unfolding visit
  visit-Ascending index id none s from h = Ascending-wider 1 index s.ready_candidates h
  visit-Ascending index id (some t) s from h =
      elim (Bool-cases (is_task_eligible_for_execution t)) [
        | inl able ↦ rw able (consider-Ascending index t (task_blockers t tasks) s from h)
        | inr not_ ↦ rw not_ (Ascending-wider 1 index s.ready_candidates h)
      ]

  consider-queue :
      (index : ℕ) (t : TaskRecord) (blockers : List Text) (s : Scan)
      → (consider tasks index t blockers s).queue ≡ s.queue
  unfolding consider
  consider-queue index t [] s = refl
  consider-queue index t (b ∷ bs) s = elim (Bool-cases (elem t.id s.blocked_task_ids)) [
    | inl old ↦ rw old refl
    | inr new ↦ rw new refl
  ]

  visit-queue :
      (index : ℕ) (id : Text) (o : Option TaskRecord) (s : Scan)
      → (visit tasks index id o s).queue ≡ (if eligible o then s.queue else remove_first id s.queue)
  unfolding visit
  visit-queue index id none s = refl
  visit-queue index id (some t) s = elim (Bool-cases (is_task_eligible_for_execution t)) [
    | inl able ↦ rw able (consider-queue index t (task_blockers t tasks) s)
    | inr not_ ↦ rw not_ refl
  ]

  pub scan-Ascending :
      (index : ℕ) (ids : List Text) (s : Scan)
      → 1 ≤ index
      → Ascending 1 index s.ready_candidates
      → (hi : ℕ) × Ascending 1 hi (scan tasks index ids s).ready_candidates
  unfolding scan
  scan-Ascending index [] s from h = (index, h)
  scan-Ascending index (id ∷ ids) s from h =
      scan-Ascending (suc index) ids (visit tasks index id (lookup id tasks) s)
        (omega (arith, from)) (visit-Ascending index id (lookup id tasks) s from h)

  or_else_assoc : (a b c : Option TaskRecord) → or_else (or_else a b) c ≡ or_else a (or_else b c)
  or_else_assoc none b c = refl
  or_else_assoc (some a) b c = refl

  -- The loop finds the first task that is ready.
  pub scan-first_ready :
      (index : ℕ) (ids : List Text) (s : Scan)
      → first_candidate (scan tasks index ids s).ready_candidates
        ≡ or_else (first_candidate s.ready_candidates) (first_ready ids)
  unfolding scan
  scan-first_ready index [] s = sym (or_else-none (first_candidate s.ready_candidates))
  scan-first_ready index (id ∷ ids) s =
      scan-first_ready (suc index) ids (visit tasks index id (lookup id tasks) s)
      ∙ ap (λ o. or_else o (first_ready ids)) (visit-ready index id (lookup id tasks) s)
      ∙ or_else_assoc (first_candidate s.ready_candidates) (ready (lookup id tasks))
          (first_ready ids)

  append_assoc : (xs : List Text) (y : Text) (ys : List Text) → xs ++ y ∷ ys ≡ (xs ++ y ∷ []) ++ ys
  append_assoc [] y ys = refl
  append_assoc (x ∷ xs) y ys = ap (λ zs. x ∷ zs) (append_assoc xs y ys)

  append-none : (xs : List Text) → xs ++ [] ≡ xs
  append-none [] = refl
  append-none (x ∷ xs) = ap (λ zs. x ∷ zs) (append-none xs)

  -- The loop leaves in the queue the tasks that are there and may run.
  pub scan-queue :
      (index : ℕ) (kept ids : List Text) (s : Scan)
      → Kept kept
      → s.queue ≡ kept ++ ids
      → (scan tasks index ids s).queue ≡ kept ++ filter may_run ids
  unfolding scan
  scan-queue index kept [] s all at_ = at_
  scan-queue index kept (id ∷ ids) s all at_ =
      let step = visit-queue index id (lookup id tasks) s in
      let next = visit tasks index id (lookup id tasks) s in
      elim (Bool-cases (may_run id)) [
        | inl able ↦ rw able (
            scan-queue (suc index) (kept ++ id ∷ []) ids next
              (All-append (λ x. may_run x ≡ true) kept (id ∷ []) all (able, tt))
              (step ∙ (rw able (at_ ∙ append_assoc kept id ids)))
            ∙ sym (append_assoc kept id (filter may_run ids)))
        | inr not_ ↦ rw not_ (
            scan-queue (suc index) kept ids next all (
              step ∙ (rw not_ (ap (remove_first id) at_ ∙ remove_first-Kept id kept ids not_ all))))
      ]
