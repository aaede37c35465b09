-- ===== src/Engines/Usable.antt =====
-- litehive/config/engine_models.py: which engine `EngineRoutingPolicy.select` chooses, and that it
-- keeps what the loop of an agent's node relies on.
use litehive.Base.{
  ◌≡◌, refl, sym, ◌∙◌, inl, inr, Bool, true, false, not, ◌&&◌, Option, none, some, is_some, List,
  [], ◌∷◌, filter, elem, if◌then◌else◌, and_left, false_of_not, Bool-cases, arith,
}
use litehive.Base.Text.{Text, text_eq, text_beq_iff}
use litehive.Base.Dict.{Dict}
use litehive.Domain.Task.{TaskRecord}
use litehive.Engines.{LitehiveConfig, Outside, EngineQuotaBlock, active_engine_freezes}
use litehive.Engines.Select.{
  EngineSelectionRequest, EngineSkip, candidates, not_among, candidate_engine_order, absence,
  quota_block, expired_freeze, attempted, before_others, try_engine, try_engines, selected, select,
  is_empty, all_in,
}
use mathlib.Core.Path.{subst}
use mathlib.Core.Option.{some-injective}
use litehive.Lifecycle.Nodes.Attempts.{Selects}

-- The first of a list that passes a test.
abbrev pub find : (Text → Bool) → List Text → Option Text
find p [] = none
find p (x ∷ xs) = let rest = find p xs in if p x then some x else rest

find-filter :
    (p q : Text → Bool) (xs : List Text) → find p (filter q xs) ≡ find (λ x. q x && p x) xs
find-filter p q [] = refl
find-filter p q (x ∷ xs) = elim (Bool-cases (q x)) [
  | inl kept ↦ rw (kept, find-filter p q xs) refl
  | inr gone ↦ rw (gone, find-filter p q xs) refl
]

pub find-passes : (p : Text → Bool) (xs : List Text) (e : Text) → find p xs ≡ some e → p e ≡ true
find-passes p [] e h = ground arith
find-passes p (x ∷ xs) e h = elim (Bool-cases (p x)) [
  | inl found ↦ subst (λ y. p y ≡ true) (some-injective x e (sym (rw found refl) ∙ h)) found
  | inr other ↦ find-passes p xs e (sym (rw other refl) ∙ h)
]

find-elem : (p : Text → Bool) (xs : List Text) (e : Text) → find p xs ≡ some e → elem e xs ≡ true
find-elem p [] e h = ground arith
find-elem p (x ∷ xs) e h = elim (Bool-cases (p x)) [
  | inl found ↦ ground (arith, text_beq_iff e x, some-injective x e (sym (rw found refl) ∙ h))
  | inr other ↦ ground (arith, find-elem p xs e (sym (rw other refl) ∙ h))
]

find-empty : (p : Text → Bool) (xs : List Text) → is_empty xs ≡ true → find p xs ≡ none
find-empty p [] h = refl
find-empty p (x ∷ xs) h = ground arith

module _ (out : Outside) (request : EngineSelectionRequest) (frozen : List Text) where
  -- An engine that is there, as far as that is asked, and has no quota block, as far as that is asked.
  abbrev pub is_ready : Text → Bool
  is_ready e =
      not (is_some (absence out request frozen e))
      && not (is_some (quota_block out request frozen e))

  -- An engine that is neither excluded nor frozen, and ready.
  abbrev pub is_usable : Text → Bool
  is_usable e = not_among request.excluded_engine_names e && (not_among frozen e && is_ready e)

  attempted-reason :
      (e : Text) (a : Option Text) (b : Option EngineQuotaBlock) (expired : Bool)
      (freezes : Dict Text Text)
      → not (is_some a) && not (is_some b)
        ≡ not (is_some (attempted out request frozen e a b expired freezes).0)
  attempted-reason e none none expired freezes = refl
  attempted-reason e none (some block) expired freezes = refl
  attempted-reason e (some reason) none expired freezes = refl
  attempted-reason e (some reason) (some block) expired freezes = refl

  before_others-engine :
      (e : Text) (reason : Option Text) (freezes : Dict Text Text)
      (others : Option Text × List EngineSkip × Dict Text Text) (next : Option Text) (ready : Bool)
      → ready ≡ not (is_some reason)
      → others.0 ≡ next
      → (before_others out request frozen e reason freezes others).0
        ≡ (if ready then some e else next)
  before_others-engine e none freezes others next ready s h = rw s refl
  before_others-engine e (some reason) freezes others next ready s h = rw s h

  try_engines-find :
      (es : List Text) (freezes : Dict Text Text)
      → (try_engines out request frozen es freezes).0 ≡ find is_ready es
  unfolding try_engines try_engine
  try_engines-find [] freezes = refl
  try_engines-find (e ∷ es) freezes =
      let tried = try_engine out request frozen e freezes in
      before_others-engine e tried.0 tried.1 (try_engines out request frozen es tried.1)
        (find is_ready es) (is_ready e)
        (attempted-reason e (absence out request frozen e) (quota_block out request frozen e)
          (expired_freeze out request frozen e freezes) freezes)
        (try_engines-find es tried.1)

attempts-find :
    (out : Outside) (task : TaskRecord) (config : LitehiveConfig) (request : EngineSelectionRequest)
    (frozen : List Text)
    → find
        (is_ready out request frozen)
        (filter (not_among frozen) (candidate_engine_order task config request))
      ≡ find (is_usable out request frozen) (candidates task config request)
unfolding candidate_engine_order
attempts-find out task config request frozen =
    find-filter (is_ready out request frozen) (not_among frozen)
      (candidate_engine_order task config request)
    ∙ find-filter (λ e. not_among frozen e && is_ready out request frozen e)
        (not_among request.excluded_engine_names) (candidates task config request)

selected-engine_name :
    (out : Outside) (task : TaskRecord) (config : LitehiveConfig) (request : EngineSelectionRequest)
    (attempts : List Text) (name : Option Text) (skipped : List EngineSkip)
    → (selected out task config request attempts name skipped).engine_name ≡ name
selected-engine_name out task config request attempts none skipped = refl
selected-engine_name out task config request attempts (some name) skipped = refl

pub select-find :
    (out : Outside) (task : TaskRecord) (config : LitehiveConfig) (request : EngineSelectionRequest)
    → (select out task config request).0.engine_name
      ≡ find
          (is_usable out request (active_engine_freezes out config.engine_freeze))
          (candidates task config request)
unfolding select candidate_engine_order
select-find out task config request =
    let order = candidate_engine_order task config request in
    let frozen = active_engine_freezes out config.engine_freeze in
    let attempts = filter (not_among frozen) order in
    let tried = try_engines out request frozen attempts config.engine_freeze in
    let first = attempts-find out task config request frozen in
    elim (Bool-cases (is_empty attempts && (not (is_empty order) && all_in frozen order))) [
      | inl over ↦ rw over (
          sym (
            sym first
            ∙ find-empty (is_ready out request frozen) attempts
                (and_left (is_empty attempts) (not (is_empty order) && all_in frozen order) over)))
      | inr left ↦ rw left (
          selected-engine_name out task config request attempts tried.0 tried.1
          ∙ try_engines-find out request frozen attempts config.engine_freeze
          ∙ first)
    ]

-- `ConfigBackedEngineSelector.select`, up to the engine that is made of the name.
abbrev pub selector :
    Outside → TaskRecord → LitehiveConfig → EngineSelectionRequest → List Text → Option Text
selector out task config request excluded =
    (select out task config (record request { excluded_engine_names = excluded })).0.engine_name

-- The selector of the configuration picks one of the candidates, and never an excluded engine.
pub select-Selects :
    (out : Outside) (task : TaskRecord) (config : LitehiveConfig) (request : EngineSelectionRequest)
    → Selects (candidates task config request) (selector out task config request)
select-Selects out task config request = record {
  member = λ excluded e h.
      find-elem (usable excluded) (candidates task config request) e
        (sym (select-find out task config (asked excluded)) ∙ h);
  fresh = λ excluded e h. usable_fresh excluded e (
      find-passes (usable excluded) (candidates task config request) e
        (sym (select-find out task config (asked excluded)) ∙ h));
}
  where
    asked : List Text → EngineSelectionRequest
    asked excluded = record request { excluded_engine_names = excluded }

    usable : List Text → Text → Bool
    usable excluded =
        is_usable out (asked excluded) (active_engine_freezes out config.engine_freeze)

    usable_fresh :
        (excluded : List Text) (e : Text) → usable excluded e ≡ true → elem e excluded ≡ false
    usable_fresh excluded e h = false_of_not (elem e excluded) (
        and_left (not_among excluded e)
          (not_among (active_engine_freezes out config.engine_freeze) e
            && is_ready out (asked excluded) (active_engine_freezes out config.engine_freeze) e)
          h)
