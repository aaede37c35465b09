-- ===== src/Engines/Select.antt =====
-- litehive/config/engine_models.py: `EngineRoutingPolicy.select` and what it is made of.
use litehive.Base.{
  Bool, true, false, not, ◌&&◌, Option, none, some, is_some, List, [], ◌∷◌, ◌++◌, ◌==◌, filter,
  elem, if◌then◌else◌,
}
use litehive.Base.Text.{Text, lit, text_eq}
use litehive.Base.Dict.{Dict, lookup, insert, pop}
use litehive.Domain.Status.{pipeline_value}
use litehive.Domain.Runtime.{RuntimeEngineSwitch}
use litehive.Domain.Task.{TaskRecord}
use litehive.Engines.{
  LitehiveConfig, engine_attempt_order, model_for_engine, Availability, EngineQuotaBlock, Outside,
  parse_utc_datetime, active_engine_freezes, engine_quota_block,
}

pub record EngineSelectionRequest : Type 0 where
  pub engine_override : Option Text
  pub requested_model_name : Option Text
  pub engine_names : Option (List Text)
  pub excluded_engine_names : List Text
  pub require_available : Bool
  pub check_quota : Bool

pub record EngineSkip : Type 0 where
  pub engine_name : Text
  pub reason : Text

pub record EngineSelection : Type 0 where
  pub engine_name : Option Text
  pub model_name : Option Text
  pub engine_attempts : List Text
  pub skipped : List EngineSkip
  pub blocked_reason : Text

abbrev switched : TaskRecord → Option RuntimeEngineSwitch → LitehiveConfig → List Text
switched task none config = config.default_engine ∷ []
switched task (some switch) config =
    if switch.stage == pipeline_value task.pipeline_status
    then switch.to_engine ∷ []
    else config.default_engine ∷ []

unfoldable pub resolve_engine_plan : TaskRecord → LitehiveConfig → Option Text → List Text
resolve_engine_plan task config (some engine_override) = engine_override ∷ []
resolve_engine_plan task config none =
    switched task task.runtime.execution.last_engine_switch config

abbrev pub not_among : List Text → Text → Bool
not_among excluded engine_name = not (elem engine_name excluded)

-- The engines in the order in which they are tried, before any is left out.
abbrev pub candidates : TaskRecord → LitehiveConfig → EngineSelectionRequest → List Text
candidates task config request = elim request.engine_names [
  | some names ↦ names
  | none ↦ engine_attempt_order config (resolve_engine_plan task config request.engine_override)
]

unfoldable pub candidate_engine_order :
    TaskRecord → LitehiveConfig → EngineSelectionRequest → List Text
candidate_engine_order task config request =
    filter (not_among request.excluded_engine_names) (candidates task config request)

unfoldable pub resolve_model_override :
    Outside → TaskRecord → LitehiveConfig → Text → Option Text → Option Text
resolve_model_override out task config engine_name requested =
    if not (out.supports_model_override engine_name) then none else elim requested [
      | some model ↦ some model
      | none ↦ elim task.model [
        | some model ↦ some model
        | none ↦ model_for_engine config engine_name
      ]
    ]

-- The reason to skip an engine that is not there.
unfoldable pub unavailable_reason : Text → Availability → Option Text
unavailable_reason engine_name Availability.available = none
unavailable_reason engine_name Availability.unavailable = some (engine_name ++ lit " unavailable")
unavailable_reason engine_name (Availability.check_failed kind message) = some (
    engine_name
    ++ (lit " availability check failed (" ++ (kind ++ (lit ": " ++ (message ++ lit ")")))))

abbrev is_text : Text → Option Text → Bool
is_text t none = false
is_text t (some other) = other == t

unfoldable pub persist_engine_freeze : Text → Text → Dict Text Text → Dict Text Text
persist_engine_freeze engine_name freeze_iso freezes =
    if is_text freeze_iso (lookup engine_name freezes)
    then freezes
    else insert engine_name freeze_iso freezes

-- What the quota of an engine does to the freezes.
unfoldable pub after_quota :
    Outside → Text → Bool → Option EngineQuotaBlock → Dict Text Text → Dict Text Text
after_quota out engine_name expired none freezes =
    if expired then pop engine_name freezes else freezes
after_quota out engine_name expired (some block) freezes = elim block.freeze_until [
  | some until ↦ persist_engine_freeze engine_name (out.strftime until) freezes
  | none ↦ if expired then pop engine_name freezes else freezes
]

-- One round of the loop over the engines: the reason to skip the engine, `none` if it is chosen,
-- and the freezes then.
module _ (out : Outside) (request : EngineSelectionRequest) (frozen : List Text) where
  abbrev pub absence : Text → Option Text
  absence engine_name =
      if request.require_available
      then unavailable_reason engine_name (out.is_available engine_name)
      else none

  abbrev pub quota_block : Text → Option EngineQuotaBlock
  quota_block engine_name = if request.check_quota then engine_quota_block out engine_name else none

  abbrev pub expired_freeze : Text → Dict Text Text → Bool
  expired_freeze engine_name freezes =
      not (elem engine_name frozen) && is_some (parse_utc_datetime out (lookup engine_name freezes))

  abbrev pub block_reason : Option EngineQuotaBlock → Option Text
  block_reason none = none
  block_reason (some block) = some block.reason

  abbrev pub attempted :
      Text
      → Option Text
      → Option EngineQuotaBlock
      → Bool
      → Dict Text Text
      → Option Text × Dict Text Text
  attempted engine_name (some reason) block expired freezes = (some reason, freezes)
  attempted engine_name none block expired freezes =
      (block_reason block, after_quota out engine_name expired block freezes)

  unfoldable pub try_engine : Text → Dict Text Text → Option Text × Dict Text Text
  try_engine engine_name freezes =
      attempted engine_name (absence engine_name) (quota_block engine_name)
        (expired_freeze engine_name freezes) freezes

  -- A round before the others, which only run when the engine is skipped.
  abbrev pub before_others :
      Text
      → Option Text
      → Dict Text Text
      → Option Text × List EngineSkip × Dict Text Text
      → Option Text × List EngineSkip × Dict Text Text
  before_others engine_name none freezes others = (some engine_name, [], freezes)
  before_others engine_name (some reason) freezes others =
      (others.0, record { engine_name = engine_name; reason = reason } ∷ others.1, others.2)

  -- The loop: the engine chosen, what was skipped and the freezes then.
  unfoldable pub try_engines :
      List Text → Dict Text Text → Option Text × List EngineSkip × Dict Text Text
  try_engines [] freezes = (none, [], freezes)
  try_engines (engine_name ∷ others) freezes =
      let tried = try_engine engine_name freezes in
      before_others engine_name tried.0 tried.1 (try_engines others tried.1)

abbrev last_reason : Text → List EngineSkip → Text
last_reason reason [] = reason
last_reason reason (skip ∷ skipped) = last_reason skip.reason skipped

-- `EngineSelection` of the loop.
abbrev pub selected :
    Outside
    → TaskRecord
    → LitehiveConfig
    → EngineSelectionRequest
    → List Text
    → Option Text
    → List EngineSkip
    → EngineSelection
selected out task config request attempts (some engine_name) skipped = record {
  engine_name = some engine_name;
  model_name = resolve_model_override out task config engine_name request.requested_model_name;
  engine_attempts = attempts;
  skipped = skipped;
  blocked_reason = [];
}
selected out task config request attempts none skipped = record {
  engine_name = none;
  model_name = none;
  engine_attempts = attempts;
  skipped = skipped;
  blocked_reason = last_reason (lit "no eligible engine available") skipped;
}

-- What a selection without an attempt says of an order that is not empty: all of it is frozen.
abbrev pub all_frozen : EngineSelection
all_frozen = record {
  engine_name = none;
  model_name = none;
  engine_attempts = [];
  skipped = [];
  blocked_reason = lit "all candidate engines are frozen";
}

abbrev pub is_empty : List Text → Bool
is_empty [] = true
is_empty (_ ∷ _) = false

abbrev pub all_in : List Text → List Text → Bool
all_in frozen [] = true
all_in frozen (engine_name ∷ others) =
    let rest = all_in frozen others in elem engine_name frozen && rest

-- The selection and the configuration with the freezes then.
unfoldable pub select :
    Outside
    → TaskRecord
    → LitehiveConfig
    → EngineSelectionRequest
    → EngineSelection × LitehiveConfig
select out task config request =
    let order = candidate_engine_order task config request in
    let frozen = active_engine_freezes out config.engine_freeze in
    let attempts = filter (not_among frozen) order in
    let tried = try_engines out request frozen attempts config.engine_freeze in
    if is_empty attempts && (not (is_empty order) && all_in frozen order)
    then (all_frozen, config)
    else (
      selected out task config request attempts tried.0 tried.1,
      record config { engine_freeze = tried.2 },
    )
