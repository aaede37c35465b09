-- ===== src/Engines.antt =====
-- litehive/config/engine_models.py, config/engine_freezes.py, config/engine_quota.py and
-- config/time_parsing.py: which engine a task runs on next. The freezes are those of the
-- configuration in memory; the audited store that mirrors them is left out.
use litehive.Base.{
  ℕ, ◌≡◌, Bool, true, false, not, ◌&&◌, ◌||◌, Option, none, some, is_some, List, [], ◌∷◌, ◌++◌,
  ◌==◌, filter, elem, ltb, nat_beq, if◌then◌else◌,
}
use litehive.Base.Text.{Text, lit, text_eq, truthy, strip}
use litehive.Base.Dict.{Dict, lookup, insert, pop}
use litehive.Domain.Common.{PipelineStatus}
use litehive.Domain.Task.{TaskRecord}
pub mod Select
pub mod Usable
pub mod Frozen
mod Visits
mod Samples

-- The fields of `LitehiveConfig` that the choice of an engine reads.
pub record LitehiveConfig : Type 0 where
  pub default_engine : Text
  pub engine_freeze : Dict Text Text
  pub engine_preference : List Text
  pub opencode_model : Text
  pub goz_model : Text
  pub gemini_model : Option Text
  pub copilot_model : Option Text
  pub claude_model : Text

unfoldable pub engine_attempt_order : LitehiveConfig → List Text → List Text
engine_attempt_order config initial_engine_names = initial_engine_names ++ config.engine_preference

unfoldable pub model_for_engine : LitehiveConfig → Text → Option Text
unfolding lit
model_for_engine config engine_name =
    if engine_name == lit "opencode"
    then some config.opencode_model
    else if engine_name == lit "goz"
    then some config.goz_model
    else if engine_name == lit "gemini"
    then config.gemini_model
    else if engine_name == lit "copilot"
    then config.copilot_model
    else if engine_name == lit "claude"
    then some config.claude_model
    else none

-- What a probe for the presence of an engine ends with; `check_failed` holds the kind and the text
-- of the exception.
pub data Availability : Type 0 where
  available unavailable : Availability
  check_failed : (kind message : Text) → Availability

pub record EngineQuotaBlock : Type 0 where
  pub reason : Text
  pub freeze_until : Option ℕ

-- A quota status of the vendor; the resets of its long and short window may be missing.
pub record QuotaStatus : Type 0 where
  pub error : Option Text
  pub limit_reached : Bool
  pub long_term : Option Text
  pub short_term : Option Text

-- What lies outside: the clock, the parsers of the library for times, as seconds since an epoch and
-- with a time without zone read as UTC, its printer, the engines and the vendors.
pub record Outside : Type 0 where
  pub now : ℕ
  pub fromisoformat : Text → Option ℕ
  pub strptime : Text → Option ℕ
  pub strftime : ℕ → Text
  pub is_available : Text → Availability
  pub supports_model_override : Text → Bool
  pub quota_checker : Text → Option QuotaStatus

-- `s.replace("Z", "+00:00")`.
abbrev zone_offset : Text → Text
zone_offset [] = []
zone_offset (c ∷ s) =
    let rest = zone_offset s in if nat_beq c 90 then lit "+00:00" ++ rest else c ∷ rest

abbrev or_parsed : Option ℕ → Option ℕ → Option ℕ
or_parsed none other = other
or_parsed (some time) other = some time

unfoldable pub parse_utc_datetime : Outside → Option Text → Option ℕ
parse_utc_datetime out none = none
parse_utc_datetime out (some value) =
    let normalized = strip value in
    if truthy normalized
    then or_parsed (out.fromisoformat (zone_offset normalized)) (out.strptime normalized)
    else none

abbrev is_later : ℕ → Option ℕ → Bool
is_later now none = false
is_later now (some until) = ltb now until

unfoldable pub is_engine_frozen : Outside → LitehiveConfig → Text → Bool
is_engine_frozen out config engine_name =
    is_later out.now (parse_utc_datetime out (lookup engine_name config.engine_freeze))

-- The keys of `active_engine_freezes`, whose times only reports read.
unfoldable pub active_engine_freezes : Outside → Dict Text Text → List Text
active_engine_freezes out [] = []
active_engine_freezes out ((engine_name, freeze) ∷ rest) =
    let others = active_engine_freezes out rest in
    if is_later out.now (parse_utc_datetime out (some freeze)) then engine_name ∷ others else others

abbrev preferred_quota_reset_at : QuotaStatus → Option Text
preferred_quota_reset_at s = elim s.long_term [
  | none ↦ s.short_term
  | some reset ↦ if truthy reset then some reset else s.short_term
]

abbrev reset_suffix : Option Text → Text
reset_suffix none = []
reset_suffix (some at) = if truthy at then lit ", resets " ++ at else []

unfoldable pub quota_block_reason : Outside → Text → QuotaStatus → Option EngineQuotaBlock
quota_block_reason out engine_name status =
    if is_some status.error || not status.limit_reached
    then none
    else some (record {
      reason =
          engine_name
          ++ (lit " usage limit reached" ++ reset_suffix (preferred_quota_reset_at status));
      freeze_until = parse_utc_datetime out (preferred_quota_reset_at status);
    })

unfoldable pub engine_quota_block : Outside → Text → Option EngineQuotaBlock
engine_quota_block out engine_name = elim (out.quota_checker engine_name) [
  | none ↦ none
  | some status ↦ quota_block_reason out engine_name status
]
