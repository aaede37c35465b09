-- ===== src/Engines/Samples.antt =====
-- A workspace with three engines, of which one is frozen and one has spent its quota.
use litehive.Base.{◌≡◌, ◌≢◌, elem, refl, true, none, some, List, [], ◌∷◌, ◌==◌, if◌then◌else◌}
use litehive.Base.Text.{Text, lit, text_eq, text_beq, strip, lstrip}
use litehive.Base.Dict.{lookup, insert, pop}
use litehive.Domain.Storage.{from_intent}
use litehive.Engines.{
  LitehiveConfig, EngineQuotaBlock, Availability, QuotaStatus, Outside, active_engine_freezes,
  parse_utc_datetime, engine_attempt_order, engine_quota_block, quota_block_reason,
}
use litehive.Engines.Select.{
  EngineSelectionRequest, absence, quota_block, candidate_engine_order, resolve_engine_plan, select,
  try_engines, try_engine, unavailable_reason, after_quota, persist_engine_freeze,
}
use litehive.Engines.Frozen.{Selecting, after_selections, is_before, names_of, select-stays_frozen}
use litehive.Tasks.Samples.{plain, t1}

abbrev config : LitehiveConfig
config = record {
  default_engine = lit "codex";
  engine_freeze = (lit "codex", lit "later") ∷ [];
  engine_preference = lit "codex" ∷ lit "claude" ∷ lit "goz" ∷ [];
  opencode_model = lit "o";
  goz_model = lit "g";
  gemini_model = none;
  copilot_model = none;
  claude_model = lit "c";
}

abbrev spent : QuotaStatus
spent = record {
  error = none;
  limit_reached = true;
  long_term = some (lit "later");
  short_term = none;
}

abbrev out : Outside
out = record {
  now = 5;
  fromisoformat = λ t. if t == lit "later" then some 9 else none;
  strptime = λ t. none;
  strftime = λ t. lit "later";
  is_available = λ e. Availability.available;
  supports_model_override = λ e. true;
  quota_checker = λ e. if e == lit "claude" then some spent else none;
}

abbrev request : EngineSelectionRequest
request = record {
  engine_override = none;
  requested_model_name = none;
  engine_names = none;
  excluded_engine_names = [];
  require_available = true;
  check_quota = true;
}

chosen : (select out (plain t1 []) config request).0.engine_name ≡ some (lit "goz")
unfolding select candidate_engine_order resolve_engine_plan engine_attempt_order
    active_engine_freezes parse_utc_datetime strip lstrip lit text_beq try_engines try_engine
    unavailable_reason after_quota persist_engine_freeze engine_quota_block quota_block_reason
    lookup insert pop from_intent
chosen = refl

-- What the vendor says of claude.
abbrev block : EngineQuotaBlock
block = record { reason = lit "claude usage limit reached, resets later"; freeze_until = some 9 }

abbrev soon_after : Outside
soon_after = record out { now = 6; quota_checker = λ e. none }

abbrev frozen : List Text
frozen = active_engine_freezes out config.engine_freeze

claude_there : absence out request frozen (lit "claude") ≡ none
unfolding unavailable_reason
claude_there = refl

claude_full : quota_block out request frozen (lit "claude") ≡ some block
unfolding engine_quota_block quota_block_reason parse_utc_datetime strip lstrip lit text_beq
claude_full = refl

claude_skipped :
    elem (lit "claude") (names_of (select out (plain t1 []) config request).0.skipped) ≡ true
unfolding select candidate_engine_order resolve_engine_plan engine_attempt_order
    active_engine_freezes parse_utc_datetime strip lstrip lit text_beq try_engines try_engine
    unavailable_reason after_quota persist_engine_freeze engine_quota_block quota_block_reason
    lookup insert pop from_intent
claude_skipped = refl

-- Two selections, soon after.
abbrev again : Selecting
again = record { outside = soon_after; task = plain t1 []; request = request }

again_before : is_before (out.strftime 9) again ≡ true
unfolding parse_utc_datetime strip lstrip lit text_beq
again_before = refl

select-stays_frozen_example :
    (select soon_after
      (plain t1 [])
      (after_selections (again ∷ []) (select out (plain t1 []) config request).1)
      request).0.engine_name
    ≢ some (lit "claude")
select-stays_frozen_example =
    select-stays_frozen out (plain t1 []) config request (lit "claude") block 9 claude_there
      claude_full refl claude_skipped (again ∷ []) again (again_before, tt) again_before
