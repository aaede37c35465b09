-- ===== src/Engines/Frozen.antt =====
-- litehive/config/engine_models.py: what a selection does to the freezes, and what that does to the
-- next ones.
use litehive.Base.{
  All, elem-filter, ℕ, ◌≡◌, ◌≢◌, refl, sym, ap, ◌∙◌, inl, inr, Bool, true, false, not, ◌&&◌, ◌||◌,
  Option, none, some, List, [], ◌∷◌, map, elem, ◌==◌, filter, if◌then◌else◌, and_left, and_right,
  false_of_not, Bool-cases, Option-cases, arith,
}
use mathlib.Core.Path.{subst}
use mathlib.Core.Option.{some-injective}
use litehive.Base.Text.{Text, text_eq, text_beq_iff}
use litehive.Base.Dict.{Dict, lookup, lookup-insert, lookup-pop}
use litehive.Domain.Task.{TaskRecord}
use litehive.Engines.{
  LitehiveConfig, Outside, EngineQuotaBlock, parse_utc_datetime, is_later, active_engine_freezes,
}
use litehive.Engines.Select.{
  EngineSelectionRequest, EngineSkip, candidates, not_among, candidate_engine_order, absence,
  quota_block, expired_freeze, attempted, before_others, try_engine, try_engines,
  persist_engine_freeze, after_quota, selected, select, is_empty, all_in, all_frozen,
  EngineSelection,
}
use litehive.Engines.Usable.{find-passes, is_usable, is_ready, select-find}

-- What `select` returns after the loop.
abbrev picked :
    Outside
    → TaskRecord
    → LitehiveConfig
    → EngineSelectionRequest
    → Bool
    → List Text
    → Option Text
    → List EngineSkip
    → Dict Text Text
    → EngineSelection × LitehiveConfig
picked out task config request none_left attempts name skipped d =
    if none_left then (all_frozen, config) else (
      selected out task config request attempts name skipped,
      record config { engine_freeze = d },
    )

abbrev pub names_of : List EngineSkip → List Text
names_of skipped = map (λ s. s.engine_name) skipped

contradiction : {b : Bool} → b ≡ false → b ≡ true → ⊥
contradiction h k = ground (arith, h, k)

or_else_second : (a b : Bool) → a ≡ false → a || b ≡ true → b ≡ true
or_else_second a b h k = ground arith

lookup-persist_engine_freeze :
    (e iso : Text) (d : Dict Text Text) → lookup e (persist_engine_freeze e iso d) ≡ some iso
unfolding persist_engine_freeze
lookup-persist_engine_freeze e iso d = elim (Option-cases (lookup e d)) [
  | inl missing ↦ rw missing (lookup-insert e e iso d ∙ rw ((text_beq_iff e e).1 refl) refl)
  | inr (old, there) ↦ elim (Bool-cases (old == iso)) [
    | inl same ↦ rw there (rw same (there ∙ ap some ((text_beq_iff old iso).0 same)))
    | inr other ↦
        rw there (rw other (lookup-insert e e iso d ∙ rw ((text_beq_iff e e).1 refl) refl))
  ]
]

lookup-after_quota :
    (out : Outside) (x e : Text) (expired : Bool) (block : Option EngineQuotaBlock)
    (d : Dict Text Text)
    → x == e ≡ false
    → lookup e (after_quota out x expired block d) ≡ lookup e d
unfolding after_quota persist_engine_freeze
lookup-after_quota out x e expired none d other = ground (arith, lookup-pop x e d)
lookup-after_quota out x e expired (some block) d other = elim (Option-cases block.freeze_until) [
  | inl open_ ↦ rw open_ (ground (arith, lookup-pop x e d))
  | inr (until, closed) ↦ rw closed (ground (arith, lookup-insert x e (out.strftime until) d))
]

elem-head : (e x : Text) (others : List Text) → x ≡ e → elem e (x ∷ others) ≡ true
elem-head e x others same = ground (arith, text_beq_iff e x, sym same)

elem-kept :
    (e x : Text) (b : Bool) (others : List Text)
    → elem e others ≡ true
    → elem e (if b then x ∷ others else others) ≡ true
elem-kept e x true others h = ground (arith, h)
elem-kept e x false others h = h

elem-active_engine_freezes :
    (out : Outside) (e iso : Text) (d : Dict Text Text)
    → lookup e d ≡ some iso
    → is_later out.now (parse_utc_datetime out (some iso)) ≡ true
    → elem e (active_engine_freezes out d) ≡ true
unfolding active_engine_freezes lookup
elem-active_engine_freezes out e iso [] h later = ground arith
elem-active_engine_freezes out e iso ((x, freeze) ∷ d) h later = elim (Bool-cases (x == e)) [
  | inl same ↦
      let now_iso = some-injective freeze iso (sym (rw same refl) ∙ h) in
      rw
        (subst (λ f. is_later out.now (parse_utc_datetime out (some f)) ≡ true) (sym now_iso) later)
        (elem-head e x (active_engine_freezes out d) ((text_beq_iff x e).0 same))
  | inr other ↦
      elem-kept e x (is_later out.now (parse_utc_datetime out (some freeze)))
        (active_engine_freezes out d)
        (elem-active_engine_freezes out e iso d (sym (rw other refl) ∙ h) later)
]

-- What the freezes keep of an engine in a round for another one.
module _ (out : Outside) (request : EngineSelectionRequest) (frozen : List Text) (e : Text) where
  lookup-attempted :
      (x : Text) (a : Option Text) (b : Option EngineQuotaBlock) (expired : Bool)
      (d : Dict Text Text)
      → x == e ≡ false
      → lookup e (attempted out request frozen x a b expired d).1 ≡ lookup e d
  lookup-attempted x none b expired d other = lookup-after_quota out x e expired b d other
  lookup-attempted x (some reason) b expired d other = refl

  lookup-before_others :
      {v : Option Text} (x : Text) (reason : Option Text) (d : Dict Text Text)
      (others : Option Text × List EngineSkip × Dict Text Text)
      → lookup e d ≡ v
      → lookup e others.2 ≡ v
      → lookup e (before_others out request frozen x reason d others).2 ≡ v
  lookup-before_others x none d others h k = h
  lookup-before_others x (some reason) d others h k = k

  skipped-before_others :
      {v : Option Text} (x : Text) (reason : Option Text) (d : Dict Text Text)
      (others : Option Text × List EngineSkip × Dict Text Text)
      → elem e (names_of (before_others out request frozen x reason d others).1) ≡ true
      → (e == x ≡ true → lookup e others.2 ≡ v)
      → (elem e (names_of others.1) ≡ true → lookup e others.2 ≡ v)
      → lookup e (before_others out request frozen x reason d others).2 ≡ v
  skipped-before_others x none d others h own later = ground (arith, h)
  skipped-before_others x (some reason) d others h own later = elim (Bool-cases (e == x)) [
    | inl same ↦ own same
    | inr other ↦ later (or_else_second (e == x) (elem e (names_of others.1)) other h)
  ]

-- An engine that is there and whose quota is spent until a known time.
module _ (out : Outside) (request : EngineSelectionRequest) (frozen : List Text) (e : Text)
    (block : EngineQuotaBlock) (until : ℕ) (there : absence out request frozen e ≡ none)
    (full : quota_block out request frozen e ≡ some block)
    (known : block.freeze_until ≡ some until) where
  lookup-try_engine_own :
      (d : Dict Text Text)
      → lookup e (try_engine out request frozen e d).1 ≡ some (out.strftime until)
  unfolding try_engine after_quota
  lookup-try_engine_own d =
      rw there (rw full (rw known (lookup-persist_engine_freeze e (out.strftime until) d)))

  lookup-try_engine :
      (x : Text) (d : Dict Text Text)
      → lookup e d ≡ some (out.strftime until)
      → lookup e (try_engine out request frozen x d).1 ≡ some (out.strftime until)
  unfolding try_engine
  lookup-try_engine x d h = elim (Bool-cases (x == e)) [
    | inl same ↦
        subst (λ y. lookup e (try_engine out request frozen y d).1 ≡ some (out.strftime until))
          (sym ((text_beq_iff x e).0 same)) (lookup-try_engine_own d)
    | inr other ↦
        lookup-attempted out request frozen e x (absence out request frozen x)
          (quota_block out request frozen x) (expired_freeze out request frozen x d) d other
        ∙ h
  ]

  lookup-try_engines :
      (xs : List Text) (d : Dict Text Text)
      → lookup e d ≡ some (out.strftime until)
      → lookup e (try_engines out request frozen xs d).2 ≡ some (out.strftime until)
  unfolding try_engines
  lookup-try_engines [] d h = h
  lookup-try_engines (x ∷ xs) d h =
      lookup-before_others out request frozen e x (try_engine out request frozen x d).0
        (try_engine out request frozen x d).1
        (try_engines out request frozen xs (try_engine out request frozen x d).1)
        (lookup-try_engine x d h)
        (lookup-try_engines xs (try_engine out request frozen x d).1 (lookup-try_engine x d h))

  lookup-skipped :
      (xs : List Text) (d : Dict Text Text)
      → elem e (names_of (try_engines out request frozen xs d).1) ≡ true
      → lookup e (try_engines out request frozen xs d).2 ≡ some (out.strftime until)
  unfolding try_engines
  lookup-skipped [] d h = ground arith
  lookup-skipped (x ∷ xs) d h =
      let tried = try_engine out request frozen x d in
      skipped-before_others out request frozen e x tried.0 tried.1
        (try_engines out request frozen xs tried.1) h
        (λ same. lookup-try_engines xs tried.1 (
          subst (λ y. lookup e (try_engine out request frozen y d).1 ≡ some (out.strftime until))
            ((text_beq_iff e x).0 same) (lookup-try_engine_own d)))
        (lookup-skipped xs tried.1)

  lookup-picked :
      (task : TaskRecord) (config : LitehiveConfig) (none_left : Bool) (attempts : List Text)
      (name : Option Text) (skipped : List EngineSkip) (d : Dict Text Text)
      → (elem e (names_of skipped) ≡ true → lookup e d ≡ some (out.strftime until))
      → elem e
          (names_of (picked out task config request none_left attempts name skipped d).0.skipped)
        ≡ true
      → lookup e (picked out task config request none_left attempts name skipped d).1.engine_freeze
        ≡ some (out.strftime until)
  lookup-picked task config true attempts name skipped d kept h = ground (arith, h)
  lookup-picked task config false attempts none skipped d kept h = kept h
  lookup-picked task config false attempts (some name) skipped d kept h = kept h

lookup-select :
    (out : Outside) (task : TaskRecord) (config : LitehiveConfig) (request : EngineSelectionRequest)
    (e : Text) (block : EngineQuotaBlock) (until : ℕ)
    → absence out request (active_engine_freezes out config.engine_freeze) e ≡ none
    → quota_block out request (active_engine_freezes out config.engine_freeze) e ≡ some block
    → block.freeze_until ≡ some until
    → elem e (names_of (select out task config request).0.skipped) ≡ true
    → lookup e (select out task config request).1.engine_freeze ≡ some (out.strftime until)
unfolding select
lookup-select out task config request e block until there full known h =
    let order = candidate_engine_order task config request in
    let frozen = active_engine_freezes out config.engine_freeze in
    let attempts = filter (not_among frozen) order in
    let tried = try_engines out request frozen attempts config.engine_freeze in
    lookup-picked out request frozen e block until there full known task config
      (is_empty attempts && (not (is_empty order) && all_in frozen order)) attempts tried.0 tried.1
      tried.2
      (lookup-skipped out request frozen e block until there full known attempts
        config.engine_freeze)
      h

-- A freeze whose time is still to come survives a selection, which leaves its engine out.
module _ (out : Outside) (request : EngineSelectionRequest) (frozen : List Text) (e : Text) where
  lookup-others :
      (xs : List Text) (d : Dict Text Text)
      → elem e xs ≡ false
      → lookup e (try_engines out request frozen xs d).2 ≡ lookup e d
  unfolding try_engines try_engine
  lookup-others [] d absent = refl
  lookup-others (x ∷ xs) d absent =
      let tried = try_engine out request frozen x d in
      let kept =
        lookup-attempted out request frozen e x (absence out request frozen x)
          (quota_block out request frozen x) (expired_freeze out request frozen x d) d
          (apart x e (elem e xs) absent) in
      lookup-before_others out request frozen e x tried.0 tried.1
        (try_engines out request frozen xs tried.1) kept
        (lookup-others xs tried.1 (or_second (e == x) (elem e xs) absent) ∙ kept)
    where
      or_second : (a b : Bool) → a || b ≡ false → b ≡ false
      or_second a b h = ground (arith, h)

      apart : (x e : Text) (b : Bool) → (e == x) || b ≡ false → x == e ≡ false
      apart x e b h = ground (arith, h, text_beq_iff x e, text_beq_iff e x)

kept-picked :
    (out : Outside) (task : TaskRecord) (config : LitehiveConfig) (request : EngineSelectionRequest)
    (e iso : Text) (none_left : Bool) (attempts : List Text) (name : Option Text)
    (skipped : List EngineSkip) (d : Dict Text Text)
    → lookup e config.engine_freeze ≡ some iso
    → lookup e d ≡ some iso
    → lookup e (picked out task config request none_left attempts name skipped d).1.engine_freeze
      ≡ some iso
kept-picked out task config request e iso true attempts name skipped d h k = h
kept-picked out task config request e iso false attempts name skipped d h k = k

not_attempted : (b c : Bool) → b ≡ true → c && not b ≡ false
not_attempted b c h = ground (arith, h)

select-keeps_freeze :
    (out : Outside) (task : TaskRecord) (config : LitehiveConfig) (request : EngineSelectionRequest)
    (e iso : Text)
    → lookup e config.engine_freeze ≡ some iso
    → is_later out.now (parse_utc_datetime out (some iso)) ≡ true
    → lookup e (select out task config request).1.engine_freeze ≡ some iso
unfolding select
select-keeps_freeze out task config request e iso h later =
    let order = candidate_engine_order task config request in
    let frozen = active_engine_freezes out config.engine_freeze in
    let attempts = filter (not_among frozen) order in
    let tried = try_engines out request frozen attempts config.engine_freeze in
    let still = elem-active_engine_freezes out e iso config.engine_freeze h later in
    let absent =
      elem-filter (not_among frozen) e order ∙ not_attempted (elem e frozen) (elem e order) still in
    kept-picked out task config request e iso
      (is_empty attempts && (not (is_empty order) && all_in frozen order)) attempts tried.0 tried.1
      tried.2 h (lookup-others out request frozen e attempts config.engine_freeze absent ∙ h)

select-passes_over :
    (out : Outside) (task : TaskRecord) (config : LitehiveConfig) (request : EngineSelectionRequest)
    (e iso : Text)
    → lookup e config.engine_freeze ≡ some iso
    → is_later out.now (parse_utc_datetime out (some iso)) ≡ true
    → (select out task config request).0.engine_name ≢ some e
select-passes_over out task config request e iso h later chosen =
    let frozen = active_engine_freezes out config.engine_freeze in
    let usable =
      find-passes (is_usable out request frozen) (candidates task config request) e
        (sym (select-find out task config request) ∙ chosen) in
    let rest =
      and_right (not_among request.excluded_engine_names e)
        (not_among frozen e && is_ready out request frozen e) usable in
    contradiction
      (false_of_not (elem e frozen)
        (and_left (not_among frozen e) (is_ready out request frozen e) rest))
      (elem-active_engine_freezes out e iso config.engine_freeze h later)

-- A selection to come: what is outside then, and for which task and request.
pub record Selecting : Type 0 where
  pub outside : Outside
  pub task : TaskRecord
  pub request : EngineSelectionRequest

-- The configuration after selections, the first of the list first.
unfoldable pub after_selections : List Selecting → LitehiveConfig → LitehiveConfig
after_selections [] config = config
after_selections (l ∷ ls) config = after_selections ls (select l.outside l.task config l.request).1

-- The clock of a selection is before the time of a freeze.
abbrev pub is_before : Text → Selecting → Bool
is_before iso l = is_later l.outside.now (parse_utc_datetime l.outside (some iso))

after_selections-keeps_freeze :
    (ls : List Selecting) (config : LitehiveConfig) (e iso : Text)
    → lookup e config.engine_freeze ≡ some iso
    → All (λ l. is_before iso l ≡ true) ls
    → lookup e (after_selections ls config).engine_freeze ≡ some iso
unfolding after_selections
after_selections-keeps_freeze [] config e iso h before = h
after_selections-keeps_freeze (l ∷ ls) config e iso h before =
    after_selections-keeps_freeze ls (select l.outside l.task config l.request).1 e iso
      (select-keeps_freeze l.outside l.task config l.request e iso h before.0) before.1

module _ (out : Outside) (task : TaskRecord) (config : LitehiveConfig)
    (request : EngineSelectionRequest) (e : Text) (block : EngineQuotaBlock) (until : ℕ) where
  -- A selection that skips an engine for a quota spent until a known time keeps every later one
  -- from choosing the engine, however many selections there are in between, while the clocks are
  -- before the time that the freeze is read as, and whatever the tasks, the requests and the vendors'
  -- answers then are. The conditions: the engine was skipped, though it was there, and its quota
  -- block names a time.
  pub select-stays_frozen :
      absence out request (active_engine_freezes out config.engine_freeze) e ≡ none
      → quota_block out request (active_engine_freezes out config.engine_freeze) e ≡ some block
      → block.freeze_until ≡ some until
      → elem e (names_of (select out task config request).0.skipped) ≡ true
      → (between : List Selecting) (last : Selecting)
      → All (λ l. is_before (out.strftime until) l ≡ true) between
      → is_before (out.strftime until) last ≡ true
      → (select last.outside last.task
          (after_selections between (select out task config request).1)
          last.request).0.engine_name
        ≢ some e
  select-stays_frozen there full known skipped between last early before =
      let iso = out.strftime until in
      let kept =
        after_selections-keeps_freeze between (select out task config request).1 e iso
          (lookup-select out task config request e block until there full known skipped) early in
      select-passes_over last.outside last.task
        (after_selections between (select out task config request).1) last.request e iso kept before
