-- ===== src/Evolve/Scoping/Isolated.antt =====
-- evolveloop/longitudinal-controller.ts: an analysis reads the signals of its scope only.
use evolve_loop.Base.{
  ℕ, String, ◌≡◌, refl, ◌≢◌, ◌⊎◌, inl, inr, Bool, true, false, Bool-cases, Option-cases, Option,
  none, some, List, [], ◌∷◌, keep, All, get_or, ◌==◌, string_eq, arith,
}
use evolve_loop.Evidence.Builders.{truthy}
use evolve_loop.Evolve.Signal.{NeedSignal}
use evolve_loop.Evolve.Host.{Host}
use evolve_loop.Evolve.Longitudinal.{
  AnalysisScope, AnalysisScopeType, user, project, workspace, system, SignalQuery, WindowPreset,
  week,
}
use evolve_loop.Evolve.Store.{SignalStore, query, matches, wanted, workspace_of}
use evolve_loop.Evolve.Scoping.{
  AnalyzeOptions, ScopeResolve, resolved, invalid_scope, requires_scope,
  system_requires_authorization, resolve_given, resolve_legacy, resolve_analysis_scope, any_signal,
  scope_to_query, signals_to_analyze,
}

-- The signal belongs to the scope.
abbrev pub BelongsTo : AnalysisScope → NeedSignal → Type 0
BelongsTo scope s = elim scope.type [
  | user ↦ s.user_id ≡ some scope.id
  | project ↦ s.project_id ≡ some scope.id
  | workspace ↦
      (s.feature_id ≡ some scope.id) ⊎ ((s.scope.id ≡ scope.id) ⊎ (workspace_of s ≡ some scope.id))
  | system ↦ Unit
]

-- A scope that the options name: the given one, or that of the user or project; that of the whole system
-- only if it is authorized.
pub record Granted (may_read_all : Bool) (scope : AnalysisScope) : Type 0 where
  pub named : scope.id ≢ ""
  pub authorized : scope.type ≡ system → may_read_all ≡ true

wanted-same :
    (w : String) (have : Option String) → w ≢ "" → wanted (some w) have ≡ true → have ≡ some w
wanted-same w none given h = absurd (ground arith)
wanted-same w (some t) given h = ground arith

query-matches :
    (h : Host) (now : ℕ) (q : SignalQuery) (P : NeedSignal → Type 0) (ss : List NeedSignal)
    → ((s : NeedSignal) → matches h now q s ≡ true → P s)
    → All P (keep (matches h now q) ss)
query-matches h now q P [] f = tt
query-matches h now q P (s ∷ ss) f = elim (Bool-cases (matches h now q s)) [
  | inl hit ↦ rw hit (f s hit, query-matches h now q P ss f)
  | inr miss ↦ rw miss (query-matches h now q P ss f)
]

module _ (h : Host) (now : ℕ) (w : WindowPreset) (store : SignalStore) where
  scoped-BelongsTo :
      (type : AnalysisScopeType) (id : String)
      → id ≢ ""
      → All
          (BelongsTo (record { type = type; id = id }))
          (query h now (scope_to_query (record { type = type; id = id }) w) store)
  unfolding query scope_to_query
  scoped-BelongsTo user id named =
      query-matches h now (record (any_signal w) { user_id = some id }) _ store.signals
        (λ s hit. wanted-same id s.user_id named (ground arith))
  scoped-BelongsTo project id named =
      query-matches h now (record (any_signal w) { project_id = some id }) _ store.signals
        (λ s hit. wanted-same id s.project_id named (ground arith))
  scoped-BelongsTo workspace id named =
      query-matches h now (record (any_signal w) { feature_id = some id }) _ store.signals
        (λ s hit. elim (Bool-cases (wanted (some id) s.feature_id)) [
          | inl own ↦ inl (wanted-same id s.feature_id named own)
          | inr other ↦ elim (Bool-cases (s.scope.id == id)) [
            | inl here ↦ inr (inl (ground arith))
            | inr elsewhere ↦ inr (inr (wanted-same id (workspace_of s) named (ground arith)))
          ]
        ])
  scoped-BelongsTo system id named =
      query-matches h now (any_signal w) _ store.signals (λ s hit. tt)

named-truthy : (o : Option String) → truthy o ≡ true → get_or o "" ≢ ""
named-truthy none t = absurd (cc)
named-truthy (some id) t = λ e. ground arith

-- What a resolution gives is granted.
abbrev ResolvesTo : Bool → ScopeResolve → Type 0
ResolvesTo a (resolved scope audit) = Granted a scope
ResolvesTo a invalid_scope = Unit
ResolvesTo a requires_scope = Unit
ResolvesTo a system_requires_authorization = Unit

module _ (o : AnalyzeOptions) where
  resolve_legacy-Granted : ResolvesTo o.authorize_system (resolve_legacy o)
  resolve_legacy-Granted = elim (Bool-cases (truthy o.user_id)) [
    | inl own ↦
        rw (own, resolve_legacy)
          (record { named = named-truthy o.user_id own; authorized = λ e. cc })
    | inr other ↦ elim (Bool-cases (truthy o.project_id)) [
      | inl shared ↦
          rw (other, shared, resolve_legacy)
            (record { named = named-truthy o.project_id shared; authorized = λ e. cc })
      | inr neither ↦ rw (other, neither, resolve_legacy) tt
    ]
  ]

  resolve_given-Granted :
      (type : AnalysisScopeType) (id : String) (authorized : Bool)
      → id ≢ ""
      → ResolvesTo authorized (resolve_given authorized (record { type = type; id = id }))
  resolve_given-Granted user id a named = record { named = named; authorized = λ e. cc }
  resolve_given-Granted project id a named = record { named = named; authorized = λ e. cc }
  resolve_given-Granted workspace id a named = record { named = named; authorized = λ e. cc }
  resolve_given-Granted system id true named = record { named = named; authorized = λ s. refl }
  resolve_given-Granted system id false named = tt

  resolve-Granted : ResolvesTo o.authorize_system (resolve_analysis_scope o)
  unfolding resolve_analysis_scope
  resolve-Granted = elim (Option-cases o.scope) [
    | inl legacy ↦ rw (legacy, resolve_analysis_scope) resolve_legacy-Granted
    | inr (scope, given) ↦ elim (Bool-cases (scope.id == "")) [
      | inl empty ↦ rw (given, empty, resolve_analysis_scope) tt
      | inr named ↦
          rw (given, named, resolve_analysis_scope)
            (resolve_given-Granted scope.type scope.id o.authorize_system (λ e. ground arith))
    ]
  ]

-- An analysis reads no signal, or it has a scope with an id, which is that of the whole system only if
-- that was authorized, and each signal that it reads belongs to the user, the project or the workspace of
-- the scope.
pub signals_to_analyze-BelongsTo :
    (h : Host) (now : ℕ) (preset : Option WindowPreset) (o : AnalyzeOptions) (s : SignalStore)
    → (signals_to_analyze h now preset o s ≡ [])
      ⊎ ((scope : AnalysisScope) × Granted o.authorize_system scope
          × All (BelongsTo scope) (signals_to_analyze h now preset o s))
unfolding signals_to_analyze
signals_to_analyze-BelongsTo h now preset o s =
    by_scope (resolve_analysis_scope o) refl (resolve-Granted o)
  where
    by_scope :
        (r : ScopeResolve)
        → resolve_analysis_scope o ≡ r
        → ResolvesTo o.authorize_system r
        → (signals_to_analyze h now preset o s ≡ [])
          ⊎ ((scope : AnalysisScope) × Granted o.authorize_system scope
              × All (BelongsTo scope) (signals_to_analyze h now preset o s))
    by_scope (resolved scope audit) e granted =
        rw (e, signals_to_analyze)
          (inr (
            scope,
            granted,
            scoped-BelongsTo h now (get_or o.window (get_or preset week)) s scope.type scope.id
                granted.named,
          ))
    by_scope invalid_scope e granted = rw (e, signals_to_analyze) (inl refl)
    by_scope requires_scope e granted = rw (e, signals_to_analyze) (inl refl)
    by_scope system_requires_authorization e granted = rw (e, signals_to_analyze) (inl refl)
