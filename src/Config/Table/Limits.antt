-- ===== src/Config/Table/Limits.antt =====
-- What a configuration that is accepted at the start guarantees to the components that are built from it.
use mathlib.Core.Path.{subst}
use stellar_stellar_rpc.Base.{
  ◌≤◌, ◌≡◌, refl, Option, some, none, List, [], ◌∷◌, map, ◌∙◌, Bool, true, not, ◌&&◌, inl, inr, sym,
  if◌then◌else◌, Bool-cases, and_both, arith, ok,
}
use stellar_stellar_rpc.Base.Maybe.{some-injective}
use stellar_stellar_rpc.Base.Weights.{All}
use stellar_stellar_rpc.Base.Decimal.{Bytes, bytes_eq, codes}
use stellar_stellar_rpc.Config.Parse.{Texts, Raw}
use stellar_stellar_rpc.Config.{
  ConfigOption, Field, Config, Surroundings, set_values, field, required, positive, at_most,
  core_url_or_local,
}
use stellar_stellar_rpc.Config.Validate.{
  as_uint, is_positive, is_set, value_or_unset, core_url_key, options_of, validate,
}
use stellar_stellar_rpc.Config.Validate.Accepted.{IsIndependent, IsAccepted, validate-IsAccepted}
use stellar_stellar_rpc.Config.Custom.{Platform}
use stellar_stellar_rpc.Config.Flags.{add_flags}
use stellar_stellar_rpc.Config.Flags.Kept.{
  stripped, stripped_of, unflagged, add_flags-stripped_of, same_but_flags, AllSetBy-stripped_of,
}
use stellar_stellar_rpc.Config.Sources.{set_values_lem}
use stellar_stellar_rpc.Config.Table.{options}

-- of the value of a field
abbrev pub IsPositive : List Field → Bytes → Type 0
IsPositive fs key = is_positive (value_or_unset (field key fs)) ≡ true

abbrev pub IsGiven : List Field → Bytes → Type 0
IsGiven fs key = is_set (value_or_unset (field key fs)) ≡ true

abbrev pub AtMost : List Field → Bytes → Bytes → Type 0
AtMost fs key max_key = as_uint (field key fs) ≤ as_uint (field max_key fs)

is_independent : ConfigOption → Bool
is_independent o = elim o.validate [
  | none ↦ true
  | some required ↦ not (bytes_eq core_url_key o.config_key)
  | some positive ↦ not (bytes_eq core_url_key o.config_key)
  | some (at_most max_key) ↦
      not (bytes_eq core_url_key o.config_key) && not (bytes_eq core_url_key max_key)
  | some core_url_or_local ↦ true
]

all_independent : List ConfigOption → Bool
all_independent [] = true
all_independent (o ∷ os) = is_independent o && all_independent os

is_independent-IsIndependent : (o : ConfigOption) → is_independent o ≡ true → IsIndependent o
unfolding is_independent
is_independent-IsIndependent o h = ground arith

all_independent-IsIndependent :
    (os : List ConfigOption) → all_independent os ≡ true → All IsIndependent os
unfolding all_independent
all_independent-IsIndependent [] h = tt
all_independent-IsIndependent (o ∷ os) h =
    let (a, b) = and_both (is_independent o) (all_independent os) h in
    (is_independent-IsIndependent o a, all_independent-IsIndependent os b)

all_checked : (t : Texts) (p : Platform) → all_independent (options t p) ≡ true
unfolding all_independent is_independent options bytes_eq
all_checked t p = refl

options-IsIndependent : (t : Texts) (p : Platform) → All IsIndependent (options t p)
options-IsIndependent t p = all_independent-IsIndependent (options t p) (all_checked t p)

-- the first option that is bound to a field
find : Bytes → List ConfigOption → Option ConfigOption
find key [] = none
find key (o ∷ os) = let rest = find key os in if bytes_eq o.config_key key then some o else rest

All-find :
    (P : ConfigOption → Type 0) (key : Bytes) (os : List ConfigOption) {o : ConfigOption}
    → All P os
    → find key os ≡ some o
    → P o
unfolding find
All-find P key [] a h = cc
All-find P key (x ∷ os) a h = elim (Bool-cases (bytes_eq x.config_key key)) [
  | inl e ↦ subst P (some-injective (rw e at h)) a.0
  | inr e ↦ All-find P key os a.1 (rw e at h)
]

-- A predicate that reads neither defaults nor flags holds of stripped options as of the options.
module _ (P : ConfigOption → Type 0) where
  to_stripped :
      ((o : ConfigOption) → P o → P (stripped o))
      → (fs : List Field) → All P (options_of fs)
      → All P (stripped_of fs)
  unfolding options_of
  to_stripped f [] h = tt
  to_stripped f (x ∷ fs) h = (f x.option h.0, to_stripped f fs h.1)

  from_stripped :
      ((o : ConfigOption) → P (stripped o) → P o)
      → (fs : List Field) → All P (stripped_of fs)
      → All P (options_of fs)
  unfolding options_of
  from_stripped f [] h = tt
  from_stripped f (x ∷ fs) h = (f x.option h.0, from_stripped f fs h.1)

-- The program at its start: the Config has the table of options; AddFlags puts flags and defaults
-- into it, and pflag the arguments of the command line into the flags; SetValues and Validate give
-- no error.
module _ (t : Texts) (p : Platform) (sprint : Raw → Bytes) (w : Surroundings) (agent : Bytes)
    (fresh given : List Field) {flagged : List Field} {cfg : Config} {gs : List Field}
    (table : options_of fresh ≡ options t p) (added : add_flags sprint fresh ≡ ok flagged)
    (command_line : map unflagged given ≡ map unflagged flagged)
    (set : set_values t w (record { fields = given; history_archive_user_agent = agent }) ≡ ok cfg)
    (accepted : validate t cfg.fields ≡ ok gs) where
  kept : stripped_of cfg.fields ≡ stripped_of fresh
  kept =
      let (first, e, before, after) = set_values_lem t w _ set in
      AllSetBy-stripped_of t _ _ _ after
      ∙ same_but_flags given flagged command_line
      ∙ add_flags-stripped_of sprint fresh added

  fresh-IsIndependent : All IsIndependent (options_of fresh)
  fresh-IsIndependent = subst (All IsIndependent) (sym table) (options-IsIndependent t p)

  all-IsAccepted : All (IsAccepted gs) (options t p)
  all-IsAccepted = subst (All (IsAccepted gs)) table (
      from_stripped (IsAccepted gs) (λ o h. h) fresh
        (subst (All (IsAccepted gs)) kept (
          to_stripped (IsAccepted gs) (λ o h. h) cfg.fields
            ((validate-IsAccepted t cfg.fields
              (from_stripped IsIndependent (λ o h. h) cfg.fields
                (subst (All IsIndependent) (sym kept)
                  (to_stripped IsIndependent (λ o h. h) fresh fresh-IsIndependent)))
              accepted).0))))

  IsAccepted-at :
      (key : Bytes) {o : ConfigOption} → find key (options t p) ≡ some o → IsAccepted gs o
  IsAccepted-at key h = All-find (IsAccepted gs) key (options t p) all-IsAccepted h

  -- What Validate accepts when the program starts, whatever the environment, the command line and
  -- the file give: the retention window and the windows of the fee statistics, the number
  -- of preflight workers and the length of their queue are positive; no default limit of events,
  -- transactions or ledgers is above its maximum; and the binary and the configuration of the core,
  -- the history archives and the network passphrase are set.
  pub accepted_limits :
      IsPositive gs (codes "HistoryRetentionWindow")
      × IsPositive gs (codes "ClassicFeeStatsLedgerRetentionWindow")
      × IsPositive gs (codes "SorobanFeeStatsLedgerRetentionWindow")
      × IsPositive gs (codes "PreflightWorkerCount")
      × IsPositive gs (codes "PreflightWorkerQueueSize")
      × AtMost gs (codes "DefaultEventsLimit") (codes "MaxEventsLimit")
      × AtMost gs (codes "DefaultTransactionsLimit") (codes "MaxTransactionsLimit")
      × AtMost gs (codes "DefaultLedgersLimit") (codes "MaxLedgersLimit")
      × IsGiven gs (codes "StellarCoreBinaryPath")
      × IsGiven gs (codes "CaptiveCoreConfigPath")
      × IsGiven gs (codes "HistoryArchiveURLs")
      × IsGiven gs (codes "NetworkPassphrase")
  unfolding find options bytes_eq
  accepted_limits = (
    IsAccepted-at (codes "HistoryRetentionWindow") refl,
    IsAccepted-at (codes "ClassicFeeStatsLedgerRetentionWindow") refl,
    IsAccepted-at (codes "SorobanFeeStatsLedgerRetentionWindow") refl,
    IsAccepted-at (codes "PreflightWorkerCount") refl,
    IsAccepted-at (codes "PreflightWorkerQueueSize") refl,
    IsAccepted-at (codes "DefaultEventsLimit") refl,
    IsAccepted-at (codes "DefaultTransactionsLimit") refl,
    IsAccepted-at (codes "DefaultLedgersLimit") refl,
    IsAccepted-at (codes "StellarCoreBinaryPath") refl,
    IsAccepted-at (codes "CaptiveCoreConfigPath") refl,
    IsAccepted-at (codes "HistoryArchiveURLs") refl,
    IsAccepted-at (codes "NetworkPassphrase") refl,
  )
