-- ===== src/Daily.antt =====
-- `_daily_requests` of pipeline/scopes.py: the scopes of a by-date dataset, one for each date and
-- parameter variant, and the requests that are due. A date is its ordinal.
pub mod Days
pub mod Scoped
mod Tests
use bagelquant_data.Prelude.{
  ℕ, zero, suc, ◌+◌, ◌-◌, Bool, true, false, not, ◌&&◌, ◌||◌, Option, none, some, List, [], ◌∷◌,
  ◌++◌, map, ◌==◌, ltb, leb, if◌then◌else◌, filter, any, is_some, find?,
}
use bagelquant_data.Requests.{DailyScope, Kind, Params, LedgerRequest}
use bagelquant_data.Ledger.Data.{Status, Scope, Check, Ledger, equals, of_dataset}
use bagelquant_data.Ledger.Scopes.{
  Declared, synchronize_update_scopes, remove_obsolete_update_scopes,
}

-- A variant: its hash, its parameters, and its `__date_param`.
pub record Variant : Type 0 where
  pub hash : ℕ
  pub params : Params
  pub date_param : Option ℕ

-- What the function reads of the dataset and of its arguments. `calendar` holds the dates of
-- `_calendar_dates` for a trading calendar; `date_kind` is the number of the scope kind "date";
-- `is_interruption` is `_interrupted_backfill_error`.
pub record Planning : Type 0 where
  pub source : ℕ
  pub dataset : ℕ
  pub spec_hash : ℕ
  pub date_kind : ℕ
  pub date_param : ℕ
  pub request_date_field : Option ℕ
  pub recent_recheck_days : ℕ
  pub calendar : Option (List ℕ)
  pub lower : Option ℕ
  pub final_day : ℕ
  pub execution_day : ℕ
  pub is_interruption : Option ℕ → Bool
  pub refresh : Bool

-- `[final_day - timedelta(days=i) for i in range(n, -1, -1)]`
abbrev pub days_back : ℕ → ℕ → List ℕ
days_back final zero = final ∷ []
days_back final (suc n) = (final - suc n) ∷ days_back final n

abbrev pub from_lower : Option ℕ → ℕ → Bool
from_lower none d = true
from_lower (some l) d = leb l d

abbrev pub candidate_dates : Planning → List ℕ
candidate_dates p = elim p.calendar [
  | some days ↦ days
  | none ↦ days_back p.final_day (p.final_day - elim p.lower [ none ↦ p.final_day | some l ↦ l ])
]

unfoldable pub dates : Planning → List ℕ
dates p = filter (λ d. leb d p.final_day && from_lower p.lower d) (candidate_dates p)

-- `ordinals[value]`: the last position of the date.
abbrev pub ordinal_from : ℕ → ℕ → List ℕ → Option ℕ
ordinal_from i d [] = none
ordinal_from i d (x ∷ xs) = elim (ordinal_from (i + 1) d xs) [
  | some j ↦ some j
  | none ↦ if x == d then some i else none
]

abbrev pub is_recent : Planning → ℕ → Bool
is_recent p d = ltb p.final_day (d + p.recent_recheck_days)

abbrev pub declared_scope : Planning → ℕ → Variant → Declared
declared_scope p d v = record {
  source = p.source;
  dataset = p.dataset;
  scope_kind = p.date_kind;
  scope_key = d;
  variant_hash = v.hash;
  initial_start = some d;
  spec_hash = p.spec_hash;
}

-- `for value in dates for variant_hash, _ in variants`
abbrev pub declared_for : Planning → List ℕ → List Variant → List Declared
declared_for p [] vs = []
declared_for p (d ∷ ds) vs = map (declared_scope p d) vs ++ declared_for p ds vs

-- A row of `update_scopes_with_checks`.
abbrev pub joined : List Check → List Scope → List (Scope × Option Check)
joined cs [] = []
joined cs (s ∷ ss) = (s, find? (λ c. c.scope_id == s.id) cs) ∷ joined cs ss

abbrev pub is_before : Scope → Scope → Bool
is_before s t =
    ltb s.scope_key t.scope_key || (s.scope_key == t.scope_key && leb s.variant_hash t.variant_hash)

abbrev pub insert_scope : Scope → List Scope → List Scope
insert_scope s [] = s ∷ []
insert_scope s (t ∷ ts) = if is_before s t then s ∷ t ∷ ts else t ∷ insert_scope s ts

abbrev pub ordered : List Scope → List Scope
ordered [] = []
ordered (s ∷ ss) = insert_scope s (ordered ss)

unfoldable pub update_scopes_with_checks : ℕ → ℕ → ℕ → Ledger → List (Scope × Option Check)
update_scopes_with_checks src name kind l =
    joined l.checks (ordered (filter (λ s. of_dataset src name s && s.scope_kind == kind) l.scopes))

abbrev pub is_due : Planning → Option Check → Bool
is_due p none = false
is_due p (some c) = elim c.recheck_after [ none ↦ false | some d ↦ leb d p.execution_day ]

-- `eligible`; `retry_all_null_payload` asks for an invalid status, which is eligible in any case.
abbrev pub is_eligible : Planning → Scope → Option Check → Bool
is_eligible p s c = elim s.status [
  | Status.pending ↦ true
  | Status.failed ↦ true
  | Status.invalid ↦ true
  | Status.running ↦ p.refresh
  | Status.empty ↦ p.refresh || is_recent p s.scope_key
  | Status.success ↦ p.refresh || is_due p c || is_recent p s.scope_key
]

abbrev pub kind_of : Status → Option Check → Kind
kind_of Status.failed c = Kind.retry
kind_of Status.invalid c = Kind.retry
kind_of Status.empty c = Kind.empty_recheck
kind_of _ c = if is_some c then Kind.historical_recheck else Kind.forward

abbrev pub is_interrupted : Planning → Scope → Option Check → Bool
is_interrupted p s c = elim s.status [
  | Status.failed ↦
      not (is_some c) && not (is_some s.data_max_time) && p.is_interruption s.last_error
  | _ ↦ false
]

abbrev pub is_untouched : Planning → Scope → Bool
is_untouched p s = elim s.status [
  | Status.pending ↦ s.attempt_count == 0 && ltb s.scope_key p.execution_day
  | _ ↦ false
]

abbrev pub recheck_day : Planning → ℕ → Option ℕ
recheck_day p d = if leb p.execution_day d then some (d + 1) else none

abbrev pub request_for : Planning → List ℕ → Variant → Scope → Option Check → LedgerRequest
request_for p ds v s c = record {
  params = record v.params { date = some s.scope_key };
  scope_id = some s.id;
  request_kind = kind_of s.status c;
  target_end = some s.scope_key;
  recheck_after = recheck_day p s.scope_key;
  overlaps_existing = false;
  previous_data_max_time = none;
  daily_scopes =
      record { scope_id = s.id; scope_key = s.scope_key; recheck_after = recheck_day p s.scope_key }
      ∷ [];
  scope_ordinal = ordinal_from 0 s.scope_key ds;
  variant_hash = some s.variant_hash;
  range_backfill_eligible = is_untouched p s || is_interrupted p s c;
  request_date_field = elim p.request_date_field [
    | some f ↦ some f
    | none ↦ elim v.date_param [ some f ↦ some f | none ↦ some p.date_param ]
  ];
  require_nonempty_response = false;
}

-- `variant_params[hash]`: of two variants with one hash, the later.
abbrev pub variant_with : ℕ → List Variant → Option Variant
variant_with hash [] = none
variant_with hash (v ∷ vs) = elim (variant_with hash vs) [
  | some w ↦ some w
  | none ↦ if v.hash == hash then some v else none
]

-- The loop over the rows, by the variant of the row's hash.
unfoldable pub select_requests :
    Planning → List ℕ → List Variant → List (Scope × Option Check) → List LedgerRequest
select_requests p ds vs [] = []
select_requests p ds vs (row ∷ rows) =
    let rest = select_requests p ds vs rows in
    elim (variant_with row.0.variant_hash vs) [
      | none ↦ rest
      | some v ↦
          if any (λ d. d == row.0.scope_key) ds && is_eligible p row.0 row.1
          then request_for p ds v row.0 row.1 ∷ rest
          else rest
    ]

-- The tables after the call, and the requests.
unfoldable pub daily_requests : ℕ → Planning → List Variant → Ledger → Ledger × List LedgerRequest
unfolding select_requests update_scopes_with_checks dates
daily_requests now p vs l =
    let ds = dates p in
    let synced = synchronize_update_scopes now (declared_for p ds vs) l in
    let kept = (remove_obsolete_update_scopes p.source p.dataset p.spec_hash synced).0 in
    (kept, select_requests p ds vs (update_scopes_with_checks p.source p.dataset p.date_kind kept))
