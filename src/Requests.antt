-- ===== src/Requests.antt =====
-- `DailyScope` and `LedgerRequest` of pipeline/scopes.py. A date is its ordinal, and other text a number.
use bagelquant_data.Prelude.{ℕ, Bool, Option, none, some, List, [], ◌∷◌, map}

pub record DailyScope : Type 0 where
  pub scope_id : ℕ
  pub scope_key : ℕ
  pub recheck_after : Option ℕ

-- `request_kind`
pub data Kind : Type 0 where
  refresh retry empty_recheck historical_recheck forward : Kind
  initial_range_backfill initial_full_scan : Kind

-- `params`: the values of the date parameter and of the range's bounds, and the others.
pub record Params : Type 0 where
  pub date : Option ℕ
  pub start : Option ℕ
  pub end : Option ℕ
  pub other : ℕ

pub record LedgerRequest : Type 0 where
  pub params : Params
  pub scope_id : Option ℕ
  pub request_kind : Kind
  pub target_end : Option ℕ
  pub recheck_after : Option ℕ
  pub overlaps_existing : Bool
  pub previous_data_max_time : Option ℕ
  pub daily_scopes : List DailyScope
  pub scope_ordinal : Option ℕ
  pub variant_hash : Option ℕ
  pub range_backfill_eligible : Bool
  pub request_date_field : Option ℕ
  pub require_nonempty_response : Bool

-- `_scope_ids` of pipeline/update.py
abbrev pub scope_ids : LedgerRequest → List ℕ
scope_ids r = elim r.daily_scopes [
  | [] ↦ elim r.scope_id [ none ↦ [] | some id ↦ id ∷ [] ]
  | s ∷ ss ↦ map (λ (d : DailyScope). d.scope_id) (s ∷ ss)
]
