-- ===== src/Backfill.antt =====
-- `compact_daily_range_backfill` of pipeline/scopes.py: daily requests of the untouched backlog become
-- range requests. The options are given parsed: a configuration error is raised before any of this.
pub mod Complete
pub mod Total
mod Tests
use bagelquant_data.Prelude.{
  ℕ, suc, ◌+◌, Bool, true, false, not, ◌&&◌, ◌||◌, Option, none, some, List, [], ◌∷◌, ◌++◌, map,
  ◌==◌, ltb, if◌then◌else◌, filter, length,
}
use bagelquant_data.Requests.{DailyScope, Kind, Params, LedgerRequest}

-- The month of a day is the first seven characters of its ISO text, as a number.
pub record RangePolicy : Type 0 where
  pub max_scopes : ℕ
  pub calendar_month : Bool
  pub month : ℕ → ℕ

-- `initialization_scan` is set, or `daily_range_backfill` is, or neither.
pub data Compaction : Type 0 where
  keep scan : Compaction
  range : RangePolicy → Compaction

abbrev pub variant_of : LedgerRequest → ℕ
variant_of r = elim r.variant_hash [ none ↦ 0 | some v ↦ v ]

-- The requests of one variant, which are not empty.
pub record Variant : Type 0 where
  pub variant : ℕ
  pub first : LedgerRequest
  pub more : List LedgerRequest

-- `by_variant.setdefault(request.variant_hash or "", []).append(request)`
unfoldable pub add_to_variant : LedgerRequest → List Variant → List Variant
add_to_variant r [] = record { variant = variant_of r; first = r; more = [] } ∷ []
add_to_variant r (v ∷ vs) =
    let rest = add_to_variant r vs in
    if v.variant == variant_of r then record v { more = v.more ++ r ∷ [] } ∷ vs else v ∷ rest

abbrev pub by_variant : List LedgerRequest → List Variant → List Variant
by_variant [] vs = vs
by_variant (r ∷ rs) vs = by_variant rs (add_to_variant r vs)

abbrev pub scopes_of : List LedgerRequest → List DailyScope
scopes_of [] = []
scopes_of (r ∷ rs) = r.daily_scopes ++ scopes_of rs

abbrev pub last_of : LedgerRequest → List LedgerRequest → LedgerRequest
last_of r [] = r
last_of r (s ∷ ss) = last_of s ss

abbrev pub without_date : Params → Params
without_date p = record p { date = none }

-- A new `LedgerRequest`, with the defaults of the other fields.
abbrev pub new_request :
    Params → Kind → Option ℕ → List DailyScope → LedgerRequest → Bool → LedgerRequest
new_request params kind target_end scopes first eligible = record {
  params = params;
  scope_id = none;
  request_kind = kind;
  target_end = target_end;
  recheck_after = none;
  overlaps_existing = false;
  previous_data_max_time = none;
  daily_scopes = scopes;
  scope_ordinal = first.scope_ordinal;
  variant_hash = first.variant_hash;
  range_backfill_eligible = eligible;
  request_date_field = none;
  require_nonempty_response = false;
}

-- One full scan for a variant.
abbrev pub scan_of : Variant → LedgerRequest
scan_of v =
    new_request (without_date v.first.params) Kind.initial_full_scan
      (last_of v.first v.more).target_end (scopes_of (v.first ∷ v.more)) v.first false

-- The key of the first and of the last scope; `none` is an IndexError.
abbrev pub first_key : List DailyScope → Option ℕ
first_key [] = none
first_key (s ∷ ss) = some s.scope_key

abbrev pub last_key : List DailyScope → Option ℕ
last_key [] = none
last_key (s ∷ []) = some s.scope_key
last_key (s ∷ t ∷ ss) = last_key (t ∷ ss)

-- A group: its first and last requests, their number, and its scopes in order.
pub record Group : Type 0 where
  pub first : LedgerRequest
  pub last : LedgerRequest
  pub size : ℕ
  pub scopes : List DailyScope

abbrev pub alone : LedgerRequest → Group
alone r = record { first = r; last = r; size = 1; scopes = r.daily_scopes }

abbrev pub grown : Group → LedgerRequest → Group
grown g r = record g { last = r; size = g.size + 1; scopes = g.scopes ++ r.daily_scopes }

abbrev pub is_next : Option ℕ → Option ℕ → Bool
is_next none b = false
is_next (some a) none = false
is_next (some a) (some b) = b == a + 1

abbrev pub same_month : RangePolicy → Option ℕ → Option ℕ → Option Bool
same_month p none b = none
same_month p (some a) none = none
same_month p (some a) (some b) = some (p.month b == p.month a)

-- The condition of the inner `while`; `none` is an IndexError.
abbrev pub joins : RangePolicy → Group → LedgerRequest → Option Bool
joins p g r =
    if ltb g.size p.max_scopes && is_next g.last.scope_ordinal r.scope_ordinal
    then (if p.calendar_month
        then same_month p (first_key g.first.daily_scopes) (first_key r.daily_scopes)
        else some true)
    else some false

abbrev pub ranged_group : Group → Option ℕ → Option ℕ → Option LedgerRequest
ranged_group g none b = none
ranged_group g (some a) none = none
ranged_group g (some a) (some b) = some (
    new_request (record (without_date g.first.params) { start = some a; end = some b })
      Kind.initial_range_backfill (some b) g.scopes g.first true)

abbrev pub emitted : Group → Option LedgerRequest
emitted g =
    if g.size == 1
    then some g.first
    else ranged_group g (first_key g.first.daily_scopes) (last_key g.last.daily_scopes)

abbrev pub cons_some :
    Option LedgerRequest → Option (List LedgerRequest) → Option (List LedgerRequest)
cons_some none rs = none
cons_some (some r) none = none
cons_some (some r) (some rs) = some (r ∷ rs)

-- `append_groups`, with the current group: both of its loops.
unfoldable pub append_groups :
    RangePolicy → Group → List LedgerRequest → Option (List LedgerRequest)
append_groups p g [] = cons_some (emitted g) (some [])
append_groups p g (r ∷ rs) = elim (joins p g r) [
  | none ↦ none
  | some true ↦ append_groups p (grown g r) rs
  | some false ↦ cons_some (emitted g) (append_groups p (alone r) rs)
]

abbrev pub append_some :
    Option (List LedgerRequest) → Option (List LedgerRequest) → Option (List LedgerRequest)
append_some none ss = none
append_some (some rs) none = none
append_some (some rs) (some ss) = some (rs ++ ss)

unfoldable pub append_variants : RangePolicy → List Variant → Option (List LedgerRequest)
unfolding append_groups
append_variants p [] = some []
append_variants p (v ∷ vs) =
    append_some (append_groups p (alone v.first) v.more) (append_variants p vs)

abbrev pub has_scopes : LedgerRequest → Bool
has_scopes r = ltb 0 (length r.daily_scopes)

-- `recheck` is `initialize or bool(source_options.get("refresh"))`.
abbrev pub eligible_for_range : RangePolicy → Bool → LedgerRequest → Bool
eligible_for_range p recheck r =
    r.range_backfill_eligible || (recheck && p.calendar_month && has_scopes r)

-- For a by-date dataset with source options; `none` is an IndexError.
unfoldable pub compact_daily_range_backfill :
    Compaction → Bool → List LedgerRequest → Option (List LedgerRequest)
unfolding append_variants add_to_variant
compact_daily_range_backfill Compaction.keep recheck rs = some rs
compact_daily_range_backfill Compaction.scan recheck rs = some (
    filter (λ r. not r.range_backfill_eligible) rs
    ++ map scan_of (by_variant (filter (λ r. r.range_backfill_eligible) rs) []))
compact_daily_range_backfill (Compaction.range p) recheck rs =
    append_some (some (filter (λ r. not (eligible_for_range p recheck r)) rs))
      (append_variants p (by_variant (filter (eligible_for_range p recheck) rs) []))
