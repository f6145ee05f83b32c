-- ===== src/Backfill/Tests.antt =====
-- Four pending days of one variant: two consecutive ones of a month, and one of the next month.
use bagelquant_data.Prelude.{
  ℕ, ◌/◌, ◌≡◌, refl, true, false, Option, none, some, List, [], ◌∷◌, ◌==◌, map, is_some,
}
use bagelquant_data.Requests.{Kind, LedgerRequest}
use bagelquant_data.Backfill.{Compaction, compact_daily_range_backfill}
use bagelquant_data.Backfill.Complete.{tally, tally-compact_daily_range_backfill}
use bagelquant_data.Backfill.Total.{compact_daily_range_backfill-returns}

abbrev pending_day : ℕ → LedgerRequest
pending_day d = record {
  params = record { date = some d; start = none; end = none; other = 0 };
  scope_id = some d;
  request_kind = Kind.forward;
  target_end = some d;
  recheck_after = none;
  overlaps_existing = false;
  previous_data_max_time = none;
  daily_scopes = record { scope_id = d; scope_key = d; recheck_after = none } ∷ [];
  scope_ordinal = some d;
  variant_hash = some 4;
  range_backfill_eligible = true;
  request_date_field = none;
  require_nonempty_response = false;
}

abbrev backlog : List LedgerRequest
backlog = pending_day 28 ∷ pending_day 29 ∷ pending_day 30 ∷ pending_day 32 ∷ []

-- Months of thirty days.
abbrev monthly : Compaction
monthly = Compaction.range (record { max_scopes = 10; calendar_month = true; month = λ d. d / 30 })

abbrev compacted : List LedgerRequest
unfolding compact_daily_range_backfill
compacted = elim (compact_daily_range_backfill monthly false backlog) [ none ↦ [] | some rs ↦ rs ]

starts-compacted : map {B = Option ℕ} (λ r. r.params.start) compacted ≡ some 28 ∷ none ∷ none ∷ []
unfolding compact_daily_range_backfill
starts-compacted = refl

tally-compact_daily_range_backfill_example :
    tally (λ s. s.scope_id == 29) compacted ≡ tally (λ s. s.scope_id == 29) backlog
unfolding compact_daily_range_backfill
tally-compact_daily_range_backfill_example =
    tally-compact_daily_range_backfill (λ s. s.scope_id == 29) monthly false backlog compacted refl

compact_daily_range_backfill-returns_example :
    is_some (compact_daily_range_backfill monthly false backlog) ≡ true
compact_daily_range_backfill-returns_example =
    compact_daily_range_backfill-returns monthly false backlog refl
