-- ===== src/Daily/Tests.antt =====
-- Planning three days of a new dataset with one variant.
use bagelquant_data.Daily.Days.{dates-exact}
use bagelquant_data.Prelude.{
  ◌==◌, leb, ◌&&◌, ◌≡◌, refl, true, false, inl, inr, none, some, [], ◌∷◌, map, any,
}
use bagelquant_data.Ledger.Data.{Ledger}
use bagelquant_data.Ledger.Scopes.{synchronize_update_scopes, remove_obsolete_update_scopes}
use bagelquant_data.Daily.{Variant, Planning, dates, daily_requests}
use bagelquant_data.Daily.Scoped.{is_scope_of, daily_requests-Scoped}

abbrev three_days : Planning
three_days = record {
  source = 1;
  dataset = 2;
  spec_hash = 9;
  date_kind = 3;
  date_param = 5;
  request_date_field = none;
  recent_recheck_days = 1;
  calendar = none;
  lower = some 11;
  final_day = 13;
  execution_day = 13;
  is_interruption = λ error. false;
  refresh = false;
}

abbrev only_variant : Variant
only_variant = record {
  hash = 4;
  params = record { date = none; start = none; end = none; other = 0 };
  date_param = none;
}

abbrev new_ledger : Ledger
new_ledger = record {
  scopes = [];
  next_id = 1;
  checks = [];
  runs = [];
  leases = [];
  calls = [];
  datasets = [];
}

days-requested :
    map (λ r. r.target_end) (daily_requests 20 three_days (only_variant ∷ []) new_ledger).1
    ≡ some 11 ∷ some 12 ∷ some 13 ∷ []
unfolding daily_requests synchronize_update_scopes remove_obsolete_update_scopes
days-requested = refl

daily_requests-Scoped_example :
    any
      (is_scope_of three_days 12 only_variant)
      (daily_requests 20 three_days (only_variant ∷ []) new_ledger).0.scopes
    ≡ true
unfolding dates
daily_requests-Scoped_example =
    daily_requests-Scoped three_days 20 12 only_variant (only_variant ∷ []) new_ledger
      (inr (inl refl)) (inl refl)

dates-exact_example : any (λ x. x == 12) (dates three_days) ≡ (leb 11 12 && leb 12 13)
dates-exact_example = dates-exact three_days 11 refl refl 12
