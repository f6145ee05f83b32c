-- ===== src/Fetch/Tests.antt =====
-- Fetches from a provider with one row for each day, which returns at most three rows.
use bagelquant_data.Prelude.{
  ℕ, ◌+◌, ◌-◌, ◌≡◌, refl, Bool, true, false, Option, none, some, List, [], ◌∷◌, min, map,
  if◌then◌else◌, is_some,
}
use bagelquant_data.Fetch.Page.{Request, FetchPage, Answer, Outside, PageOptions, bound_pages}
use bagelquant_data.Fetch.One.{fetch_one}
use bagelquant_data.Fetch.Attempts.{IsCounter, Accounted, fetch_one-Accounted}
use bagelquant_data.Fetch.Adaptive.{EmptyRangePolicy, fetch_adaptive_date_range}
use bagelquant_data.Fetch.Kept.{within, holding}
use bagelquant_data.Fetch.Complete.{
  fetch_adaptive_date_range-returns, holding-fetch_adaptive_date_range,
}

abbrev days_in : Request → ℕ
days_in r = elim r.start [ none ↦ 0 | some a ↦ elim r.end [ none ↦ 0 | some b ↦ b + 1 - a ] ]

-- A frame is its height; the world counts the calls.
abbrev daily : Outside ℕ ℕ
daily = record {
  cancelled = λ w. (false, w);
  admitted = λ w. (true, w);
  backed_off = λ w. (true, w);
  fetch = λ r w. (Answer.returned (min (days_in r) 3), w + 1);
  height = λ f. f;
  estimated_size = λ f. f;
  digest = λ f. f;
}

abbrev small : PageOptions
small = record {
  page_size = 10;
  offset_start = 0;
  max_pages = 20;
  row_limit = some 3;
  minimum_window_days = 0;
  buffer_limit_bytes = 100;
  require_nonempty_response = false;
  max_retries = 2;
}

abbrev five_days : Request
five_days = record { start = some 11; end = some 15; limit = none; offset = none; other = 0 }

-- The pages of the days 11 to 15, which are more than the provider returns at once.
five_pages : List (FetchPage ℕ) × ℕ
unfolding fetch_adaptive_date_range
five_pages =
    elim (fetch_adaptive_date_range daily small EmptyRangePolicy.accept five_days [] 0)
      as (λ _. List (FetchPage ℕ) × ℕ) [ none ↦ ([], 0) | some r ↦ r ]

-- The whole range is split, then its first three days are.
windows-five_pages :
    map {B = Option ℕ × (Option ℕ × Bool)}
      (λ p. (p.request_params.start, (p.request_params.end, p.discarded)))
      five_pages.0
    ≡ (some 11, (some 15, true))
      ∷ (some 11, (some 13, true))
      ∷ (some 11, (some 12, false))
      ∷ (some 13, (some 13, false))
      ∷ (some 14, (some 15, false))
      ∷ []
unfolding five_pages bound_pages fetch_one
windows-five_pages = refl

fetch_adaptive_date_range-returns_example :
    is_some (fetch_adaptive_date_range daily small EmptyRangePolicy.accept five_days [] 0) ≡ true
fetch_adaptive_date_range-returns_example =
    fetch_adaptive_date_range-returns daily small EmptyRangePolicy.accept five_days [] 0

holding-fetch_adaptive_date_range_example :
    holding 0 13 five_pages.0 ≡ (if within 13 (some 11) (some 15) then 1 else 0)
unfolding five_pages fetch_adaptive_date_range bound_pages fetch_one
holding-fetch_adaptive_date_range_example =
    holding-fetch_adaptive_date_range daily small EmptyRangePolicy.accept five_days [] 0 five_pages
      refl refl refl 13

daily-IsCounter : IsCounter daily (λ w. w)
daily-IsCounter = record {
  on_cancelled = λ w. refl;
  on_admitted = λ w. refl;
  on_backed_off = λ w. refl;
  on_fetch = λ r w. refl;
}

fetch_one-Accounted_example :
    Accounted daily (λ w. w) 0 2 0 (fetch_one daily five_days [] 2 false 0)
fetch_one-Accounted_example =
    fetch_one-Accounted daily (λ w. w) daily-IsCounter five_days [] 2 false 0
