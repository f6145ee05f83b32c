-- ===== src/Limiter/Tests.antt =====
-- Polls of two datasets, of which the first has a limit of its own.
use bagelquant_data.Prelude.{◌≡◌, refl, true, List, [], ◌∷◌, ◌==◌, if◌then◌else◌}
use bagelquant_data.Limiter.{Limiter, Event, admissions}
use bagelquant_data.Limiter.Paced.{paced, paced-admissions}

abbrev fresh : Limiter
fresh = record {
  rate_limits = [];
  global_next = 0;
  global_interval = 2;
  endpoint_interval = λ d. if d == 1 then 5 else 0;
}

abbrev polls : List Event
polls =
    Event.poll 1 10
    ∷ Event.poll 2 11
    ∷ Event.poll 2 12
    ∷ Event.poll 1 14
    ∷ Event.quota 2 4 61 14
    ∷ Event.poll 1 15
    ∷ Event.poll 2 70
    ∷ Event.poll 2 75
    ∷ []

admissions-polls : admissions polls fresh ≡ 10 ∷ 12 ∷ 15 ∷ 75 ∷ []
unfolding admissions
admissions-polls = refl

paced-admissions_example : paced 2 0 (admissions polls fresh) ≡ true
paced-admissions_example = paced-admissions polls fresh
