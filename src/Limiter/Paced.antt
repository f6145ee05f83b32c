-- ===== src/Limiter/Paced.antt =====
-- Admitted requests are paced.
use bagelquant_data.Prelude.{
  ℕ, ◌+◌, ◌≡◌, refl, Bool, true, ◌&&◌, inl, inr, List, [], ◌∷◌, leb, arith, max, Bool-cases,
}
use bagelquant_data.Limiter.{
  Limiter, limit_of, admitted_at, try_request, note_quota, Event, admissions,
}

-- The times are `from` or later, and each is at least `gap` after the one before.
abbrev pub paced : ℕ → ℕ → List ℕ → Bool
paced gap from [] = true
paced gap from (t ∷ ts) = leb from t && paced gap (t + gap) ts

-- However the threads of a process poll, for whatever datasets, and whatever quotas the provider reports
-- in between, no request is admitted before the limiter's next global time, and each is admitted at
-- least the global interval after the one before.
pub paced-admissions :
    (es : List Event) (l : Limiter) → paced l.global_interval l.global_next (admissions es l) ≡ true
unfolding admissions try_request note_quota
paced-admissions [] l = refl
paced-admissions (Event.quota d interval cooldown now ∷ es) l =
    paced-admissions es (note_quota d interval cooldown now l)
paced-admissions (Event.poll d now ∷ es) l =
    let r = limit_of l d l.rate_limits in
    elim (Bool-cases (leb (max r.next_request l.global_next) now)) [
      | inl free ↦
          rw (free, admissions, try_request)
            (ground (arith, free, paced-admissions es (admitted_at now r l)))
      | inr closed ↦ rw (closed, admissions, try_request) (paced-admissions es l)
    ]
