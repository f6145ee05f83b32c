-- ===== src/Daily/Days.antt =====
-- The dates that a dataset without a trading calendar plans.
use bagelquant_data.Prelude.{
  ℕ, zero, suc, ◌-◌, ◌≤◌, ◌≡◌, ap, ◌∙◌, Bool, ◌&&◌, inl, inr, none, some, List, [], ◌∷◌, ◌==◌, leb,
  filter, any, arith, Bool-cases, ==→eq,
}
use bagelquant_data.Daily.{Planning, days_back, from_lower, candidate_dates, dates}

any-filter :
    (t : ℕ → Bool) (d : ℕ) (xs : List ℕ)
    → any (λ x. x == d) (filter t xs) ≡ (t d && any (λ x. x == d) xs)
any-filter t d [] = ground arith
any-filter t d (x ∷ xs) = elim (Bool-cases (x == d)) [
  | inl same ↦
      let e : t x ≡ t d = ap t (==→eq x d same) in
      elim (Bool-cases (t x)) [
        | inl keep ↦ rw (keep, filter) (ground (arith, same, rw keep at e))
        | inr drop ↦ rw (drop, filter) (ground (arith, rw drop at e, any-filter t d xs))
      ]
  | inr other ↦ elim (Bool-cases (t x)) [
    | inl keep ↦ rw (keep, filter) (ground (arith, other, any-filter t d xs))
    | inr drop ↦ rw (drop, filter) (ground (arith, other, any-filter t d xs))
  ]
]

any-days_back :
    (final n d : ℕ)
    → n ≤ final
    → any (λ x. x == d) (days_back final n) ≡ (leb (final - n) d && leb d final)
any-days_back final zero d le = ground arith
any-days_back final (suc n) d le = ground (arith, any-days_back final n d (omega (arith, le)))

-- Without a trading calendar and with a first day given, the dates are exactly the days from the first
-- day to the final day, both included; there are none if the first day is after the final day.
pub dates-exact :
    (p : Planning) (first : ℕ)
    → p.calendar ≡ none
    → p.lower ≡ some first
    → (d : ℕ) → any (λ x. x == d) (dates p) ≡ (leb first d && leb d p.final_day)
unfolding dates
dates-exact p first untraded given d =
    any-filter (λ x. leb x p.final_day && from_lower p.lower x) d (candidate_dates p)
    ∙ rw (untraded, given)
        (ground (arith, any-days_back p.final_day (p.final_day - first) d (omega arith)))
