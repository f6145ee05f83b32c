-- ===== src/Backfill/Total.antt =====
-- The compaction raises no IndexError when every request has a daily scope.
use bagelquant_data.Prelude.{
  ℕ, ◌≡◌, refl, Bool, true, not, ◌&&◌, inl, inr, Option, none, some, List, [], ◌∷◌, ◌++◌, ◌==◌, ltb,
  length, filter, arith, Bool-cases, is_some, all, &&-true,
}
use bagelquant_data.Requests.{DailyScope, LedgerRequest}
use bagelquant_data.Backfill.{
  RangePolicy, Compaction, variant_of, Variant, add_to_variant, by_variant, first_key, last_key,
  Group, alone, grown, is_next, same_month, joins, ranged_group, emitted, cons_some, append_groups,
  append_some, append_variants, has_scopes, eligible_for_range, compact_daily_range_backfill,
}
use bagelquant_data.Backfill.Complete.{joins-cases}

first_key-some : (ss : List DailyScope) → ltb 0 (length ss) ≡ true → is_some (first_key ss) ≡ true
first_key-some [] h = h
first_key-some (s ∷ ss) h = refl

last_key-some : (ss : List DailyScope) → ltb 0 (length ss) ≡ true → is_some (last_key ss) ≡ true
last_key-some [] h = h
last_key-some (s ∷ []) h = refl
last_key-some (s ∷ t ∷ ss) h = last_key-some (t ∷ ss) (ground arith)

same_month-some :
    (q : RangePolicy) (a b : Option ℕ)
    → is_some a ≡ true
    → is_some b ≡ true
    → is_some (same_month q a b) ≡ true
same_month-some q none b h k = h
same_month-some q (some a) none h k = k
same_month-some q (some a) (some b) h k = refl

ranged_group-some :
    (g : Group) (a b : Option ℕ)
    → is_some a ≡ true
    → is_some b ≡ true
    → is_some (ranged_group g a b) ≡ true
ranged_group-some g none b h k = h
ranged_group-some g (some a) none h k = k
ranged_group-some g (some a) (some b) h k = refl

cons_some-some :
    (r : Option LedgerRequest) (rs : Option (List LedgerRequest))
    → is_some r ≡ true
    → is_some rs ≡ true
    → is_some (cons_some r rs) ≡ true
cons_some-some none rs h k = h
cons_some-some (some r) none h k = k
cons_some-some (some r) (some rs) h k = refl

append_some-some :
    (rs ss : Option (List LedgerRequest))
    → is_some rs ≡ true
    → is_some ss ≡ true
    → is_some (append_some rs ss) ≡ true
append_some-some none ss h k = h
append_some-some (some rs) none h k = k
append_some-some (some rs) (some ss) h k = refl

joins-some :
    (q : RangePolicy) (g : Group) (r : LedgerRequest)
    → has_scopes g.first ≡ true
    → has_scopes r ≡ true
    → is_some (joins q g r) ≡ true
joins-some q g r h k =
    elim (Bool-cases (ltb g.size q.max_scopes && is_next g.last.scope_ordinal r.scope_ordinal)) [
      | inr e ↦ rw e refl
      | inl e ↦ rw e (elim (Bool-cases q.calendar_month) [
        | inr c ↦ rw c refl
        | inl c ↦ rw c (
            same_month-some q (first_key g.first.daily_scopes) (first_key r.daily_scopes)
              (first_key-some g.first.daily_scopes h) (first_key-some r.daily_scopes k))
      ])
    ]

emitted-some :
    (g : Group) → has_scopes g.first ≡ true → has_scopes g.last ≡ true → is_some (emitted g) ≡ true
emitted-some g h k = elim (Bool-cases (g.size == 1)) [
  | inl e ↦ rw e refl
  | inr e ↦ rw e (
      ranged_group-some g (first_key g.first.daily_scopes) (last_key g.last.daily_scopes)
        (first_key-some g.first.daily_scopes h) (last_key-some g.last.daily_scopes k))
]

append_groups-some :
    (q : RangePolicy) (g : Group) (rs : List LedgerRequest)
    → has_scopes g.first ≡ true
    → has_scopes g.last ≡ true
    → all has_scopes rs ≡ true
    → is_some (append_groups q g rs) ≡ true
unfolding append_groups
append_groups-some q g [] h k a = cons_some-some (emitted g) (some []) (emitted-some g h k) refl
append_groups-some q g (r ∷ rs) h k a =
    let here = &&-true (has_scopes r) (all has_scopes rs) a in
    elim (joins-cases (joins q g r)) [
      | inl e ↦ absurd (cc (joins-some q g r h here.0, e))
      | inr (inl e) ↦ rw (e, append_groups) (append_groups-some q (grown g r) rs h here.0 here.1)
      | inr (inr e) ↦
          rw (e, append_groups)
            (cons_some-some (emitted g) (append_groups q (alone r) rs) (emitted-some g h k)
              (append_groups-some q (alone r) rs here.0 here.0 here.1))
    ]

full_variant : Variant → Bool
full_variant v = has_scopes v.first && all has_scopes v.more

all-append_one :
    (rs : List LedgerRequest) (r : LedgerRequest)
    → all has_scopes rs ≡ true
    → has_scopes r ≡ true
    → all has_scopes (rs ++ r ∷ []) ≡ true
all-append_one [] r h k = ground (arith, k)
all-append_one (x ∷ xs) r h k = ground (arith, h, k, all-append_one xs r)

full-add :
    (r : LedgerRequest) (vs : List Variant)
    → has_scopes r ≡ true
    → all full_variant vs ≡ true
    → all full_variant (add_to_variant r vs) ≡ true
unfolding full_variant add_to_variant
full-add r [] k h = ground (arith, k)
full-add r (v ∷ vs) k h =
    let here = &&-true (full_variant v) (all full_variant vs) h in
    let parts = &&-true (has_scopes v.first) (all has_scopes v.more) here.0 in
    elim (Bool-cases (v.variant == variant_of r)) [
      | inl e ↦
          rw (e, add_to_variant)
            (ground (arith, parts.0, here.1, all-append_one v.more r parts.1 k))
      | inr e ↦ rw (e, add_to_variant) (ground (arith, here.0, full-add r vs k here.1))
    ]

full-by_variant :
    (rs : List LedgerRequest) (vs : List Variant)
    → all has_scopes rs ≡ true
    → all full_variant vs ≡ true
    → all full_variant (by_variant rs vs) ≡ true
full-by_variant [] vs k h = h
full-by_variant (r ∷ rs) vs k h =
    let here = &&-true (has_scopes r) (all has_scopes rs) k in
    full-by_variant rs (add_to_variant r vs) here.1 (full-add r vs here.0 h)

append_variants-some :
    (q : RangePolicy) (vs : List Variant)
    → all full_variant vs ≡ true
    → is_some (append_variants q vs) ≡ true
unfolding append_variants full_variant
append_variants-some q [] h = refl
append_variants-some q (v ∷ vs) h =
    let here = &&-true (full_variant v) (all full_variant vs) h in
    let parts = &&-true (has_scopes v.first) (all has_scopes v.more) here.0 in
    append_some-some (append_groups q (alone v.first) v.more) (append_variants q vs)
      (append_groups-some q (alone v.first) v.more parts.0 parts.0 parts.1)
      (append_variants-some q vs here.1)

all-filter :
    (e : LedgerRequest → Bool) (rs : List LedgerRequest)
    → all has_scopes rs ≡ true
    → all has_scopes (filter e rs) ≡ true
all-filter e [] h = refl
all-filter e (r ∷ rs) h =
    let here = &&-true (has_scopes r) (all has_scopes rs) h in
    elim (Bool-cases (e r)) [
      | inl eligible ↦ rw eligible (ground (arith, here.0, all-filter e rs here.1))
      | inr other ↦ rw other (all-filter e rs here.1)
    ]

-- If every request has a daily scope, the compaction returns, whatever the policy.
pub compact_daily_range_backfill-returns :
    (policy : Compaction) (recheck : Bool) (rs : List LedgerRequest)
    → all has_scopes rs ≡ true
    → is_some (compact_daily_range_backfill policy recheck rs) ≡ true
unfolding compact_daily_range_backfill
compact_daily_range_backfill-returns Compaction.keep recheck rs h = refl
compact_daily_range_backfill-returns Compaction.scan recheck rs h = refl
compact_daily_range_backfill-returns (Compaction.range q) recheck rs h =
    append_some-some (some (filter (λ r. not (eligible_for_range q recheck r)) rs))
      (append_variants q (by_variant (filter (eligible_for_range q recheck) rs) [])) refl
      (append_variants-some q (by_variant (filter (eligible_for_range q recheck) rs) []) (
        full-by_variant (filter (eligible_for_range q recheck) rs) []
          (all-filter (eligible_for_range q recheck) rs h) refl))
