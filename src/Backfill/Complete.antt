-- ===== src/Backfill/Complete.antt =====
-- The compaction loses and repeats no daily scope.
use bagelquant_data.Prelude.{
  ℕ, ◌+◌, ◌<◌, ◌≡◌, refl, ◌∙◌, Bool, true, false, not, inl, inr, ◌⊎◌, Option, none, some, List, [],
  ◌∷◌, ◌++◌, map, ◌==◌, if◌then◌else◌, filter, arith, Bool-cases, ==→eq,
}
use bagelquant_data.Requests.{DailyScope, LedgerRequest}
use bagelquant_data.Backfill.{
  RangePolicy, Compaction, variant_of, Variant, add_to_variant, by_variant, scopes_of, scan_of,
  first_key, last_key, Group, alone, grown, joins, ranged_group, emitted, cons_some, append_groups,
  append_some, append_variants, eligible_for_range, compact_daily_range_backfill,
}

pub joins-cases : (o : Option Bool) → (o ≡ none) ⊎ (o ≡ some true) ⊎ (o ≡ some false)
joins-cases none = inl refl
joins-cases (some true) = inr (inl refl)
joins-cases (some false) = inr (inr refl)

module _ (p : DailyScope → Bool) where
  -- How many scopes pass the test, in a list and in the requests of a list.
  abbrev pub tallied : List DailyScope → ℕ
  tallied [] = 0
  tallied (s ∷ ss) = (if p s then 1 else 0) + tallied ss

  abbrev pub tally : List LedgerRequest → ℕ
  tally [] = 0
  tally (r ∷ rs) = tallied r.daily_scopes + tally rs

  tallied-append : (ss ts : List DailyScope) → tallied (ss ++ ts) ≡ tallied ss + tallied ts
  tallied-append [] ts = omega arith
  tallied-append (s ∷ ss) ts = omega (arith, tallied-append ss ts)

  tally-append : (rs ts : List LedgerRequest) → tally (rs ++ ts) ≡ tally rs + tally ts
  tally-append [] ts = omega arith
  tally-append (r ∷ rs) ts = omega (arith, tally-append rs ts)

  tallied-scopes_of : (rs : List LedgerRequest) → tallied (scopes_of rs) ≡ tally rs
  tallied-scopes_of [] = refl
  tallied-scopes_of (r ∷ rs) =
      tallied-append r.daily_scopes (scopes_of rs) ∙ omega (arith, tallied-scopes_of rs)

  tally-partition :
      (e : LedgerRequest → Bool) (rs : List LedgerRequest)
      → tally (filter (λ r. not (e r)) rs) + tally (filter e rs) ≡ tally rs
  tally-partition e [] = refl
  tally-partition e (r ∷ rs) = elim (Bool-cases (e r)) [
    | inl yes_e ↦ rw yes_e (omega (arith, tally-partition e rs))
    | inr no_e ↦ rw no_e (omega (arith, tally-partition e rs))
  ]

  in_variants : List Variant → ℕ
  in_variants [] = 0
  in_variants (v ∷ vs) = tally (v.first ∷ v.more) + in_variants vs

  in_variants-add :
      (r : LedgerRequest) (vs : List Variant)
      → in_variants (add_to_variant r vs) ≡ in_variants vs + tallied r.daily_scopes
  unfolding in_variants add_to_variant
  in_variants-add r [] = omega arith
  in_variants-add r (v ∷ vs) = elim (Bool-cases (v.variant == variant_of r)) [
    | inl e ↦ rw (e, add_to_variant) (omega (arith, tally-append v.more (r ∷ [])))
    | inr e ↦ rw (e, add_to_variant) (omega (arith, in_variants-add r vs))
  ]

  in_variants-by_variant :
      (rs : List LedgerRequest) (vs : List Variant)
      → in_variants (by_variant rs vs) ≡ tally rs + in_variants vs
  unfolding in_variants
  in_variants-by_variant [] vs = omega arith
  in_variants-by_variant (r ∷ rs) vs =
      omega (arith, in_variants-by_variant rs (add_to_variant r vs), in_variants-add r vs)

  tally-scan_of : (vs : List Variant) → tally (map scan_of vs) ≡ in_variants vs
  unfolding in_variants
  tally-scan_of [] = refl
  tally-scan_of (v ∷ vs) = omega (arith, tallied-scopes_of (v.first ∷ v.more), tally-scan_of vs)

  -- The result, if there is one, has `n` such scopes.
  abbrev Tallies : ℕ → Option (List LedgerRequest) → Type 0
  Tallies n none = Unit
  Tallies n (some rs) = tally rs ≡ n

  abbrev TalliesOne : ℕ → Option LedgerRequest → Type 0
  TalliesOne n none = Unit
  TalliesOne n (some r) = tallied r.daily_scopes ≡ n

  cons_some-Tallies :
      (n m : ℕ) (r : Option LedgerRequest) (rs : Option (List LedgerRequest))
      → TalliesOne n r
      → Tallies m rs
      → Tallies (n + m) (cons_some r rs)
  cons_some-Tallies n m none rs h k = tt
  cons_some-Tallies n m (some r) none h k = tt
  cons_some-Tallies n m (some r) (some rs) h k = omega (arith, h, k)

  append_some-Tallies :
      (n m : ℕ) (rs ss : Option (List LedgerRequest))
      → Tallies n rs
      → Tallies m ss
      → Tallies (n + m) (append_some rs ss)
  append_some-Tallies n m none ss h k = tt
  append_some-Tallies n m (some rs) none h k = tt
  append_some-Tallies n m (some rs) (some ss) h k = tally-append rs ss ∙ omega (arith, h, k)

  Tallies-equal :
      {n m : ℕ} → n ≡ m → (rs : Option (List LedgerRequest)) → Tallies n rs → Tallies m rs
  Tallies-equal e none h = tt
  Tallies-equal e (some rs) h = h ∙ e

  -- A group of one request has its scopes.
  record IsGroup (g : Group) : Type 0 where
    some_request : 0 < g.size
    single : g.size ≡ 1 → tallied g.first.daily_scopes ≡ tallied g.scopes

  ranged_group-Tallies :
      (g : Group) (a b : Option ℕ) → TalliesOne (tallied g.scopes) (ranged_group g a b)
  ranged_group-Tallies g none b = tt
  ranged_group-Tallies g (some a) none = tt
  ranged_group-Tallies g (some a) (some b) = refl

  emitted-Tallies : (g : Group) → IsGroup g → TalliesOne (tallied g.scopes) (emitted g)
  emitted-Tallies g w = elim (Bool-cases (g.size == 1)) [
    | inl e ↦ rw e (w.single (==→eq g.size 1 e))
    | inr e ↦
        rw e
          (ranged_group-Tallies g (first_key g.first.daily_scopes) (last_key g.last.daily_scopes))
  ]

  append_groups-Tallies :
      (q : RangePolicy) (g : Group) (rs : List LedgerRequest)
      → IsGroup g
      → Tallies (tallied g.scopes + tally rs) (append_groups q g rs)
  unfolding append_groups
  append_groups-Tallies q g [] w =
      cons_some-Tallies (tallied g.scopes) 0 (emitted g) (some []) (emitted-Tallies g w) refl
  append_groups-Tallies q g (r ∷ rs) w = elim (joins-cases (joins q g r)) [
    | inl e ↦ rw (e, append_groups) tt
    | inr (inl e) ↦
        rw (e, append_groups)
          (Tallies-equal (omega (arith, tallied-append g.scopes r.daily_scopes))
            (append_groups q (grown g r) rs)
            (append_groups-Tallies q (grown g r) rs (record {
              some_request = omega arith;
              single = λ one. absurd (omega (arith, one, w.some_request));
            })))
    | inr (inr e) ↦
        rw (e, append_groups)
          (cons_some-Tallies (tallied g.scopes) (tally (r ∷ rs)) (emitted g)
            (append_groups q (alone r) rs) (emitted-Tallies g w)
            (append_groups-Tallies q (alone r) rs
              (record { some_request = omega arith; single = λ one. refl })))
  ]

  append_variants-Tallies :
      (q : RangePolicy) (vs : List Variant) → Tallies (in_variants vs) (append_variants q vs)
  unfolding append_variants in_variants
  append_variants-Tallies q [] = refl
  append_variants-Tallies q (v ∷ vs) =
      append_some-Tallies (tally (v.first ∷ v.more)) (in_variants vs)
        (append_groups q (alone v.first) v.more) (append_variants q vs)
        (append_groups-Tallies q (alone v.first) v.more
          (record { some_request = omega arith; single = λ one. refl }))
        (append_variants-Tallies q vs)

  of_Tallies :
      {n : ℕ} {o : Option (List LedgerRequest)} {rs : List LedgerRequest}
      → o ≡ some rs
      → Tallies n o
      → tally rs ≡ n
  of_Tallies e h = rw e at h

  -- Whatever the policy, the compaction of the requests has each daily scope as often as they have it:
  -- for any test on scopes, as many scopes pass it.
  pub tally-compact_daily_range_backfill :
      (policy : Compaction) (recheck : Bool) (rs out : List LedgerRequest)
      → compact_daily_range_backfill policy recheck rs ≡ some out
      → tally out ≡ tally rs
  unfolding compact_daily_range_backfill in_variants
  tally-compact_daily_range_backfill Compaction.keep recheck rs out e = cc e
  tally-compact_daily_range_backfill Compaction.scan recheck rs out e =
      let eligible = filter (λ (r : LedgerRequest). r.range_backfill_eligible) rs in
      let others = filter (λ (r : LedgerRequest). not r.range_backfill_eligible) rs in
      of_Tallies {n = tally rs} e (
        tally-append others (map scan_of (by_variant eligible []))
        ∙ omega (
          arith,
          tally-scan_of (by_variant eligible []),
          in_variants-by_variant eligible [],
          tally-partition (λ (r : LedgerRequest). r.range_backfill_eligible) rs,
        ))
  tally-compact_daily_range_backfill (Compaction.range q) recheck rs out e =
      let eligible = filter (eligible_for_range q recheck) rs in
      let others = filter (λ r. not (eligible_for_range q recheck r)) rs in
      of_Tallies e (
        append_some-Tallies (tally others) (in_variants (by_variant eligible [])) (some others)
          (append_variants q (by_variant eligible [])) refl
          (append_variants-Tallies q (by_variant eligible [])))
      ∙ omega (
        arith,
        in_variants-by_variant eligible [],
        tally-partition (eligible_for_range q recheck) rs,
      )
