-- ===== src/Fetch/Complete.antt =====
-- `_fetch_adaptive_date_range` ends, and what it then has.
use bagelquant_data.Prelude.{
  ℕ, zero, suc, ◌+◌, ◌-◌, ◌≤◌, ◌<◌, ◌≡◌, refl, ap, sym, ◌∙◌, true, false, ◌&&◌, ◌||◌, ◌⊎◌, inl, inr,
  Option, none, some, List, [], ◌∷◌, ◌++◌, arith, ◌==◌, ltb, leb, length, if◌then◌else◌, Bool-cases,
  is_some, &&-true, Option-cases,
}
use bagelquant_data.Fetch.Page.{
  KeyPart, Request, is_success, Problem, FetchPage, Outside, PageOptions, bound_pages, all_success,
}
use bagelquant_data.Fetch.One.{fetch_one}
use bagelquant_data.Fetch.Adaptive.{
  Span, EmptyRangePolicy, bisects, left_half, right_half, row_limit_of, discard, ranged, fetch_leaf,
  refused, is_known, adaptive_from, fetch_adaptive_date_range, both,
}
use bagelquant_data.Fetch.Kept.{within, holding, bounded_kept, Holding}
use bagelquant_data.Fetch.Coverage.{Returns, adaptive_from-Holding}

length-append {ℓ} : {A : Type ℓ} (xs ys : List A) → length (xs ++ ys) ≡ length xs + length ys
length-append [] ys = omega arith
length-append (x ∷ xs) ys = omega (arith, length-append xs ys)

both_given : (x y : Option ℕ) (p : ℕ × ℕ) → both x y ≡ some p → (x ≡ some p.0) × (y ≡ some p.1)
both_given none y p h = absurd (cc h)
both_given (some a) none p h = absurd (cc h)
both_given (some a) (some b) p h = (cc h, cc h)

module _ {Frame W : Type 0} (env : Outside Frame W) (options : PageOptions)
    (policy : EmptyRangePolicy) (request : Request) (key : List KeyPart) where
  -- Each iteration appends a page.
  adaptive_from-returns :
      (fuel : ℕ) (pending : List Span) (pages : List (FetchPage Frame)) (w : W)
      → 0 < fuel
      → options.max_pages < fuel + length pages
      → is_some (adaptive_from env options policy request key fuel pending pages w) ≡ true
  unfolding adaptive_from
  adaptive_from-returns zero [] pages w some_fuel enough = refl
  adaptive_from-returns (suc fuel) [] pages w some_fuel enough = refl
  adaptive_from-returns zero (s ∷ pending) pages w some_fuel enough =
      absurd (omega (arith, some_fuel))
  adaptive_from-returns (suc fuel) (s ∷ pending) pages w some_fuel enough =
      let got =
        fetch_one env (ranged env options policy request key s) s.key options.max_retries false w in
      let all_pages = pages ++ got.0 ∷ [] in
      let bounded = bound_pages env options.buffer_limit_bytes key request all_pages in
      let short = leb (s.upper - s.lower) options.minimum_window_days in
      let dropped = pages ++ discard env options policy got.0 ∷ [] in
      elim (Bool-cases (leb options.max_pages (length pages))) [
        | inl full ↦ rw (full, adaptive_from) refl
        | inr room ↦
            let more_fuel : 0 < fuel = ground (arith, room, enough) in
            elim (Bool-cases (bounded.0 && is_success got.0.status)) [
              | inr bad ↦ rw (room, bad, adaptive_from) refl
              | inl fine ↦
                  elim (Bool-cases (
                    if got.0.row_count == 0 && bisects policy
                    then short
                    else ltb got.0.row_count (row_limit_of options))) [
                      | inl done ↦
                          rw (room, fine, done, adaptive_from)
                            (adaptive_from-returns fuel pending bounded.1 got.1 more_fuel (
                              omega (
                                arith,
                                enough,
                                length-append pages (got.0 ∷ []),
                                ap length (
                                    bounded_kept env options.buffer_limit_bytes key request
                                      all_pages
                                      (&&-true bounded.0 (is_success got.0.status) fine).0),
                              )))
                      | inr more ↦ elim (Bool-cases short) [
                        | inr wide ↦
                            rw (room, fine, more, wide, adaptive_from)
                              (adaptive_from-returns fuel (left_half s ∷ right_half s ∷ pending)
                                dropped got.1 more_fuel
                                (omega (
                                  arith,
                                  enough,
                                  length-append pages (discard env options policy got.0 ∷ []),
                                )))
                        | inl narrow ↦
                            let deep = fetch_leaf env options policy request key s got.1 in
                            let all =
                              bound_pages env options.buffer_limit_bytes key request
                                (dropped ++ deep.0) in
                            elim (Bool-cases (all.0 && all_success all.1)) [
                              | inr bad ↦ rw (room, fine, more, narrow, bad, adaptive_from) refl
                              | inl good ↦
                                  rw (room, fine, more, narrow, good, adaptive_from)
                                    (adaptive_from-returns fuel pending all.1 deep.1 more_fuel (
                                      omega (
                                        arith,
                                        enough,
                                        length-append pages (discard env options policy got.0 ∷ []),
                                        length-append dropped deep.0,
                                        ap length (
                                            bounded_kept env options.buffer_limit_bytes key request
                                              (dropped ++ deep.0)
                                              (&&-true all.0 (all_success all.1) good).0),
                                      )))
                            ]
                      ]
                    ]
            ]
      ]

  Refuses : W → Option (List (FetchPage Frame) × W) → Type 0
  Refuses w r = (p : Problem) × (r ≡ refused env options policy request key w p)

  Loops : W → Option (List (FetchPage Frame) × W) → Type 0
  Loops w r =
      (a b : ℕ) × (request.start ≡ some a)
      × (request.end ≡ some b)
      × (a ≤ b)
      × (0 < row_limit_of options)
      × (r
          ≡ adaptive_from env options policy request key (options.max_pages + 1)
              (record { lower = a; upper = b; key = key } ∷ []) [] w)

  -- A guard refuses the request, or the loop runs.
  fetch_adaptive_date_range-cases :
      (w : W)
      → Refuses w (fetch_adaptive_date_range env options policy request key w)
        ⊎ Loops w (fetch_adaptive_date_range env options policy request key w)
  unfolding Refuses Loops fetch_adaptive_date_range
  fetch_adaptive_date_range-cases w = elim (Bool-cases (is_known policy)) [
    | inr other ↦ inl (Problem.bad_policy, rw (other, fetch_adaptive_date_range) refl)
    | inl known ↦ elim (Bool-cases (row_limit_of options == 0 || options.max_pages == 0)) [
      | inl bad ↦ inl (Problem.bad_limits, rw (known, bad, fetch_adaptive_date_range) refl)
      | inr good ↦ elim (Option-cases (both request.start request.end)) [
        | inl gone ↦
            inl (Problem.missing_bounds, rw (known, good, gone, fetch_adaptive_date_range) refl)
        | inr (bounds, given) ↦ elim (Bool-cases (ltb bounds.1 bounds.0)) [
          | inl crossed ↦ inl (
            Problem.start_after_end,
            rw (known, good, given, crossed, fetch_adaptive_date_range) refl,
          )
          | inr fine ↦
              let ends = both_given request.start request.end bounds given in
              inr (
                bounds.0,
                bounds.1,
                ends.0,
                ends.1,
                ground (arith, fine),
                ground (arith, good),
                rw (known, good, given, fine, fetch_adaptive_date_range) refl,
              )
        ]
      ]
    ]
  ]

  -- The fuel of `fetch_adaptive_date_range` suffices: it returns, whatever the provider answers.
  pub fetch_adaptive_date_range-returns :
      (w : W) → is_some (fetch_adaptive_date_range env options policy request key w) ≡ true
  unfolding Refuses Loops
  fetch_adaptive_date_range-returns w = elim (fetch_adaptive_date_range-cases w) [
    | inl refusal ↦ rw refusal.1 refl
    | inr (a, b, from, to, le, limited, runs) ↦ rw runs (
        adaptive_from-returns (options.max_pages + 1)
          (record { lower = a; upper = b; key = key } ∷ []) [] w (omega arith) (omega arith))
  ]

  -- If an adaptive fetch of a request without an offset of its own has only successful pages, then each
  -- day of the requested range, and no other day, is held by exactly one window of kept pages: pages
  -- that are not discarded, counted by the first page where a window has several offset pages.
  pub holding-fetch_adaptive_date_range :
      (w : W) (r : List (FetchPage Frame) × W)
      → request.offset ≡ none
      → fetch_adaptive_date_range env options policy request key w ≡ some r
      → all_success r.0 ≡ true
      → (d : ℕ)
      → holding options.offset_start d r.0 ≡ (if within d request.start request.end then 1 else 0)
  unfolding Refuses Loops
  holding-fetch_adaptive_date_range w r bare returns good d =
      elim (fetch_adaptive_date_range-cases w) [
        | inl refusal ↦ absurd (cc (sym returns ∙ refusal.1, good))
        | inr (a, b, from, to, le, limited, runs) ↦
            of_Returns (sym runs ∙ returns)
              (adaptive_from-Holding env options policy request key bare limited d
                (options.max_pages + 1) (record { lower = a; upper = b; key = key } ∷ []) [] w
                (le, tt))
              good
            ∙ rw (from, to) (omega arith)
      ]
    where
      of_Returns :
          {n : ℕ} {o : Option (List (FetchPage Frame) × W)}
          → o ≡ some r
          → Returns (Holding env options.offset_start d n) o
          → Holding env options.offset_start d n r
      of_Returns e h = rw e at h
