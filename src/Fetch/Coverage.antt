-- ===== src/Fetch/Coverage.antt =====
-- Adaptive paging covers the requested range: its windows, and when its loop ends.
use bagelquant_data.Prelude.{
  ℕ, zero, suc, ◌+◌, ◌-◌, ◌≤◌, ◌<◌, ◌≡◌, ap, sym, ◌∙◌, Bool, true, false, ◌&&◌, inl, inr, Option,
  none, some, List, [], ◌∷◌, ◌++◌, arith, ◌==◌, ltb, leb, length, if◌then◌else◌, Bool-cases, All,
  &&-true,
}
use bagelquant_data.Fetch.Page.{
  KeyPart, Request, is_success, Problem, FetchPage, Outside, PageOptions, invalid_page, bound_pages,
  all_success,
}
use bagelquant_data.Fetch.One.{fetch_one}
use bagelquant_data.Fetch.Adaptive.{
  Span, EmptyRangePolicy, bisects, left_half, right_half, row_limit_of, discard, ranged, fetch_leaf,
  adaptive_from,
}
use bagelquant_data.Fetch.Kept.{
  holding, holding-append, all_success-append, asks_day, bounded_kept, bounded_failure, one_more,
  refused_last, Holding, Holding-failed, fetch_offset_pages-Holding,
}

abbrev pub in_span : ℕ → Span → Bool
in_span d s = leb s.lower d && leb d s.upper

-- How many pending windows have the day.
abbrev pub waiting : ℕ → List Span → ℕ
waiting d [] = 0
waiting d (s ∷ ss) = (if in_span d s then 1 else 0) + waiting d ss

abbrev pub IsOrdered : Span → Type 0
IsOrdered s = s.lower ≤ s.upper

halves-IsOrdered :
    (s : Span) → s.lower < s.upper → IsOrdered (left_half s) × IsOrdered (right_half s)
halves-IsOrdered s lt = (omega arith, omega (arith, lt))

waiting-halves :
    (d : ℕ) (s : Span) (ss : List Span)
    → s.lower < s.upper
    → waiting d (left_half s ∷ right_half s ∷ ss) ≡ waiting d (s ∷ ss)
waiting-halves d s ss lt = ground (arith, lt)

-- The result, if there is one, has the property.
abbrev pub Returns : {A : Type 0} → (A → Type 0) → Option A → Type 0
Returns P none = Unit
Returns P (some a) = P a

module _ {Frame W : Type 0} (env : Outside Frame W) (options : PageOptions)
    (policy : EmptyRangePolicy) where
  Holding-equal :
      (o d : ℕ) {n m : ℕ}
      → n ≡ m
      → (r : Option (List (FetchPage Frame) × W)) → Returns (Holding env o d n) r
      → Returns (Holding env o d m) r
  Holding-equal o d e none h = tt
  Holding-equal o d e (some r) h = λ ok. h ok ∙ e

  unusable :
      (limit : ℕ) (key : List KeyPart) (request : Request) (ps : List (FetchPage Frame))
      (p : FetchPage Frame)
      → ((bound_pages env limit key request (ps ++ p ∷ [])).0 && is_success p.status) ≡ false
      → all_success (bound_pages env limit key request (ps ++ p ∷ [])).1 ≡ false
  unusable limit key request ps p bad =
      elim (Bool-cases (bound_pages env limit key request (ps ++ p ∷ [])).0) [
        | inr over ↦ bounded_failure env limit key request (ps ++ p ∷ []) over
        | inl fits ↦
            ap all_success (bounded_kept env limit key request (ps ++ p ∷ []) fits)
            ∙ all_success-append ps (p ∷ [])
            ∙ ground (arith, rw fits at bad)
      ]

  unusable_leaf :
      (limit : ℕ) (key : List KeyPart) (request : Request) (ps : List (FetchPage Frame))
      → ((bound_pages env limit key request ps).0
          && all_success (bound_pages env limit key request ps).1)
        ≡ false
      → all_success (bound_pages env limit key request ps).1 ≡ false
  unusable_leaf limit key request ps bad =
      elim (Bool-cases (bound_pages env limit key request ps).0) [
        | inr over ↦ bounded_failure env limit key request ps over
        | inl fits ↦ rw fits at bad
      ]

  without_discarded :
      (o d : ℕ) (ps : List (FetchPage Frame)) (p : FetchPage Frame)
      → holding o d (ps ++ discard env options policy p ∷ []) ≡ holding o d ps
  without_discarded o d ps p =
      holding-append o d ps (discard env options policy p ∷ []) ∙ omega arith

  module _ (request : Request) (key : List KeyPart) (bare : request.offset ≡ none)
      (limited : 0 < row_limit_of options) (d : ℕ) where
    ranged_day :
        (s : Span)
        → asks_day env options.offset_start d (ranged env options policy request key s)
          ≡ in_span d s
    ranged_day s = rw bare (ground arith)

    -- The offset pages of a leaf hold its days once, in the place of its discarded page.
    leaf_counted :
        (s : Span) (pages : List (FetchPage Frame)) (p : FetchPage Frame) (pending : List Span)
        (w : W)
        → (let deep = fetch_leaf env options policy request key s w in
            let all =
              bound_pages env options.buffer_limit_bytes key request
                ((pages ++ discard env options policy p ∷ []) ++ deep.0) in
            (all.0 && all_success all.1) ≡ true)
        → holding options.offset_start d
              (bound_pages env options.buffer_limit_bytes key request (
                (pages ++ discard env options policy p ∷ [])
                ++ (fetch_leaf env options policy request key s w).0)).1
            + waiting d pending
          ≡ holding options.offset_start d pages + waiting d (s ∷ pending)
    leaf_counted s pages p pending w good =
        let o = options.offset_start in
        let before = pages ++ discard env options policy p ∷ [] in
        let deep = fetch_leaf env options policy request key s w in
        let all = bound_pages env options.buffer_limit_bytes key request (before ++ deep.0) in
        let parts = &&-true all.0 (all_success all.1) good in
        let same =
          bounded_kept env options.buffer_limit_bytes key request (before ++ deep.0) parts.0 in
        let deep_success : all_success deep.0 ≡ true =
          (&&-true (all_success before) (all_success deep.0)
            (sym (all_success-append before deep.0) ∙ ap all_success (sym same) ∙ parts.1)).1 in
        omega (
          arith,
          ap (holding o d) same,
          holding-append o d before deep.0,
          without_discarded o d pages p,
          fetch_offset_pages-Holding env (record options { page_size = row_limit_of options })
              (ranged env options policy request key s) (s.key ++ KeyPart.leaf ∷ []) d w limited
              deep_success,
        )

    pub adaptive_from-Holding :
        (fuel : ℕ) (pending : List Span) (pages : List (FetchPage Frame)) (w : W)
        → All IsOrdered pending
        → Returns
            (Holding env options.offset_start d
              (holding options.offset_start d pages + waiting d pending))
            (adaptive_from env options policy request key fuel pending pages w)
    unfolding adaptive_from
    adaptive_from-Holding zero [] pages w ordered = λ h. omega arith
    adaptive_from-Holding (suc fuel) [] pages w ordered = λ h. omega arith
    adaptive_from-Holding zero (s ∷ pending) pages w ordered = tt
    adaptive_from-Holding (suc fuel) (s ∷ pending) pages w ordered =
        let o = options.offset_start in
        let got =
          fetch_one env (ranged env options policy request key s) s.key options.max_retries false
            w in
        let all_pages = pages ++ got.0 ∷ [] in
        let bounded = bound_pages env options.buffer_limit_bytes key request all_pages in
        let short = leb (s.upper - s.lower) options.minimum_window_days in
        let n = holding o d pages + waiting d (s ∷ pending) in
        let counted : holding o d all_pages + waiting d pending ≡ n = omega (
          arith,
          one_more env o d s.key (ranged env options policy request key s) options.max_retries false
              w pages,
          ap {B = ℕ} (λ (b : Bool). if b then 1 else 0) (ranged_day s),
        ) in
        let dropped = without_discarded o d pages got.0 in
        elim (Bool-cases (leb options.max_pages (length pages))) [
          | inl full ↦
              rw (full, adaptive_from)
                (Holding-failed env o d n
                  (pages
                    ++ invalid_page env (key ++ KeyPart.exhausted ∷ []) request
                        Problem.max_pages_exhausted
                      ∷ [])
                  w
                  (refused_last env pages (key ++ KeyPart.exhausted ∷ []) request
                    Problem.max_pages_exhausted))
          | inr room ↦ elim (Bool-cases (bounded.0 && is_success got.0.status)) [
            | inr bad ↦
                rw (room, bad, adaptive_from)
                  (Holding-failed env o d n bounded.1 got.1
                    (unusable options.buffer_limit_bytes key request pages got.0 bad))
            | inl fine ↦
                elim (Bool-cases (
                  if got.0.row_count == 0 && bisects policy
                  then short
                  else ltb got.0.row_count (row_limit_of options))) [
                    | inl done ↦
                        rw (room, fine, done, adaptive_from)
                          (Holding-equal o d
                            (ap (λ ps. holding o d ps + waiting d pending)
                                (bounded_kept env options.buffer_limit_bytes key request all_pages
                                  (&&-true bounded.0 (is_success got.0.status) fine).0)
                              ∙ counted)
                            (adaptive_from env options policy request key fuel pending bounded.1
                              got.1)
                            (adaptive_from-Holding fuel pending bounded.1 got.1 ordered.1))
                    | inr more ↦ elim (Bool-cases short) [
                      | inr wide ↦
                          rw (room, fine, more, wide, adaptive_from)
                            (let lt : s.lower < s.upper = ground (arith, wide) in
                              let parts = halves-IsOrdered s lt in
                              Holding-equal o d
                                (omega (arith, dropped, waiting-halves d s pending lt))
                                (adaptive_from env options policy request key fuel
                                  (left_half s ∷ right_half s ∷ pending)
                                  (pages ++ discard env options policy got.0 ∷ []) got.1)
                                (adaptive_from-Holding fuel (left_half s ∷ right_half s ∷ pending)
                                  (pages ++ discard env options policy got.0 ∷ []) got.1
                                  (parts.0, (parts.1, ordered.1))))
                      | inl narrow ↦
                          let deep = fetch_leaf env options policy request key s got.1 in
                          let all =
                            bound_pages env options.buffer_limit_bytes key request
                              ((pages ++ discard env options policy got.0 ∷ []) ++ deep.0) in
                          elim (Bool-cases (all.0 && all_success all.1)) [
                            | inr bad ↦
                                rw (room, fine, more, narrow, bad, adaptive_from)
                                  (Holding-failed env o d n all.1 deep.1 (
                                    unusable_leaf options.buffer_limit_bytes key request
                                      ((pages ++ discard env options policy got.0 ∷ []) ++ deep.0)
                                      bad))
                            | inl good ↦
                                rw (room, fine, more, narrow, good, adaptive_from)
                                  (Holding-equal o d (leaf_counted s pages got.0 pending got.1 good)
                                    (adaptive_from env options policy request key fuel pending all.1
                                      deep.1)
                                    (adaptive_from-Holding fuel pending all.1 deep.1 ordered.1))
                          ]
                    ]
                  ]
          ]
        ]
