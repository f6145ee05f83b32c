-- ===== src/Fetch/Adaptive.antt =====
-- `_fetch_adaptive_date_range` and `_fetch_request_pages` of pipeline/update.py. A date is its ordinal.
use bagelquant_data.Prelude.{
  ℕ, zero, suc, ◌+◌, ◌-◌, ◌/◌, Bool, true, false, ◌&&◌, ◌||◌, Option, none, some, List, [], ◌∷◌,
  ◌++◌, ◌==◌, ltb, leb, length, if◌then◌else◌,
}
use bagelquant_data.Fetch.Page.{
  KeyPart, Request, is_success, Problem, FetchPage, Outside, PageOptions, invalid_page, bound_pages,
  all_success,
}
use bagelquant_data.Fetch.One.{fetch_one}
use bagelquant_data.Fetch.Offset.{fetch_offset_pages}

-- `int(request_options.get("row_limit", 0))`
abbrev pub row_limit_of : PageOptions → ℕ
row_limit_of options = elim options.row_limit [ none ↦ 0 | some n ↦ n ]

-- An entry of `pending`.
pub record Span : Type 0 where
  pub lower : ℕ
  pub upper : ℕ
  pub key : List KeyPart

-- `empty_range_policy`
pub data EmptyRangePolicy : Type 0 where
  accept bisect unknown : EmptyRangePolicy

abbrev pub bisects : EmptyRangePolicy → Bool
bisects EmptyRangePolicy.bisect = true
bisects _ = false

-- Both bounds, if neither is missing.
abbrev pub both : Option ℕ → Option ℕ → Option (ℕ × ℕ)
both none b = none
both (some a) none = none
both (some a) (some b) = some (a, b)

-- `empty_range_policy in {"accept", "bisect"}`
abbrev pub is_known : EmptyRangePolicy → Bool
is_known EmptyRangePolicy.unknown = false
is_known _ = true

-- `lower + timedelta(days=span_days // 2)`
abbrev pub midpoint : Span → ℕ
midpoint s = s.lower + (s.upper - s.lower) / 2

abbrev pub left_half : Span → Span
left_half s = record { lower = s.lower; upper = midpoint s; key = s.key ++ KeyPart.at 0 ∷ [] }

abbrev pub right_half : Span → Span
right_half s = record { lower = midpoint s + 1; upper = s.upper; key = s.key ++ KeyPart.at 1 ∷ [] }

module _ {Frame W : Type 0} (env : Outside Frame W) (options : PageOptions)
    (policy : EmptyRangePolicy) where
  abbrev pub discard : FetchPage Frame → FetchPage Frame
  discard p = record p { frame = none; discarded = true }

  module _ (request : Request) (key : List KeyPart) where
    abbrev pub ranged : Span → Request
    ranged s = record request { start = some s.lower; end = some s.upper }

    -- The pages of a saturated window that is too short to split.
    abbrev pub fetch_leaf : Span → W → List (FetchPage Frame) × W
    fetch_leaf s w =
        fetch_offset_pages env (record options { page_size = row_limit_of options }) (ranged s)
          (s.key ++ KeyPart.leaf ∷ []) w

    -- The `while` loop, whose first two `continue` branches are one test here;
    -- `fuel` iterations of it, and `none` when they do not suffice.
    unfoldable pub adaptive_from :
        ℕ → List Span → List (FetchPage Frame) → W → Option (List (FetchPage Frame) × W)
    adaptive_from fuel [] pages w = some (pages, w)
    adaptive_from zero (s ∷ pending) pages w = none
    adaptive_from (suc fuel) (s ∷ pending) pages w =
        let got = fetch_one env (ranged s) s.key options.max_retries false w in
        let page = got.0 in
        let bounded = bound_pages env options.buffer_limit_bytes key request (pages ++ page ∷ []) in
        let short = leb (s.upper - s.lower) options.minimum_window_days in
        elim (leb options.max_pages (length pages)) [
          | true ↦ some (
            pages
                ++ invalid_page env (key ++ KeyPart.exhausted ∷ []) request
                    Problem.max_pages_exhausted
                  ∷ [],
            w,
          )
          | false ↦ elim (bounded.0 && is_success page.status) [
            | false ↦ some (bounded.1, got.1)
            | true ↦
                elim (if page.row_count == 0 && bisects policy
                  then short
                  else ltb page.row_count (row_limit_of options)) [
                    | true ↦ adaptive_from fuel pending bounded.1 got.1
                    | false ↦ elim short [
                      | false ↦
                          adaptive_from fuel (left_half s ∷ right_half s ∷ pending)
                            (pages ++ discard page ∷ []) got.1
                      | true ↦
                          let deep = fetch_leaf s got.1 in
                          let all =
                            bound_pages env options.buffer_limit_bytes key request
                              ((pages ++ discard page ∷ []) ++ deep.0) in
                          elim (all.0 && all_success all.1) [
                            | false ↦ some (all.1, deep.1)
                            | true ↦ adaptive_from fuel pending all.1 deep.1
                          ]
                    ]
                  ]
          ]
        ]

  -- One page without a call.
  abbrev pub refused : Request → List KeyPart → W → Problem → Option (List (FetchPage Frame) × W)
  refused request key w problem = some (invalid_page env key request problem ∷ [], w)

  -- The guards, and the loop with one iteration more than it may append pages.
  unfoldable pub fetch_adaptive_date_range :
      Request → List KeyPart → W → Option (List (FetchPage Frame) × W)
  unfolding adaptive_from
  fetch_adaptive_date_range request key w = elim (is_known policy) [
    | false ↦ refused request key w Problem.bad_policy
    | true ↦ elim (row_limit_of options == 0 || options.max_pages == 0) [
      | true ↦ refused request key w Problem.bad_limits
      | false ↦ elim (both request.start request.end) [
        | none ↦ refused request key w Problem.missing_bounds
        | some bounds ↦ elim (ltb bounds.1 bounds.0) [
          | true ↦ refused request key w Problem.start_after_end
          | false ↦
              adaptive_from request key (options.max_pages + 1)
                (record { lower = bounds.0; upper = bounds.1; key = key } ∷ []) [] w
        ]
      ]
    ]
  ]

-- `pagination`
pub data Pagination : Type 0 where
  adaptive_date_range offset unpaged : Pagination

-- The page of an unpaged request, and the page that a full response adds.
abbrev pub limited :
    {Frame W : Type 0}
    → Outside Frame W
    → PageOptions
    → Request
    → List KeyPart
    → FetchPage Frame
    → List (FetchPage Frame)
limited env options request key page = elim options.row_limit [
  | none ↦ page ∷ []
  | some n ↦
      if leb n page.row_count
      then page ∷ invalid_page env key request Problem.row_limit_reached ∷ []
      else page ∷ []
]

unfoldable pub fetch_request_pages :
    {Frame W : Type 0}
    → Outside Frame W
    → PageOptions
    → EmptyRangePolicy
    → Pagination
    → Request
    → List KeyPart
    → W
    → Option (List (FetchPage Frame) × W)
unfolding fetch_adaptive_date_range
fetch_request_pages env options policy Pagination.adaptive_date_range request key w =
    fetch_adaptive_date_range env options policy request key w
fetch_request_pages env options policy Pagination.offset request key w =
    some (fetch_offset_pages env options request key w)
fetch_request_pages env options policy Pagination.unpaged request key w =
    let got = fetch_one env request key options.max_retries options.require_nonempty_response w in
    some (limited env options request key got.0, got.1)
