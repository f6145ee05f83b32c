-- ===== src/Fetch/Offset.antt =====
-- `_fetch_offset_pages` of pipeline/update.py.
use bagelquant_data.Prelude.{
  ℕ, zero, suc, ◌+◌, Bool, true, false, not, ◌&&◌, ◌||◌, Option, none, some, List, [], ◌∷◌, ◌++◌,
  ◌==◌, ltb, any, if◌then◌else◌,
}
use bagelquant_data.Fetch.Page.{
  KeyPart, Request, is_success, Problem, FetchPage, Outside, PageOptions, invalid_page, bound_pages,
}
use bagelquant_data.Fetch.One.{fetch_one}

-- `digest in seen_pages`, where a page without rows has no digest.
abbrev pub is_repeated : Option ℕ → List ℕ → Bool
is_repeated none seen = false
is_repeated (some d) seen = any (λ s. s == d) seen

abbrev pub remember : Option ℕ → List ℕ → List ℕ
remember none seen = seen
remember (some d) seen = d ∷ seen

module _ {Frame W : Type 0} (env : Outside Frame W) (options : PageOptions) where
  abbrev pub frame_digest : Option Frame → ℕ → Option ℕ
  frame_digest none rows = none
  frame_digest (some f) rows = if rows == 0 then none else some (env.digest f)

  module _ (request : Request) (key : List KeyPart) where
    abbrev pub paged : ℕ → Request
    paged offset = record request { limit = some options.page_size; offset = some offset }

    -- The call of one page.
    abbrev pub fetch_page : ℕ → ℕ → W → FetchPage Frame × W
    fetch_page index offset w =
        fetch_one env (paged offset) (key ++ KeyPart.at index ∷ []) options.max_retries
          (index == 0 && options.require_nonempty_response) w

    -- The loop with `left` pages to go.
    unfoldable pub offset_from :
        ℕ → ℕ → ℕ → List ℕ → List (FetchPage Frame) → W → List (FetchPage Frame) × W
    offset_from zero index offset seen pages w = (
      pages
          ++ invalid_page env (key ++ KeyPart.exhausted ∷ []) request Problem.max_pages_exhausted
            ∷ [],
      w,
    )
    offset_from (suc left) index offset seen pages w =
        let got = fetch_page index offset w in
        let page = got.0 in
        let bounded = bound_pages env options.buffer_limit_bytes key request (pages ++ page ∷ []) in
        let digest = frame_digest page.frame page.row_count in
        elim bounded.0 [
          | false ↦ (bounded.1, got.1)
          | true ↦ elim (is_repeated digest seen) [
            | true ↦ (bounded.1 ++ invalid_page env key request Problem.repeated_page ∷ [], got.1)
            | false ↦ elim (not (is_success page.status) || ltb page.row_count options.page_size) [
              | true ↦ (bounded.1, got.1)
              | false ↦
                  offset_from left (index + 1) (offset + options.page_size) (remember digest seen)
                    bounded.1 got.1
            ]
          ]
        ]

  unfoldable pub fetch_offset_pages : Request → List KeyPart → W → List (FetchPage Frame) × W
  unfolding offset_from
  fetch_offset_pages request key w =
      offset_from request key options.max_pages 0 options.offset_start [] [] w
