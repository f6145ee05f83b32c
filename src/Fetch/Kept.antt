-- ===== src/Fetch/Kept.antt =====
-- Which pages of a fetch hold the rows of a day.
use bagelquant_data.Prelude.{
  ℕ, zero, suc, ◌+◌, ◌≤◌, ◌<◌, ◌≡◌, refl, ap, ◌∙◌, Bool, true, false, not, ◌&&◌, ◌||◌, inl, inr,
  Option, none, some, List, [], ◌∷◌, ◌++◌, map, arith, ◌==◌, ltb, leb, if◌then◌else◌, Bool-cases,
}
use bagelquant_data.Fetch.Page.{
  KeyPart, Request, is_success, Problem, FetchPage, Outside, PageOptions, invalid_page, bound_pages,
  retained_bytes, drop_frame, all_success,
}
use bagelquant_data.Fetch.One.{judge, attempts_from, fetch_one}
use bagelquant_data.Fetch.Attempts.{Verdict-cases}
use bagelquant_data.Fetch.Offset.{
  is_repeated, remember, frame_digest, paged, fetch_page, offset_from, fetch_offset_pages,
}

abbrev pub within : ℕ → Option ℕ → Option ℕ → Bool
within d none b = false
within d (some a) none = false
within d (some a) (some b) = leb a d && leb d b

abbrev pub starts_at : ℕ → Option ℕ → Bool
starts_at o none = true
starts_at o (some p) = p == o

-- The page is not discarded, was asked for a range with the day, and is the first of its range: it has
-- no offset or the offset `o`.
abbrev pub holds_day : {Frame : Type 0} → ℕ → ℕ → FetchPage Frame → Bool
holds_day o d p =
    not p.discarded
    && within d p.request_params.start p.request_params.end
    && starts_at o p.request_params.offset

abbrev pub holding : {Frame : Type 0} → ℕ → ℕ → List (FetchPage Frame) → ℕ
holding o d [] = 0
holding o d (p ∷ ps) = (if holds_day o d p then 1 else 0) + holding o d ps

module _ {Frame : Type 0} where
  pub holding-append :
      (o d : ℕ) (ps qs : List (FetchPage Frame))
      → holding o d (ps ++ qs) ≡ holding o d ps + holding o d qs
  holding-append o d [] qs = omega arith
  holding-append o d (p ∷ ps) qs = omega (arith, holding-append o d ps qs)

  pub all_success-append :
      (ps qs : List (FetchPage Frame)) → all_success (ps ++ qs) ≡ (all_success ps && all_success qs)
  all_success-append [] qs = refl
  all_success-append (p ∷ ps) qs = ground (arith, all_success-append ps qs)

module _ {Frame W : Type 0} (env : Outside Frame W) where
  pub bounded_kept :
      (limit : ℕ) (key : List KeyPart) (request : Request) (ps : List (FetchPage Frame))
      → (bound_pages env limit key request ps).0 ≡ true
      → (bound_pages env limit key request ps).1 ≡ ps
  unfolding bound_pages
  bounded_kept limit key request ps h = elim (Bool-cases (leb (retained_bytes env ps) limit)) [
    | inl e ↦ rw (e, bound_pages) refl
    | inr e ↦ absurd (cc (rw (e, bound_pages) at h))
  ]

  pub bounded_failure :
      (limit : ℕ) (key : List KeyPart) (request : Request) (ps : List (FetchPage Frame))
      → (bound_pages env limit key request ps).0 ≡ false
      → all_success (bound_pages env limit key request ps).1 ≡ false
  unfolding bound_pages
  bounded_failure limit key request ps h = elim (Bool-cases (leb (retained_bytes env ps) limit)) [
    | inl e ↦ absurd (cc (rw (e, bound_pages) at h))
    | inr e ↦
        rw (e, bound_pages)
          (all_success-append (map (drop_frame env) ps) (
              record (invalid_page env key request Problem.buffer_exceeded) {
                buffer_limit_exceeded = true;
              }
              ∷ [])
            ∙ ground arith)
  ]

  -- The page of a call is for its request, and not discarded.
  pub fetched :
      (key : List KeyPart) (request : Request) (nonempty : Bool) (left attempt : ℕ)
      (last : Option Problem) (w : W)
      → ((attempts_from env key request nonempty left attempt last w).0.request_params ≡ request)
        × ((attempts_from env key request nonempty left attempt last w).0.discarded ≡ false)
  unfolding attempts_from
  fetched key request nonempty zero attempt last w = (refl, refl)
  fetched key request nonempty (suc left) attempt last w =
      let asked = env.cancelled w in
      let admission = env.admitted asked.1 in
      let answer = env.fetch request admission.1 in
      let pause = env.backed_off answer.1 in
      elim (Bool-cases asked.0) [
        | inl cancel ↦ rw (cancel, attempts_from) (refl, refl)
        | inr go ↦ elim (Bool-cases admission.0) [
          | inr deny ↦ rw (go, deny, attempts_from) (refl, refl)
          | inl admit ↦ elim (Verdict-cases (judge env nonempty answer.0)) [
            | inl good ↦ rw (go, admit, good.1, attempts_from) (refl, refl)
            | inr bad ↦ elim (Bool-cases (left == 0)) [
              | inl done ↦
                  rw (go, admit, bad.1, done, attempts_from)
                    (fetched key request nonempty left (attempt + 1) (some bad.0) answer.1)
              | inr more ↦ elim (Bool-cases pause.0) [
                | inl wait ↦
                    rw (go, admit, bad.1, more, wait, attempts_from)
                      (fetched key request nonempty left (attempt + 1) (some bad.0) pause.1)
                | inr quit ↦ rw (go, admit, bad.1, more, quit, attempts_from) (refl, refl)
              ]
            ]
          ]
        ]
      ]

  -- So a new page holds a day exactly when its request does.
  abbrev pub asks_day : ℕ → ℕ → Request → Bool
  asks_day o d r = within d r.start r.end && starts_at o r.offset

  holds-asks :
      (o d : ℕ) (p : FetchPage Frame) (r : Request)
      → p.request_params ≡ r
      → p.discarded ≡ false
      → holds_day o d p ≡ asks_day o d r
  holds-asks o d p r e k = rw (e, k) refl

  pub one_more :
      (o d : ℕ) (key : List KeyPart) (request : Request) (retries : ℕ) (nonempty : Bool) (w : W)
      (ps : List (FetchPage Frame))
      → holding o d (ps ++ (fetch_one env request key retries nonempty w).0 ∷ [])
        ≡ holding o d ps + (if asks_day o d request then 1 else 0)
  unfolding fetch_one
  one_more o d key request retries nonempty w ps =
      holding-append o d ps ((fetch_one env request key retries nonempty w).0 ∷ [])
      ∙ (let f = fetched key request nonempty retries 0 none w in
          rw (holds-asks o d (fetch_one env request key retries nonempty w).0 request f.0 f.1)
            (omega arith))

  pub refused_last :
      (ps : List (FetchPage Frame)) (key : List KeyPart) (request : Request) (problem : Problem)
      → all_success (ps ++ invalid_page env key request problem ∷ []) ≡ false
  refused_last ps key request problem =
      all_success-append ps (invalid_page env key request problem ∷ []) ∙ ground arith

  -- If every page is a success, `n` of them hold the day.
  abbrev pub Holding : ℕ → ℕ → ℕ → List (FetchPage Frame) × W → Type 0
  Holding o d n r = all_success r.0 ≡ true → holding o d r.0 ≡ n

  pub Holding-failed :
      (o d n : ℕ) (ps : List (FetchPage Frame)) (w : W)
      → all_success ps ≡ false
      → Holding o d n (ps, w)
  Holding-failed o d n ps w failed succeeded = absurd (cc (failed, succeeded))

  module _ (options : PageOptions) (request : Request) (key : List KeyPart) (d : ℕ) where
    offset_from-Holding :
        (left index offset : ℕ) (seen : List ℕ) (pages : List (FetchPage Frame)) (w : W)
        → 0 < options.page_size
        → options.offset_start ≤ offset
        → Holding options.offset_start d
            (holding options.offset_start d pages
              + (if within d request.start request.end && offset == options.offset_start
                  then 1
                  else 0))
            (offset_from env options request key left index offset seen pages w)
    unfolding offset_from
    offset_from-Holding zero index offset seen pages w size later =
        Holding-failed options.offset_start d
          (holding options.offset_start d pages
            + (if within d request.start request.end && offset == options.offset_start
                then 1
                else 0))
          (pages
            ++ invalid_page env (key ++ KeyPart.exhausted ∷ []) request Problem.max_pages_exhausted
              ∷ [])
          w (refused_last pages (key ++ KeyPart.exhausted ∷ []) request Problem.max_pages_exhausted)
    offset_from-Holding (suc left) index offset seen pages w size later =
        let o = options.offset_start in
        let got = fetch_page env options request key index offset w in
        let all_pages = pages ++ got.0 ∷ [] in
        let bounded = bound_pages env options.buffer_limit_bytes key request all_pages in
        let digest = frame_digest env options got.0.frame got.0.row_count in
        let n =
          holding o d pages
          + (if within d request.start request.end && offset == o then 1 else 0) in
        let counted : holding o d all_pages ≡ n =
          one_more o d (key ++ KeyPart.at index ∷ []) (paged env options request key offset)
            options.max_retries (index == 0 && options.require_nonempty_response) w pages in
        elim (Bool-cases bounded.0) [
          | inr over ↦
              rw (over, offset_from)
                (Holding-failed o d n bounded.1 got.1
                  (bounded_failure options.buffer_limit_bytes key request all_pages over))
          | inl fits ↦
              let same = bounded_kept options.buffer_limit_bytes key request all_pages fits in
              elim (Bool-cases (is_repeated digest seen)) [
                | inl again ↦
                    rw (fits, again, offset_from)
                      (Holding-failed o d n
                        (bounded.1 ++ invalid_page env key request Problem.repeated_page ∷ []) got.1
                        (refused_last bounded.1 key request Problem.repeated_page))
                | inr new ↦
                    elim (Bool-cases
                      (not (is_success got.0.status) || ltb got.0.row_count options.page_size)) [
                        | inl last ↦
                            rw (fits, new, last, offset_from) (λ h. ap (holding o d) same ∙ counted)
                        | inr more ↦
                            rw (fits, new, more, offset_from)
                              (λ h.
                                offset_from-Holding left (index + 1) (offset + options.page_size)
                                  (remember digest seen) bounded.1 got.1 size (omega (arith, later))
                                  h
                                ∙ ground (arith, ap (holding o d) same ∙ counted, size, later))
                      ]
              ]
        ]

    -- Offset pages that all succeed hold each day of the request once.
    pub fetch_offset_pages-Holding :
        (w : W)
        → 0 < options.page_size
        → Holding options.offset_start d
            (if within d request.start request.end then 1 else 0)
            (fetch_offset_pages env options request key w)
    unfolding fetch_offset_pages
    fetch_offset_pages-Holding w size h =
        offset_from-Holding options.max_pages 0 options.offset_start [] [] w size (omega arith) h
        ∙ ground arith
