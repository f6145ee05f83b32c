-- ===== src/Inputs/Closed.antt =====
-- What a search that fails has visited: candidates that are all taken, and every candidate that fits the
-- index or an index that holds one of them.
use mathlib.Core.Path.{subst}
use bagelquant_data.Prelude.{
  ℕ, zero, suc, ◌≤◌, ◌≡◌, refl, sym, ◌∙◌, ap, Bool, true, false, not, ◌||◌, inl, inr, Option, some,
  List, [], ◌∷◌, ◌==◌, arith, Bool-cases, Option-cases, ==→eq, ==-refl, In, contains, IsDistinct,
  Grows, unseen, unseen-Grows, unseen-suc, unseen-none,
}
use bagelquant_data.Inputs.Matching.{Search, try_candidates, match_index}
use bagelquant_data.Inputs.Sound.{Search-cases}

module _ (fits : ℕ → ℕ → Bool) (all_ : List ℕ) (m : ℕ → Option ℕ) where
  -- Candidate `d` is taken by an index all of whose candidates are in `w`.
  abbrev pub IsTaken : List ℕ → ℕ → Type 0
  IsTaken w d =
      (j : ℕ) × (m d ≡ some j) × ((e : ℕ) → In e all_ → fits j e ≡ true → contains e w ≡ true)

  pub record Closed (i : ℕ) (cs v w : List ℕ) : Type 0 where
    pub grows : Grows v w
    pub reached : (d : ℕ) → In d cs → fits i d ≡ true → contains d w ≡ true
    pub taken : (d : ℕ) → contains d w ≡ true → contains d v ≡ false → IsTaken w d
    pub distinct : IsDistinct v → IsDistinct w

  abbrev pub OnFailed : ℕ → List ℕ → List ℕ → Search → Type 0
  OnFailed i cs v (Search.found m') = Unit
  OnFailed i cs v (Search.failed w) = Closed i cs v w

  IsTaken-Grows : (w w' : List ℕ) (d : ℕ) → Grows w w' → IsTaken w d → IsTaken w' d
  IsTaken-Grows w w' d g (j, at_d, all_seen) = (j, at_d, λ e i f. g e (all_seen e i f))

  -- The candidate `c` was skipped.
  Closed-skip :
      (i c : ℕ) (cs v w : List ℕ)
      → (contains c v || not (fits i c)) ≡ true
      → Closed i cs v w
      → Closed i (c ∷ cs) v w
  Closed-skip i c cs v w skipped h = record {
    grows = h.grows;
    reached = reached;
    taken = h.taken;
    distinct = h.distinct;
  }
    where
      reached : (d : ℕ) → In d (c ∷ cs) → fits i d ≡ true → contains d w ≡ true
      reached d (inl e) fit =
          ap (λ x. contains x w) e ∙ h.grows c (ground (arith, skipped, ap (fits i) e, fit))
      reached d (inr j) fit = h.reached d j fit

  -- The index that holds `c` found no other candidate.
  Closed-stuck :
      (i c j : ℕ) (cs v u w : List ℕ)
      → contains c v ≡ false
      → m c ≡ some j
      → Closed j all_ (c ∷ v) u
      → Closed i cs u w
      → Closed i (c ∷ cs) v w
  Closed-stuck i c j cs v u w new at_c inner h = record {
    grows = λ d seen. h.grows d (inner.grows d (ground (arith, seen)));
    reached = reached;
    taken = taken;
    distinct = λ s. h.distinct (inner.distinct (new, s));
  }
    where
      c_seen : contains c u ≡ true
      c_seen = inner.grows c (rw (==-refl c) refl)

      reached : (d : ℕ) → In d (c ∷ cs) → fits i d ≡ true → contains d w ≡ true
      reached d (inl e) fit = ap (λ x. contains x w) e ∙ h.grows c c_seen
      reached d (inr k) fit = h.reached d k fit

      taken_inner : (d : ℕ) → contains d u ≡ true → contains d v ≡ false → IsTaken u d
      taken_inner d seen unseen_ = elim (Bool-cases (c == d)) [
        | inl same ↦ (j, ap m (sym (==→eq c d same)) ∙ at_c, inner.reached)
        | inr other ↦ inner.taken d seen (rw other unseen_)
      ]

      taken : (d : ℕ) → contains d w ≡ true → contains d v ≡ false → IsTaken w d
      taken d seen unseen_ = elim (Bool-cases (contains d u)) [
        | inl before ↦ IsTaken-Grows u w d h.grows (taken_inner d before unseen_)
        | inr after ↦ h.taken d seen after
      ]

  OnFailed-skip :
      (i c : ℕ) (cs v : List ℕ) (r : Search)
      → (contains c v || not (fits i c)) ≡ true
      → OnFailed i cs v r
      → OnFailed i (c ∷ cs) v r
  OnFailed-skip i c cs v (Search.found m') skipped h = tt
  OnFailed-skip i c cs v (Search.failed w) skipped h = Closed-skip i c cs v w skipped h

  OnFailed-stuck :
      (i c j : ℕ) (cs v u : List ℕ) (r : Search)
      → contains c v ≡ false
      → m c ≡ some j
      → Closed j all_ (c ∷ v) u
      → OnFailed i cs u r
      → OnFailed i (c ∷ cs) v r
  OnFailed-stuck i c j cs v u (Search.found m') new at_c inner h = tt
  OnFailed-stuck i c j cs v u (Search.failed w) new at_c inner h =
      Closed-stuck i c j cs v u w new at_c inner h

  try_candidates-Closed :
      (go : ℕ → List ℕ → Search) (i f : ℕ)
      (ih : (j : ℕ) (v : List ℕ) → unseen all_ v ≤ f → OnFailed j all_ v (go j v)) (cs v : List ℕ)
      → ((d : ℕ) → In d cs → In d all_)
      → unseen all_ v ≤ suc f
      → OnFailed i cs v (try_candidates fits go m i cs v)
  unfolding try_candidates
  try_candidates-Closed go i f ih [] v sub le = record {
    grows = λ d seen. seen;
    reached = λ d k fit. absurd k;
    taken = λ d seen new. absurd (cc (seen, new));
    distinct = λ s. s;
  }
  try_candidates-Closed go i f ih (c ∷ cs) v sub le =
      elim (Bool-cases (contains c v || not (fits i c))) [
        | inl skipped ↦
            rw (skipped, try_candidates)
              (OnFailed-skip i c cs v _ skipped
                (try_candidates-Closed go i f ih cs v (λ d k. sub d (inr k)) le))
        | inr tried ↦ elim (Option-cases (m c)) [
          | inl free ↦ rw (tried, free, try_candidates) tt
          | inr (j, at_c) ↦ elim (Search-cases (go j (c ∷ v))) [
            | inl (m', moved) ↦ rw (tried, at_c, moved, try_candidates) tt
            | inr (u, stuck) ↦
                rw (tried, at_c, stuck, try_candidates)
                  (let new : contains c v ≡ false = ground (arith, tried) in
                    let fewer = unseen-suc all_ v c (sub c (inl refl)) new in
                    let inner =
                      subst (OnFailed j all_ (c ∷ v)) stuck
                        (ih j (c ∷ v) (omega (arith, fewer, le))) in
                    OnFailed-stuck i c j cs v u _ new at_c inner (
                      try_candidates-Closed go i f ih cs u (λ d k. sub d (inr k))
                        (omega (arith, le, fewer, unseen-Grows all_ (c ∷ v) u inner.grows))))
          ]
        ]
      ]

  -- With as much fuel as there are candidates left, a search fails only when it is closed.
  pub match_index-Closed :
      (f i : ℕ) (v : List ℕ) → unseen all_ v ≤ f → OnFailed i all_ v (match_index fits f all_ m i v)
  unfolding match_index
  match_index-Closed zero i v le = record {
    grows = λ d seen. seen;
    reached = λ d k fit. unseen-none all_ v d le k;
    taken = λ d seen new. absurd (cc (seen, new));
    distinct = λ s. s;
  }
  match_index-Closed (suc f) i v le =
      try_candidates-Closed (match_index fits f all_ m) i f (match_index-Closed f) all_ v (λ d k. k)
        le
