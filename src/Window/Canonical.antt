-- ===== src/Window/Canonical.antt =====
-- The result of `_merge` depends only on the days covered.
use bagelquant_data.Prelude.{
  ℕ, ◌+◌, ◌≤◌, ◌<◌, ◌≡◌, refl, sym, ap, ap₂, ◌∙◌, true, false, some, List, [], ◌∷◌, arith, All,
}
use bagelquant_data.Window.{Window, covered, sorted, merge}
use bagelquant_data.Window.Join.{IsSeparated}
use bagelquant_data.Window.Merge.{
  EndsInCalendar, AllNonempty, joined, merge-eq-joined, covered-joined, covered-sorted, All-sorted,
  IsSorted-sorted, IsSeparated-joined, AllNonempty-joined,
}

covered_above :
    (d n : ℕ) (ws : List Window) → d ≤ n → All (λ w. n < w.first) ws → covered d ws ≡ false
covered_above d n [] le h = refl
covered_above d n (w ∷ ws) le h = ground (arith, covered_above d n ws le h.1)

-- The days of the windows behind `w` come after the day that follows `w`.
tail_covered :
    (d : ℕ) (w : Window) (ws : List Window)
    → All (λ v. w.last + 1 < v.first) ws
    → covered d ws ≡ true
    → w.last + 1 < d
tail_covered d w [] h c = cc
tail_covered d w (v ∷ ws) h c = ground (arith, tail_covered d w ws h.1)

-- The first window's start is the first day covered.
first_covered :
    (d : ℕ) (w : Window) (ws : List Window)
    → w.first ≤ w.last
    → IsSeparated (w ∷ ws)
    → covered d (w ∷ ws) ≡ true
    → w.first ≤ d
first_covered d w ws e s c = ground (arith, tail_covered d w ws s.0)

-- Windows that cover the same days as `w ∷ ws` and start where it does cannot end earlier.
ends_at_least :
    (v w : Window) (vs ws : List Window)
    → w.first ≤ w.last
    → v.first ≤ v.last
    → v.first ≡ w.first
    → All (λ u. v.last + 1 < u.first) vs
    → ((d : ℕ) → covered d (v ∷ vs) ≡ covered d (w ∷ ws))
    → w.last ≤ v.last
ends_at_least v w vs ws ew ev same sv c =
    ground (arith, c (v.last + 1), covered_above (v.last + 1) (v.last + 1) vs (omega arith) sv)

same_tail :
    (w : Window) (vs ws : List Window)
    → All (λ u. w.last + 1 < u.first) vs
    → All (λ u. w.last + 1 < u.first) ws
    → ((d : ℕ) → covered d (w ∷ vs) ≡ covered d (w ∷ ws))
    → w.first ≤ w.last
    → (d : ℕ) → covered d vs ≡ covered d ws
same_tail w vs ws sv sw c e d =
    ground (arith, c d, covered_above d (w.last + 1) vs, covered_above d (w.last + 1) ws)

covered_first : (w : Window) (ws : List Window) → w.first ≤ w.last → covered w.first (w ∷ ws) ≡ true
covered_first w ws e = ground arith

separated_unique :
    (vs ws : List Window)
    → AllNonempty vs
    → AllNonempty ws
    → IsSeparated vs
    → IsSeparated ws
    → ((d : ℕ) → covered d vs ≡ covered d ws)
    → vs ≡ ws
separated_unique [] [] ev ew sv sw c = refl
separated_unique [] (w ∷ ws) ev ew sv sw c = cc (c w.first, covered_first w ws ew.0)
separated_unique (v ∷ vs) [] ev ew sv sw c = cc (c v.first, covered_first v vs ev.0)
separated_unique (v ∷ vs) (w ∷ ws) ev ew sv sw c =
    ap₂ (λ u us. u ∷ us) heads
      (separated_unique vs ws ev.1 ew.1 sv.1 sw.1
        (same_tail w vs ws (rw ends at sv.0) sw.0 rest ew.0))
  where
    starts : v.first ≡ w.first
    starts = omega (
      arith,
      first_covered v.first w ws ew.0 sw (sym (c v.first) ∙ covered_first v vs ev.0),
      first_covered w.first v vs ev.0 sv (c w.first ∙ covered_first w ws ew.0),
    )

    ends : v.last ≡ w.last
    ends = omega (
      arith,
      ends_at_least v w vs ws ew.0 ev.0 starts sv.0 c,
      ends_at_least w v ws vs ev.0 ew.0 (sym starts) sw.0 (λ d. sym (c d)),
    )

    heads : v ≡ w
    heads = λ i. record { first = starts i; last = ends i }

    rest : (d : ℕ) → covered d (w ∷ vs) ≡ covered d (w ∷ ws)
    rest d = rw heads at (c d)

-- Two lists of nonempty windows before `date.max` that cover the same days, in whatever order and
-- however cut, have the same merged result.
pub merge-canonical :
    (vs ws : List Window)
    → EndsInCalendar vs
    → EndsInCalendar ws
    → AllNonempty vs
    → AllNonempty ws
    → ((d : ℕ) → covered d vs ≡ covered d ws)
    → merge vs ≡ merge ws
merge-canonical vs ws cv cw ev ew same =
    merge-eq-joined vs cv
    ∙ ap some (
        separated_unique (joined (sorted vs)) (joined (sorted ws))
          (AllNonempty-joined (sorted vs) (All-sorted (λ w. w.first ≤ w.last) vs ev))
          (AllNonempty-joined (sorted ws) (All-sorted (λ w. w.first ≤ w.last) ws ew))
          (IsSeparated-joined (sorted vs) (IsSorted-sorted vs))
          (IsSeparated-joined (sorted ws) (IsSorted-sorted ws))
          (λ d. days vs d ∙ same d ∙ sym (days ws d)))
    ∙ sym (merge-eq-joined ws cw)
  where
    days : (us : List Window) (d : ℕ) → covered d (joined (sorted us)) ≡ covered d us
    days us d = covered-joined d (sorted us) (IsSorted-sorted us) ∙ covered-sorted d us
