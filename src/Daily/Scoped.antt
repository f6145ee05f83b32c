-- ===== src/Daily/Scoped.antt =====
-- After planning, every date and variant has a scope of the current spec.
use bagelquant_data.Prelude.{
  ℕ, ◌≡◌, refl, ap, sym, ◌∙◌, Bool, true, false, not, ◌&&◌, ◌||◌, inl, inr, List, [], ◌∷◌, ◌++◌,
  map, ◌==◌, if◌then◌else◌, filter, any, arith, Bool-cases, any-append, In, &&-true, ap₂, All,
}
use bagelquant_data.Ledger.Data.{Scope, Ledger}
use bagelquant_data.Ledger.Scopes.{
  Declared, same_identity, redeclare, fresh_scope, declare, declare_all, synchronize_update_scopes,
  delete_outdated, obsolete, remove_obsolete_update_scopes,
}
use bagelquant_data.Daily.{Variant, Planning, dates, declared_scope, declared_for, daily_requests}

-- The scope of a declared identity and of its spec.
abbrev pub is_current : Declared → Scope → Bool
is_current d s = same_identity d s && s.spec_hash == d.spec_hash

redeclare-same_identity :
    (now : ℕ) (e d : Declared) (s : Scope) → same_identity e (redeclare now d s) ≡ same_identity e s
redeclare-same_identity now e d s = ground arith

spec_hash-redeclare :
    (now : ℕ) (d : Declared) (s : Scope) → ((redeclare now d s).spec_hash == d.spec_hash) ≡ true
spec_hash-redeclare now d s = ground arith

current-redeclared :
    (now : ℕ) (d : Declared) (ss : List Scope)
    → any (same_identity d) ss ≡ true
    → any (is_current d) (map (λ s. if same_identity d s then redeclare now d s else s) ss) ≡ true
current-redeclared now d [] h = h
current-redeclared now d (s ∷ ss) h = elim (Bool-cases (same_identity d s)) [
  | inl e ↦ rw e (rw (redeclare-same_identity now d d s, e, spec_hash-redeclare now d s) refl)
  | inr e ↦ rw e (ground (arith, current-redeclared now d ss (rw e at h)))
]

current-declare :
    (now : ℕ) (l : Ledger) (d : Declared) → any (is_current d) (declare now l d).scopes ≡ true
unfolding declare
current-declare now l d = elim (Bool-cases (any (same_identity d) l.scopes)) [
  | inl known ↦ rw (known, declare) (current-redeclared now d l.scopes known)
  | inr new ↦
      rw (new, declare)
        (any-append (is_current d) l.scopes (fresh_scope now l.next_id d ∷ []) ∙ ground arith)
]

or_left : (a b : Bool) → a ≡ true → (a || b) ≡ true
or_left a b h = rw h refl

or_right : (a b : Bool) → b ≡ true → (a || b) ≡ true
or_right a b h = ground (arith, h)

-- A redeclared scope of the identity is current.
is_current-redeclare :
    (now : ℕ) (e d : Declared) (s : Scope)
    → e.spec_hash ≡ d.spec_hash
    → same_identity e s ≡ true
    → is_current e (redeclare now d s) ≡ true
is_current-redeclare now e d s same h =
    ap₂ ◌&&◌ (redeclare-same_identity now e d s ∙ h)
      (ap (λ x. (redeclare now d s).spec_hash == x) same ∙ spec_hash-redeclare now d s)

still-redeclared :
    (now : ℕ) (e d : Declared) (ss : List Scope)
    → e.spec_hash ≡ d.spec_hash
    → any (is_current e) ss ≡ true
    → any (is_current e) (map (λ s. if same_identity d s then redeclare now d s else s) ss) ≡ true
still-redeclared now e d [] same h = h
still-redeclared now e d (s ∷ ss) same h = elim (Bool-cases (is_current e s)) [
  | inl here ↦
      or_left (is_current e (if same_identity d s then redeclare now d s else s))
        (any (is_current e) (map (λ s. if same_identity d s then redeclare now d s else s) ss))
        (kept (same_identity d s) here)
  | inr elsewhere ↦
      or_right (is_current e (if same_identity d s then redeclare now d s else s))
        (any (is_current e) (map (λ s. if same_identity d s then redeclare now d s else s) ss))
        (still-redeclared now e d ss same (rw elsewhere at h))
]
  where
    kept :
        (b : Bool)
        → is_current e s ≡ true
        → is_current e (if b then redeclare now d s else s) ≡ true
    kept true here =
        is_current-redeclare now e d s same
          (&&-true (same_identity e s) (s.spec_hash == e.spec_hash) here).0
    kept false here = here

still-declare :
    (now : ℕ) (e d : Declared) (l : Ledger)
    → e.spec_hash ≡ d.spec_hash
    → any (is_current e) l.scopes ≡ true
    → any (is_current e) (declare now l d).scopes ≡ true
unfolding declare
still-declare now e d l same h = elim (Bool-cases (any (same_identity d) l.scopes)) [
  | inl known ↦ rw (known, declare) (still-redeclared now e d l.scopes same h)
  | inr new ↦
      rw (new, declare)
        (any-append (is_current e) l.scopes (fresh_scope now l.next_id d ∷ []) ∙ rw h refl)
]

-- All scopes declared are of one spec.
abbrev AllOf : ℕ → List Declared → Type 0
AllOf hash ds = All (λ (d : Declared). d.spec_hash ≡ hash) ds

still-declare_all :
    (now : ℕ) (e : Declared) (ds : List Declared) (l : Ledger)
    → AllOf e.spec_hash ds
    → any (is_current e) l.scopes ≡ true
    → any (is_current e) (declare_all now ds l).scopes ≡ true
unfolding declare_all
still-declare_all now e [] l a h = h
still-declare_all now e (d ∷ ds) l a h =
    still-declare_all now e ds (declare now l d) a.1 (still-declare now e d l (sym a.0) h)

current-declare_all :
    (now : ℕ) (e : Declared) (ds : List Declared) (l : Ledger)
    → AllOf e.spec_hash ds
    → In e ds
    → any (is_current e) (declare_all now ds l).scopes ≡ true
unfolding declare_all
current-declare_all now e [] l a h = absurd h
current-declare_all now e (d ∷ ds) l a (inl same) =
    still-declare_all now e ds (declare now l d) a.1 (rw same (current-declare now l d))
current-declare_all now e (d ∷ ds) l a (inr later) =
    current-declare_all now e ds (declare now l d) a.1 later

still-filter :
    (e : Declared) (src name : ℕ) (ss : List Scope)
    → any (is_current e) ss ≡ true
    → any (is_current e) (filter (λ s. not (obsolete src name e.spec_hash s)) ss) ≡ true
still-filter e src name [] h = h
still-filter e src name (s ∷ ss) h = elim (Bool-cases (is_current e s)) [
  | inl here ↦
      let hash = (&&-true (same_identity e s) (s.spec_hash == e.spec_hash) here).1 in
      let kept : obsolete src name e.spec_hash s ≡ false = rw hash (ground arith) in
      rw kept (
        or_left (is_current e s)
          (any (is_current e) (filter (λ s. not (obsolete src name e.spec_hash s)) ss)) here)
  | inr elsewhere ↦
      let rest = still-filter e src name ss (rw elsewhere at h) in
      elim (Bool-cases (obsolete src name e.spec_hash s)) [
        | inl gone ↦ rw gone rest
        | inr kept ↦ rw kept (
            or_right (is_current e s)
              (any (is_current e) (filter (λ s. not (obsolete src name e.spec_hash s)) ss)) rest)
      ]
]

-- A scope of a dataset's date and variant that belongs to the current spec.
abbrev pub is_scope_of : Planning → ℕ → Variant → Scope → Bool
is_scope_of p day v s =
    (p.source == s.source
      && p.dataset == s.dataset
      && p.date_kind == s.scope_kind
      && day == s.scope_key
      && v.hash == s.variant_hash)
    && s.spec_hash == p.spec_hash

module _ (p : Planning) where
  AllOf-map :
      (d : ℕ) (vs : List Variant) (rest : List Declared)
      → AllOf p.spec_hash rest
      → AllOf p.spec_hash (map (declared_scope p d) vs ++ rest)
  AllOf-map d [] rest a = a
  AllOf-map d (v ∷ vs) rest a = (refl, AllOf-map d vs rest a)

  AllOf-declared_for : (ds : List ℕ) (vs : List Variant) → AllOf p.spec_hash (declared_for p ds vs)
  AllOf-declared_for [] vs = tt
  AllOf-declared_for (d ∷ ds) vs = AllOf-map d vs (declared_for p ds vs) (AllOf-declared_for ds vs)

  In-later :
      (e : Declared) (d : ℕ) (vs : List Variant) (rest : List Declared)
      → In e rest
      → In e (map (declared_scope p d) vs ++ rest)
  In-later e d [] rest h = h
  In-later e d (v ∷ vs) rest h = inr (In-later e d vs rest h)

  In-variant :
      (d : ℕ) (v : Variant) (vs : List Variant) (rest : List Declared)
      → In v vs
      → In (declared_scope p d v) (map (declared_scope p d) vs ++ rest)
  In-variant d v [] rest h = absurd h
  In-variant d v (w ∷ ws) rest (inl same) = inl (ap (declared_scope p d) same)
  In-variant d v (w ∷ ws) rest (inr later) = inr (In-variant d v ws rest later)

  In-declared_for :
      (d : ℕ) (v : Variant) (ds : List ℕ) (vs : List Variant)
      → In d ds
      → In v vs
      → In (declared_scope p d v) (declared_for p ds vs)
  In-declared_for d v [] vs h k = absurd h
  In-declared_for d v (x ∷ xs) vs (inl same) k =
      rw (sym same) (In-variant d v vs (declared_for p xs vs) k)
  In-declared_for d v (x ∷ xs) vs (inr later) k =
      In-later (declared_scope p d v) x vs (declared_for p xs vs)
        (In-declared_for d v xs vs later k)

  -- After `_daily_requests`, for every selected date and every variant there is a scope of that date and
  -- variant that belongs to the current spec, whatever the ledger held before.
  pub daily_requests-Scoped :
      (now d : ℕ) (v : Variant) (vs : List Variant) (l : Ledger)
      → In d (dates p)
      → In v vs
      → any (is_scope_of p d v) (daily_requests now p vs l).0.scopes ≡ true
  unfolding daily_requests synchronize_update_scopes remove_obsolete_update_scopes
  daily_requests-Scoped now d v vs l on_date of_variant =
      let declared = declared_for p (dates p) vs in
      still-filter (declared_scope p d v) p.source p.dataset
        (synchronize_update_scopes now declared l).scopes
        (current-declare_all now (declared_scope p d v) declared (delete_outdated declared l)
          (AllOf-declared_for (dates p) vs) (In-declared_for d v (dates p) vs on_date of_variant))
