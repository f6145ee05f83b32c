-- ===== src/Inputs.antt =====
-- The check of a frozen receipt against an item's declared inputs, `_validate_input_selections` of
-- items/api.py. Names are numbers and dates their ordinals.
mod Matching
mod Found
mod Sound
mod Closed
mod Pigeons
pub mod Exact
mod Tests
use bagelquant_data.Prelude.{
  ℕ, zero, suc, Bool, true, false, not, ◌&&◌, ◌||◌, Option, none, some, List, [], ◌∷◌, ◌==◌, ltb,
  leb, if◌then◌else◌, any, all, contains,
}

pub data View : Type 0 where
  history snapshot versions : View

-- The bounds `start` and `end`, or `observation_start` and `observation_end`.
pub record Bounds : Type 0 where
  pub lower : Option ℕ
  pub upper : Option ℕ

-- What both kinds of input have.
pub record Selection : Type 0 where
  pub view : View
  pub strict : Bool
  pub bounds : Bounds

-- `RawInput` and `ItemInput`, without the alias.
pub data DataInput : Type 0 where
  raw_input :
      (source dataset : ℕ)
      → (fields : List ℕ) → (observed : Bounds) → (baseline : Bool) → Selection
      → DataInput
  item_input : (name : ℕ) → Selection → DataInput

abbrev pub is_empty : List ℕ → Bool
is_empty [] = true
is_empty (_ ∷ _) = false

-- `a is not None and b is not None and b < a`
abbrev pub is_before : Option ℕ → Option ℕ → Bool
is_before (some b) (some a) = ltb b a
is_before _ _ = false

-- `bound is not None and (other is None or other < bound)`
abbrev pub not_from : Option ℕ → Option ℕ → Bool
not_from none other = false
not_from (some bound) none = true
not_from (some bound) (some other) = ltb other bound

-- `bound is not None and (other is None or other > bound)`
abbrev pub not_upto : Option ℕ → Option ℕ → Bool
not_upto none other = false
not_upto (some bound) none = true
not_upto (some bound) (some other) = ltb bound other

-- The tests of `covers` on one pair of bounds.
unfoldable pub covers_bounds : Bool → Bounds → Bounds → Bool
covers_bounds narrowed d c =
    not (is_before c.upper c.lower)
    && (if narrowed
        then not (not_from d.lower c.lower || not_upto d.upper c.upper)
        else not (
            (is_before d.lower c.lower || is_before c.upper d.upper)
            || (is_before c.upper d.lower || is_before d.upper c.lower)))

abbrev pub same_view : View → View → Bool
same_view View.history View.history = true
same_view View.snapshot View.snapshot = true
same_view View.versions View.versions = true
same_view _ _ = false

abbrev pub same_strict : Bool → Bool → Bool
same_strict true b = b
same_strict false b = not b

unfoldable pub covers_selection : Bool → Selection → Selection → Bool
unfolding covers_bounds
covers_selection narrowed d c =
    same_strict d.strict c.strict
    && ((same_view c.view d.view || same_view c.view View.versions)
        && covers_bounds narrowed d.bounds c.bounds)

-- `not (captured.fields and (not declared.fields or not set(declared.fields).issubset(captured.fields)))`
unfoldable pub covers_fields : List ℕ → List ℕ → Bool
covers_fields d c = is_empty c || (not (is_empty d) && all (λ f. contains f c) d)

-- `covers`; the order of its tests does not change the answer.
unfoldable pub covers : Bool → DataInput → DataInput → Bool
unfolding covers_bounds covers_selection covers_fields
covers narrowed (DataInput.raw_input s d f o b sel) (DataInput.raw_input s' d' f' o' b' sel') =
    ((s == s') && (d == d'))
    && (covers_fields f f'
        && (not (b && not b')
            && (covers_selection narrowed sel sel' && covers_bounds narrowed o o')))
covers narrowed (DataInput.item_input n sel) (DataInput.item_input n' sel') =
    (n == n') && covers_selection narrowed sel sel'
covers narrowed (DataInput.raw_input _ _ _ _ _ _) (DataInput.item_input _ _) = false
covers narrowed (DataInput.item_input _ _) (DataInput.raw_input _ _ _ _ _ _) = false
