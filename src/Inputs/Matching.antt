-- ===== src/Inputs/Matching.antt =====
-- The matching of declared inputs with distinct captures: `match` and the loop over the inputs. The
-- dictionary `matched` is a function from candidates to indices; a search that fails leaves it as it is.
use bagelquant_data.Prelude.{
  ℕ, zero, suc, Bool, true, false, not, ◌&&◌, ◌||◌, Option, none, some, List, [], ◌∷◌, ◌==◌,
  if◌then◌else◌, length, is_some, contains,
}
use bagelquant_data.Inputs.{DataInput, covers}

-- `matched[candidate] = index`
abbrev pub put : ℕ → ℕ → (ℕ → Option ℕ) → ℕ → Option ℕ
put candidate index matched c = if c == candidate then some index else matched c

-- The answer of `match`: True with the dictionary, or False with the candidates visited.
pub data Search : Type 0 where
  found : (matched : ℕ → Option ℕ) → Search
  failed : (visited : List ℕ) → Search

abbrev pub numbers : ℕ → ℕ → List ℕ
numbers k zero = []
numbers k (suc n) = k ∷ numbers (suc k) n

abbrev pub input_at : List DataInput → ℕ → Option DataInput
input_at [] i = none
input_at (x ∷ xs) zero = some x
input_at (x ∷ xs) (suc i) = input_at xs i

abbrev pub covers_some : Bool → Option DataInput → Option DataInput → Bool
covers_some narrowed (some d) (some c) = covers narrowed d c
covers_some narrowed (some d) none = false
covers_some narrowed none _ = false

-- `covers(spec.inputs[index], actual[candidate])`
unfoldable pub covers_at : Bool → List DataInput → List DataInput → ℕ → ℕ → Bool
covers_at narrowed declared actual index candidate =
    covers_some narrowed (input_at declared index) (input_at actual candidate)

module _ (fits : ℕ → ℕ → Bool) where
  -- The loop of `match` over the candidates; `go` is its recursive call.
  unfoldable pub try_candidates :
      (ℕ → List ℕ → Search) → (ℕ → Option ℕ) → ℕ → List ℕ → List ℕ → Search
  try_candidates go matched index [] visited = failed visited
  try_candidates go matched index (c ∷ cs) visited =
      elim (contains c visited || not (fits index c)) [
        | true ↦ try_candidates go matched index cs visited
        | false ↦ elim (matched c) [
          | none ↦ found (put c index matched)
          | some other ↦ elim (go other (c ∷ visited)) [
            | found matched' ↦ found (put c index matched')
            | failed visited' ↦ try_candidates go matched index cs visited'
          ]
        ]
      ]

  unfoldable pub match_index : ℕ → List ℕ → (ℕ → Option ℕ) → ℕ → List ℕ → Search
  match_index zero candidates matched index visited = failed visited
  match_index (suc f) candidates matched index visited =
      try_candidates (match_index f candidates matched) matched index candidates visited

  -- `for index in range(len(spec.inputs))`, with as much fuel as there are candidates.
  unfoldable pub match_all : ℕ → List ℕ → (ℕ → Option ℕ) → Option (ℕ → Option ℕ)
  match_all n [] matched = some matched
  match_all n (i ∷ is) matched = elim (match_index n (numbers 0 n) matched i []) [
    | found matched' ↦ match_all n is matched'
    | failed visited ↦ none
  ]

-- `_validate_input_selections` does not raise.
unfoldable pub accepts_input_selections : Bool → List DataInput → Option (List DataInput) → Bool
unfolding match_all covers_at
accepts_input_selections narrowed [] none = true
accepts_input_selections narrowed (_ ∷ _) none = false
accepts_input_selections narrowed declared (some actual) =
    (length actual == length declared)
    && is_some (
        match_all (covers_at narrowed declared actual) (length actual) (numbers 0 (length declared))
          (λ c. none))
