-- ===== src/Catalog/Tests.antt =====
-- A catalog with a tree of three raw categories, one item category and an assigned dataset.
use mathlib.Core.Path.{subst}
use bagelquant_data.Prelude.{
  ℕ, ◌≡◌, ◌≢◌, refl, Bool, true, false, none, some, List, [], ◌∷◌, ◌==◌, if◌then◌else◌,
}
use bagelquant_data.Catalog.{
  raw, item, Tree, Object, Catalog, Failure, ok, refused, next, check_name, has_sibling,
}
use bagelquant_data.Catalog.Operations.{
  Request, get, create, create_row, insert_node, walk, update, change_node, move, remove, assign,
  set_node, perform, perform_all,
}
use bagelquant_data.Catalog.Chains.{hits}
use bagelquant_data.Catalog.Invariant.{IsForest, IsValid}
use bagelquant_data.Catalog.Kept.{perform_all-IsValid}
use bagelquant_data.Catalog.Moves.{update_ends, move_exact}

abbrev is_blank : ℕ → Bool
is_blank c = c == 32

abbrev stocks : Tree
stocks = record { kind = raw; source = 1 }

abbrev items : Tree
items = record { kind = item; source = 0 }

abbrev daily_bars : Object
daily_bars = record { tree = stocks; name = 7; is_active = true }

abbrev empty : Catalog
empty = record { read_only = false; nodes = []; assignments = []; objects = daily_bars ∷ [] }

abbrev letter : ℕ → List ℕ
letter c = c ∷ []

abbrev requests : List Request
requests =
    Request.create_in stocks 1 (letter 65) none
    ∷ Request.create_in stocks 2 (letter 66) (some 1)
    ∷ Request.create_in stocks 3 (letter 67) (some 2)
    ∷ Request.create_in stocks 4 (32 ∷ 65 ∷ []) none
    ∷ Request.create_in stocks 5 (letter 66) (some 1)
    ∷ Request.create_in items 6 (letter 65) none
    ∷ Request.assign_in stocks 7 (some 3)
    ∷ Request.remove_in stocks 3
    ∷ []

empty-IsForest : IsForest is_blank []
unfolding next
empty-IsForest = record {
  keys = λ n i. absurd i;
  rooted = λ t p q h. absurd (cc h);
  siblings = λ n m i j h. absurd i;
  trimmed = λ n i. absurd i;
}

empty-IsValid : IsValid is_blank empty
empty-IsValid = record { forest = empty-IsForest; assigned = λ a i. absurd i }

abbrev tree_of_three : Catalog
tree_of_three = record empty {
  nodes =
      record { id = 6; tree = items; name = letter 65; parent = none }
      ∷ record { id = 3; tree = stocks; name = letter 67; parent = some 2 }
      ∷ record { id = 2; tree = stocks; name = letter 66; parent = some 1 }
      ∷ record { id = 1; tree = stocks; name = letter 65; parent = none }
      ∷ [];
  assignments = record { tree = stocks; object_key = 7; category = 3 } ∷ [];
}

-- The untrimmed name, the duplicate and the removal of an assigned category are refused.
perform_all-requests : perform_all is_blank requests empty ≡ tree_of_three
unfolding perform_all perform create create_row insert_node check_name remove assign
perform_all-requests = refl

perform_all-IsValid_example : IsValid is_blank (perform_all is_blank requests empty)
perform_all-IsValid_example = perform_all-IsValid is_blank requests empty empty-IsValid

tree_of_three-IsValid : IsValid is_blank tree_of_three
tree_of_three-IsValid =
    subst (IsValid is_blank) perform_all-requests
      (perform_all-IsValid is_blank requests empty empty-IsValid)

-- The root under its grandchild.
update_ends_example :
    update is_blank stocks 1 none (some (some 3)) tree_of_three ≢ refused Failure.endless
update_ends_example =
    update_ends is_blank stocks 1 none (some (some 3)) tree_of_three tree_of_three-IsValid

move_exact_example : move is_blank stocks 1 (some 3) tree_of_three ≡ (
    if hits 4 stocks tree_of_three.nodes 1 (some 3)
    then refused Failure.cycle
    else if has_sibling
        (some 1)
        (record { id = 1; tree = stocks; name = letter 65; parent = some 3 })
        tree_of_three.nodes
    then refused Failure.duplicate_sibling
    else ok (record tree_of_three { nodes = set_node 1 (letter 65) (some 3) tree_of_three.nodes }))
unfolding get
move_exact_example =
    move_exact is_blank stocks 1 (some 3) tree_of_three
      (record { id = 1; tree = stocks; name = letter 65; parent = none }) tree_of_three-IsValid refl
      refl refl

move-cycle : move is_blank stocks 1 (some 3) tree_of_three ≡ refused Failure.cycle
unfolding move update change_node check_name walk next
move-cycle = refl
