-- ===== src/Base/Maps.antt =====
-- `BTreeMap<String, V>` and `BTreeSet<String>`: entries in the order of their keys, which is the
-- order of their UTF-8 bytes. `insert` replaces the value of an equal key.
pub mod Laws
use Prim.Native.String.{String, compare}
use mathlib.Core.Path.{◌≡◌, refl}
use mathlib.Core.Bool.{Bool, true, false}
use mathlib.Core.Option.{Option, none, some}
use mathlib.Core.List.{List, [], ◌∷◌}
use text.Mathlib.Text.{is_lt}
use service_sdk.Base.Tests.{◌==◌, if◌then◌else◌, is_some}

abbrev pub str_lt : String → String → Bool
str_lt s t = is_lt (compare s t)

abbrev pub Map {ℓ} : Type ℓ → Type ℓ
Map V = List (String × V)

module _ {ℓ} {V : Type ℓ} where
  unfoldable pub get : String → Map V → Option V
  get k [] = none
  get k ((j, v) ∷ m) = if j == k then some v else get k m

  unfoldable pub insert : String → V → Map V → Map V
  insert k v [] = (k, v) ∷ []
  insert k v ((j, w) ∷ m) =
      if j == k
      then (k, v) ∷ m
      else if str_lt k j
      then (k, v) ∷ (j, w) ∷ m
      else (j, w) ∷ insert k v m

  abbrev pub contains_key : String → Map V → Bool
  contains_key k m = is_some (get k m)

  abbrev pub keys : Map V → List String
  keys [] = []
  keys ((k, v) ∷ m) = k ∷ keys m

  abbrev pub values : Map V → List V
  values [] = []
  values ((k, v) ∷ m) = v ∷ values m

  -- `m.values().next()`
  abbrev pub first_value : Map V → Option V
  first_value [] = none
  first_value ((k, v) ∷ m) = some v

-- `BTreeSet::contains`, `slice::contains`
unfoldable pub contains : String → List String → Bool
contains k [] = false
contains k (j ∷ s) = if j == k then true else contains k s

unfoldable pub insert_key : String → List String → List String
insert_key k [] = k ∷ []
insert_key k (j ∷ s) =
    if j == k then j ∷ s else if str_lt k j then k ∷ j ∷ s else j ∷ insert_key k s

-- `BTreeSet::remove`
unfoldable pub remove_key : String → List String → List String
remove_key k [] = []
remove_key k (j ∷ s) = if j == k then remove_key k s else j ∷ remove_key k s

map_test :
    insert {V = String} "b" "2" (insert "c" "3" (insert "a" "1" []))
    ≡ ("a", "1") ∷ ("b", "2") ∷ ("c", "3") ∷ []
unfolding insert
map_test = refl
