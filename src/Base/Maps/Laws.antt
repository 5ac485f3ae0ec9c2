-- ===== src/Base/Maps/Laws.antt =====
-- What a map and a set hold after an insertion.
use Prim.Native.String.{String}
use mathlib.Core.Path.{◌≡◌, refl}
use mathlib.Core.Bool.{true, false}
use mathlib.Core.Option.{some}
use mathlib.Core.List.{List, [], ◌∷◌}
use native.Mathlib.Omega.{arith}
use text.Mathlib.TextEquality.{eq_iff}
use service_sdk.Base.Tests.{◌==◌, if◌then◌else◌}
use service_sdk.Base.Maps.{Map, get, insert, contains, insert_key, remove_key}

module _ {ℓ} {V : Type ℓ} where
  pub get-insert :
      (k j : String) (v : V) (m : Map V)
      → get j (insert k v m) ≡ (if k == j then some v else get j m)
  unfolding get insert
  get-insert k j v [] = refl
  get-insert k j v ((i, w) ∷ m) =
      ground (arith, eq_iff k j, eq_iff i k, eq_iff i j, get-insert k j v m)

pub contains-insert_key :
    (k j : String) (s : List String)
    → contains j (insert_key k s) ≡ (if k == j then true else contains j s)
unfolding contains insert_key
contains-insert_key k j [] = refl
contains-insert_key k j (i ∷ s) =
    ground (arith, eq_iff k j, eq_iff i k, eq_iff i j, contains-insert_key k j s)

pub contains-remove_key :
    (k j : String) (s : List String)
    → contains j (remove_key k s) ≡ (if k == j then false else contains j s)
unfolding contains remove_key
contains-remove_key k j [] = ground (arith, eq_iff k j)
contains-remove_key k j (i ∷ s) =
    ground (arith, eq_iff k j, eq_iff i k, eq_iff i j, contains-remove_key k j s)
