-- ===== src/Engine/Graph/Cycle.antt =====
-- crates/service-engine/src/lib.rs: the depth-first search for a cycle, `graph_has_cycle`.
mod Outside
pub mod Search
use service_sdk.Base.{
  ℕ, zero, suc, ◌+◌, String, Bool, true, false, Option, none, some, List, [], ◌∷◌, length,
  if◌then◌else◌,
}
use service_sdk.Base.Maps.{keys, contains, insert_key, remove_key}
use service_sdk.Engine.Graph.{Adjacency, targets}

-- The sets `visiting` and `visited`.
pub record Sets : Type 0 where
  pub visiting : List String
  pub visited : List String

-- `||` on the answers: the rest is tried unless the answer is true. `none` means that the fuel of a
-- call ran out.
abbrev pub proceed : (Sets → Option (Bool × Sets)) → Option (Bool × Sets) → Option (Bool × Sets)
proceed rest none = none
proceed rest (some (true, s)) = some (true, s)
proceed rest (some (false, s)) = rest s

-- The calls of `visit` in the order of a set: `any(|target| visit(..))`.
unfoldable pub visit_any :
    (String → Sets → Option (Bool × Sets)) → List String → Sets → Option (Bool × Sets)
visit_any go [] s = some (false, s)
visit_any go (node ∷ nodes) s = proceed (λ s'. visit_any go nodes s') (go node s)

abbrev pub leave : String → Option (Bool × Sets) → Option (Bool × Sets)
leave node none = none
leave node (some (true, s)) = some (true, s)
leave node (some (false, s)) =
    some
      (false, record { visiting = remove_key node s.visiting; visited = insert_key node s.visited })

-- `visit`, with fuel for the depth of the recursion
unfoldable pub visit : Adjacency → ℕ → String → Sets → Option (Bool × Sets)
visit adjacency zero node s = none
visit adjacency (suc fuel) node s =
    let deeper = leave node (
      visit_any (visit adjacency fuel) (targets node adjacency)
        (record s { visiting = insert_key node s.visiting })) in
    if contains node s.visiting
    then some (true, s)
    else if contains node s.visited
    then some (false, s)
    else deeper

abbrev answer : Option (Bool × Sets) → Option Bool
answer none = none
answer (some (found, s)) = some found

-- The nodes on the path are distinct, so one more round than there are nodes is enough.
unfoldable pub graph_has_cycle : Adjacency → Option Bool
graph_has_cycle adjacency = answer (
    visit_any (visit adjacency (length (keys adjacency) + 1)) (keys adjacency)
      (record { visiting = []; visited = [] }))
