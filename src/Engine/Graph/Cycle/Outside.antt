-- ===== src/Engine/Graph/Cycle/Outside.antt =====
-- The nodes that are not on the path of the search, by which its depth is bounded:
-- crates/service-engine/src/lib.rs, `graph_has_cycle`.
use service_sdk.Base.{
  ℕ, ◌+◌, ◌<◌, ◌≤◌, String, ◌≡◌, refl, true, false, List, [], ◌∷◌, length, arith, eq_iff,
  if◌then◌else◌,
}
use service_sdk.Base.Maps.{contains, insert_key}
use service_sdk.Base.Maps.Laws.{contains-insert_key}

-- How many of the nodes are not on the path.
pub outside : List String → List String → ℕ
outside visiting [] = 0
outside visiting (k ∷ ks) = (if contains k visiting then 0 else 1) + outside visiting ks

pub outside-same :
    (v v' : List String) (ks : List String)
    → ((k : String) → contains k v' ≡ contains k v)
    → outside v' ks ≡ outside v ks
unfolding outside
outside-same v v' [] h = refl
outside-same v v' (k ∷ ks) h = ground (arith, h k, outside-same v v' ks h)

outside-le :
    (node : String) (v : List String) (ks : List String)
    → outside (insert_key node v) ks ≤ outside v ks
unfolding outside
outside-le node v [] = omega arith
outside-le node v (k ∷ ks) = ground (arith, contains-insert_key node k v, outside-le node v ks)

pub outside-lt :
    (node : String) (v : List String) (ks : List String)
    → contains node v ≡ false
    → contains node ks ≡ true
    → outside (insert_key node v) ks < outside v ks
unfolding outside contains
outside-lt node v [] out known = cc
outside-lt node v (k ∷ ks) out known = ground (
  arith,
  contains-insert_key node k v,
  eq_iff k node,
  eq_iff node k,
  outside-le node v ks,
  outside-lt node v ks out,
)

pub outside-le-length : (v ks : List String) → outside v ks ≤ length ks
unfolding outside
outside-le-length v [] = omega arith
outside-le-length v (k ∷ ks) = ground (arith, outside-le-length v ks)
