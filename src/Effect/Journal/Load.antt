-- ===== src/Effect/Journal/Load.antt =====
-- `load_effect`: the journal of one effect, read in pages and folded.
use service_sdk.Base.{
  ℕ, zero, suc, ◌+◌, ◌-◌, String, Bool, true, false, not, ◌&&◌, ◌||◌, Option, none, some, List, [],
  ◌∷◌, ◌==◌, eqb, is_empty, is_some, if◌then◌else◌,
}
use service_sdk.Base.Result
use service_sdk.Base.Result.{Result, ok, err, ok_or}
use service_sdk.Base.Action.{Action, pure, fail, lift, ◌>>=◌}
use service_sdk.Codec.{DurableStream}
use service_sdk.Effect.Plan.{PreparedEffect}
use service_sdk.Effect.Journal.Store.{
  EffectState, prepared, claimed, completed, EffectRecord, EventLogError, invalid, out_of_fuel,
  RecordedEvent, Durable,
}

unfoldable pub page : ℕ
page = 1000

-- The variables `prepared`, `state` and `after` of the loop.
pub record Folding : Type 0 where
  pub prepared : Option PreparedEffect
  pub state : Option EffectState
  pub after : ℕ

abbrev pub start : Folding
start = record { prepared = none; state = none; after = 0 }

abbrev pub is_claimed : Option EffectState → Bool
is_claimed (some (claimed c)) = true
is_claimed _ = false

abbrev pub incomplete : EventLogError
incomplete = invalid "external effect journal is incomplete"

abbrev pub bad_transition : EventLogError
bad_transition = invalid "external effect journal transition is invalid"

module _ {W V : Type 0} (store : Durable W V) where
  -- The match on the event's name; `f.after` is the version of the event.
  abbrev pub transition : Folding → String → V → Result EventLogError Folding
  transition f name body =
      if name == "service_effect_prepared" && (not (is_some f.prepared) && not (is_some f.state))
      then elim (store.to_prepared body) [
        | none ↦ err (invalid "external effect prepared event is invalid")
        | some effect ↦ ok (record f { prepared = some effect; state = some prepared })
      ]
      else if name == "service_effect_claimed" && is_some f.prepared
      then elim (store.to_claim body) [
        | none ↦ err (invalid "external effect claim event is invalid")
        | some claim ↦ ok (record f { state = some (claimed claim) })
      ]
      else if name == "service_effect_completed" && is_claimed f.state
      then elim (store.to_outcome body) [
        | none ↦ err (invalid "external effect completion event is invalid")
        | some outcome ↦ ok (record f { state = some (completed outcome) })
      ]
      else err bad_transition

  unfoldable pub fold_event : Folding → RecordedEvent V → Result EventLogError Folding
  fold_event f event =
      if not (eqb event.version (f.after + 1)) || event.redacted
      then err incomplete
      else transition (record f { after = event.version }) event.name event.body

  unfoldable pub fold_events : Folding → List (RecordedEvent V) → Result EventLogError Folding
  fold_events f [] = ok f
  fold_events f (event ∷ events) = Result.◌>>=◌ (fold_event f event) (λ g. fold_events g events)

  -- What stands after the loop.
  unfoldable pub finish : Folding → Result EventLogError (Option EffectRecord)
  finish f = elim f.prepared [
    | none ↦ err (invalid "external effect journal has no prepared event")
    | some effect ↦ elim f.state [
      | none ↦ err (invalid "external effect journal has no state")
      | some state ↦ ok (some (record { prepared = effect; state = state; revision = f.after }))
    ]
  ]

  -- One round for each page.
  unfoldable pub load_from :
      ℕ → DurableStream → Folding → Action W EventLogError (Option EffectRecord)
  load_from zero stream f = fail out_of_fuel
  load_from (suc fuel) stream f = do
    slice ← store.read_stream stream f.after page
    if is_empty slice.events && eqb f.after 0 then pure none else do
      g ← lift (fold_events f slice.events)
      elim slice.end_of_stream [
        | true ↦ lift (finish g)
        | false ↦ load_from fuel stream (record g { after = slice.next_version - 1 })
      ]

  unfoldable pub load_effect : ℕ → DurableStream → Action W EventLogError (Option EffectRecord)
  unfolding load_from
  load_effect fuel stream = load_from fuel stream start
