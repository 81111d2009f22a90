-- ===== src/Port/Table.antt =====
-- The transitions of `PortStateMachine`, a dict of dicts of dicts, and how overwrites are merged
-- into it.
pub mod Merge
pub mod Default
use forch.Base.{Bool, true, false, Option, none, some, List, [], ◌∷◌, if◌then◌else◌}
use forch.Base.Dict
use forch.Base.Dict.{Dict}
use forch.Port.Types.{
  DvaState, initial, unauthenticated, sequestered, operational, infracted, Behavior, cleared,
  sequester, deauthenticated, manual_sequestered, ResultCode, pass, fail, Event, behavior, result,
  EventType, behavior_type, result_type, type_of, dva_eq, event_type_eq, event_eq,
}

abbrev pub Targets : Type 0
Targets = Dict Event DvaState

abbrev pub Table : Type 0
Table = Dict DvaState (Dict EventType Targets)

-- `PortStateMachine._transitions`
abbrev pub transitions : Table
transitions =
    (
      unauthenticated,
      (behavior_type, (behavior cleared, operational) ∷ (behavior sequester, sequestered) ∷ [])
          ∷ [],
    )
    ∷ (
      sequestered,
      (behavior_type, (behavior deauthenticated, unauthenticated) ∷ [])
          ∷ (result_type, (result pass, operational) ∷ (result fail, infracted) ∷ [])
          ∷ [],
    )
    ∷ (
      operational,
      (
        behavior_type,
        (behavior cleared, operational)
            ∷ (behavior deauthenticated, unauthenticated)
            ∷ (behavior manual_sequestered, sequestered)
            ∷ [],
      )
          ∷ [],
    )
    ∷ []

abbrev pub or_empty : {A : Type 0} → Option (List A) → List A
or_empty none = []
or_empty (some xs) = xs

-- `_transitions.get(state, {}).get(event_type, {}).get(event)`
unfoldable pub get : Table → DvaState → Event → Option DvaState
get table state event =
    let types = or_empty (Dict.lookup state table) in
    let targets = or_empty (Dict.lookup (type_of event) types) in Dict.lookup event targets

-- `if not next_state`: a state that is missing, or `initial`, which is 0.
abbrev pub real : Option DvaState → Option DvaState
real (some initial) = none
real other = other

-- The `merge` of `_resolve_transitions`, at the level of the states' targets ...
unfoldable pub merge_targets : Targets → Targets → Targets
merge_targets original [] = original
merge_targets original ((event, state) ∷ overwrites) =
    merge_targets (Dict.insert event state original) overwrites

-- ... of the event types ...
unfoldable pub merge_types :
    Dict EventType Targets → Dict EventType Targets → Dict EventType Targets
merge_types original [] = original
merge_types original ((kind, targets) ∷ overwrites) =
    merge_types
      (Dict.insert kind (merge_targets (or_empty (Dict.lookup kind original)) targets) original)
      overwrites

-- ... and of the states.
unfoldable pub merge : Table → Table → Table
merge original [] = original
merge original ((state, types) ∷ overwrites) =
    merge (Dict.insert state (merge_types (or_empty (Dict.lookup state original)) types) original)
      overwrites
