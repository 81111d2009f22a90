-- ===== src/Port/Table/Merge.antt =====
-- What the merged table holds.
use forch.Base.{◌≡◌, refl, none, [], ◌∷◌, arith, or_else}
use forch.Base.Dict
use forch.Base.Dict.{Dict, NodupKeys, lookup-cons, lookup-insert}
use forch.Port.Types.{DvaState, Event, EventType, type_of, dva_eq, event_type_eq, event_eq}
use forch.Port.Table.{Targets, Table, or_empty, get, merge_targets, merge_types, merge}

lookup-merge_targets :
    (event : Event) (o original : Targets)
    → NodupKeys o
    → Dict.lookup event (merge_targets original o)
      ≡ or_else (Dict.lookup event o) (Dict.lookup event original)
unfolding merge_targets
lookup-merge_targets event [] original u = rw Dict.lookup-nil
lookup-merge_targets event ((k, v) ∷ o) original u = ground (
  arith,
  lookup-cons event k v o,
  lookup-insert event k v original,
  lookup-merge_targets event o (Dict.insert k v original) u.1,
)

-- The targets of an event type.
abbrev of_type : EventType → Dict EventType Targets → Targets
of_type kind types = or_empty (Dict.lookup kind types)

abbrev NodupTypes : Dict EventType Targets → Type 0
NodupTypes [] = Unit
NodupTypes ((kind, targets) ∷ types) =
    (Dict.lookup kind types ≡ none) × NodupKeys targets × NodupTypes types

lookup-merge_types :
    (kind : EventType) (event : Event) (o original : Dict EventType Targets)
    → NodupTypes o
    → Dict.lookup event (of_type kind (merge_types original o))
      ≡ or_else (Dict.lookup event (of_type kind o)) (Dict.lookup event (of_type kind original))
unfolding merge_types
lookup-merge_types kind event [] original u = rw Dict.lookup-nil (rw Dict.lookup-nil refl)
lookup-merge_types kind event ((k, targets) ∷ o) original u = ground (
  arith,
  Dict.lookup-nil {V = DvaState} event,
  lookup-cons kind k targets o,
  lookup-insert kind k (merge_targets (of_type k original) targets) original,
  lookup-merge_targets event targets (of_type k original) u.1,
  lookup-merge_types kind event o
      (Dict.insert k (merge_targets (of_type k original) targets) original) u.2,
)

-- The event types of a state.
abbrev of_state : DvaState → Table → Dict EventType Targets
of_state state table = or_empty (Dict.lookup state table)

-- A table of real dicts, at every level.
abbrev pub NodupTable : Table → Type 0
NodupTable [] = Unit
NodupTable ((state, types) ∷ table) =
    (Dict.lookup state table ≡ none) × NodupTypes types × NodupTable table

lookup-merge :
    (state : DvaState) (kind : EventType) (event : Event) (o original : Table)
    → NodupTable o
    → Dict.lookup event (of_type kind (of_state state (merge original o)))
      ≡ or_else
          (Dict.lookup event (of_type kind (of_state state o)))
          (Dict.lookup event (of_type kind (of_state state original)))
unfolding merge
lookup-merge state kind event [] original u =
    rw Dict.lookup-nil (rw Dict.lookup-nil (rw Dict.lookup-nil refl))
lookup-merge state kind event ((k, types) ∷ o) original u = ground (
  arith,
  Dict.lookup-nil {V = Targets} kind,
  Dict.lookup-nil {V = DvaState} event,
  lookup-cons state k types o,
  lookup-insert state k (merge_types (of_state k original) types) original,
  lookup-merge_types kind event types (of_state k original) u.1,
  lookup-merge state kind event o (Dict.insert k (merge_types (of_state k original) types) original)
      u.2,
)

-- After a merge of overwrites that are real dicts, the machine goes from a state at an event where
-- the overwrites say; where they say nothing, it goes where it went before.
pub get-merge :
    (o original : Table) (state : DvaState) (event : Event)
    → NodupTable o
    → get (merge original o) state event ≡ or_else (get o state event) (get original state event)
unfolding get
get-merge o original state event u = lookup-merge state (type_of event) event o original u

-- The merge changes the table of the class, which all machines share. To merge the same
-- overwrites once more, for the next machine, changes no transition.
pub get-merge_again :
    (o original : Table) (state : DvaState) (event : Event)
    → NodupTable o
    → get (merge (merge original o) o) state event ≡ get (merge original o) state event
get-merge_again o original state event u =
    ground (arith, get-merge o (merge original o) state event u, get-merge o original state event u)
