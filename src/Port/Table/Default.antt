-- ===== src/Port/Table/Default.antt =====
-- The table of the class, as a function.
use forch.Base.{◌≡◌, refl, Option, none, some}
use forch.Base.Dict
use forch.Port.Types.{
  DvaState, initial, unauthenticated, sequestered, infracted, operational, Event, behavior, result,
  cleared, sequester, deauthenticated, manual_sequestered, pass, fail, dva_eq, event_type_eq,
  event_eq,
}
use forch.Port.Table.{get, transitions}

-- Where a machine goes that has no overwrites.
abbrev pub next_of : DvaState → Event → Option DvaState
next_of unauthenticated (behavior cleared) = some operational
next_of unauthenticated (behavior sequester) = some sequestered
next_of sequestered (behavior deauthenticated) = some unauthenticated
next_of sequestered (result pass) = some operational
next_of sequestered (result fail) = some infracted
next_of operational (behavior cleared) = some operational
next_of operational (behavior deauthenticated) = some unauthenticated
next_of operational (behavior manual_sequestered) = some sequestered
next_of _ _ = none

-- The look-up in the nested dicts of the class is the transition function: every state and every
-- event have exactly the target that is listed.
pub get-transitions :
    (state : DvaState) (event : Event) → get transitions state event ≡ next_of state event
unfolding get Dict.lookup dva_eq event_type_eq event_eq
get-transitions unauthenticated (behavior cleared) = refl
get-transitions unauthenticated (behavior sequester) = refl
get-transitions sequestered (behavior deauthenticated) = refl
get-transitions sequestered (result pass) = refl
get-transitions sequestered (result fail) = refl
get-transitions operational (behavior cleared) = refl
get-transitions operational (behavior deauthenticated) = refl
get-transitions operational (behavior manual_sequestered) = refl
get-transitions initial _ = refl
get-transitions _ _ = refl
