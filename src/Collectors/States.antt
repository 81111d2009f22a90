-- ===== src/Collectors/States.antt =====
-- `State.State` of proto/shared_constants.proto.
use forch.Base.{Eq}

pub data State : Type 0 where
  unknown broken active damaged down healthy inactive initializing split up : State

State-discrete : Discrete State
State-discrete = hlevel

instance unfoldable pub state_eq : Eq State
unfolding State-discrete
state_eq = record { dec = State-discrete }
