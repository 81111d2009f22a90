-- ===== src/Port/Types.antt =====
-- The enumerations of proto/shared_constants.proto and the messages of proto/devices_state.proto
-- that the port states are made of.
use forch.Base.{ℕ, String, Bool, true, false, Eq}

pub data DvaState : Type 0 where
  initial unauthenticated sequestered static_operational : DvaState
  dynamic_operational infracted operational : DvaState

pub data Behavior : Type 0 where
  unknown authenticated cleared sequester passed failed deauthenticated manual_sequestered :
      Behavior

pub data ResultCode : Type 0 where
  pending started error pass fail : ResultCode

pub data AutoSequestering : Type 0 where
  default enabled disabled : AutoSequestering

-- A key of the inner tables, under the type that it belongs to.
pub data Event : Type 0 where
  behavior : Behavior → Event
  result : ResultCode → Event

pub data EventType : Type 0 where
  behavior_type result_type : EventType

DvaState-discrete : Discrete DvaState
DvaState-discrete = hlevel

Behavior-discrete : Discrete Behavior
Behavior-discrete = hlevel

ResultCode-discrete : Discrete ResultCode
ResultCode-discrete = hlevel

EventType-discrete : Discrete EventType
EventType-discrete = hlevel

Event-discrete : Discrete Event
Event-discrete = hlevel

instance unfoldable pub dva_eq : Eq DvaState
unfolding DvaState-discrete
dva_eq = record { dec = DvaState-discrete }

instance unfoldable pub event_type_eq : Eq EventType
unfolding EventType-discrete
event_type_eq = record { dec = EventType-discrete }

instance unfoldable pub event_eq : Eq Event
unfolding Event-discrete
event_eq = record { dec = Event-discrete }

-- `oneof behavior`: at most one of `port_behavior` and `auto_sequestering` is given. A field that
-- is not given holds its default, the empty text or the first constant.
pub record DeviceBehavior : Type 0 where
  pub segment : String
  pub assigned_segment : String
  pub role : String
  pub port_behavior : Behavior
  pub auto_sequestering : AutoSequestering
  pub scheduled_timestamp : String

-- `DeviceBehavior()`
abbrev pub no_behavior : DeviceBehavior
no_behavior = record {
  segment = "";
  assigned_segment = "";
  role = "";
  port_behavior = unknown;
  auto_sequestering = default;
  scheduled_timestamp = "";
}

pub record DevicePlacement : Type 0 where
  pub switch : String
  pub port : ℕ
  pub connected : Bool

abbrev pub is_operational : DvaState → Bool
is_operational operational = true
is_operational _ = false

abbrev pub is_enabled : AutoSequestering → Bool
is_enabled enabled = true
is_enabled _ = false

-- The truth value of the constant, which is 0 for the first.
abbrev pub is_given : AutoSequestering → Bool
is_given default = false
is_given _ = true

abbrev pub type_of : Event → EventType
type_of (behavior b) = behavior_type
type_of (result r) = result_type
