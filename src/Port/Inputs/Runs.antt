-- ===== src/Port/Inputs/Runs.antt =====
-- Whole runs of the manager, from its constructor.
use forch.Base.{
  ℕ, ◌≡◌, refl, ◌∙◌, sym, ◌⊎◌, inl, inr, String, Bool, true, false, Option, none, some, List, [],
  ◌∷◌, arith, string_eq,
}
use forch.Base.Dict
use mathlib.Core.Option.{none-ne-some}
use forch.Base.Exec.{ok}
use forch.Port.Types.{
  DvaState, initial, unauthenticated, sequestered, infracted, operational, Event, behavior, result,
  cleared, sequester, deauthenticated, ResultCode, EventType, behavior_type, result_type, type_of,
  dva_eq, event_type_eq, event_eq,
}
use forch.Port.Table.{Table, Targets, or_empty, get, transitions}
use forch.Port.Table.Default.{next_of, get-transitions}
use forch.Port.State.{Manager}
use forch.Port.Machine.Quiet.{needs}
use forch.Port.Machine.Send.{IsSound, IsOrderly, IsOverwrite, is_auth, is_result}
use forch.Port.Placement.{create, OrchConfig, SequesterConfig, overwrites_of, targets_of}
use forch.Port.Inputs.{
  Input, static_behavior, placement, testing_result, clear_static, clear_statics, timer, feed,
  feed_all, drop,
}
use forch.Port.Inputs
use forch.Port.Inputs.Safe.{Safe, >>=-Safe, pure-Safe}
use forch.Port.Inputs.Steps.{
  handle_device_behavior-Safe, handle_static_device_behavior-Safe, handle_testing_result-Safe,
  fire-Safe,
}
use forch.Port.Inputs.Places.{
  handle_device_placement-Safe, clear_static_device_behavior-Safe,
  clear_static_device_behaviors-Safe,
}

next_of_freed :
    (state : DvaState)
    → needs state ≡ true
    → next_of state (behavior deauthenticated) ≡ some unauthenticated
next_of_freed sequestered h = refl
next_of_freed operational h = refl
next_of_freed initial h = cc
next_of_freed _ h = cc

next_of_earned :
    (state : DvaState) (event : Event) (next : DvaState)
    → next_of state event ≡ some next
    → needs next ≡ true
    → (needs state ≡ true) ⊎ (is_auth event ≡ true)
next_of_earned unauthenticated (behavior cleared) next e n = inr refl
next_of_earned unauthenticated (behavior sequester) next e n = inr refl
next_of_earned sequestered event next e n = inl refl
next_of_earned operational event next e n = inl refl
next_of_earned _ _ next e n = cc

next_of_jailed : (event : Event) → next_of infracted event ≡ none
next_of_jailed (behavior b) = refl
next_of_jailed (result r) = refl

-- The table of the class is in order.
transitions-IsOrderly : IsOrderly transitions
transitions-IsOrderly = record {
  freed = λ state n. get-transitions state (behavior deauthenticated) ∙ next_of_freed state n;
  earned = λ state event next e n.
      next_of_earned state event next (sym (get-transitions state event) ∙ e) n;
  jailed = λ event. get-transitions infracted event ∙ next_of_jailed event;
  clears = get-transitions unauthenticated (behavior cleared);
  confines = get-transitions unauthenticated (behavior sequester);
}

targets_of-NodupKeys :
    (entries : List (ResultCode × DvaState)) (targets : Targets)
    → Dict.NodupKeys targets
    → Dict.NodupKeys (targets_of entries targets)
unfolding targets_of
targets_of-NodupKeys [] targets u = u
targets_of-NodupKeys ((code, state) ∷ entries) targets u =
    targets_of-NodupKeys entries (Dict.insert (result code) state targets)
      (Dict.insert-NodupKeys (result code) state targets u)

-- The overwrites of one state and one event type.
abbrev of_results : Targets → Table
of_results targets = (sequestered, (result_type, targets) ∷ []) ∷ []

of_results_types :
    (targets : Targets) (event : Event) (next : DvaState)
    → Dict.lookup event (or_empty (Dict.lookup (type_of event) ((result_type, targets) ∷ [])))
      ≡ some next
    → is_result event ≡ true
of_results_types targets (result r) next e = refl
of_results_types targets (behavior b) next e = ground (
  arith,
  Dict.lookup-cons behavior_type result_type targets [],
  Dict.lookup-nil {V = Targets} behavior_type,
  Dict.lookup-nil {V = DvaState} (behavior b),
)

of_results-get :
    (targets : Targets) (state : DvaState) (event : Event) (next : DvaState)
    → get (of_results targets) state event ≡ some next
    → (state ≡ sequestered) × (is_result event ≡ true)
unfolding get
of_results-get targets state event next e = ground (
  arith,
  Dict.lookup-cons {V = Dict.Dict EventType Targets} state sequestered ((result_type, targets) ∷ [])
      [],
  Dict.lookup-nil {V = Dict.Dict EventType Targets} state,
  Dict.lookup-nil {V = Targets} (type_of event),
  Dict.lookup-nil {V = DvaState} event,
  of_results_types targets event next,
)

get-nil : (state : DvaState) (event : Event) → get [] state event ≡ none
unfolding get
get-nil state event = rw Dict.lookup-nil (rw Dict.lookup-nil (rw Dict.lookup-nil refl))

-- What the constructor builds from a configuration.
overwrites_of-IsOverwrite :
    (entries : List (ResultCode × DvaState)) → IsOverwrite (overwrites_of entries)
unfolding overwrites_of
overwrites_of-IsOverwrite [] = record {
  nodup = tt;
  results = λ state event next e. absurd (none-ne-some next (sym (get-nil state event) ∙ e));
}
overwrites_of-IsOverwrite (entry ∷ entries) = record {
  nodup = (
    Dict.lookup-nil sequestered,
    (Dict.lookup-nil result_type, targets_of-NodupKeys (entry ∷ entries) [] tt, tt),
    tt,
  );
  results = of_results-get (targets_of (entry ∷ entries) []);
}

module _ (vlan_of : String → Option ℕ) (parse_time : String → Option ℕ) where
  feed-Safe : (i : Input) (now : ℕ) → Safe (feed vlan_of parse_time i now)
  unfolding feed
  feed-Safe (static_behavior mac b) now =
      handle_static_device_behavior-Safe vlan_of parse_time mac b now
  feed-Safe (Inputs.behavior mac b) now = handle_device_behavior-Safe vlan_of mac b false
  feed-Safe (placement mac p static) now =
      >>=-Safe _ _ (handle_device_placement-Safe vlan_of mac p static) (λ _. pure-Safe tt)
  feed-Safe (testing_result mac b) now =
      >>=-Safe _ _ (handle_testing_result-Safe mac b) (λ _. pure-Safe tt)
  feed-Safe (clear_static mac) now = clear_static_device_behavior-Safe mac
  feed-Safe clear_statics now = clear_static_device_behaviors-Safe
  feed-Safe (timer t) now = fire-Safe t

  feed_all-IsSound :
      (inputs : List (Input × ℕ)) (m : Manager)
      → IsSound m
      → IsSound (feed_all vlan_of parse_time inputs m)
  unfolding feed_all
  feed_all-IsSound [] m v = v
  feed_all-IsSound ((i, now) ∷ inputs) m v =
      feed_all-IsSound inputs (feed vlan_of parse_time i now m).1 (feed-Safe i now m v).sound

  -- After any inputs to a sound manager, every sequestered or operational device has a behaviour,
  -- the machines' table is still in order, and the next input, whatever it is, raises nothing: no
  -- assertion fails and no missing behaviour is read.
  pub feed_never_raises :
      (inputs : List (Input × ℕ)) (i : Input) (now : ℕ) (m : Manager)
      → IsSound m
      → let s = feed_all vlan_of parse_time inputs m in
        IsSound s × ((feed vlan_of parse_time i now s).0 ≡ ok tt)
  feed_never_raises inputs i now m v =
      let sound = feed_all-IsSound inputs m v in (sound, (feed-Safe i now _ sound).value.1)

-- A manager that has just been made from a configuration with a `sequester_config`, and has a
-- reporter, is sound.
pub create-IsSound :
    (dsm varz : Bool) (c : OrchConfig) (q : SequesterConfig)
    → c.sequester_config ≡ some q
    → IsSound (create dsm varz true (some c))
unfolding create
create-IsSound dsm varz c q e = rw e (record {
  served = λ mac state f n. absurd (none-ne-some state (sym (Dict.lookup-nil mac) ∙ f));
  orderly = transitions-IsOrderly;
  overwrites = overwrites_of-IsOverwrite q.test_result_device_states;
  timed = refl;
  reporting = refl;
})
