-- ===== src/Examples/WatchExamples.antt =====
-- Tests of the watches: FRR restarts, route drift, and the loop of the drift watches.
use ovn_network_agent.Prelude.{
  ℕ, ◌≡◌, refl, true, false, ◌||◌, Option, none, some, List, [], ◌∷◌, arith, nat_eq, string_eq,
  bool_eq, pair_eq, trim_space, sort_strings, int_eq,
}
use ovn_network_agent.FrrWatch.{Incarnation, WatchState, maps_equal, step, watch, changed_daemons}
use ovn_network_agent.FrrWatch.Modules.{parse_frr_modules, parse_frr_modules-IsWellFormed}
use ovn_network_agent.FrrWatch.Changes.{IsWellFormed}
use ovn_network_agent.FrrWatch.Runs.{count, restarts, no_false_restart}
use ovn_network_agent.FrrWatch.Detection.{restart_detected}
use ovn_network_agent.RouteWatch.{RouteEvent, RouteOwnership, kernel, classify_route_event}
use ovn_network_agent.DriftWatch.{
  Settings, Pending, Input, closed, drift, other, fire, consume_step, consume, Outcome, failed,
  held, ends,
}
use ovn_network_agent.DriftWatch.Rate.{consume-Apart, drift_triggers, Apart, triggers_since}

abbrev before_restart : Incarnation
before_restart = ("zebra", 41) ∷ ("bgpd", 42) ∷ []

abbrev after_restart : Incarnation
after_restart = ("zebra", 41) ∷ ("bgpd", 99) ∷ []

abbrev primed : WatchState
primed = record {
  known = some before_restart;
  prev = none;
  saw_failure = false;
  failing_since = none;
  warned = false;
  follow_up_at = none;
  follow_up_delay = 30;
  outage_warn_after = 60;
}

abbrev unprimed : WatchState
unprimed = record primed { known = none; saw_failure = true }

abbrev settling : WatchState
settling = record primed { prev = some after_restart }

after_restart-IsWellFormed : IsWellFormed after_restart
after_restart-IsWellFormed = record {
  unique = (refl, (refl, tt));
  positive = refl;
  some_daemon = refl;
}

restart_detected_example :
    (restarts (step primed (some after_restart) 10).1
      || restarts (step (step primed (some after_restart) 10).0 (some after_restart) 20).1)
    ≡ true
unfolding maps_equal
restart_detected_example =
    restart_detected primed before_restart after_restart 10 20 refl (refl, (refl, tt))
      after_restart-IsWellFormed refl

restarted : restarts (step settling (some after_restart) 20).1 ≡ true
unfolding step changed_daemons sort_strings maps_equal
restarted = refl

abbrev polls : List (Option Incarnation × ℕ)
polls = (none, 10) ∷ (none, 100) ∷ (some before_restart, 110) ∷ []

no_false_restart_example : count restarts (watch primed polls).1 ≡ 0
unfolding maps_equal
no_false_restart_example = no_false_restart primed before_restart polls refl (refl, tt)

parsed : parse_frr_modules "Module information for zebra:\n pid: 41\n" ≡ some (("zebra", 41) ∷ [])
unfolding parse_frr_modules trim_space
parsed = refl

parse_frr_modules-IsWellFormed_example : IsWellFormed (("zebra", 41) ∷ [])
parse_frr_modules-IsWellFormed_example =
    parse_frr_modules-IsWellFormed "Module information for zebra:\n pid: 41\n" (("zebra", 41) ∷ [])
      parsed

abbrev deleted_host : RouteEvent
deleted_host = record {
  deleted = true;
  replaced = false;
  kernel_table = true;
  vrf_table = false;
  agent_proto = true;
  dst = "192.0.2.10/32";
  gw = "";
}

abbrev replaced_host : RouteEvent
replaced_host = record deleted_host {
  deleted = false;
  replaced = true;
  kernel_table = false;
  vrf_table = true;
  agent_proto = false;
  gw = "198.51.100.1";
}

abbrev ownership : RouteOwnership
ownership = record {
  kernel_ips = "192.0.2.10" ∷ [];
  frr_ips = "192.0.2.10" ∷ [];
  leak_nets = "192.0.2.0/24" ∷ [];
}

deletion_is_drift : classify_route_event deleted_host ownership "192.0.2.254" ≡ some kernel
unfolding classify_route_event
deletion_is_drift = refl

abbrev settings : Settings
settings = record { debounce = 100; min_interval = 1000; backoff_min = 1000; backoff_max = 30000 }

abbrev idle : Pending
idle = record { last_trigger = some 500; fires_at = none }

-- two events, one trigger, and one event after it
abbrev inputs : List (Input × ℕ)
inputs =
    (drift, 600)
    ∷ (drift, 700)
    ∷ (fire false, 1500)
    ∷ (other, 1600)
    ∷ (drift, 1700)
    ∷ (fire false, 2500)
    ∷ []

triggers_at : consume settings idle inputs ≡ (some 2500, 1500 ∷ 2500 ∷ [])
unfolding consume consume_step ends
triggers_at = refl

consume-Apart_example : Apart 1000 (some 500) (consume settings idle inputs).1
unfolding consume_step
consume-Apart_example =
    consume-Apart settings idle 500 inputs
      (
        ground arith,
        refl,
        (
          ground arith,
          refl,
          (
            ground arith,
            refl,
            (ground arith, refl, (ground arith, refl, (ground arith, refl, tt))),
          ),
        ),
      )
      refl (ground arith) tt

abbrev closing : List (Input × ℕ)
closing = (other, 650) ∷ (closed false, 700) ∷ []

drift_triggers_example :
    triggers_since 600 (consume settings idle ((drift, 600) ∷ closing)).1 ≡ true
unfolding consume_step ends
drift_triggers_example =
    drift_triggers settings idle 500 600 closing
      (ground arith, refl, (ground arith, refl, (ground arith, refl, tt))) refl

abbrev outcomes : List Outcome
outcomes = failed ∷ failed ∷ held 40000 ∷ failed ∷ []
