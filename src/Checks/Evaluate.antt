-- ===== src/Checks/Evaluate.antt =====
-- bench/checks.py, evaluate: the whole handler, its early return and its flags included. The metrics
-- are computed from the same record and change neither the checks nor the flags.
use mqtt_python_client_bench.Prelude.{
  zero, Bool, true, false, not, Option, none, some, List, [], ◌∷◌, ◌++◌, ltb, ◌==◌, if◌then◌else◌,
  ◌&&◌, ◌||◌,
}
use mqtt_python_client_bench.Prelude.Int.{ℤ, pos}
use mqtt_python_client_bench.Checks.{
  subscribe, idle, Point, RunRecord, Cores, is_kind, below_limit, is_quiet, held, peer_of,
  worker_of, sys_of,
}
use mqtt_python_client_bench.Checks.Items.{
  Status, invalid, Item, add, status, is_invalid, broker_headroom, host_quiet,
}
use mqtt_python_client_bench.Checks.Rules.{
  base_checks, publish_checks, delivery_checks, loss_checks, rate_checks, feature_checks,
  window_delta, when,
}

pub data Flag : Type 0 where
  broker_bound offer_bound broker_queue_overflow host_noisy : Flag

pub record Evaluation : Type 0 where
  pub status : Status
  pub checks : List Item
  pub flags : List Flag

abbrev pub is_zero : ℤ → Bool
is_zero (pos zero) = true
is_zero _ = false

-- A capacity offer of QoS 1 or 2 that overflowed the broker's queue.
unfoldable pub overflow_flags : RunRecord → List Flag
overflow_flags r =
    if (ltb 0 r.point.qos && is_kind r.point.kind subscribe)
      && ((r.point.rate == 0) && not (is_zero (sys_of r.sys).dropped))
    then broker_queue_overflow ∷ []
    else []

abbrev pub fixed_or_idle : Point → Bool
fixed_or_idle p = ltb 0 p.rate || is_kind p.kind idle

unfoldable pub broker_checks : Point → Option Cores → List Item
unfolding when
broker_checks p none = []
broker_checks p (some cores) = when (fixed_or_idle p) (add broker_headroom (below_limit cores))

unfoldable pub broker_flags : RunRecord → List Flag
broker_flags r = elim r.broker_cpu [
  | none ↦ []
  | some cores ↦
      if fixed_or_idle r.point then [] else if below_limit cores then [] else broker_bound ∷ []
]

unfoldable pub host_checks : Bool → Option Cores → List Item
unfolding when
host_checks strict none = []
host_checks strict (some noise) = when strict (add host_quiet (is_quiet noise))

unfoldable pub host_flags : Bool → RunRecord → List Flag
host_flags strict r = elim r.other_cores [
  | none ↦ []
  | some noise ↦ if strict then [] else if is_quiet noise then [] else host_noisy ∷ []
]

-- The client received everything offered.
unfoldable pub rate_offer_reached : RunRecord → Bool
unfolding window_delta
rate_offer_reached r =
    let offered = (peer_of r.peer).sent_window in
    ltb 0 offered && held (window_delta (worker_of r.worker) (λ s. s.received)) (pos offered) 1

unfoldable pub offer_flags : RunRecord → List Flag
unfolding rate_offer_reached
offer_flags r =
    if is_kind r.point.kind subscribe && ((r.point.rate == 0) && rate_offer_reached r)
    then offer_bound ∷ []
    else []

-- Every check, in the order in which the handler adds them.
unfoldable pub all_checks : Bool → RunRecord → List Item
all_checks strict r =
    base_checks r
    ++ (publish_checks r.point.kind r
        ++ (delivery_checks r.point.kind r
            ++ (loss_checks r
                ++ (rate_checks r
                    ++ (feature_checks r
                        ++ (broker_checks r.point r.broker_cpu
                            ++ host_checks strict r.other_cores))))))

unfoldable pub all_flags : Bool → RunRecord → List Flag
all_flags strict r = overflow_flags r ++ (broker_flags r ++ (host_flags strict r ++ offer_flags r))

unfoldable pub evaluate : Bool → RunRecord → Evaluation
evaluate strict r =
    if is_invalid (status (base_checks r))
    then record { status = invalid; checks = base_checks r; flags = [] }
    else record {
      status = status (all_checks strict r);
      checks = all_checks strict r;
      flags = all_flags strict r;
    }
