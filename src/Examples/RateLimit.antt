-- ===== src/Examples/RateLimit.antt =====
-- The limits of a key with one call a second, five a minute and fifty a day, and of an address.
use quantum_api.Base.{ℕ, ◌+◌, ◌*◌, ◌%◌, ◌≤◌, ◌<◌, ◌≡◌, ◌⊎◌, true, false, min}
use quantum_api.Base.Text.{codes}
use quantum_api.Keys.Table.{KeyPolicy}
use quantum_api.RateLimit.Script.{Arguments, run_script}
use quantum_api.RateLimit.Windows.{
  EndsNear, build_window_values, build_window_values-EndsNear, next_minute, next_day,
  microseconds_per_second,
}
use quantum_api.RateLimit.Counters.{
  IsProper, HasRoom, Counted, allowed_calls, room_left, allowed_calls_exact, run_script-decides,
}
use quantum_api.RateLimit.Limiter.{
  answered, lost_reply, key_arguments, ip_arguments, check_key, check_ip,
}
use quantum_api.RateLimit.Separate.{Separate, Disjoint}
use quantum_api.RateLimit.Enforced.{
  Judges, arguments_of-IsProper, check_key-Judges, check_ip-Judges, Limits,
}
use quantum_api.Examples.Samples.{settings, redis, no_counters, unary}

abbrev policy : KeyPolicy
policy = record { rate_limit_per_second = 1; rate_limit_per_minute = 5; daily_quota = 50 }

-- Three seconds and a half after the epoch.
abbrev now : ℕ
now = 3500000

abbrev arguments : Arguments
arguments = key_arguments redis unary settings (codes "k") policy now

proper : IsProper arguments
proper = arguments_of-IsProper unary (codes "key") (codes "k") 1 5 50 now

run_script-decides_example :
    ((run_script redis no_counters arguments).1.allowed ≡ true)
      × HasRoom redis arguments proper no_counters
      × Counted redis arguments proper no_counters (run_script redis no_counters arguments).0
    ⊎ ((run_script redis no_counters arguments).1.allowed ≡ false)
      × (¬ HasRoom redis arguments proper no_counters)
      × ((run_script redis no_counters arguments).0 ≡ no_counters)
run_script-decides_example = run_script-decides redis arguments proper no_counters

allowed_calls_exact_example :
    allowed_calls redis arguments 3 no_counters ≡ min 3 (room_left redis arguments no_counters)
allowed_calls_exact_example = allowed_calls_exact redis arguments proper 3 no_counters

check_key-Judges_example :
    Judges redis unary settings answered arguments
      (arguments_of-IsProper unary (codes "key") (codes "k") 1 5 50 now)
      no_counters
      (check_key redis unary settings answered (codes "k") policy now no_counters)
    × Limits 1 5 50 arguments
    × Separate
        (codes "k")
        (codes "k:1")
        now
        4500000
        arguments
        (key_arguments redis unary settings (codes "k:1") policy 4500000)
    × Disjoint arguments (ip_arguments redis unary settings (codes "::1") 4500000)
check_key-Judges_example =
    check_key-Judges redis unary settings answered (codes "k") policy now no_counters (codes "k:1")
      (codes "::1") policy 4500000

check_ip-Judges_example :
    Judges redis unary settings lost_reply
      (ip_arguments redis unary settings (codes "::1") now)
      (arguments_of-IsProper unary (codes "ip") (codes "::1") 2 5 1000 now)
      no_counters
      (check_ip redis unary settings lost_reply (codes "::1") now no_counters)
    × Limits 2 5 1000 (ip_arguments redis unary settings (codes "::1") now)
    × Separate
        (codes "::1")
        (codes "::2")
        now
        4500000
        (ip_arguments redis unary settings (codes "::1") now)
        (ip_arguments redis unary settings (codes "::2") 4500000)
    × Disjoint
        (key_arguments redis unary settings (codes "k") policy 4500000)
        (ip_arguments redis unary settings (codes "::1") now)
check_ip-Judges_example =
    check_ip-Judges redis unary settings lost_reply (codes "::1") now no_counters (codes "::2")
      (codes "k") policy 4500000

-- The counters after one call, which fills the second.
abbrev after_one : redis.State
after_one = (run_script redis no_counters arguments).0

build_window_values-EndsNear_example :
    let w = build_window_values unary (codes "key") (codes "k") now in
    EndsNear (next_minute now) now w.minute_ttl
    × EndsNear (next_day now) now w.day_ttl
    × (now % microseconds_per_second ≡ 0
        → (now + w.minute_ttl * microseconds_per_second ≡ next_minute now)
          × (now + w.day_ttl * microseconds_per_second ≡ next_day now))
    × (1 ≤ now % microseconds_per_second
        → now + microseconds_per_second ≤ next_minute now
        → now + w.minute_ttl * microseconds_per_second < next_minute now)
    × (1 ≤ now % microseconds_per_second
        → now + microseconds_per_second ≤ next_day now
        → now + w.day_ttl * microseconds_per_second < next_day now)
build_window_values-EndsNear_example =
    build_window_values-EndsNear unary (codes "key") (codes "k") now
