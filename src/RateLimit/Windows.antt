-- ===== src/RateLimit/Windows.antt =====
-- `_build_window_values` of src/quantum_api/security.py. An instant is the microseconds since the
-- epoch, in UTC, whose minutes and days all have the same length.
use quantum_api.Base.{
  ℕ, suc, ◌+◌, ◌-◌, ◌*◌, ◌/◌, ◌%◌, ◌≤◌, ◌<◌, max, ◌++◌, ◌≡◌, refl, false, [], ◌∷◌, arith,
}
use quantum_api.Base.Text.{Text, Lacks, codes, text_eq}

-- The decimal form of a number, and `strftime("%Y%m%d")` of a day since the epoch, which Python
-- computes: different numbers and days are written differently, and with digits only, of which it
-- is enough that none is a colon.
pub record Printing : Type 0 where
  pub decimal : ℕ → Text
  pub calendar_day : ℕ → Text
  pub decimal-injective : (m n : ℕ) → decimal m ≡ decimal n → m ≡ n
  pub calendar_day-injective : (m n : ℕ) → calendar_day m ≡ calendar_day n → m ≡ n
  pub decimal-Lacks : (n : ℕ) → Lacks b':' (decimal n)
  pub calendar_day-Lacks : (n : ℕ) → Lacks b':' (calendar_day n)

abbrev pub microseconds_per_second : ℕ
microseconds_per_second = 1000000

abbrev pub microseconds_per_minute : ℕ
microseconds_per_minute = 60000000

abbrev pub microseconds_per_day : ℕ
microseconds_per_day = 86400000000

-- `int(now.timestamp())`, `epoch_second // 60` and the day that `day_bucket` names
unfoldable pub epoch_second : ℕ → ℕ
epoch_second now = now / microseconds_per_second

unfoldable pub epoch_minute : ℕ → ℕ
unfolding epoch_second
epoch_minute now = epoch_second now / 60

unfoldable pub epoch_day : ℕ → ℕ
epoch_day now = now / microseconds_per_day

-- `now.replace(second=0, microsecond=0) + timedelta(minutes=1)`
unfoldable pub next_minute : ℕ → ℕ
next_minute now = suc (now / microseconds_per_minute) * microseconds_per_minute

-- `now.replace(hour=0, minute=0, second=0, microsecond=0) + timedelta(days=1)`
unfoldable pub next_day : ℕ → ℕ
next_day now = suc (now / microseconds_per_day) * microseconds_per_day

-- `max(int((end - now).total_seconds()), 1)`
unfoldable pub lifetime : ℕ → ℕ → ℕ
lifetime end now = max ((end - now) / microseconds_per_second) 1

pub record WindowValues : Type 0 where
  pub second_key : Text
  pub minute_key : Text
  pub day_key : Text
  pub second_ttl : ℕ
  pub minute_ttl : ℕ
  pub day_ttl : ℕ

unfoldable pub build_window_values : Printing → Text → Text → ℕ → WindowValues
unfolding epoch_second epoch_minute epoch_day next_minute next_day lifetime
build_window_values p scope identifier now = record {
  second_key =
      codes "rate:"
      ++ scope
      ++ codes ":"
      ++ identifier
      ++ codes ":second:"
      ++ p.decimal (epoch_second now);
  minute_key =
      codes "rate:"
      ++ scope
      ++ codes ":"
      ++ identifier
      ++ codes ":minute:"
      ++ p.decimal (epoch_minute now);
  day_key =
      codes "quota:"
      ++ scope
      ++ codes ":"
      ++ identifier
      ++ codes ":day:"
      ++ p.calendar_day (epoch_day now);
  second_ttl = 2;
  minute_ttl = lifetime (next_minute now) now;
  day_ttl = lifetime (next_day now) now;
}

-- A lifetime of whole seconds, at least one, that ends less than a second before or after its window.
abbrev pub EndsNear : ℕ → ℕ → ℕ → Type 0
EndsNear end now ttl =
    (1 ≤ ttl)
    × (end < now + suc ttl * microseconds_per_second)
    × (now + ttl * microseconds_per_second < end + microseconds_per_second)

-- The counters of a minute and of a day get a lifetime that ends less than a second before or after
-- the end of their window. For both: on a whole second the counter lives exactly to the end of its
-- window, and at any other instant with at least a second left it dies before the end.
pub build_window_values-EndsNear :
    (p : Printing) (scope identifier : Text) (now : ℕ)
    → let w = build_window_values p scope identifier now in
      EndsNear (next_minute now) now w.minute_ttl
      × EndsNear (next_day now) now w.day_ttl
      × (now % microseconds_per_second ≡ 0
          → (now + w.minute_ttl * microseconds_per_second ≡ next_minute now)
            × (now + w.day_ttl * microseconds_per_second ≡ next_day now))
      × (1 ≤ now % microseconds_per_second
          → now + microseconds_per_second ≤ next_minute now
          → now + w.minute_ttl * microseconds_per_second < next_minute now)
      × (1 ≤ now % microseconds_per_second
          → now + microseconds_per_second ≤ next_day now
          → now + w.day_ttl * microseconds_per_second < next_day now)
unfolding build_window_values lifetime next_minute next_day
build_window_values-EndsNear p scope identifier now = (
  (omega arith, omega arith, omega arith),
  (omega arith, omega arith, omega arith),
  (λ whole. (omega (arith, whole), omega (arith, whole))),
  (λ fraction left. omega (arith, fraction, left)),
  λ fraction left. omega (arith, fraction, left),
)

-- The second's and the minute's counter of one call have different keys, since the names of the two
-- windows differ, whatever the scope and the identifier are.
text_eq-append :
    (prefix s t d e : Text)
    → text_eq (prefix ++ s ++ d) (prefix ++ t ++ e) ≡ text_eq (s ++ d) (t ++ e)
unfolding text_eq
text_eq-append [] s t d e = refl
text_eq-append (c ∷ prefix) s t d e = ground (arith, text_eq-append prefix s t d e)

pub second_minute-differ :
    (p : Printing) (scope identifier : Text) (now : ℕ)
    → let w = build_window_values p scope identifier now in
      (text_eq w.second_key w.minute_key ≡ false) × (text_eq w.minute_key w.second_key ≡ false)
unfolding build_window_values text_eq
second_minute-differ p scope identifier now =
    let prefix = codes "rate:" ++ scope ++ codes ":" ++ identifier in
    (
      text_eq-append prefix (codes ":second:") (codes ":minute:") (p.decimal (epoch_second now))
          (p.decimal (epoch_minute now)),
      text_eq-append prefix (codes ":minute:") (codes ":second:") (p.decimal (epoch_minute now))
          (p.decimal (epoch_second now)),
    )
