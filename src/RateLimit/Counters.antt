-- ===== src/RateLimit/Counters.antt =====
-- What the script does to the counters, on every branch.
use quantum_api.Base.{
  ◌≤◌, ℕ, suc, zero, ◌+◌, ◌-◌, ◌<◌, ◌≡◌, refl, ap, ◌∙◌, inl, inr, Bool, true, false, some, arith,
  ltb, if◌then◌else◌, ltb→lt, ◌⊎◌, Bool-cases, Option-cases, min,
}
use quantum_api.Base.Text.{Text, text_eq, text_eq_refl}
use quantum_api.RateLimit.Redis.{Redis, or_zero}
use quantum_api.RateLimit.Script.{Arguments, current_count, bump, admit, accept, reject, run_script}

-- The three counters of one call are different keys, and live a second at least.
pub record IsProper (a : Arguments) : Type 0 where
  pub second_minute : text_eq a.second_key a.minute_key ≡ false
  pub minute_second : text_eq a.minute_key a.second_key ≡ false
  pub second_day : text_eq a.second_key a.day_key ≡ false
  pub day_second : text_eq a.day_key a.second_key ≡ false
  pub minute_day : text_eq a.minute_key a.day_key ≡ false
  pub day_minute : text_eq a.day_key a.minute_key ≡ false
  pub second_lives : 1 ≤ a.second_ttl
  pub minute_lives : 1 ≤ a.minute_ttl
  pub day_lives : 1 ≤ a.day_ttl

module _ (r : Redis) where
  open r use {State, get, ttl, incr, expire, get-incr, get-expire, ttl-incr, ttl-expire}

  -- A bump adds one to its counter and touches no other.
  get-bump :
      (s : State) (k j : Text) (n : ℕ)
      → 1 ≤ n
      → get (bump r s k n) j ≡ (if text_eq j k then some (suc (or_zero (get s k))) else get s j)
  unfolding bump
  get-bump s k j n lives = elim (Option-cases (ttl (incr s k) k)) [
    | inl fresh ↦ rw (fresh, bump) (get-expire (incr s k) k j n lives ∙ get-incr s k j)
    | inr (t, running) ↦ rw (running, bump) (get-incr s k j)
  ]

  get-bump_self :
      (s : State) (k : Text) (n : ℕ)
      → 1 ≤ n
      → current_count r (bump r s k n) k ≡ suc (current_count r s k)
  get-bump_self s k n lives = rw (get-bump s k k n lives, text_eq_refl k)

  get-bump_ne :
      (s : State) (k j : Text) (n : ℕ)
      → 1 ≤ n
      → text_eq j k ≡ false
      → get (bump r s k n) j ≡ get s j
  get-bump_ne s k j n lives h = rw (get-bump s k j n lives, h)

  -- What the script answers where a counter stands at its limit, the seconds first.
  abbrev is_full : State → Text → ℕ → Bool
  is_full s k limit = ltb limit (current_count r s k + 1)

  module _ (a : Arguments) (proper : IsProper a) (s : State) where
    count-admit_second :
        current_count r (admit r s a) a.second_key ≡ suc (current_count r s a.second_key)
    unfolding admit
    count-admit_second =
        rw
          (
            get-bump_ne (bump r (bump r s a.second_key a.second_ttl) a.minute_key a.minute_ttl)
                a.day_key a.second_key a.day_ttl proper.day_lives proper.second_day,
            get-bump_ne (bump r s a.second_key a.second_ttl) a.minute_key a.second_key a.minute_ttl
                proper.minute_lives proper.second_minute,
          )
          (get-bump_self s a.second_key a.second_ttl proper.second_lives)

    count-admit_minute :
        current_count r (admit r s a) a.minute_key ≡ suc (current_count r s a.minute_key)
    unfolding admit
    count-admit_minute =
        rw
          (get-bump_ne (bump r (bump r s a.second_key a.second_ttl) a.minute_key a.minute_ttl)
            a.day_key a.minute_key a.day_ttl proper.day_lives proper.minute_day)
          (rw
            (get-bump_self (bump r s a.second_key a.second_ttl) a.minute_key a.minute_ttl
              proper.minute_lives)
            (ap (λ c. suc (or_zero c))
              (get-bump_ne s a.second_key a.minute_key a.second_ttl proper.second_lives
                proper.minute_second)))

    count-admit_day : current_count r (admit r s a) a.day_key ≡ suc (current_count r s a.day_key)
    unfolding admit
    count-admit_day =
        rw
          (get-bump_self (bump r (bump r s a.second_key a.second_ttl) a.minute_key a.minute_ttl)
            a.day_key a.day_ttl proper.day_lives)
          (ap (λ c. suc (or_zero c))
            (get-bump_ne (bump r s a.second_key a.second_ttl) a.minute_key a.day_key a.minute_ttl
                proper.minute_lives proper.day_minute
              ∙ get-bump_ne s a.second_key a.day_key a.second_ttl proper.second_lives
                  proper.day_second))

    get-admit_other :
        (k : Text)
        → text_eq k a.second_key ≡ false
        → text_eq k a.minute_key ≡ false
        → text_eq k a.day_key ≡ false
        → get (admit r s a) k ≡ get s k
    unfolding admit
    get-admit_other k p q d =
        get-bump_ne (bump r (bump r s a.second_key a.second_ttl) a.minute_key a.minute_ttl)
          a.day_key k a.day_ttl proper.day_lives d
        ∙ get-bump_ne (bump r s a.second_key a.second_ttl) a.minute_key k a.minute_ttl
            proper.minute_lives q
        ∙ get-bump_ne s a.second_key k a.second_ttl proper.second_lives p

    -- There is room in all three windows.
    abbrev pub HasRoom : Type 0
    HasRoom =
        (current_count r s a.second_key < a.second_limit)
        × (current_count r s a.minute_key < a.minute_limit)
        × (current_count r s a.day_key < a.day_limit)

    -- The counters after a call, which other callers' counters survive.
    abbrev pub Counted : State → Type 0
    Counted s' =
        (current_count r s' a.second_key ≡ suc (current_count r s a.second_key))
        × (current_count r s' a.minute_key ≡ suc (current_count r s a.minute_key))
        × (current_count r s' a.day_key ≡ suc (current_count r s a.day_key))
        × ((k : Text)
            → text_eq k a.second_key ≡ false
            → text_eq k a.minute_key ≡ false
            → text_eq k a.day_key ≡ false
            → get s' k ≡ get s k)

    admit-Counted : Counted (admit r s a)
    admit-Counted = (count-admit_second, count-admit_minute, count-admit_day, get-admit_other)

    -- The script either allows the call, and then there was room in every window and exactly the
    -- three counters went up by one, or rejects it, and then some window was full and nothing changed.
    pub run_script-decides :
        ((run_script r s a).1.allowed ≡ true) × HasRoom × Counted (run_script r s a).0
        ⊎ ((run_script r s a).1.allowed ≡ false) × (¬ HasRoom) × ((run_script r s a).0 ≡ s)
    unfolding run_script reject accept
    run_script-decides = elim (Bool-cases (is_full s a.second_key a.second_limit)) [
      | inl full ↦ rw full (inr (refl, (λ h. omega (arith, ltb→lt _ _ full, h.0)), refl))
      | inr x ↦ elim (Bool-cases (is_full s a.minute_key a.minute_limit)) [
        | inl full ↦ rw (x, full) (inr (refl, (λ h. omega (arith, ltb→lt _ _ full, h.1)), refl))
        | inr y ↦ elim (Bool-cases (is_full s a.day_key a.day_limit)) [
          | inl full ↦
              rw (x, y, full) (inr (refl, (λ h. omega (arith, ltb→lt _ _ full, h.2)), refl))
          | inr z ↦
              rw (x, y, z) (inl (refl, (ground arith, ground arith, ground arith), admit-Counted))
        ]
      ]
    ]

  -- How many of n calls in a row, with no expiry between them, the script allows.
  abbrev pub allowed_calls : Arguments → ℕ → State → ℕ
  allowed_calls a zero s = 0
  allowed_calls a (suc n) s =
      let (s', reply) = run_script r s a in
      let rest = allowed_calls a n s' in if reply.allowed then suc rest else rest

  -- What is left in the tightest window.
  abbrev pub room_left : Arguments → State → ℕ
  room_left a s = min (a.second_limit - current_count r s a.second_key) (
      min (a.minute_limit - current_count r s a.minute_key)
        (a.day_limit - current_count r s a.day_key))

  -- A full window leaves no room.
  room_left-full :
      (a : Arguments) (proper : IsProper a) (s : State) → ¬ HasRoom a proper s → room_left a s ≡ 0
  room_left-full a proper s full = grind (arith, full)

  -- Of n calls in a row, as long as no counter expires, the script allows exactly as many as are left
  -- in the tightest window, and all n if that is more.
  pub allowed_calls_exact :
      (a : Arguments)
      → IsProper a
      → (n : ℕ) (s : State) → allowed_calls a n s ≡ min n (room_left a s)
  allowed_calls_exact a proper zero s = omega arith
  allowed_calls_exact a proper (suc n) s = elim (run_script-decides a proper s) [
    | inl (yes_allowed, room, counted) ↦
        let rest = allowed_calls_exact a proper n (run_script r s a).0 in
        rw yes_allowed (omega (arith, rest, counted.0, counted.1, counted.2, room))
    | inr (refused, full, same) ↦
        rw (refused, same)
          (omega (arith, allowed_calls_exact a proper n s, room_left-full a proper s full))
  ]
