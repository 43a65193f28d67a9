-- ===== src/RateLimit/Separate.antt =====
-- The names of the counters of `_build_window_values` of src/quantum_api/security.py, read from the
-- right, where the last two parts have no colon: what stands before them, the key's number or the
-- address, may have some, as an IPv6 address does.
use quantum_api.Base.{
  ℕ, ◌/◌, ◌++◌, ◌≡◌, refl, sym, ap, ◌∙◌, ◌≢◌, ◌↔◌, false, [], ◌∷◌, List, All, arith,
}
use quantum_api.Base.Text.{Text, Lacks, codes, text_eq, text_eq_iff}
use quantum_api.RateLimit.Script.{Arguments}
use quantum_api.RateLimit.Windows.{
  Printing, build_window_values, epoch_second, epoch_minute, epoch_day,
}
use quantum_api.RateLimit.Limiter.{arguments_of}

append_assoc : (a b c : Text) → (a ++ b) ++ c ≡ a ++ (b ++ c)
append_assoc [] b c = refl
append_assoc (x ∷ a) b c = ap (λ t. x ∷ t) (append_assoc a b c)

append_cancel : (a b c : Text) → a ++ b ≡ a ++ c → b ≡ c
append_cancel [] b c h = h
append_cancel (x ∷ a) b c h = append_cancel a b c (cc h)

-- A text with a separator in it does not lack it.
has_separator : (sep : ℕ) (a d : Text) → ¬ Lacks sep (a ++ (sep ∷ d))
has_separator sep [] d h = absurd (ground (arith, h.0))
has_separator sep (x ∷ a) d h = has_separator sep a d h.1

-- A text is cut at its last separator in one way only.
cut_last :
    (sep : ℕ) (a b : Text) {d e : Text}
    → Lacks sep d
    → Lacks sep e
    → a ++ (sep ∷ d) ≡ b ++ (sep ∷ e)
    → (a ≡ b) × (d ≡ e)
cut_last sep [] [] p q h = (refl, cc h)
cut_last sep [] (y ∷ b) {d} {e} p q h =
    let inside : d ≡ b ++ (sep ∷ e) = cc h in absurd (has_separator sep b e (rw inside at p))
cut_last sep (x ∷ a) [] {d} {e} p q h =
    let inside : a ++ (sep ∷ d) ≡ e = cc h in absurd (has_separator sep a d (rw (sym inside) at q))
cut_last sep (x ∷ a) (y ∷ b) {d} {e} p q h =
    let cuts : (a ≡ b) × (d ≡ e) = cut_last sep a b p q (cc h) in
    let same : x ≡ y = cc h in (cc (same, cuts.0), cuts.1)

-- The key of one counter: its family and scope, for whom it counts, in which kind of window, and in
-- which one.
abbrev counter_key : Text → Text → Text → Text → Text
counter_key head identifier window bucket =
    head ++ identifier ++ (b':' ∷ (window ++ (b':' ∷ []))) ++ bucket

counter_key-cut :
    (head i w d : Text) → counter_key head i w d ≡ ((head ++ i) ++ (b':' ∷ w)) ++ (b':' ∷ d)
counter_key-cut head i w d =
    append_assoc (head ++ i) (b':' ∷ (w ++ (b':' ∷ []))) d
    ∙ ap (λ t. (head ++ i) ++ (b':' ∷ t)) (append_assoc w (b':' ∷ []) d)
    ∙ sym (append_assoc (head ++ i) (b':' ∷ w) (b':' ∷ d))

-- The keys of one family and scope determine the rest.
counter_key-injective :
    (head i j w v : Text) {d e : Text}
    → Lacks b':' w
    → Lacks b':' v
    → Lacks b':' d
    → Lacks b':' e
    → counter_key head i w d ≡ counter_key head j v e
    → (i ≡ j) × (w ≡ v) × (d ≡ e)
counter_key-injective head i j w v {d} {e} lw lv ld le h =
    let (front, bucket) =
      cut_last b':' ((head ++ i) ++ (b':' ∷ w)) ((head ++ j) ++ (b':' ∷ v)) ld le
        (sym (counter_key-cut head i w d) ∙ h ∙ counter_key-cut head j v e) in
    let (names, window) = cut_last b':' (head ++ i) (head ++ j) lw lv front in
    (append_cancel head i j names, window, bucket)

apart : (s t : Text) → text_eq s t ≡ false → s ≢ t
apart s t differ h = cc ((text_eq_iff s t).1 h, differ)

second-Lacks : Lacks b':' (codes "second")
second-Lacks = (refl, (refl, (refl, (refl, (refl, (refl, tt))))))

minute-Lacks : Lacks b':' (codes "minute")
minute-Lacks = (refl, (refl, (refl, (refl, (refl, (refl, tt))))))

day-Lacks : Lacks b':' (codes "day")
day-Lacks = (refl, (refl, (refl, tt)))

-- A window's counter is the same for the same caller in the same window only.
window_only :
    (head w : Text) (f : ℕ → Text) (i j : Text) {m n bucket bucket' : ℕ}
    → m ≡ bucket
    → n ≡ bucket'
    → Lacks b':' w
    → ((k l : ℕ) → f k ≡ f l → k ≡ l)
    → ((k : ℕ) → Lacks b':' (f k))
    → (counter_key head i w (f m) ≡ counter_key head j w (f n)) ↔ ((i ≡ j) × (bucket ≡ bucket'))
window_only head w f i j {m} {n} p q lw injective lacks = (
  λ h.
      let (identifier, _, bucket) =
        counter_key-injective head i j w w lw lw (lacks m) (lacks n) h in
      (identifier, sym p ∙ injective m n bucket ∙ q),
  λ same.
      ap (λ t. counter_key head t w (f m)) same.0
      ∙ ap (λ k. counter_key head j w (f k)) (p ∙ same.1 ∙ sym q),
)

-- The counters of two kinds of window differ.
windows_differ :
    (head w v : Text) (i j d e : Text)
    → Lacks b':' w
    → Lacks b':' v
    → Lacks b':' d
    → Lacks b':' e
    → text_eq w v ≡ false
    → counter_key head i w d ≢ counter_key head j v e
windows_differ head w v i j d e lw lv ld le differ h =
    let (_, window, _) = counter_key-injective head i j w v lw lv ld le h in apart w v differ window

minute_of : (now : ℕ) → epoch_minute now ≡ now / 60000000
unfolding epoch_minute epoch_second
minute_of now = omega arith

-- What the counters of two calls have in common: each window's is the same for the same caller in
-- the same window only, and the counters of two kinds of window differ.
pub record Separate (i j : Text) (now later : ℕ) (a b : Arguments) : Type 0 where
  pub second_only : (a.second_key ≡ b.second_key) ↔ ((i ≡ j) × (now / 1000000 ≡ later / 1000000))
  pub minute_only : (a.minute_key ≡ b.minute_key) ↔ ((i ≡ j) × (now / 60000000 ≡ later / 60000000))
  pub day_only : (a.day_key ≡ b.day_key) ↔ ((i ≡ j) × (now / 86400000000 ≡ later / 86400000000))
  pub second_minute : a.second_key ≢ b.minute_key
  pub second_day : a.second_key ≢ b.day_key
  pub minute_second : a.minute_key ≢ b.second_key
  pub minute_day : a.minute_key ≢ b.day_key
  pub day_second : a.day_key ≢ b.second_key
  pub day_minute : a.day_key ≢ b.minute_key

abbrev keys_of : Arguments → List Text
keys_of a = a.second_key ∷ a.minute_key ∷ a.day_key ∷ []

-- No counter is in both calls.
abbrev pub Disjoint : Arguments → Arguments → Type 0
Disjoint a b = All (λ k. All (λ j. k ≢ j) (keys_of b)) (keys_of a)

module _ (p : Printing) (scope i j : Text) (x y z x' y' z' now later : ℕ) where
  abbrev rates : Text
  rates = codes "rate:" ++ scope ++ codes ":"

  pub arguments_of-Separate :
      Separate i j now later
        (arguments_of p scope i x y z now)
        (arguments_of p scope j x' y' z' later)
  unfolding arguments_of build_window_values epoch_second epoch_day text_eq
  arguments_of-Separate = record {
    second_only =
        window_only rates (codes "second") p.decimal i j refl refl second-Lacks p.decimal-injective
          p.decimal-Lacks;
    minute_only =
        window_only rates (codes "minute") p.decimal i j (minute_of now) (minute_of later)
          minute-Lacks p.decimal-injective p.decimal-Lacks;
    day_only =
        window_only (codes "quota:" ++ scope ++ codes ":") (codes "day") p.calendar_day i j refl
          refl day-Lacks p.calendar_day-injective p.calendar_day-Lacks;
    second_minute =
        windows_differ rates (codes "second") (codes "minute") i j (p.decimal (epoch_second now))
          (p.decimal (epoch_minute later)) second-Lacks minute-Lacks (p.decimal-Lacks _)
          (p.decimal-Lacks _) refl;
    second_day = apart _ _ refl;
    minute_second =
        windows_differ rates (codes "minute") (codes "second") i j (p.decimal (epoch_minute now))
          (p.decimal (epoch_second later)) minute-Lacks second-Lacks (p.decimal-Lacks _)
          (p.decimal-Lacks _) refl;
    minute_day = apart _ _ refl;
    day_second = apart _ _ refl;
    day_minute = apart _ _ refl;
  }

module _ (p : Printing) (i j : Text) (x y z x' y' z' now later : ℕ) where
  pub key_ip-Disjoint :
      Disjoint
        (arguments_of p (codes "key") i x y z now)
        (arguments_of p (codes "ip") j x' y' z' later)
  unfolding arguments_of build_window_values text_eq
  key_ip-Disjoint = (
    (apart _ _ refl, (apart _ _ refl, (apart _ _ refl, tt))),
    (
      (apart _ _ refl, (apart _ _ refl, (apart _ _ refl, tt))),
      ((apart _ _ refl, (apart _ _ refl, (apart _ _ refl, tt))), tt),
    ),
  )
