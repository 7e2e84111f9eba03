-- ===== src/Engine/Pace.antt =====
-- pkg/consensus/engine.go: the length of the cycles, by newEngine and updateCycleDuration. What the
-- clock measures is an argument, and so are the two products of float64, with any value.
use gleipnir.Prelude.{
  ℕ, ◌+◌, ◌-◌, ◌*◌, ◌^◌, ◌%◌, ◌≡◌, refl, true, false, ◌&&◌, List, [], ◌∷◌, ltb, nat_beq, arith,
  tests, Bool-cases, inl, inr, if◌then◌else◌,
}
use gleipnir.Prelude.Int.{ℤ, pos, negsuc, ltb_ℤ, leb_ℤ}
use gleipnir.Chain.BlockHash.{to_uint64}

-- time.Duration(float64(rtt)*alpha + float64(ewma)*(1-alpha)), and the estimate from the average.
pub record FloatTimes : Type 0 where
  pub mixed : ℤ → ℤ → ℤ
  pub estimate : ℤ → ℤ

pub record Pace : Type 0 where
  pub base_interval : ℤ
  pub max_cycle_duration : ℤ
  pub rtt_ewma : ℤ
  pub rtt_samples : ℕ
  pub cycle_duration : ℤ
  pub cycle_timeout : ℤ

abbrev pub ten_seconds : ℕ
ten_seconds = 10000000000

abbrev pub four_times : ℤ → ℤ
four_times (pos n) = pos (n * 4)
four_times (negsuc n) = negsuc (n * 4 + 3)

-- The fields of newEngine.
unfoldable pub start_pace : ℤ → Pace
start_pace cycle_interval = record {
  base_interval = cycle_interval;
  max_cycle_duration =
      if ltb_ℤ (pos 0) cycle_interval && ltb_ℤ cycle_interval (pos ten_seconds)
      then four_times cycle_interval
      else pos ten_seconds;
  rtt_ewma = pos 0;
  rtt_samples = 0;
  cycle_duration = cycle_interval;
  cycle_timeout = pos ten_seconds;
}

-- int64(n) for a word n, and the sum on int64.
abbrev pub to_int64 : ℕ → ℤ
to_int64 n = if ltb n (2 ^ 63) then pos n else negsuc (2 ^ 64 - n - 1)

unfoldable pub add_int64 : ℤ → ℤ → ℤ
unfolding to_uint64
add_int64 a b = to_int64 ((to_uint64 a + to_uint64 b) % 2 ^ 64)

-- Both bounds of the duration, the cap first.
unfoldable pub clamped : ℤ → ℤ → ℤ → ℤ
clamped low high d =
    let capped = if ltb_ℤ high d then high else d in if ltb_ℤ capped low then low else capped

-- updateCycleDuration
unfoldable pub update_cycle_duration : FloatTimes → Pace → ℤ → Pace
update_cycle_duration fl p rtt =
    let ewma = if nat_beq p.rtt_samples 0 then rtt else fl.mixed rtt p.rtt_ewma in
    let wanted = add_int64 p.base_interval (fl.estimate ewma) in
    let duration = clamped p.base_interval p.max_cycle_duration wanted in
    record p {
      rtt_ewma = ewma;
      rtt_samples = p.rtt_samples + 1;
      cycle_duration = duration;
      cycle_timeout = duration;
    }

-- One update for each cycle of cycleLoop.
abbrev pub update_all : FloatTimes → Pace → List ℤ → Pace
update_all fl p [] = p
update_all fl p (rtt ∷ rtts) = update_all fl (update_cycle_duration fl p rtt) rtts

-- Between the base interval and the cap.
abbrev pub IsWithin : ℤ → ℤ → ℤ → Type 0
IsWithin low high d = (leb_ℤ low d ≡ true) × (leb_ℤ d high ≡ true)

leb_ℤ-refl : (a : ℤ) → leb_ℤ a a ≡ true
leb_ℤ-refl (pos n) = grind tests
leb_ℤ-refl (negsuc n) = grind tests

leb_ℤ-not_less : (a b : ℤ) → ltb_ℤ a b ≡ false → leb_ℤ b a ≡ true
leb_ℤ-not_less (pos a) (pos b) h = grind tests
leb_ℤ-not_less (pos a) (negsuc b) h = refl
leb_ℤ-not_less (negsuc a) (pos b) h = absurd (ground arith)
leb_ℤ-not_less (negsuc a) (negsuc b) h = grind tests

not_less-leb_ℤ : (a b : ℤ) → leb_ℤ a b ≡ true → ltb_ℤ b a ≡ false
not_less-leb_ℤ (pos a) (pos b) h = grind tests
not_less-leb_ℤ (pos a) (negsuc b) h = absurd (ground arith)
not_less-leb_ℤ (negsuc a) (pos b) h = refl
not_less-leb_ℤ (negsuc a) (negsuc b) h = grind tests

clamped-IsWithin : (low high d : ℤ) → leb_ℤ low high ≡ true → IsWithin low high (clamped low high d)
unfolding clamped
clamped-IsWithin low high d h = elim (Bool-cases (ltb_ℤ high d)) [
  | inl over ↦ rw (over, not_less-leb_ℤ low high h) (h, leb_ℤ-refl high)
  | inr under ↦ elim (Bool-cases (ltb_ℤ d low)) [
    | inl below ↦ rw (under, below) (leb_ℤ-refl low, h)
    | inr above ↦ rw (under, above) (leb_ℤ-not_less d low above, leb_ℤ-not_less high d under)
  ]
]

leb_ℤ-trans : (a b c : ℤ) → leb_ℤ a b ≡ true → leb_ℤ b c ≡ true → leb_ℤ a c ≡ true
leb_ℤ-trans (pos a) (pos b) (pos c) h k = grind tests
leb_ℤ-trans (pos a) (pos b) (negsuc c) h k = k
leb_ℤ-trans (pos a) (negsuc b) c h k = absurd (ground arith)
leb_ℤ-trans (negsuc a) b (pos c) h k = refl
leb_ℤ-trans (negsuc a) (pos b) (negsuc c) h k = absurd (ground arith)
leb_ℤ-trans (negsuc a) (negsuc b) (negsuc c) h k = grind tests

-- A cap below the base is not kept.
clamped-low : (low high d : ℤ) → leb_ℤ high low ≡ true → IsWithin low low (clamped low high d)
unfolding clamped
clamped-low low high d h = elim (Bool-cases (ltb_ℤ high d)) [
  | inl over ↦ elim (Bool-cases (ltb_ℤ high low)) [
    | inl below ↦ rw (over, below) (leb_ℤ-refl low, leb_ℤ-refl low)
    | inr above ↦ rw (over, above) (leb_ℤ-not_less high low above, h)
  ]
  | inr under ↦ elim (Bool-cases (ltb_ℤ d low)) [
    | inl below ↦ rw (under, below) (leb_ℤ-refl low, leb_ℤ-refl low)
    | inr above ↦
        let within = leb_ℤ-trans d high low (leb_ℤ-not_less high d under) h in
        rw (under, above) (leb_ℤ-not_less d low above, within)
  ]
]

-- The longest a cycle may become.
abbrev pub longest : ℤ → ℤ
longest interval = if ltb_ℤ interval (pos ten_seconds) then four_times interval else interval

four_times-longer : (a : ℤ) → ltb_ℤ (pos 0) a ≡ true → leb_ℤ a (four_times a) ≡ true
four_times-longer (pos n) h = grind tests
four_times-longer (negsuc n) h = absurd (ground arith)

start_pace-clamped :
    (interval d : ℤ)
    → ltb_ℤ (pos 0) interval ≡ true
    → IsWithin interval
        (longest interval)
        (clamped interval (start_pace interval).max_cycle_duration d)
unfolding start_pace
start_pace-clamped interval d h = elim (Bool-cases (ltb_ℤ interval (pos ten_seconds))) [
  | inl short ↦
      rw (h, short)
        (clamped-IsWithin interval (four_times interval) d (four_times-longer interval h))
  | inr long ↦
      rw (h, long)
        (clamped-low interval (pos ten_seconds) d (leb_ℤ-not_less interval (pos ten_seconds) long))
]

update_all-IsWithin :
    (fl : FloatTimes) (top : ℤ) (p : Pace) (rtts : List ℤ)
    → ((d : ℤ) → IsWithin p.base_interval top (clamped p.base_interval p.max_cycle_duration d))
    → IsWithin p.base_interval top p.cycle_duration
    → IsWithin p.base_interval top (update_all fl p rtts).cycle_duration
unfolding update_cycle_duration
update_all-IsWithin fl top p [] clamps now = now
update_all-IsWithin fl top p (rtt ∷ rtts) clamps now =
    update_all-IsWithin fl top (update_cycle_duration fl p rtt) rtts clamps (clamps _)

longest-longer : (a : ℤ) → ltb_ℤ (pos 0) a ≡ true → leb_ℤ a (longest a) ≡ true
longest-longer a h = elim (Bool-cases (ltb_ℤ a (pos ten_seconds))) [
  | inl short ↦ rw short (four_times-longer a h)
  | inr long ↦ rw long (leb_ℤ-refl a)
]

-- An engine whose interval is above zero never has cycles shorter than the interval, nor longer than
-- four times the interval where that is below ten seconds, nor longer than the interval itself where it
-- is ten seconds or more: whatever the measured times, whatever the products of floats come to, and
-- also where the sum wraps around.
cycle_in_bounds :
    (fl : FloatTimes) (interval : ℤ) (rtts : List ℤ)
    → ltb_ℤ (pos 0) interval ≡ true
    → IsWithin interval (longest interval) (update_all fl (start_pace interval) rtts).cycle_duration
unfolding start_pace
cycle_in_bounds fl interval rtts h =
    update_all-IsWithin fl (longest interval) (start_pace interval) rtts
      (λ d. start_pace-clamped interval d h) (leb_ℤ-refl interval, longest-longer interval h)
