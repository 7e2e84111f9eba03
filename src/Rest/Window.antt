-- ===== src/Rest/Window.antt =====
-- The limiter of pkg/rest/server.go against one that forgets nothing.
use mathlib.Core.List.{append-nil}
use gleipnir.Prelude.{
  count, ◌-◌, ℕ, ◌+◌, ◌≤◌, ◌≡◌, refl, ap, ◌∙◌, subst, inl, inr, Bool-cases, Bool, true, false,
  Bytes, bytes_eq, ◌==◌, List, [], ◌∷◌, ◌++◌, length, leb, arith, if◌then◌else◌,
}
use gleipnir.Prelude.Table.{lookup, insert, lookup-insert}
use gleipnir.Rest.{RateLimiter, entries_of, still_valid, allow}

-- All that was ever granted, by root.
abbrev pub Grants : Type 0
Grants = Bytes → List ℕ

abbrev grant : Grants → Bytes → ℕ → Grants
grant g root now = λ x. if root == x then g x ++ now ∷ [] else g x

-- A time that lies at most 60 seconds before `now`.
abbrev recent : ℕ → ℕ → Bool
recent now t = leb (now - t) 60

-- A root is granted what it asks for unless `most` grants to it lie within the last 60 seconds.
abbrev pub ideal_allow : ℕ → Grants → Bytes → ℕ → Grants × Bool
ideal_allow most g root now =
    if leb most (count (recent now) (g root)) then (g, false) else (grant g root now, true)

abbrev pub answers : RateLimiter → List (Bytes × ℕ) → List Bool
answers rl [] = []
answers rl ((root, now) ∷ calls) = let asked = allow rl root now in asked.1 ∷ answers asked.0 calls

abbrev pub ideal_answers : ℕ → Grants → List (Bytes × ℕ) → List Bool
ideal_answers most g [] = []
ideal_answers most g ((root, now) ∷ calls) =
    let asked = ideal_allow most g root now in asked.1 ∷ ideal_answers most asked.0 calls

-- The calls come in the order of their times.
abbrev pub InOrder : ℕ → List (Bytes × ℕ) → Type 0
InOrder from [] = Unit
InOrder from ((root, now) ∷ calls) = (from ≤ now) × InOrder now calls

still_valid-twice :
    (early later : ℕ) (ts : List ℕ)
    → early ≤ later
    → still_valid later (still_valid early ts) ≡ still_valid later ts
unfolding still_valid
still_valid-twice early later [] h = refl
still_valid-twice early later (t ∷ ts) h = elim (Bool-cases (leb early (t + 60))) [
  | inl kept ↦ rw kept (ground (arith, still_valid-twice early later ts h))
  | inr past ↦
      let gone : leb later (t + 60) ≡ false = ground arith in
      rw (past, gone) (still_valid-twice early later ts h)
]

still_valid-count : (now : ℕ) (ts : List ℕ) → length (still_valid now ts) ≡ count (recent now) ts
unfolding still_valid
still_valid-count now [] = refl
still_valid-count now (t ∷ ts) = ground (arith, still_valid-count now ts)

still_valid-append :
    (now : ℕ) (xs ys : List ℕ)
    → still_valid now (xs ++ ys) ≡ still_valid now xs ++ still_valid now ys
unfolding still_valid
still_valid-append now [] ys = refl
still_valid-append now (t ∷ ts) ys = ground (arith, still_valid-append now ts ys)

-- From a time on, the windows say of every root what all its grants say.
abbrev Agrees : ℕ → RateLimiter → Grants → Type 0
Agrees from rl g =
    (root : Bytes) (now : ℕ)
    → from ≤ now
    → still_valid now (entries_of (lookup root rl.windows)) ≡ still_valid now (g root)

module _ (rl : RateLimiter) (g : Grants) (from now : ℕ) (root : Bytes) where
  abbrev valid : List ℕ
  valid = still_valid now (entries_of (lookup root rl.windows))

  -- A window that is rewritten to what is valid now, and `more`.
  rewritten :
      (more : List ℕ) (x : Bytes) (later : ℕ)
      → Agrees from rl g
      → from ≤ now
      → now ≤ later
      → still_valid later (entries_of (lookup x (insert root (valid ++ more) rl.windows)))
        ≡ still_valid later (if root == x then g x ++ more else g x)
  rewritten more x later agrees h k = elim (Bool-cases (root == x)) [
    | inl same ↦
        let it : root ≡ x = bytes_eq.test_sound root x same in
        let old : still_valid later valid ≡ still_valid later (g x) =
          still_valid-twice now later (entries_of (lookup root rl.windows)) k
          ∙ agrees root later (omega arith)
          ∙ ap (λ y. still_valid later (g y)) it in
        rw
          (
            lookup-insert root x (valid ++ more) rl.windows,
            same,
            still_valid-append later valid more,
            still_valid-append later (g x) more,
            old,
          )
          refl
    | inr other ↦
        rw (lookup-insert root x (valid ++ more) rl.windows, other) (agrees x later (omega arith))
  ]

  agrees_refused :
      Agrees from rl g
      → from ≤ now
      → Agrees now (record rl { windows = insert root valid rl.windows }) g
  agrees_refused agrees h x later k =
      let none_more : valid ++ [] ≡ valid = append-nil valid in
      let same : (if root == x then g x ++ [] else g x) ≡ g x = elim (Bool-cases (root == x)) [
        | inl here ↦ rw (here) (append-nil (g x))
        | inr there ↦ rw there refl
      ] in
      subst
        (λ v.
          still_valid later (entries_of (lookup x (insert root v rl.windows)))
          ≡ still_valid later (g x))
        none_more (rewritten [] x later agrees h k ∙ ap (still_valid later) same)

  allow_lem :
      Agrees from rl g
      → from ≤ now
      → ((allow rl root now).1 ≡ (ideal_allow rl.max_req g root now).1)
        × Agrees now (allow rl root now).0 (ideal_allow rl.max_req g root now).0
        × ((allow rl root now).0.max_req ≡ rl.max_req)
  unfolding allow
  allow_lem agrees h =
      let seen : length valid ≡ count (recent now) (g root) =
        ap length (agrees root now h) ∙ still_valid-count now (g root) in
      elim (Bool-cases (leb rl.max_req (length valid))) [
        | inl full ↦
            let full' : leb rl.max_req (count (recent now) (g root)) ≡ true =
              subst (λ n. leb rl.max_req n ≡ true) seen full in
            rw (allow, full, full') (refl, agrees_refused agrees h, refl)
        | inr free ↦
            let free' : leb rl.max_req (count (recent now) (g root)) ≡ false =
              subst (λ n. leb rl.max_req n ≡ false) seen free in
            rw (allow, free, free')
              (refl, (λ x later k. rewritten (now ∷ []) x later agrees h k), refl)
      ]

answers-ideal :
    (calls : List (Bytes × ℕ)) (rl : RateLimiter) (g : Grants) (from : ℕ)
    → Agrees from rl g
    → InOrder from calls
    → answers rl calls ≡ ideal_answers rl.max_req g calls
answers-ideal [] rl g from agrees h = refl
answers-ideal ((root, now) ∷ calls) rl g from agrees h =
    let step = allow_lem rl g from now root agrees h.0 in
    let rest =
      answers-ideal calls (allow rl root now).0 (ideal_allow rl.max_req g root now).0 now step.1
        h.1 in
    let same : answers (allow rl root now).0 calls
        ≡ ideal_answers rl.max_req (ideal_allow rl.max_req g root now).0 calls =
      rest ∙ ap (λ most. ideal_answers most (ideal_allow rl.max_req g root now).0 calls) step.2 in
    rw (step.0) (ap (λ (bs : List Bool). (ideal_allow rl.max_req g root now).1 ∷ bs) same)

-- Over any calls in the order of their times, the limiter of a new server answers as one that keeps
-- every grant for ever: a root is refused exactly when as many requests as the limit allows were
-- granted to it within the last 60 seconds, both ends included.
pub limiter_answers_like_ideal :
    (most from : ℕ) (calls : List (Bytes × ℕ))
    → InOrder from calls
    → answers (record { windows = []; max_req = most }) calls
      ≡ ideal_answers most (λ root. []) calls
unfolding lookup still_valid
limiter_answers_like_ideal most from calls h =
    answers-ideal calls (record { windows = []; max_req = most }) (λ root. []) from
      (λ root now k. refl) h
