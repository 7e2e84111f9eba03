-- ===== src/Consensus/RateLimit/Ideal.antt =====
-- The limiter against one that forgets nothing.
use gleipnir.Prelude.{
  count, ◌+◌, ◌∙◌, ℕ, ◌*◌, ◌≤◌, ◌≡◌, refl, ap, Bool, true, false, Bytes, bytes_eq, bytes_beq_iff,
  List, [], ◌∷◌, ◌++◌, length, leb, ltb, if◌then◌else◌, arith, ◌==◌, Bool-cases, inl, inr,
}
use gleipnir.Prelude.Table.{Table, lookup, insert, lookup-insert, lookup-delete}
use gleipnir.Consensus.RateLimit.{
  SubmitterLimiter, new_limiter, after_cutoff, window_of, allow, keep, cleanup_keys, cleanup,
}

-- A call of the limiter and when it comes.
pub data Call : Type 0 where
  asks : Bytes → ℕ → Call
  cleans : ℕ → Call

abbrev pub time_of : Call → ℕ
time_of (asks id now) = now
time_of (cleans now) = now

-- No call comes before the one in front of it.
abbrev pub InOrder : ℕ → List Call → Type 0
InOrder last [] = Unit
InOrder last (c ∷ cs) = (last ≤ time_of c) × InOrder (time_of c) cs

-- What the limiter answers, call by call.
abbrev pub answers : SubmitterLimiter → List Call → List Bool
answers sl [] = []
answers sl (asks id now ∷ cs) = (allow sl id now).1 ∷ answers (allow sl id now).0 cs
answers sl (cleans now ∷ cs) = answers (cleanup sl now) cs

-- All the times at which each submitter was let through.
abbrev pub Granted : Type 0
Granted = Bytes → List ℕ

abbrev pub grant : Granted → Bytes → ℕ → Granted
grant g id now j = if id == j then g j ++ now ∷ [] else g j

-- A time that lies less than `dur` before `now`.
abbrev younger : ℕ → ℕ → ℕ → Bool
younger dur now t = ltb now (t + dur)

-- A submitter passes if fewer grants than the limit lie less than `dur` before now.
abbrev pub passes : ℕ → ℕ → Granted → Bytes → ℕ → Bool
passes limit dur g id now = ltb (count (younger dur now) (g id)) limit

abbrev pub ideal_answers : ℕ → ℕ → Granted → List Call → List Bool
ideal_answers limit dur g [] = []
ideal_answers limit dur g (asks id now ∷ cs) =
    let p = passes limit dur g id now in
    p ∷ ideal_answers limit dur (if p then grant g id now else g) cs
ideal_answers limit dur g (cleans now ∷ cs) = ideal_answers limit dur g cs

after_cutoff-count :
    (dur now : ℕ) (ts : List ℕ) → length (after_cutoff dur now ts) ≡ count (younger dur now) ts
unfolding after_cutoff
after_cutoff-count dur now [] = refl
after_cutoff-count dur now (t ∷ ts) = ground (arith, after_cutoff-count dur now ts)

after_cutoff-append :
    (dur now : ℕ) (xs ys : List ℕ)
    → after_cutoff dur now (xs ++ ys) ≡ after_cutoff dur now xs ++ after_cutoff dur now ys
unfolding after_cutoff
after_cutoff-append dur now [] ys = refl
after_cutoff-append dur now (x ∷ xs) ys = ground (arith, after_cutoff-append dur now xs ys)

-- A later and narrower filter makes an earlier and wider one idle.
after_cutoff-twice :
    (dur wide now later : ℕ) (xs : List ℕ)
    → dur ≤ wide
    → now ≤ later
    → after_cutoff dur later (after_cutoff wide now xs) ≡ after_cutoff dur later xs
unfolding after_cutoff
after_cutoff-twice dur wide now later [] h k = refl
after_cutoff-twice dur wide now later (x ∷ xs) h k =
    ground (arith, after_cutoff-twice dur wide now later xs h k)

-- From `last` on, the limiter's windows show the same grants.
abbrev Shows : ℕ → ℕ → Table Bytes (List ℕ) → Granted → Type 0
Shows dur last windows g =
    (id : Bytes) (later : ℕ)
    → last ≤ later
    → after_cutoff dur later (window_of windows id) ≡ after_cutoff dur later (g id)

window_of-insert :
    (key id : Bytes) (w : List ℕ) (m : Table Bytes (List ℕ))
    → window_of (insert key w m) id ≡ (if key == id then w else window_of m id)
unfolding window_of
window_of-insert key id w m = rw (lookup-insert key id w m) (ground arith)

window_of-keep :
    (key id : Bytes) (w : List ℕ) (m : Table Bytes (List ℕ))
    → window_of (keep key w m) id ≡ (if key == id then w else window_of m id)
unfolding window_of
window_of-keep key id [] m = rw (lookup-delete key id m) (ground arith)
window_of-keep key id (t ∷ ts) m = window_of-insert key id (t ∷ ts) m

cleanup_keys-Shows :
    (dur now : ℕ) (keys : List Bytes) (m : Table Bytes (List ℕ)) (g : Granted)
    → Shows dur now m g
    → Shows dur now (cleanup_keys dur now keys m) g
unfolding cleanup_keys
cleanup_keys-Shows dur now [] m g r = r
cleanup_keys-Shows dur now (key ∷ keys) m g r = cleanup_keys-Shows dur now keys _ g one
  where
    one : Shows dur now (keep key (after_cutoff (dur * 2) now (window_of m key)) m) g
    one id later h = rw (window_of-keep key id (after_cutoff (dur * 2) now (window_of m key)) m) (
        ground (
          arith,
          bytes_beq_iff key id,
          r id later h,
          after_cutoff-twice dur (dur * 2) now later (window_of m key) (omega arith) h,
        ))

-- A refused call only drops what is out of the window.
refused-Shows :
    (dur last now : ℕ) (id : Bytes) (m : Table Bytes (List ℕ)) (g : Granted)
    → last ≤ now
    → Shows dur last m g
    → Shows dur now (insert id (after_cutoff dur now (window_of m id)) m) g
refused-Shows dur last now id m g o r j later h =
    rw (window_of-insert id j (after_cutoff dur now (window_of m id)) m) (
      ground (
        arith,
        bytes_beq_iff id j,
        r j later (omega arith),
        after_cutoff-twice dur dur now later (window_of m id) (omega arith) h,
      ))

allowed-Shows :
    (dur last now : ℕ) (id : Bytes) (m : Table Bytes (List ℕ)) (g : Granted)
    → last ≤ now
    → Shows dur last m g
    → Shows dur now
        (insert id (after_cutoff dur now (window_of m id) ++ now ∷ []) m)
        (grant g id now)
allowed-Shows dur last now id m g o r j later h =
    rw (window_of-insert id j (after_cutoff dur now (window_of m id) ++ now ∷ []) m) (
      ground (
        arith,
        bytes_beq_iff id j,
        r j later (omega arith),
        after_cutoff-append dur later (after_cutoff dur now (window_of m id)) (now ∷ []),
        after_cutoff-append dur later (g j) (now ∷ []),
        after_cutoff-twice dur dur now later (window_of m id) (omega arith) h,
      ))

answers_lem :
    (sl : SubmitterLimiter) (g : Granted) (last : ℕ) (cs : List Call)
    → InOrder last cs
    → Shows sl.window_dur last sl.windows g
    → answers sl cs ≡ ideal_answers sl.max_per_window sl.window_dur g cs
unfolding allow cleanup
answers_lem sl g last [] o r = refl
answers_lem sl g last (cleans now ∷ cs) o r = answers_lem (cleanup sl now) g now cs o.1 (
    cleanup_keys-Shows sl.window_dur now _ sl.windows g
      (λ id later h. r id later (omega (arith, o.0))))
answers_lem sl g last (asks id now ∷ cs) o r =
    let seen : length (after_cutoff sl.window_dur now (window_of sl.windows id))
        ≡ count (younger sl.window_dur now) (g id) =
      ap length (r id now o.0) ∙ after_cutoff-count sl.window_dur now (g id) in
    elim (Bool-cases
      (leb sl.max_per_window (length (after_cutoff sl.window_dur now (window_of sl.windows id))))) [
        | inl full ↦
            let no : passes sl.max_per_window sl.window_dur g id now ≡ false =
              ground (arith, seen) in
            rw (full, no)
              (ap (λ rest. false ∷ rest)
                (answers_lem _ g now cs o.1
                  (refused-Shows sl.window_dur last now id sl.windows g o.0 r)))
        | inr room ↦
            let yes : passes sl.max_per_window sl.window_dur g id now ≡ true =
              ground (arith, seen) in
            rw (room, yes)
              (ap (λ rest. true ∷ rest)
                (answers_lem _ (grant g id now) now cs o.1
                  (allowed-Shows sl.window_dur last now id sl.windows g o.0 r)))
      ]

-- Over any calls in the order of their times, cleanups among them, a new limiter answers as one that
-- keeps every grant for ever: a submitter passes exactly when fewer than the limit of its grants lie
-- less than the duration of the window before now.
pub limiter_answers :
    (limit dur last : ℕ) (cs : List Call)
    → InOrder last cs
    → answers (new_limiter limit dur) cs ≡ ideal_answers limit dur (λ id. []) cs
unfolding new_limiter window_of lookup
limiter_answers limit dur last cs o =
    answers_lem (new_limiter limit dur) (λ id. []) last cs o (λ id later h. refl)
