-- ===== src/Cleanup/Round.antt =====
-- The waiting loop of `threadscan_thread_cleanup_try_acquire`: which round the signal handlers know of.
use thread_scan.Base.{
  update, update-at, update-off, ℕ, ◌+◌, ◌^◌, ◌≤◌, ◌<◌, ◌≡◌, ◌⊎◌, refl, ap, sym, ◌∙◌, subst, List,
  ◌∷◌, arith, ◌==◌, if◌then◌else◌, true, false, Bool-cases, inl, inr, ◌&&◌, ℕ_discrete, ==_iff,
}
use thread_scan.Cleanup.{
  timestamp, is_active, attempt, Place, outside, seen, waiting, cleaning, Handler, away, raised,
  informed, searching, State, read_timestamp, swap_timestamp, wait_round, release,
}
use thread_scan.Cleanup.Stamp.{
  timestamp-timestamp, timestamp-attempt, attempt_in_word, timestamp-eq-mod,
}
use thread_scan.Cleanup.Exclusion.{owns, IsLocked}
use thread_scan.Cleanup.Known.{
  IsOn, Knows, HasStamps, HasWaited, IsStamped, go-IsStamped, passes-Knows,
}

-- The invariant, and the timestamp moved on by at most 1.
abbrev pub Next : List ℕ → State → State → Type 0
Next threads s t =
    IsStamped threads t × (timestamp t.global_timestamp ≤ timestamp s.global_timestamp + 1)

pub read_timestamp-Next :
    (threads : List ℕ) (s : State) (i : ℕ)
    → IsStamped threads s
    → Next threads s (read_timestamp s i)
unfolding read_timestamp
read_timestamp-Next threads s i v = elim (Bool-cases (is_active s.global_timestamp)) [
  | inl active ↦ rw active (go-IsStamped threads s i outside v tt, omega arith)
  | inr clear ↦ rw clear (go-IsStamped threads s i (seen s.global_timestamp) v clear, omega arith)
]

later-HasStamps :
    (curr later local : ℕ) (h : Handler)
    → curr ≤ later
    → HasStamps curr local h
    → HasStamps later local h
later-HasStamps curr later local away le (a, b, c) = (a, b, omega arith)
later-HasStamps curr later local (raised old) le (a, b) = (a, omega arith)
later-HasStamps curr later local (informed old read) le (a, b, c, d) = (a, b, c, omega arith)
later-HasStamps curr later local searching le (a, b) = (a, omega arith)

taken-Next :
    (threads : List ℕ) (s : State) (i : ℕ)
    → IsLocked s
    → IsStamped threads s
    → is_active s.global_timestamp ≡ false
    → timestamp s.global_timestamp + 1 < 2 ^ 63
    → Next threads s (record s {
      global_timestamp = attempt s.global_timestamp;
      place = update s.place i (waiting (timestamp (attempt s.global_timestamp)) threads);
    })
taken-Next threads s i l v clear room = (
  record {
    in_word = attempt_in_word old;
    handlers = λ k.
        later-HasStamps (timestamp old) (timestamp (attempt old)) (s.local_timestamp k)
          (s.handler k) (omega (arith, later)) (v.handlers k);
    places = λ k. elim (ℕ_discrete i k) [
      | yes here ↦
          subst (HasWaited threads t) (sym (update-at s.place i p k here)) (refl, λ j on. inl on)
      | no other ↦
          subst (HasWaited threads t) (sym (update-off s.place i p k other))
            (free (s.place k) (λ o. absurd (cc (clear, l.flagged k o))) (v.places k))
    ];
  },
  omega (arith, later),
)
  where
    old : ℕ
    old = s.global_timestamp

    p : Place
    p = waiting (timestamp (attempt old)) threads

    t : State
    t = record s { global_timestamp = attempt old; place = update s.place i p }

    later : timestamp (attempt old) ≡ timestamp old + 1
    later = timestamp-attempt old v.in_word clear room

    free : (q : Place) → (owns q ≡ true → ⊥) → HasWaited threads s q → HasWaited threads t q
    free outside f w = tt
    free (seen o) f w = w
    free (waiting curr rest) f w = absurd (f refl)
    free cleaning f w = absurd (f refl)

pub swap_timestamp-Next :
    (threads : List ℕ) (s : State) (i old : ℕ)
    → s.place i ≡ seen old
    → IsLocked s
    → IsStamped threads s
    → timestamp s.global_timestamp + 1 < 2 ^ 63
    → Next threads s (swap_timestamp threads s i old)
unfolding swap_timestamp
swap_timestamp-Next threads s i old at l v room = elim (Bool-cases (s.global_timestamp == old)) [
  | inl same ↦
      let e : s.global_timestamp ≡ old = (==_iff s.global_timestamp old).0 same in
      rw same (rw (← e) (taken-Next threads s i l v (ap is_active e ∙ l.unflagged i old at) room))
  | inr changed ↦ rw changed (go-IsStamped threads s i outside v tt, omega arith)
]

pub wait_round-Next :
    (threads : List ℕ) (s : State) (i curr j : ℕ) (rest : List ℕ)
    → s.place i ≡ waiting curr (j ∷ rest)
    → IsStamped threads s
    → Next threads s (wait_round s i curr j rest)
unfolding wait_round
wait_round-Next threads s i curr j rest at v =
    elim (Bool-cases (
      is_active (s.local_timestamp j)
      && (if timestamp (s.local_timestamp j) == curr then false else true))) [
        | inl helping ↦ rw helping (v, omega arith)
        | inr done ↦ rw done (
          go-IsStamped threads s i (waiting curr rest) v (
            w.0,
            λ k on. elim (w.1 k on) [
              | inl behind ↦ elim behind [
                | inl here ↦ inr (
                    subst (λ (m : ℕ). Knows now (s.local_timestamp m) (s.handler m)) (sym here)
                      (passed done))
                | inr later ↦ inl later
              ]
              | inr known ↦ inr known
            ],
          ),
          omega arith,
        )
      ]
  where
    now : ℕ
    now = timestamp s.global_timestamp

    w : HasWaited threads s (waiting curr (j ∷ rest))
    w = subst (HasWaited threads s) at (v.places i)

    passed :
        (is_active (s.local_timestamp j)
            && (if timestamp (s.local_timestamp j) == curr then false else true))
          ≡ false
        → Knows now (s.local_timestamp j) (s.handler j)
    passed done = passes-Knows now (s.local_timestamp j) (s.handler j) (v.handlers j) (
        subst
          (λ c.
            (is_active (s.local_timestamp j)
              && (if timestamp (s.local_timestamp j) == c then false else true))
            ≡ false)
          w.0 done)

pub release-Next :
    (threads : List ℕ) (s : State) (i : ℕ) → IsStamped threads s → Next threads s (release s i)
unfolding release
release-Next threads s i v = (
  record {
    in_word = omega (arith, timestamp-eq-mod s.global_timestamp);
    handlers =
        λ k. subst (λ c. HasStamps c (s.local_timestamp k) (s.handler k)) (sym same) (v.handlers k);
    places = λ k. elim (ℕ_discrete i k) [
      | yes here ↦ subst (HasWaited threads t) (sym (update-at s.place i outside k here)) tt
      | no other ↦
          subst (HasWaited threads t) (sym (update-off s.place i outside k other))
            (unchanged (s.place k) (v.places k))
    ];
  },
  omega (arith, same),
)
  where
    t : State
    t = record s {
      global_timestamp = timestamp s.global_timestamp;
      place = update s.place i outside;
    }

    same : timestamp (timestamp s.global_timestamp) ≡ timestamp s.global_timestamp
    same = timestamp-timestamp s.global_timestamp

    unchanged : (q : Place) → HasWaited threads s q → HasWaited threads t q
    unchanged outside w = tt
    unchanged (seen old) w = w
    unchanged (waiting curr rest) w =
        subst
          (λ c.
            (curr ≡ c)
            × ((j : ℕ)
                → IsOn j threads
                → IsOn j rest ⊎ Knows c (s.local_timestamp j) (s.handler j)))
          (sym same) w
    unchanged cleaning w =
        subst (λ c. (j : ℕ) → IsOn j threads → Knows c (s.local_timestamp j) (s.handler j))
          (sym same) w
