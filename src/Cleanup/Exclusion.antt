-- ===== src/Cleanup/Exclusion.antt =====
-- The cleanup lock is held by one thread at a time, and is held whenever its flag is set.
use thread_scan.Base.{
  update, ℕ, ◌≡◌, refl, ap, sym, ◌∙◌, List, ◌∷◌, arith, ◌==◌, if◌then◌else◌, Bool, true, false,
  Bool-cases, inl, inr, ◌&&◌, ℕ_discrete, ==_iff,
}
use thread_scan.Cleanup.{
  timestamp, is_active, attempt, Place, outside, seen, waiting, cleaning, State, go, read_timestamp,
  swap_timestamp, wait_round, release, raise_first, raise_read, raise_second, lower, Step, reads,
  swaps, waits, acquires, releases, raises, learns, confirms, lowers, start, Reach, started,
  stepped,
}
use thread_scan.Cleanup.Stamp.{is_active-attempt, is_active-timestamp, is_active-clear}

-- Whether a thread at the place has the lock.
abbrev pub owns : Place → Bool
owns outside = false
owns (seen old) = false
owns (waiting curr rest) = true
owns cleaning = true

abbrev pub Owns : State → ℕ → Type 0
Owns s i = owns (s.place i) ≡ true

-- At most one thread has the lock; the flag of the global timestamp is set exactly while one does;
-- a thread that is about to swap has read a timestamp with no flag.
pub record IsLocked (s : State) : Type 0 where
  pub exclusive : (i j : ℕ) → Owns s i → Owns s j → i ≡ j
  pub flagged : (i : ℕ) → Owns s i → is_active s.global_timestamp ≡ true
  pub unflagged : (i old : ℕ) → s.place i ≡ seen old → is_active old ≡ false
  pub owned : is_active s.global_timestamp ≡ true → (i : ℕ) × Owns s i

-- A move of thread `i` that neither takes nor gives up the lock.
go-IsLocked :
    (s : State) (i : ℕ) (p : Place)
    → IsLocked s
    → owns p ≡ owns (s.place i)
    → ((old : ℕ) → p ≡ seen old → is_active old ≡ false)
    → IsLocked (go s i p)
go-IsLocked s i p v same clear = record {
  exclusive = λ j k o o'. v.exclusive j k (as_before j o) (as_before k o');
  flagged = λ j o. v.flagged j (as_before j o);
  unflagged = λ j old e. elim (ℕ_discrete i j) [
    | yes here ↦ clear old (ground (arith, e))
    | no other ↦ v.unflagged j old (ground (arith, e))
  ];
  owned = λ a.
      let (j, o) = v.owned a in
      (
        j,
        elim (ℕ_discrete i j) [
          | yes here ↦ ground (arith, ap (λ k. owns (s.place k)) here)
          | no other ↦ ground arith
        ],
      );
}
  where
    as_before : (j : ℕ) → Owns (go s i p) j → Owns s j
    as_before j o = elim (ℕ_discrete i j) [
      | yes here ↦ ground (arith, ap (λ k. owns (s.place k)) here)
      | no other ↦ ground arith
    ]

read_timestamp-IsLocked :
    (s : State) (i : ℕ) → s.place i ≡ outside → IsLocked s → IsLocked (read_timestamp s i)
unfolding read_timestamp
read_timestamp-IsLocked s i at v = elim (Bool-cases (is_active s.global_timestamp)) [
  | inl active ↦ rw active (go-IsLocked s i outside v (ap owns (sym at)) (λ old e. cc))
  | inr clear ↦ rw clear (
      go-IsLocked s i (seen s.global_timestamp) v (ap owns (sym at))
        (λ old e. ground (arith, clear)))
]

-- The swap succeeds only from a timestamp with no flag: then nobody has the lock.
taken-IsLocked :
    (s : State) (i old curr : ℕ) (threads : List ℕ)
    → IsLocked s
    → is_active s.global_timestamp ≡ false
    → IsLocked (record s {
      global_timestamp = attempt old;
      place = update s.place i (waiting curr threads);
    })
taken-IsLocked s i old curr threads v clear = record {
  exclusive = λ j k o o'. sym (only j o) ∙ only k o';
  flagged = λ j o. is_active-attempt old;
  unflagged = λ j o e. elim (ℕ_discrete i j) [
    | yes here ↦ absurd (ground (arith, e))
    | no other ↦ v.unflagged j o (ground (arith, e))
  ];
  owned = λ a. (i, ground arith);
}
  where
    only : (j : ℕ) → owns (update s.place i (waiting curr threads) j) ≡ true → i ≡ j
    only j o = elim (ℕ_discrete i j) [
      | yes same ↦ same
      | no other ↦ absurd (ground (arith, v.flagged j, o))
    ]

swap_timestamp-IsLocked :
    (threads : List ℕ) (s : State) (i old : ℕ)
    → s.place i ≡ seen old
    → IsLocked s
    → IsLocked (swap_timestamp threads s i old)
unfolding swap_timestamp
swap_timestamp-IsLocked threads s i old at v = elim (Bool-cases (s.global_timestamp == old)) [
  | inl same ↦ rw same (
      taken-IsLocked s i old (timestamp (attempt old)) threads v
        (ap is_active ((==_iff s.global_timestamp old).0 same) ∙ v.unflagged i old at))
  | inr changed ↦ rw changed (go-IsLocked s i outside v (ap owns (sym at)) (λ o e. cc))
]

wait_round-IsLocked :
    (s : State) (i curr j : ℕ) (rest : List ℕ)
    → s.place i ≡ waiting curr (j ∷ rest)
    → IsLocked s
    → IsLocked (wait_round s i curr j rest)
unfolding wait_round
wait_round-IsLocked s i curr j rest at v =
    elim (Bool-cases (
      is_active (s.local_timestamp j)
      && (if timestamp (s.local_timestamp j) == curr then false else true))) [
        | inl helping ↦ rw helping v
        | inr done ↦ rw done (go-IsLocked s i (waiting curr rest) v (ap owns (sym at)) (λ o e. cc))
      ]

release-IsLocked : (s : State) (i : ℕ) → s.place i ≡ cleaning → IsLocked s → IsLocked (release s i)
unfolding release
release-IsLocked s i at v = record {
  exclusive = λ j k o o'. absurd (none j o);
  flagged = λ j o. absurd (none j o);
  unflagged = λ j old e. elim (ℕ_discrete i j) [
    | yes here ↦ absurd (ground (arith, e))
    | no other ↦ v.unflagged j old (ground (arith, e))
  ];
  owned = λ a. absurd (ground (arith, a, is_active-timestamp s.global_timestamp));
}
  where
    none : (j : ℕ) → owns (update s.place i outside j) ≡ true → ⊥
    none j o = elim (ℕ_discrete i j) [
      | yes here ↦ ground (arith, o)
      | no other ↦ other (v.exclusive i j (ap owns at) (ground (arith, o)))
    ]

-- Steps of the handlers touch neither the places nor the global timestamp.
same-IsLocked :
    (s t : State)
    → t.global_timestamp ≡ s.global_timestamp
    → t.place ≡ s.place
    → IsLocked s
    → IsLocked t
same-IsLocked s t g p v = record {
  exclusive = λ i j o o'. v.exclusive i j (rw (← p) o) (rw (← p) o');
  flagged = λ i o. ap is_active g ∙ v.flagged i (rw (← p) o);
  unflagged = λ i old e. v.unflagged i old (rw (← p) e);
  owned = λ a. let (i, o) = v.owned (ap is_active (sym g) ∙ a) in (i, rw p o);
}

pub Step-IsLocked : {threads : List ℕ} {s t : State} → Step threads s t → IsLocked s → IsLocked t
unfolding raise_first raise_read raise_second lower
Step-IsLocked (reads s i at) v = read_timestamp-IsLocked s i at v
Step-IsLocked {threads} (swaps s i old at) v = swap_timestamp-IsLocked threads s i old at v
Step-IsLocked (waits s i curr j rest at) v = wait_round-IsLocked s i curr j rest at v
Step-IsLocked (acquires s i curr at) v = go-IsLocked s i cleaning v (ap owns (sym at)) (λ o e. cc)
Step-IsLocked (releases s i at) v = release-IsLocked s i at v
Step-IsLocked (raises s i at) v = same-IsLocked s (raise_first s i) refl refl v
Step-IsLocked (learns s i old at) v = same-IsLocked s (raise_read s i old) refl refl v
Step-IsLocked (confirms s i old curr at) v = same-IsLocked s (raise_second s i old curr) refl refl v
Step-IsLocked (lowers s i at) v = same-IsLocked s (lower s i) refl refl v

pub start-IsLocked : IsLocked start
start-IsLocked = record {
  exclusive = λ i j o o'. cc;
  flagged = λ i o. cc;
  unflagged = λ i old e. cc;
  owned = λ a. absurd (ground (arith, a, is_active-clear 1 (omega arith)));
}

-- However the threads and their signal handlers are interleaved, at most one thread at a time is
-- between a successful `threadscan_thread_cleanup_try_acquire` and its release, the waiting loop
-- included; the flag of the global timestamp is set exactly while there is one.
pub Reach-IsLocked :
    {threads : List ℕ} {s : State}
    → Reach threads s
    → ((i j : ℕ) → Owns s i → Owns s j → i ≡ j)
      × ((i : ℕ) → Owns s i → is_active s.global_timestamp ≡ true)
      × (is_active s.global_timestamp ≡ true → (i : ℕ) × Owns s i)
Reach-IsLocked r = let v = all r in (v.exclusive, v.flagged, v.owned)
  where
    all : {threads : List ℕ} {s : State} → Reach threads s → IsLocked s
    all started = start-IsLocked
    all (stepped r step) = Step-IsLocked step (all r)
