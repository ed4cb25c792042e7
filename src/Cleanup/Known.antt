-- ===== src/Cleanup/Known.antt =====
-- A thread that searches for a round knows the round's timestamp.
use thread_scan.Base.{
  update, update-at, update-off, ℕ, ◌^◌, ◌≤◌, ◌<◌, ◌≡◌, ◌⊎◌, sym, subst, List, [], ◌∷◌, arith, ◌==◌,
  if◌then◌else◌, true, false, inl, inr, ◌&&◌, ℕ_discrete, ◌≢◌,
}
use thread_scan.Cleanup.{
  timestamp, is_active, Place, outside, seen, waiting, cleaning, Handler, away, raised, informed,
  searching, State, go,
}

-- Whether a thread is on the list.
abbrev pub IsOn : ℕ → List ℕ → Type 0
IsOn j [] = ⊥
IsOn j (k ∷ threads) = (j ≡ k) ⊎ IsOn j threads

-- The handler at timestamp `local` knows the timestamp `curr`, or it will read it yet.
abbrev pub Knows : ℕ → ℕ → Handler → Type 0
Knows curr local away = Unit {0}
Knows curr local (raised old) = Unit {0}
Knows curr local (informed old read) = timestamp read ≡ curr
Knows curr local searching = timestamp local ≡ curr

-- The timestamps of a handler are no later than `curr`, and its flag is raised while it is not away.
abbrev pub HasStamps : ℕ → ℕ → Handler → Type 0
HasStamps curr local away = (is_active local ≡ false) × (local < 2 ^ 64) × (timestamp local ≤ curr)
HasStamps curr local (raised old) = (is_active local ≡ true) × (timestamp local ≤ curr)
HasStamps curr local (informed old read) =
    (is_active local ≡ true)
    × (read < 2 ^ 64)
    × (timestamp local ≤ timestamp read)
    × (timestamp read ≤ curr)
HasStamps curr local searching = (is_active local ≡ true) × (timestamp local ≤ curr)

-- What the thread that has the lock has waited for.
abbrev pub HasWaited : List ℕ → State → Place → Type 0
HasWaited threads s outside = Unit {0}
HasWaited threads s (seen old) = is_active old ≡ false
HasWaited threads s (waiting curr rest) =
    (curr ≡ timestamp s.global_timestamp)
    × ((j : ℕ)
        → IsOn j threads
        → IsOn j rest ⊎ Knows (timestamp s.global_timestamp) (s.local_timestamp j) (s.handler j))
HasWaited threads s cleaning =
    (j : ℕ)
    → IsOn j threads
    → Knows (timestamp s.global_timestamp) (s.local_timestamp j) (s.handler j)

pub record IsStamped (threads : List ℕ) (s : State) : Type 0 where
  pub in_word : s.global_timestamp < 2 ^ 64
  pub handlers :
      (j : ℕ) → HasStamps (timestamp s.global_timestamp) (s.local_timestamp j) (s.handler j)
  pub places : (i : ℕ) → HasWaited threads s (s.place i)

-- A step of the handler of thread `j`.
module _ (threads : List ℕ) (s : State) (v : IsStamped threads s) (j : ℕ) (locals times : ℕ → ℕ)
    (h : Handler) (off : (k : ℕ) → j ≢ k → locals k ≡ s.local_timestamp k)
    (stamps : HasStamps (timestamp s.global_timestamp) (locals j) h)
    (knows : Knows (timestamp s.global_timestamp) (s.local_timestamp j) (s.handler j)
      → Knows (timestamp s.global_timestamp) (locals j) h) where
  abbrev next : State
  next = record s {
    local_timestamp = locals;
    times_without_update = times;
    handler = update s.handler j h;
  }

  at_next :
      (P : ℕ → Handler → Type 0) (k : ℕ)
      → (j ≡ k → P (locals j) h)
      → P (s.local_timestamp k) (s.handler k)
      → P (locals k) (next.handler k)
  at_next P k here_holds there_holds = elim (ℕ_discrete j k) [
    | yes here ↦
        subst (P (locals k)) (sym (update-at s.handler j h k here))
          (subst (λ m. P (locals m) h) here (here_holds here))
    | no other ↦
        subst (λ l. P l (next.handler k)) (sym (off k other))
          (subst (P (s.local_timestamp k)) (sym (update-off s.handler j h k other)) there_holds)
  ]

  next-Knows :
      (k : ℕ)
      → Knows (timestamp s.global_timestamp) (s.local_timestamp k) (s.handler k)
      → Knows (timestamp s.global_timestamp) (next.local_timestamp k) (next.handler k)
  next-Knows k known =
      at_next (Knows (timestamp s.global_timestamp)) k
        (λ here. knows (
          subst (λ m. Knows (timestamp s.global_timestamp) (s.local_timestamp m) (s.handler m))
            (sym here) known))
        known

  next-HasWaited : (p : Place) → HasWaited threads s p → HasWaited threads next p
  next-HasWaited outside w = tt
  next-HasWaited (seen old) w = w
  next-HasWaited (waiting curr rest) (e, w) =
      (e, λ k on. elim (w k on) [ inl r ↦ inl r | inr known ↦ inr (next-Knows k known) ])
  next-HasWaited cleaning w = λ k on. next-Knows k (w k on)

  pub next-IsStamped : IsStamped threads next
  next-IsStamped = record {
    in_word = v.in_word;
    handlers =
        λ k. at_next (HasStamps (timestamp s.global_timestamp)) k (λ here. stamps) (v.handlers k);
    places = λ i. next-HasWaited (s.place i) (v.places i);
  }

-- A step of thread `i` that leaves the timestamps.
go-HasWaited :
    (threads : List ℕ) (s : State) (i : ℕ) (p q : Place)
    → HasWaited threads s q
    → HasWaited threads (go s i p) q
go-HasWaited threads s i p outside w = tt
go-HasWaited threads s i p (seen old) w = w
go-HasWaited threads s i p (waiting curr rest) w = w
go-HasWaited threads s i p cleaning w = w

pub go-IsStamped :
    (threads : List ℕ) (s : State) (i : ℕ) (p : Place)
    → IsStamped threads s
    → HasWaited threads s p
    → IsStamped threads (go s i p)
go-IsStamped threads s i p v w = record {
  in_word = v.in_word;
  handlers = v.handlers;
  places = λ k. go-HasWaited threads s i p (update s.place i p k) (elim (ℕ_discrete i k) [
    | yes here ↦ subst (HasWaited threads s) (sym (update-at s.place i p k here)) w
    | no other ↦ subst (HasWaited threads s) (sym (update-off s.place i p k other)) (v.places k)
  ]);
}

-- A pass of the waiting loop: the flag of thread `j` is not raised, or it is at the timestamp.
pub passes-Knows :
    (curr local : ℕ) (h : Handler)
    → HasStamps curr local h
    → (is_active local && (if timestamp local == curr then false else true)) ≡ false
    → Knows curr local h
passes-Knows curr local away st e = tt
passes-Knows curr local (raised old) st e = tt
passes-Knows curr local (informed old read) (a, b, c, d) e = ground (arith, a, c, d, e)
passes-Knows curr local searching (a, b) e = ground (arith, a, b, e)
