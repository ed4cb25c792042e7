-- ===== src/Cleanup/Progress.antt =====
-- The cleanup lock comes free: nobody waits for ever for the handlers.
use thread_scan.Base.{
  update-at, update-off, ℕ, ◌+◌, ◌^◌, ◌<◌, ◌≡◌, refl, ap, sym, ◌∙◌, subst, List, [], ◌∷◌, true,
  false, Bool-cases, inl, inr, ℕ_discrete, ◌≢◌,
}
use thread_scan.Cleanup.{
  timestamp, raise_flag, is_active, Place, outside, seen, waiting, cleaning, Handler, away, raised,
  informed, searching, State, go, wait_round, release, raise_read, raise_second, lower, Step, waits,
  acquires, releases, learns, confirms, lowers, Reach, started, stepped, Run,
}
use thread_scan.Cleanup.Stamp.{is_active-timestamp}
use thread_scan.Cleanup.Exclusion.{owns}
use thread_scan.Cleanup.Known.{HasStamps, IsStamped}
use thread_scan.Cleanup.Informed.{Reach-IsStamped, steps}

-- A handler that is away has lowered its flag, for all threads but `j`.
abbrev IsQuietBut : ℕ → State → Type 0
IsQuietBut j s = (k : ℕ) → j ≢ k → s.handler k ≡ away → is_active (s.local_timestamp k) ≡ false

abbrev IsQuiet : State → Type 0
IsQuiet s = (k : ℕ) → s.handler k ≡ away → is_active (s.local_timestamp k) ≡ false

-- Steps of the handler of thread `j` that take it back to the thread's own code.
record Homed (threads : List ℕ) (s : State) (j : ℕ) : Type 0 where
  after : State
  run : Run threads s after
  same_global : after.global_timestamp ≡ s.global_timestamp
  same_place : after.place ≡ s.place
  home : after.handler j ≡ away
  quiet : IsQuiet after

module _ (threads : List ℕ) where
  run_trans : (r s t : State) → Run threads r s → Run threads s t → Run threads r t
  run_trans r s _ first started = first
  run_trans r s _ first (stepped {t = u} before step) = stepped (run_trans r s u first before) step

  -- A step first.
  onward :
      (s t : State) (j : ℕ)
      → Step threads s t
      → t.global_timestamp ≡ s.global_timestamp
      → t.place ≡ s.place
      → Homed threads t j
      → Homed threads s j
  onward s t j step g p later = record {
    after = later.after;
    run = run_trans s t later.after (stepped started step) later.run;
    same_global = later.same_global ∙ g;
    same_place = later.same_place ∙ p;
    home = later.home;
    quiet = later.quiet;
  }

  from_searching :
      (s : State) (j : ℕ) → s.handler j ≡ searching → IsQuietBut j s → Homed threads s j
  unfolding lower
  from_searching s j at q = record {
    after = lower s j;
    run = stepped started (lowers s j at);
    same_global = refl;
    same_place = refl;
    home = update-at s.handler j away j refl;
    quiet = λ k e. elim (ℕ_discrete j k) [
      | yes here ↦
          ap is_active (update-at s.local_timestamp j (timestamp (s.local_timestamp j)) k here)
          ∙ is_active-timestamp (s.local_timestamp j)
      | no other ↦
          ap is_active (update-off s.local_timestamp j (timestamp (s.local_timestamp j)) k other)
          ∙ q k other (sym (update-off s.handler j away k other) ∙ e)
    ];
  }

  from_informed :
      (s : State) (j old curr : ℕ)
      → s.handler j ≡ informed old curr
      → IsQuietBut j s
      → Homed threads s j
  unfolding raise_second
  from_informed s j old curr at q =
      onward s (raise_second s j old curr) j (confirms s j old curr at) refl refl (
        from_searching (raise_second s j old curr) j (update-at s.handler j searching j refl)
          (λ k other e.
            ap is_active (update-off s.local_timestamp j (raise_flag curr) k other)
            ∙ q k other (sym (update-off s.handler j searching k other) ∙ e)))

  from_raised :
      (s : State) (j old : ℕ) → s.handler j ≡ raised old → IsQuietBut j s → Homed threads s j
  unfolding raise_read
  from_raised s j old at q = onward s (raise_read s j old) j (learns s j old at) refl refl (
      from_informed (raise_read s j old) j old s.global_timestamp
        (update-at s.handler j (informed old s.global_timestamp) j refl)
        (λ k other e.
          q k other (sym (update-off s.handler j (informed old s.global_timestamp) k other) ∙ e)))

  homed : (s : State) (j : ℕ) (h : Handler) → s.handler j ≡ h → IsQuiet s → Homed threads s j
  homed s j away at q = record {
    after = s;
    run = started;
    same_global = refl;
    same_place = refl;
    home = at;
    quiet = q;
  }
  homed s j (raised old) at q = from_raised s j old at (λ k other. q k)
  homed s j (informed old curr) at q = from_informed s j old curr at (λ k other. q k)
  homed s j searching at q = from_searching s j at (λ k other. q k)

  wait_round_passes :
      (u : State) (i curr j : ℕ) (rest : List ℕ)
      → is_active (u.local_timestamp j) ≡ false
      → wait_round u i curr j rest ≡ go u i (waiting curr rest)
  unfolding wait_round
  wait_round_passes u i curr j rest clear = rw clear refl

  -- Thread `i` gives up the lock,
  freed_cleaning :
      (s : State) (i : ℕ)
      → s.place i ≡ cleaning
      → (t : State) × Run threads s t × (is_active t.global_timestamp ≡ false)
  unfolding release
  freed_cleaning s i at =
      (release s i, stepped started (releases s i at), is_active-timestamp s.global_timestamp)

  -- once it has waited for the handlers of the threads that are left.
  freed_waiting :
      (rest : List ℕ) (s : State) (i curr : ℕ)
      → s.place i ≡ waiting curr rest
      → IsQuiet s
      → (t : State) × Run threads s t × (is_active t.global_timestamp ≡ false)
  freed_waiting [] s i curr at q =
      let (t, run, clear) =
        freed_cleaning (go s i cleaning) i (update-at s.place i cleaning i refl) in
      (t, run_trans s (go s i cleaning) t (stepped started (acquires s i curr at)) run, clear)
  freed_waiting (j ∷ rest) s i curr at q =
      let h = homed s j (s.handler j) refl q in
      let here : h.after.place i ≡ waiting curr (j ∷ rest) = ap (λ p. p i) h.same_place ∙ at in
      let passed : State = go h.after i (waiting curr rest) in
      let (t, run, clear) =
        freed_waiting rest passed i curr (update-at h.after.place i (waiting curr rest) i refl)
          h.quiet in
      let step : Step threads h.after passed =
        subst (Step threads h.after) (wait_round_passes h.after i curr j rest (h.quiet j h.home))
          (waits h.after i curr j rest here) in
      (t, run_trans s passed t (stepped h.run step) run, clear)

-- From every state that the first 2 ^ 63 - 3 steps lead to, however they are interleaved, there are steps after
-- which nobody has the cleanup lock: the waiting loop can end, whatever the handlers are at, and the
-- lock is released.
pub lock_comes_free :
    {threads : List ℕ} {s : State} (r : Reach threads s)
    → steps r + 2 < 2 ^ 63
    → (t : State) × Run threads s t × (is_active t.global_timestamp ≡ false)
lock_comes_free {threads} {s} r room =
    let (l, v, bound) = Reach-IsStamped r room in
    elim (Bool-cases (is_active s.global_timestamp)) [
      | inr clear ↦ (s, started, clear)
      | inl active ↦ let (i, o) = l.owned active in owner i (s.place i) refl o v
    ]
  where
    owner :
        (i : ℕ) (p : Place)
        → s.place i ≡ p
        → owns (s.place i) ≡ true
        → IsStamped threads s
        → (t : State) × Run threads s t × (is_active t.global_timestamp ≡ false)
    owner i outside at o v = absurd (cc (o, ap owns at))
    owner i (seen old) at o v = absurd (cc (o, ap owns at))
    owner i (waiting curr rest) at o v = freed_waiting threads rest s i curr at (λ k e.
        (subst (HasStamps (timestamp s.global_timestamp) (s.local_timestamp k)) e (v.handlers k)).0)
    owner i cleaning at o v = freed_cleaning threads s i at
