-- ===== src/Threads/Signal.antt =====
-- Whom `threadscan_proc_signal_all_except` signals.
use thread_scan.Base.{
  ℕ, zero, suc, ◌+◌, ◌<◌, ◌≡◌, ◌≢◌, refl, ap, sym, ◌∙◌, List, [], ◌∷◌, some, ◌>>=◌, arith, ◌==◌,
  ◌&&◌, Bool, true, false, Bool-cases, inl, inr, length, if◌then◌else◌,
}
use thread_scan.Threads.{Memory, Registry, einval, esrch, sent_to, signal_loop, signal_all_except}
use thread_scan.Threads.Chain.{IsChain}
use thread_scan.Threads.Lists.{IsRegistry}

abbrev is_target : Memory → ℕ → ℕ → Bool
is_target m except td =
    (if td == except then false else true) && (if (m td).is_active == 0 then false else true)

-- The threads of a list that run user code, without the caller.
abbrev pub targets : Memory → ℕ → List ℕ → List ℕ
targets m except [] = []
targets m except (td ∷ tds) =
    if is_target m except td then (m td).self ∷ targets m except tds else targets m except tds

-- How many of them are still there to get the signal.
abbrev pub delivered : (ℕ → ℕ) → List ℕ → ℕ
delivered kill [] = 0
delivered kill (self ∷ selves) =
    if kill self == esrch then delivered kill selves else delivered kill selves + 1

module _ (kill : ℕ → ℕ) (valid : (self : ℕ) → kill self ≢ einval) where
  signal_loop-target :
      (fuel : ℕ) (m : Memory) (td except : ℕ)
      → 0 < td
      → is_target m except td ≡ true
      → signal_loop kill (suc fuel) m td except ≡ (
          signal_loop kill fuel m (m td).next except >>= λ rest.
          some (sent_to (m td).self (kill (m td).self) rest))
  unfolding signal_loop
  signal_loop-target fuel m td except pos on = ground (arith, on, valid (m td).self)

  signal_loop-other :
      (fuel : ℕ) (m : Memory) (td except : ℕ)
      → 0 < td
      → is_target m except td ≡ false
      → signal_loop kill (suc fuel) m td except ≡ signal_loop kill fuel m (m td).next except
  unfolding signal_loop
  signal_loop-other fuel m td except pos off = ground (arith, off)

  signal_loop_sends :
      (fuel : ℕ) (m : Memory) (td except : ℕ) (tds : List ℕ)
      → length tds < fuel
      → IsChain m td tds
      → signal_loop kill fuel m td except
        ≡ some (delivered kill (targets m except tds), targets m except tds)
  unfolding signal_loop
  signal_loop_sends zero m td except tds enough c = absurd (omega arith)
  signal_loop_sends (suc fuel) m td except [] enough c = rw c refl
  signal_loop_sends (suc fuel) m td except (x ∷ tds) enough (e, pos, c) =
      let rest = signal_loop_sends fuel m (m x).next except tds (omega arith) c in
      ap (λ (k : ℕ). signal_loop kill (suc fuel) m k except) e
      ∙ elim (Bool-cases (is_target m except x)) [
        | inl on ↦
            signal_loop-target fuel m x except pos on
            ∙ (ap (λ o. o >>= λ r. some (sent_to (m x).self (kill (m x).self) r)) rest
                ∙ with_target m x except tds on)
        | inr off ↦
            signal_loop-other fuel m x except pos off
            ∙ (rest
                ∙ sym (
                    ap (λ selves. some (delivered kill selves, selves))
                      (targets-other m x except tds off)))
      ]
    where
      targets-other :
          (m : Memory) (x except : ℕ) (tds : List ℕ)
          → is_target m except x ≡ false
          → targets m except (x ∷ tds) ≡ targets m except tds
      targets-other m x except tds off = rw off refl

      with_target :
          (m : Memory) (x except : ℕ) (tds : List ℕ)
          → is_target m except x ≡ true
          → some (
              sent_to
                (m x).self
                (kill (m x).self)
                (delivered kill (targets m except tds), targets m except tds))
            ≡ some (delivered kill (targets m except (x ∷ tds)), targets m except (x ∷ tds))
      with_target m x except tds on = rw on refl

-- With a valid registry, and where `pthread_kill` accepts the signal number,
-- `threadscan_proc_signal_all_except` ends within one round more than the list is long; it calls
-- `pthread_kill` once for each thread of the list that runs user code but for the caller, in order,
-- and returns how many of these calls found their thread.
pub signal_all_except_sends :
    (kill : ℕ → ℕ) (fuel : ℕ) (r : Registry) (except : ℕ) (listed staged : List ℕ)
    → ((self : ℕ) → kill self ≢ einval)
    → length listed < fuel
    → IsRegistry r listed staged
    → let selves = targets r.memory except listed in
      signal_all_except kill fuel r except ≡ some (delivered kill selves, selves)
unfolding signal_all_except
signal_all_except_sends kill fuel r except listed staged valid enough v =
    signal_loop_sends kill valid fuel r.memory r.head except listed enough v.in_list
