-- ===== src/Cleanup/Informed.antt =====
-- While a thread cleans up, whoever searches does so for its round.
use thread_scan.Base.{ℕ, ◌+◌, ◌^◌, ◌≤◌, ◌<◌, ◌≡◌, subst, List, arith, inl, inr}
use thread_scan.Cleanup.{
  timestamp, cleaning, State, raise_first, raise_read, raise_second, lower, Step, reads, swaps,
  waits, acquires, releases, raises, learns, confirms, lowers, start, Reach, started, stepped,
}
use thread_scan.Cleanup.Stamp.{is_active-clear, timestamp-eq-mod}
use thread_scan.Cleanup.Exclusion.{IsLocked, Step-IsLocked, start-IsLocked}
use thread_scan.Cleanup.Known.{IsOn, Knows, HasStamps, HasWaited, IsStamped, go-IsStamped}
use thread_scan.Cleanup.Round.{
  Next, read_timestamp-Next, swap_timestamp-Next, wait_round-Next, release-Next,
}
use thread_scan.Cleanup.Answer.{
  raise_first-IsStamped, raise_read-IsStamped, raise_second-IsStamped, lower-IsStamped,
}

pub Step-Next :
    {threads : List ℕ} {s t : State}
    → Step threads s t
    → IsLocked s
    → IsStamped threads s
    → timestamp s.global_timestamp + 1 < 2 ^ 63
    → Next threads s t
unfolding raise_first raise_read raise_second lower
Step-Next {threads} (reads s i at) l v room = read_timestamp-Next threads s i v
Step-Next {threads} (swaps s i old at) l v room = swap_timestamp-Next threads s i old at l v room
Step-Next {threads} (waits s i curr j rest at) l v room =
    wait_round-Next threads s i curr j rest at v
Step-Next {threads} (acquires s i curr at) l v room = (
  go-IsStamped threads s i cleaning v λ j on.
      elim ((subst (HasWaited threads s) at (v.places i)).1 j on) [
        | inl behind ↦ absurd behind
        | inr known ↦ known
      ],
  omega arith,
)
Step-Next {threads} (releases s i at) l v room = release-Next threads s i v
Step-Next {threads} (raises s i at) l v room = (raise_first-IsStamped threads s i v at, omega arith)
Step-Next {threads} (learns s i old at) l v room =
    (raise_read-IsStamped threads s i v old at, omega arith)
Step-Next {threads} (confirms s i old curr at) l v room =
    (raise_second-IsStamped threads s i v old curr at, omega arith)
Step-Next {threads} (lowers s i at) l v room = (lower-IsStamped threads s i v at, omega arith)

-- How many steps led to a state.
abbrev pub steps : {threads : List ℕ} {s : State} → Reach threads s → ℕ
steps started = 0
steps (stepped r step) = steps r + 1

start-IsStamped : (threads : List ℕ) → IsStamped threads start
start-IsStamped threads = record {
  in_word = omega arith;
  handlers = λ j. (is_active-clear 0 (omega arith), omega arith, omega (arith, timestamp-eq-mod 0));
  places = λ i. tt;
}

pub Reach-IsStamped :
    {threads : List ℕ} {s : State} (r : Reach threads s)
    → steps r + 2 < 2 ^ 63
    → IsLocked s × IsStamped threads s × (timestamp s.global_timestamp ≤ steps r + 1)
Reach-IsStamped {threads} started room =
    (start-IsLocked, start-IsStamped threads, omega (arith, timestamp-eq-mod 1))
Reach-IsStamped {threads} (stepped r step) room =
    let (l, v, bound) = Reach-IsStamped r (omega arith) in
    let (v', moved) = Step-Next step l v (omega arith) in (Step-IsLocked step l, v', omega arith)

-- However the threads and their handlers are interleaved, in the first 2 ^ 63 - 3 steps (so that no timestamp
-- wraps around): while thread `i` is past its waiting loop and cleans up, a thread of the list whose
-- handler searches has the timestamp of this round as its own, one whose handler has read the global
-- timestamp has read that of this round, and its flag is raised from its handler's first write to its last.
pub cleaning_is_known :
    {threads : List ℕ} {s : State} (r : Reach threads s) (i j : ℕ)
    → steps r + 2 < 2 ^ 63
    → s.place i ≡ cleaning
    → IsOn j threads
    → Knows (timestamp s.global_timestamp) (s.local_timestamp j) (s.handler j)
      × HasStamps (timestamp s.global_timestamp) (s.local_timestamp j) (s.handler j)
cleaning_is_known {threads} {s} r i j room at on =
    let (l, v, bound) = Reach-IsStamped r room in
    (subst (HasWaited threads s) at (v.places i) j on, v.handlers j)
