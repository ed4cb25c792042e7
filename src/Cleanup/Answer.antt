-- ===== src/Cleanup/Answer.antt =====
-- The steps of `threadscan_thread_cleanup_raise_flag` and `_lower_flag` keep what the handlers know.
use thread_scan.Base.{update, update-at, update-off, ℕ, ◌≡◌, refl, ap, sym, ◌∙◌, subst, List, arith}
use thread_scan.Cleanup.{
  timestamp, raise_flag, away, raised, informed, searching, State, raise_first, raise_read,
  raise_second, lower,
}
use thread_scan.Cleanup.Stamp.{
  is_active-timestamp, is_active-raise_flag, timestamp-raise_flag, timestamp-timestamp,
  timestamp-eq-mod,
}
use thread_scan.Cleanup.Known.{Knows, HasStamps, IsStamped, next-IsStamped}

-- The four steps of a handler.
module _ (threads : List ℕ) (s : State) (i : ℕ) (v : IsStamped threads s) where
  abbrev now : ℕ
  now = timestamp s.global_timestamp

  abbrev local : ℕ
  local = s.local_timestamp i

  pub raise_first-IsStamped : s.handler i ≡ away → IsStamped threads (raise_first s i)
  unfolding raise_first
  raise_first-IsStamped at =
      next-IsStamped threads s v i (update s.local_timestamp i (raise_flag local))
        s.times_without_update (raised local) (update-off s.local_timestamp i (raise_flag local))
        (subst (λ x. HasStamps now x (raised local))
          (sym (update-at s.local_timestamp i (raise_flag local) i refl))
          (is_active-raise_flag local st.1, omega (arith, st.2, timestamp-raise_flag local st.1)))
        (λ known. tt)
    where
      st : HasStamps now local away
      st = subst (HasStamps now local) at (v.handlers i)

  pub raise_read-IsStamped :
      (old : ℕ) → s.handler i ≡ raised old → IsStamped threads (raise_read s i old)
  unfolding raise_read
  raise_read-IsStamped old at =
      next-IsStamped threads s v i s.local_timestamp s.times_without_update
        (informed old s.global_timestamp) (λ k other. refl) (st.0, v.in_word, st.1, omega arith)
        (λ known. refl)
    where
      st : HasStamps now local (raised old)
      st = subst (HasStamps now local) at (v.handlers i)

  pub raise_second-IsStamped :
      (old curr : ℕ)
      → s.handler i ≡ informed old curr
      → IsStamped threads (raise_second s i old curr)
  unfolding raise_second
  raise_second-IsStamped old curr at =
      next-IsStamped threads s v i (update s.local_timestamp i (raise_flag curr)) _ searching
        (update-off s.local_timestamp i (raise_flag curr))
        (subst (λ x. HasStamps now x searching) (sym written)
          (is_active-raise_flag curr st.1, omega (arith, st.3, stamp)))
        (λ known. ap timestamp written ∙ (stamp ∙ subst (Knows now local) at known))
    where
      st : HasStamps now local (informed old curr)
      st = subst (HasStamps now local) at (v.handlers i)

      written : update s.local_timestamp i (raise_flag curr) i ≡ raise_flag curr
      written = update-at s.local_timestamp i (raise_flag curr) i refl

      stamp : timestamp (raise_flag curr) ≡ timestamp curr
      stamp = timestamp-raise_flag curr st.1

  pub lower-IsStamped : s.handler i ≡ searching → IsStamped threads (lower s i)
  unfolding lower
  lower-IsStamped at =
      next-IsStamped threads s v i (update s.local_timestamp i (timestamp local))
        s.times_without_update away (update-off s.local_timestamp i (timestamp local))
        (subst (λ x. HasStamps now x away)
          (sym (update-at s.local_timestamp i (timestamp local) i refl))
          (
            is_active-timestamp local,
            omega (arith, timestamp-eq-mod local),
            omega (arith, st.1, timestamp-timestamp local),
          ))
        (λ known. tt)
    where
      st : HasStamps now local searching
      st = subst (HasStamps now local) at (v.handlers i)
