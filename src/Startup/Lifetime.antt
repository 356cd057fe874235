-- ===== src/Startup/Lifetime.antt =====
-- The session marker over the lives of processes (tuntop/core/startup_recovery.py).
use mathlib.Core.Option
use tun_top.Prelude.{
  ◌≡◌, ◌≢◌, refl, ap, ℕ, suc, true, false, Option, none, some, Bool-cases, inl, inr, String, arith,
}
use tun_top.Prelude.Int.{ℤ, pos, negsuc}
use tun_top.Startup.{
  Processes, Stored, same_int, equal_times, same_process, opened_state, pid_of, marker_is_live,
  write_marker, as_int, truthy,
}

same_int_refl : (a : ℤ) → same_int a a ≡ true
unfolding same_int
same_int_refl (pos n) = ground arith
same_int_refl (negsuc n) = ground arith

same_int_eq : (a b : ℤ) → same_int a b ≡ true → a ≡ b
unfolding same_int
same_int_eq (pos m) (pos n) e = let h : m ≡ n = ground (arith, e) in ap pos h
same_int_eq (pos m) (negsuc n) e = absurd (ground (arith, e))
same_int_eq (negsuc m) (pos n) e = absurd (ground (arith, e))
same_int_eq (negsuc m) (negsuc n) e = let h : m ≡ n = ground (arith, e) in ap negsuc h

times_equal : (t : ℤ) (live : Option ℤ) → live ≡ some t → equal_times (some t) live ≡ true
times_equal t none e = absurd (Option.none-ne-some t e)
times_equal t (some u) e = rw (Option.some-injective u t e) (same_int_refl t)

times_differ : (t : ℤ) (live : Option ℤ) → live ≢ some t → equal_times (some t) live ≡ false
times_differ t none n = refl
times_differ t (some u) n = elim (Bool-cases (same_int u t)) [
  | inl a ↦ absurd (n (ap some (same_int_eq u t a)))
  | inr a ↦ a
]

module _ (truncate : String → Option ℤ) (before now : Processes) where
  -- A marker written by a process that could read its creation time tells later whether that
  -- process is still there: a process of the same number that was created at another time, or
  -- whose creation time cannot be read, is not taken for it, and of the same process the handle
  -- decides.
  pub marker_is_live-write_marker :
      (n : ℕ) (t : ℤ) (stored : Stored)
      → before.start_time (pos (suc n)) ≡ some t
      → (let live =
            marker_is_live truncate now (write_marker truncate before true (pos (suc n)) stored) in
          (now.start_time (pos (suc n)) ≢ some t → live ≡ some false)
          × (now.start_time (pos (suc n)) ≡ some t
              → live ≡ opened_state (now.handle (pos (suc n)))))
  unfolding marker_is_live write_marker pid_of as_int truthy same_process
  marker_is_live-write_marker n t stored e = rw e (
    (λ other. rw (times_differ t (now.start_time (pos (suc n))) other)),
    (λ same. rw (times_equal t (now.start_time (pos (suc n))) same)),
  )
