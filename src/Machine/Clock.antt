-- ===== src/Machine/Clock.antt =====
-- src/os.c and src/timer.c: the threads of the program use the timer as src/timer.c wants it.
use hdh.Base.{ℕ, ◌+◌, ◌-◌, ◌≡◌, ◌⊎◌, inl, inr, refl, sym, List, length}
use mathlib.Core.Path.{subst}
use hdh.Timer.Steps as Clock
use hdh.Timer.Barrier.{attached}
use hdh.Timer.{start_timer}
use hdh.Loader.{Stdio}
use hdh.Machine.{Machine, Memory, Entry, start}
use hdh.Machine.Steps.{
  Step, loads, waits, adds, rests, finishes, ends, keeps, gives, takes, runs, arrives, stops,
  detaches, leaves, ticks, joins, Reach, here, next,
}

module _ {FilePath File Line : Type 0} (io : Stdio FilePath File Line) (time_slot : ℕ)
    (ld_processes : List (Entry FilePath)) where
  -- A step of the machine is a step of the timer's specification, or leaves the timer as it is.
  Step-timer :
      (m n : Machine)
      → Step io time_slot ld_processes m n
      → (n.timer ≡ m.timer) ⊎ Clock.Step m.timer n.timer
  Step-timer m n (loads _ _ _ _ _ _ _ _ _ _ _ _) = inl refl
  Step-timer m n (waits d _ _ w _ _ _ _) = inr (Clock.arrive 0 d w.is w.working)
  Step-timer m n (adds _ _ _ _ _ _ _ _ _ _ _ _) = inl refl
  Step-timer m n (rests d w _) = inr (Clock.arrive 0 d w.is w.working)
  Step-timer m n (finishes _ _ _ _ _) = inl refl
  Step-timer m n (ends d w _) = inr (Clock.detach 0 d w.is w.working)
  Step-timer m n (keeps _ _ _ _ _ _ _ _) = inl refl
  Step-timer m n (gives _ _ _ _ _ _ _ _) = inl refl
  Step-timer m n (takes _ _ _ _ _ _) = inl refl
  Step-timer m n (runs _ _ _ _ _ _ _ _ _) = inl refl
  Step-timer m n (arrives j d _ w _) = inr (Clock.arrive (length m.cpus - j) d w.is w.working)
  Step-timer m n (stops _ _ _ _ _ _ _ _) = inl refl
  Step-timer m n (detaches j d w _) = inr (Clock.detach (length m.cpus - j) d w.is w.working)
  Step-timer m n (leaves i d d' e w b) = inr (Clock.leave i d e w b)
  Step-timer m n (ticks t e) = inr (Clock.tick e)
  Step-timer m n (joins all) = inr (Clock.stop all)

  pub Reach-timer :
      (s m : Machine) → Reach io time_slot ld_processes s m → Clock.Reach s.timer m.timer
  Reach-timer s m here = Clock.here
  Reach-timer s end (next {m} r st) = elim (Step-timer m end st) [
    | inl same ↦ subst (Clock.Reach s.timer) (sym same) (Reach-timer s m r)
    | inr moved ↦ Clock.next (Reach-timer s m r) moved
  ]

  -- However the loader, the processors and the timer's thread run from the start of the program with
  -- `num_cpus` processors: the timer goes through a run of its specification for `num_cpus + 1`
  -- devices. Every use that the program makes of the timer is one that the specification allows.
  pub Reach-clock :
      (memory : Memory) (num_cpus memramsz memswpsz : ℕ) (m : Machine)
      → Reach io time_slot ld_processes (start memory num_cpus memramsz memswpsz) m
      → Clock.Reach (start_timer (attached (num_cpus + 1))) m.timer
  unfolding start
  Reach-clock memory num_cpus memramsz memswpsz m r =
      Reach-timer (start memory num_cpus memramsz memswpsz) m r
