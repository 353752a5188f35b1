-- ===== src/Machine/Order/Loading.antt =====
-- src/os.c: the steps of ld_routine keep the order.
use mathlib.Core.Option.{some_inj}
use hdh.Base.{
  ℕ, ◌+◌, ◌-◌, ◌≡◌, refl, sym, ap, ◌∙◌, Bool, true, none, some, List, length, get_elem?,
  get_elem?-set_self, lt-get_elem?, arith,
}
use hdh.Sched.{Sched}
use hdh.Queue.{Ptr}
use hdh.Timer.{Device, end_slot, detach_event}
use hdh.Timer.Steps.{put}
use hdh.Timer.Invariant.{IsTimed}
use hdh.Timer.Barrier.{working_now}
use hdh.Machine.{Machine, Place, looping, resting, leaving, ended}
use hdh.Machine.Steps.{IsWorking}
use hdh.Machine.Order.{is_over, running, not_resting, IsOrdered, IsWorking-put, cpu_device}

module _ {A : Type 0} (ld_processes : List A) (num_cpus : ℕ) where
  -- A process is loaded; the loader holds it.
  pub loads-IsOrdered :
      (m : Machine) (procs : _) (p : Ptr) (avail_pid : ℕ)
      → m.loader.spot ≡ looping
      → IsOrdered ld_processes num_cpus m
      → IsOrdered ld_processes num_cpus (record m {
        kernel = record m.kernel { procs = procs };
        loader = record m.loader { proc = some p };
        avail_pid = avail_pid;
      })
  loads-IsOrdered m procs p avail_pid at inv = record {
    size = inv.size;
    works = inv.works;
    stopped_done = inv.stopped_done;
    done_over = inv.done_over;
    over = λ left. absurd (running _ looping at refl left);
    away = inv.away;
    quiet = λ (_, holds) _ _ _ _ _ _. absurd (cc);
  }

  -- The loader goes into next_slot.
  waiting-works :
      (m : Machine) (new : Device)
      → IsOrdered ld_processes num_cpus m
      → (j : ℕ) (fresh : Bool) (c : _) → get_elem? m.cpus j ≡ some (Place.chosen fresh c)
      → (d : Device) × IsWorking (put m.timer 0 new) (length m.cpus - j) d
  waiting-works m new inv j fresh c e =
      let (d, w) = inv.works j fresh c e in
      (
        d,
        IsWorking-put m.timer 0 _ d new (cpu_device (length m.cpus) j (lt-get_elem? m.cpus j e)) w,
      )

  pub waits-IsOrdered :
      (m : Machine) (p : Ptr) (new : Device)
      → m.loader.spot ≡ looping
      → m.loader.proc ≡ some p
      → IsOrdered ld_processes num_cpus m
      → IsOrdered ld_processes num_cpus (record m { timer = put m.timer 0 new })
  waits-IsOrdered m p new at holds inv = record {
    size = inv.size;
    works = waiting-works m new inv;
    stopped_done = inv.stopped_done;
    done_over = inv.done_over;
    over = inv.over;
    away = λ left. absurd (running _ looping at refl left);
    quiet = λ (_, none_held) _ _ _ _ _ _. absurd (cc);
  }

  -- Behind add_proc the loader calls next_slot.
  pub adds-IsOrdered :
      (m : Machine) (sched : Sched)
      → m.loader.spot ≡ looping
      → IsOrdered ld_processes num_cpus m
      → IsOrdered ld_processes num_cpus (record m {
        kernel = record m.kernel { sched = sched };
        loader = record { i = m.loader.i + 1; proc = none; spot = resting };
      })
  adds-IsOrdered m sched at inv = record {
    size = inv.size;
    works = inv.works;
    stopped_done = inv.stopped_done;
    done_over = λ is_done. absurd (running _ looping at refl (inv.done_over is_done));
    over = λ left. absurd (cc);
    away = λ left. absurd (cc);
    quiet = λ _ busy. absurd (busy refl);
  }

  -- After a process is added the loader waits for the end of the slot.
  pub rests-IsOrdered :
      (m : Machine) (d : Device)
      → IsTimed m.timer
      → IsWorking m.timer 0 d
      → m.loader.spot ≡ resting
      → IsOrdered ld_processes num_cpus m
      → IsOrdered ld_processes num_cpus (record m {
        loader = record m.loader { spot = looping };
        timer = put m.timer 0 (end_slot d);
      })
  unfolding end_slot
  rests-IsOrdered m d timed w at inv = record {
    size = inv.size;
    works = waiting-works m (end_slot d) inv;
    stopped_done = inv.stopped_done;
    done_over = λ is_done. absurd (running _ resting at refl (inv.done_over is_done));
    over = λ left. absurd (cc);
    away = λ left. absurd (cc);
    quiet = λ _ _ ahead. absurd (
        ahead (end_slot d)
          (get_elem?-set_self m.timer.dev_list 0 _ (lt-get_elem? m.timer.dev_list 0 w.is)) refl
          (working_now m.timer.time _ _ d (timed.in_time 0 d w.is) w.working));
  }

  pub finishes-IsOrdered :
      (m : Machine) (d : Device)
      → IsWorking m.timer 0 d
      → m.loader.spot ≡ looping
      → m.loader.proc ≡ none
      → get_elem? ld_processes m.loader.i ≡ none
      → IsOrdered ld_processes num_cpus m
      → IsOrdered ld_processes num_cpus
          (record m { done = true; loader = record m.loader { spot = leaving } })
  finishes-IsOrdered m d w at holds all inv = record {
    size = inv.size;
    works = inv.works;
    stopped_done = λ _ _. refl;
    done_over = λ _. refl;
    over = λ _. (all, holds);
    away = λ _ x e q.
        let same : d ≡ x = some_inj.0 (sym w.is ∙ e) in
        let phase = ap Device.phase same in absurd (ground (arith, phase, q, w.working));
    quiet = λ given _. inv.quiet given (λ q. absurd (ground (arith, at, q)));
  }

  pub ends-IsOrdered :
      (m : Machine) (d : Device)
      → IsWorking m.timer 0 d
      → m.loader.spot ≡ leaving
      → IsOrdered ld_processes num_cpus m
      → IsOrdered ld_processes num_cpus (record m {
        loader = record m.loader { spot = ended };
        timer = put m.timer 0 (detach_event d);
      })
  unfolding detach_event
  ends-IsOrdered m d w at inv =
      let left : is_over m.loader.spot ≡ true = ap is_over at in
      record {
        size = inv.size;
        works = waiting-works m (detach_event d) inv;
        stopped_done = inv.stopped_done;
        done_over = λ _. refl;
        over = λ _. inv.over left;
        away = λ _ x e q.
            let now =
              get_elem?-set_self m.timer.dev_list 0 (detach_event d)
                (lt-get_elem? m.timer.dev_list 0 w.is) in
            let phase = ap Device.phase (some_inj.0 (sym now ∙ e)) in
            absurd (ground (arith, phase, q));
        quiet =
            λ all _ _. inv.quiet all (not_resting _ left) (λ x e q. absurd (inv.away left x e q));
      }
