-- ===== src/Machine/Order/Finish.antt =====
-- src/os.c: when every processor has stopped, all the work has been done.
use hdh.Base.{
  ℕ, suc, ◌+◌, ◌≤◌, ◌≡◌, refl, sym, ap, ◌∙◌, true, false, Option, none, some, List, [], ◌∷◌, length,
  length-replicate, get_elem?, get_elem?-lt, get_elem?-replicate, arith,
}
use hdh.Queue.{Ptr, max_queue_size}
use hdh.Kernel.{Kernel, Pcb}
use hdh.Processor.{take_proc}
use hdh.Loader.{Stdio}
use hdh.Timer.{Device}
use hdh.Timer.Invariant.{IsTimed}
use hdh.Timer.Barrier.{begin_slot-some, start_timer-IsTimed, Reach-IsTimed}
use hdh.Timer.Phases.{timer_routine-Ticked}
use hdh.Machine.{Machine, Memory, Place, Entry, head, chosen, ending, off, idle, start}
use hdh.Machine.Steps.{
  is_null, Step, loads, waits, adds, rests, finishes, ends, keeps, gives, takes, runs, arrives,
  stops, detaches, leaves, ticks, joins, Reach, here, next,
}
use hdh.Machine.Weight.{of_proc, one, mark, backlog, backlog-init_scheduler, backlog-mark}
use hdh.Machine.Reloads.{
  is_there, take_proc-Exchanges, take_proc-emptied, give_up-GivesUp, give_up-keeps,
}
use hdh.Machine.Runs.{dispatch-next, dispatch-stopped}
use hdh.Machine.Places.{on_cpus}
use hdh.Machine.Account.{
  IsAccounted, give_up-accounted, start-IsAccounted, Reach-IsAccounted, Reach-one_place,
}
use hdh.Machine.Clock.{Reach-clock}
use hdh.Machine.Order.{pending, not_resting, Exhausted, IsOrdered}
use hdh.Machine.Order.Loading.{
  loads-IsOrdered, waits-IsOrdered, adds-IsOrdered, rests-IsOrdered, finishes-IsOrdered,
  ends-IsOrdered,
}
use hdh.Machine.Order.Processing.{
  keeps-IsOrdered, gives-IsOrdered, takes-IsOrdered, goes-IsOrdered, leaves_slot-IsOrdered,
}
use hdh.Machine.Order.Timing.{leaves-IsOrdered, ticks-IsOrdered, joins-IsOrdered}

on_cpus-off :
    (w : Ptr → ℕ) (l : List Place)
    → ((j : ℕ) (x : Place) → get_elem? l j ≡ some x → x ≡ off)
    → on_cpus w l ≡ 0
on_cpus-off w [] all = refl
on_cpus-off w (x ∷ l) all =
    let first : x ≡ off = all 0 x refl in
    rw first (omega (arith, on_cpus-off w l (λ j y e. all (suc j) y e)))

pending-off :
    (l : List Place) → ((j : ℕ) (x : Place) → get_elem? l j ≡ some x → x ≡ off) → pending l ≡ 0
pending-off [] all = refl
pending-off (x ∷ l) all =
    let first : x ≡ off = all 0 x refl in
    rw first (omega (arith, pending-off l (λ j y e. all (suc j) y e)))

is_there-none : (o : Option Pcb) → is_there o ≡ 0 → o ≡ none
is_there-none none e = refl
is_there-none (some pcb) e = absurd (omega (arith, e))

module _ {FilePath File Line : Type 0} (io : Stdio FilePath File Line) (time_slot : ℕ)
    (ld_processes : List (Entry FilePath)) (num_cpus : ℕ) where
  Step-IsOrdered :
      (m n : Machine)
      → length ld_processes ≤ max_queue_size
      → IsTimed m.timer
      → IsTimed n.timer
      → IsAccounted (length ld_processes) m
      → Step io time_slot ld_processes m n
      → IsOrdered ld_processes num_cpus m
      → IsOrdered ld_processes num_cpus n
  Step-IsOrdered m n few timed after acc (loads _ entry memory p pcb avail _ at _ _ _ _) =
      loads-IsOrdered ld_processes num_cpus m _ p avail at
  Step-IsOrdered m n few timed after acc (waits d _ p _ at has _ _) =
      waits-IsOrdered ld_processes num_cpus m p _ at has
  Step-IsOrdered m n few timed after acc (adds d _ p pcb sched w at _ _ _ _ _) =
      adds-IsOrdered ld_processes num_cpus m sched at
  Step-IsOrdered m n few timed after acc (rests d w at) =
      rests-IsOrdered ld_processes num_cpus m d timed w at
  Step-IsOrdered m n few timed after acc (finishes d w at holds all) =
      finishes-IsOrdered ld_processes num_cpus m d w at holds all
  Step-IsOrdered m n few timed after acc (ends d w at) =
      ends-IsOrdered ld_processes num_cpus m d w at
  Step-IsOrdered m n few timed after acc (keeps j d c c' k w at e) =
      keeps-IsOrdered ld_processes num_cpus m j d c c' k w at
        (give_up-accounted io time_slot ld_processes m j c (false, c', k) few at e acc)
        (give_up-keeps m.kernel k c c' e) (sym (give_up-GivesUp m.kernel c (false, c', k) e).1)
  Step-IsOrdered m n few timed after acc (gives j d c c' k w at e) =
      gives-IsOrdered ld_processes num_cpus m j d (is_null c.proc) c c' k w at
        (give_up-accounted io time_slot ld_processes m j c (true, c', k) few at e acc)
  Step-IsOrdered m n few timed after acc (takes j d fresh c w at) =
      takes-IsOrdered ld_processes num_cpus m j d fresh c (take_proc m.kernel c).0
        (take_proc m.kernel c).1 w at (take_proc-Exchanges m.kernel c)
        (take_proc-emptied m.kernel c)
  Step-IsOrdered m n few timed after acc (runs j d fresh c c' k w at e) =
      let (_, queues, _) = dispatch-next fresh m.done time_slot c c' m.kernel k e in
      goes-IsOrdered ld_processes num_cpus m j d fresh c (ending c') k w at refl (λ q. absurd (cc))
        (λ q. absurd (cc)) queues
  Step-IsOrdered m n few timed after acc (arrives j d c w at) =
      leaves_slot-IsOrdered ld_processes num_cpus m j _ (ending c) (head c) at
        (λ _ _ q. absurd (cc)) refl (λ q. absurd (cc)) (λ q. absurd (cc))
  Step-IsOrdered m n few timed after acc (detaches j d w at) = λ inv.
      leaves_slot-IsOrdered ld_processes num_cpus m j _ off off at (λ _ _ q. absurd (cc)) refl
        (λ _. inv.stopped_done j at) (λ q. q) inv
  Step-IsOrdered m n few timed after acc (stops j d fresh c k w at e) =
      let (no_proc, still, is_done) = dispatch-stopped fresh m.done time_slot c m.kernel k e in
      goes-IsOrdered ld_processes num_cpus m j d fresh c off k w at refl (λ _. is_done)
        (λ _. ap is_null no_proc) (ap Kernel.sched still)
  Step-IsOrdered m n few timed after acc (leaves i d d' e w b) =
      let (free, is) = begin_slot-some d d' b in
      leaves-IsOrdered ld_processes num_cpus m i d d' timed e w free (sym (ap Device.phase is))
  Step-IsOrdered m n few timed after acc (ticks t e) =
      ticks-IsOrdered ld_processes num_cpus m t after
        (timer_routine-Ticked m.timer t m.timer.stage e)
  Step-IsOrdered m n few timed after acc (joins _) = joins-IsOrdered ld_processes num_cpus m

  start-IsOrdered :
      (memory : Memory) (memramsz memswpsz : ℕ)
      → IsOrdered ld_processes num_cpus (start memory num_cpus memramsz memswpsz)
  unfolding start
  start-IsOrdered memory memramsz memswpsz = record {
    size = length-replicate num_cpus (head idle);
    works = λ j fresh c e.
        let is = get_elem?-replicate num_cpus (head idle) (chosen fresh c) j e in absurd (cc);
    stopped_done = λ j e. let is = get_elem?-replicate num_cpus (head idle) off j e in absurd (cc);
    done_over = λ q. absurd (cc);
    over = λ left. absurd (cc);
    away = λ left. absurd (cc);
    quiet = λ _ _ _ _ _ _ _. omega (arith, backlog-init_scheduler one memory.sched);
  }

  timer-IsTimed :
      (memory : Memory) (memramsz memswpsz : ℕ) (m : Machine)
      → Reach io time_slot ld_processes (start memory num_cpus memramsz memswpsz) m
      → IsTimed m.timer
  timer-IsTimed memory memramsz memswpsz m r =
      Reach-IsTimed (start_timer-IsTimed (num_cpus + 1))
        (Reach-clock io time_slot ld_processes memory num_cpus memramsz memswpsz m r)

  Reach-IsOrdered :
      (memory : Memory) (memramsz memswpsz : ℕ) (m : Machine)
      → length ld_processes ≤ max_queue_size
      → Reach io time_slot ld_processes (start memory num_cpus memramsz memswpsz) m
      → IsOrdered ld_processes num_cpus m
  Reach-IsOrdered memory memramsz memswpsz m few here = start-IsOrdered memory memramsz memswpsz
  Reach-IsOrdered memory memramsz memswpsz end few (next {m} r st) =
      Step-IsOrdered m end few (timer-IsTimed memory memramsz memswpsz m r)
        (timer-IsTimed memory memramsz memswpsz end (next r st))
        (Reach-IsAccounted io time_slot ld_processes _ m few r
          (start-IsAccounted io time_slot ld_processes memory num_cpus memramsz memswpsz))
        st (Reach-IsOrdered memory memramsz memswpsz m few r)

  -- Nothing waits and no processor has a process.
  nothing_left :
      (m : Machine)
      → 1 ≤ num_cpus
      → ((j : ℕ) (x : Place) → get_elem? m.cpus j ≡ some x → x ≡ off)
      → IsOrdered ld_processes num_cpus m
      → Exhausted ld_processes m × (backlog one m.kernel.sched ≡ 0)
  nothing_left m cpus all_off inv =
      let (x, e) = get_elem?-lt m.cpus 0 (omega (arith, inv.size)) in
      let at : get_elem? m.cpus 0 ≡ some off = e ∙ ap some (all_off 0 x e) in
      let left = inv.done_over (inv.stopped_done 0 at) in
      (
        inv.over left,
        omega (
          arith,
          inv.quiet (inv.over left) (not_resting _ left) (λ d g w. absurd (inv.away left d g w)) 0
              off at refl,
          pending-off m.cpus all_off,
        ),
      )

  -- Let there be a processor, and at most as many processes as a ready queue holds. However the
  -- threads have run: when every processor has stopped, the loader has added every process of the
  -- configuration, it holds none, and no process control block is left, so that every process has
  -- been freed.
  pub Reach-all_finished :
      (memory : Memory) (memramsz memswpsz : ℕ) (m : Machine)
      → 1 ≤ num_cpus
      → length ld_processes ≤ max_queue_size
      → Reach io time_slot ld_processes (start memory num_cpus memramsz memswpsz) m
      → ((j : ℕ) (x : Place) → get_elem? m.cpus j ≡ some x → x ≡ off)
      → (get_elem? ld_processes m.loader.i ≡ none)
        × (m.loader.proc ≡ none)
        × ((p : Ptr) → m.kernel.procs p ≡ none)
  Reach-all_finished memory memramsz memswpsz m cpus few r all_off =
      let ((all, held), empty) =
        nothing_left m cpus all_off (Reach-IsOrdered memory memramsz memswpsz m few r) in
      (
        all,
        held,
        λ p. is_there-none (m.kernel.procs p) (
            omega (
              arith,
              Reach-one_place io time_slot ld_processes memory num_cpus memramsz memswpsz m few r p,
              backlog-mark p m.kernel.sched empty,
              on_cpus-off (mark p) m.cpus all_off,
              ap (of_proc (mark p)) held,
            )),
      )
