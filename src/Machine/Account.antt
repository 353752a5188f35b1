-- ===== src/Machine/Account.antt =====
-- src/os.c: where the processes are, while the threads run in any order.
use hdh.Base.{
  ℕ, ◌+◌, ◌≤◌, ◌<◌, ◌≡◌, refl, sym, ap, Bool, true, false, Option, none, some, List, length,
  get_elem?, lt-get_elem?, set, update, arith,
}
use hdh.Queue.{Ptr, max_queue_size}
use hdh.Sched.{Sched, add_mlq_proc}
use hdh.Kernel.{Kernel, Pcb}
use hdh.Processor.{Processor, give_up, take_proc}
use hdh.Loader.{Stdio}
use hdh.Machine.{
  Machine, Memory, Loader, Place, Entry, head, calling, chosen, ending, off, idle, start,
}
use hdh.Machine.Steps.{
  is_null, Step, loads, waits, adds, rests, finishes, ends, keeps, gives, takes, runs, arrives,
  stops, detaches, leaves, ticks, joins, Reach, here, next,
}
use hdh.Machine.Weight.{of_proc, one, mark, backlog, backlog-add_mlq_proc, backlog-init_scheduler}
use hdh.Machine.Places.{
  place_proc, on_cpus, kept, loaded, on_cpus-set, on_cpus-le, on_cpus-idle, present-load,
}
use hdh.Machine.Reloads.{present, Exchanges, still, take_proc-Exchanges, give_up-Exchanges}
use hdh.Machine.Runs.{dispatch-next, dispatch-stopped}

-- What a step does to the processes: `gained` is loaded and `lost` is freed.
record Changes (m n : Machine) : Type 0 where
  gained : Option Ptr
  lost : Option Ptr
  moved : (w : Ptr → ℕ) → kept w n + of_proc w lost ≡ kept w m + of_proc w gained
  left :
      (q : Ptr)
      → present n.kernel q + of_proc (mark q) lost ≡ present m.kernel q + of_proc (mark q) gained
  counted : loaded n ≡ loaded m + of_proc one gained

-- Every process that is there is in one place, and in no other; the places hold no more than load
-- has returned.
pub record IsAccounted (entries : ℕ) (m : Machine) : Type 0 where
  pub each : (q : Ptr) → kept (mark q) m ≡ present m.kernel q
  pub few : kept one m ≤ loaded m
  pub within : loaded m ≤ entries

Changes-IsAccounted :
    (entries : ℕ) (m n : Machine)
    → Changes m n
    → (loaded n ≤ entries)
    → IsAccounted entries m
    → IsAccounted entries n
Changes-IsAccounted entries m n c le inv = record {
  each = λ q. omega (arith, c.moved (mark q), c.left q, inv.each q);
  few = omega (arith, c.moved one, c.counted, inv.few);
  within = le;
}

-- Nothing but the timer changes, or what does not hold a process.
same-IsAccounted :
    (entries : ℕ) (m n : Machine)
    → n.kernel ≡ m.kernel
    → n.cpus ≡ m.cpus
    → n.loader.i ≡ m.loader.i
    → n.loader.proc ≡ m.loader.proc
    → IsAccounted entries m
    → IsAccounted entries n
same-IsAccounted entries m n k c i p inv = record {
  each = λ q. rw (k, c, p) (inv.each q);
  few = rw (k, c, p, i) inv.few;
  within = rw (i, p) inv.within;
}

module _ {FilePath File Line : Type 0} (io : Stdio FilePath File Line) (time_slot : ℕ)
    (ld_processes : List (Entry FilePath)) where
  abbrev Keeps : Machine → Machine → Type 0
  Keeps m n = IsAccounted (length ld_processes) m → IsAccounted (length ld_processes) n

  loads-Keeps :
      (m : Machine) (p : Ptr) (pcb : Pcb) (entry : Entry FilePath) (avail_pid : ℕ)
      → m.loader.proc ≡ none
      → get_elem? ld_processes m.loader.i ≡ some entry
      → m.kernel.procs p ≡ none
      → Keeps m (record m {
        kernel = record m.kernel { procs = update m.kernel.procs p (some pcb) };
        loader = record m.loader { proc = some p };
        avail_pid = avail_pid;
      })
  loads-Keeps m p pcb entry avail_pid idle e free =
      Changes-IsAccounted (length ld_processes) m _
        (record {
          gained = some p;
          lost = none;
          moved = λ w. omega (arith, ap (of_proc w) idle);
          left = λ q. omega (arith, present-load m.kernel p q pcb free);
          counted = omega (arith, ap (of_proc one) idle);
        })
        (omega (arith, lt-get_elem? ld_processes m.loader.i e))

  adds-Keeps :
      (m n : Machine) (p : Ptr) (prio : ℕ) (sched : Sched)
      → length ld_processes ≤ max_queue_size
      → m.loader.proc ≡ some p
      → add_mlq_proc m.kernel.sched p prio ≡ some sched
      → n.kernel ≡ record m.kernel { sched = sched }
      → n.cpus ≡ m.cpus
      → n.loader.i ≡ m.loader.i + 1
      → n.loader.proc ≡ none
      → Keeps m n
  adds-Keeps m n p prio sched few has puts k c i l inv =
      let waits = ap (of_proc one) has in
      let room : backlog one m.kernel.sched < max_queue_size =
        omega (arith, waits, few, inv.few, inv.within) in
      Changes-IsAccounted (length ld_processes) m n
        (record {
          gained = none;
          lost = none;
          moved = λ w. omega (
            arith,
            backlog-add_mlq_proc w m.kernel.sched sched p prio puts room,
            ap (λ (x : Kernel). backlog w x.sched) k,
            ap (on_cpus w) c,
            ap (of_proc w) l,
            ap (of_proc w) has,
          );
          left = λ q. ap (λ (x : Kernel). present x q + 0) k;
          counted = omega (arith, ap (of_proc one) l, waits, i);
        })
        (omega (arith, ap (of_proc one) l, waits, i, inv.within)) inv

  -- While the places hold no more processes than a queue, a processor with a process finds room.
  pub give_up-accounted :
      (m : Machine) (j : ℕ) (c : Processor) (r : Bool × Processor × Kernel)
      → length ld_processes ≤ max_queue_size
      → get_elem? m.cpus j ≡ some (head c)
      → give_up m.kernel c ≡ some r
      → IsAccounted (length ld_processes) m
      → Exchanges m.kernel c.proc (still r.0 r.1) r.2
  give_up-accounted m j c r few at e inv =
      give_up-Exchanges m.kernel c r
        (λ p has. omega (
          arith,
          few,
          inv.few,
          inv.within,
          ap (of_proc one) has,
          on_cpus-le one m.cpus j (head c) at,
        ))
        e

  exchange-Keeps :
      (m : Machine) (j : ℕ) (x y : Place) (k : Kernel)
      → get_elem? m.cpus j ≡ some x
      → Exchanges m.kernel (place_proc x) (place_proc y) k
      → Keeps m (record m { kernel = k; cpus = set m.cpus j y })
  exchange-Keeps m j x y k at exchanged inv =
      Changes-IsAccounted (length ld_processes) m _
        (record {
          gained = none;
          lost = exchanged.lost;
          moved = λ w. omega (arith, exchanged.moved w, on_cpus-set w m.cpus j x y at);
          left = λ q. omega (arith, exchanged.left q);
          counted = omega arith;
        })
        inv.within inv

  -- A processor keeps its process, or has none before and behind the step.
  place-Keeps :
      (m n : Machine) (j : ℕ) (x y : Place)
      → get_elem? m.cpus j ≡ some x
      → n.cpus ≡ set m.cpus j y
      → place_proc y ≡ place_proc x
      → n.loader ≡ m.loader
      → n.kernel.sched ≡ m.kernel.sched
      → ((q : Ptr) → present n.kernel q ≡ present m.kernel q)
      → Keeps m n
  place-Keeps m n j x y at c same l queues heap inv =
      Changes-IsAccounted (length ld_processes) m n
        (record {
          gained = none;
          lost = none;
          moved = λ w. omega (
            arith,
            ap (backlog w) queues,
            ap (on_cpus w) c,
            ap (of_proc w) same,
            ap (λ (z : Loader). of_proc w z.proc) l,
            on_cpus-set w m.cpus j x y at,
          );
          left = λ q. omega (arith, heap q);
          counted = omega (arith, ap Loader.i l, ap (λ (z : Loader). of_proc one z.proc) l);
        })
        (omega (arith, ap Loader.i l, ap (λ (z : Loader). of_proc one z.proc) l, inv.within)) inv

  Step-IsAccounted :
      (m n : Machine)
      → length ld_processes ≤ max_queue_size
      → Step io time_slot ld_processes m n
      → Keeps m n
  Step-IsAccounted m n few (loads d entry memory p pcb avail _ _ idle e free _) =
      loads-Keeps m p _ entry avail idle e free
  Step-IsAccounted m n few (waits _ _ _ _ _ _ _ _) =
      same-IsAccounted (length ld_processes) m n refl refl refl refl
  Step-IsAccounted m n few (adds d entry p pcb sched _ _ has _ _ _ puts) =
      adds-Keeps m n p pcb.prio sched few has puts refl refl refl refl
  Step-IsAccounted m n few (finishes _ _ _ _ _) =
      same-IsAccounted (length ld_processes) m n refl refl refl refl
  Step-IsAccounted m n few (ends _ _ _) =
      same-IsAccounted (length ld_processes) m n refl refl refl refl
  Step-IsAccounted m n few (keeps j d c c' k _ at e) = λ inv.
      exchange-Keeps m j (head c) (chosen false c') k at
        (give_up-accounted m j c (false, c', k) few at e inv) inv
  Step-IsAccounted m n few (gives j d c c' k _ at e) = λ inv.
      exchange-Keeps m j (head c) (calling (is_null c.proc) c') k at
        (give_up-accounted m j c (true, c', k) few at e inv) inv
  Step-IsAccounted m n few (takes j d fresh c _ at) =
      exchange-Keeps m j (calling fresh c) (chosen fresh (take_proc m.kernel c).0)
        (take_proc m.kernel c).1 at (take_proc-Exchanges m.kernel c)
  Step-IsAccounted m n few (runs j d fresh c c' k _ at e) =
      let (same, queues, heap) = dispatch-next fresh m.done time_slot c c' m.kernel k e in
      place-Keeps m n j (chosen fresh c) (ending c') at refl same refl queues heap
  Step-IsAccounted m n few (arrives j d c _ at) =
      place-Keeps m n j (ending c) (head c) at refl refl refl refl (λ _. refl)
  Step-IsAccounted m n few (detaches j d _ at) =
      place-Keeps m n j off off at refl refl refl refl (λ _. refl)
  Step-IsAccounted m n few (rests _ _ _) =
      same-IsAccounted (length ld_processes) m n refl refl refl refl
  Step-IsAccounted m n few (stops j d fresh c k _ at e) =
      let (idle, still, _) = dispatch-stopped fresh m.done time_slot c m.kernel k e in
      place-Keeps m n j (chosen fresh c) off at refl (sym idle) refl (ap Kernel.sched still)
        (λ q. ap (λ (x : Kernel). present x q) still)
  Step-IsAccounted m n few (leaves _ _ _ _ _ _) =
      same-IsAccounted (length ld_processes) m n refl refl refl refl
  Step-IsAccounted m n few (ticks _ _) =
      same-IsAccounted (length ld_processes) m n refl refl refl refl
  Step-IsAccounted m n few (joins _) =
      same-IsAccounted (length ld_processes) m n refl refl refl refl

  pub start-IsAccounted :
      (memory : Memory) (num_cpus memramsz memswpsz : ℕ)
      → IsAccounted (length ld_processes) (start memory num_cpus memramsz memswpsz)
  unfolding start
  start-IsAccounted memory num_cpus memramsz memswpsz = record {
    each = λ q.
        omega (arith, backlog-init_scheduler (mark q) memory.sched, on_cpus-idle (mark q) num_cpus);
    few = omega (arith, backlog-init_scheduler one memory.sched, on_cpus-idle one num_cpus);
    within = omega arith;
  }

  pub Reach-IsAccounted :
      (s m : Machine)
      → length ld_processes ≤ max_queue_size
      → Reach io time_slot ld_processes s m
      → Keeps s m
  Reach-IsAccounted s m few here inv = inv
  Reach-IsAccounted s end few (next {m} r st) inv =
      Step-IsAccounted m end few st (Reach-IsAccounted s m few r inv)

  -- Let the configuration have at most as many processes as a ready queue holds. However the
  -- threads run from the start of the program: a process control block that has been loaded and not
  -- freed is in exactly one place, once in a ready queue, or on one processor, or with the loader
  -- until its start time; and an address without one is in none of them. A processor that has given
  -- its process up with put_proc or free, and will replace its pointer with what get_proc returns,
  -- does not count as a place.
  pub Reach-one_place :
      (memory : Memory) (num_cpus memramsz memswpsz : ℕ) (m : Machine)
      → length ld_processes ≤ max_queue_size
      → Reach io time_slot ld_processes (start memory num_cpus memramsz memswpsz) m
      → (p : Ptr)
      → backlog (mark p) m.kernel.sched + on_cpus (mark p) m.cpus + of_proc (mark p) m.loader.proc
        ≡ present m.kernel p
  Reach-one_place memory num_cpus memramsz memswpsz m few r p =
      let inv = Reach-IsAccounted _ m few r (start-IsAccounted memory num_cpus memramsz memswpsz) in
      inv.each p
