-- ===== src/Machine/Idle.antt =====
-- src/os.c: a processor that finds no process behind the last one never leaves its loop.
use mathlib.Core.Option.{some_inj}
use mathlib.Core.Path.{subst}
use hdh.Base.{
  ℕ, ◌+◌, ◌≤◌, ◌≡◌, ◌≢◌, inl, inr, refl, sym, ap, ◌∙◌, ◌==◌, Bool, true, false, Bool-cases, Option,
  none, some, List, get_elem?, get_elem?-set_self, get_elem?-set_ne, lt-get_elem?, set, arith,
}
use hdh.Queue.{Ptr}
use hdh.Kernel.{Kernel}
use hdh.Processor.{Processor, give_up, take_proc}
use hdh.Loader.{Stdio}
use hdh.Machine.{Machine, Place, Entry, head, calling, chosen, ending, off}
use hdh.Machine.Steps.{
  is_null, Step, loads, waits, adds, rests, finishes, ends, keeps, gives, takes, runs, arrives,
  stops, detaches, leaves, ticks, joins, Reach, here, next,
}
use hdh.Machine.Weight.{of_proc, one, backlog}
use hdh.Machine.Reloads.{Exchanges, still, take_proc-Exchanges, give_up-Exchanges, give_up-keeps}
use hdh.Machine.Places.{place_proc, on_cpus, on_cpus-set, on_cpus-le}
use hdh.Machine.Runs.{dispatch-next, dispatch-stopped, dispatch_fresh}
use hdh.Machine.Order.{Exhausted}

-- A place in the part of the loop for a processor that has had no process.
data IsIdle : Place → Type 0 where
  at_head : (c : Processor) → c.proc ≡ none → IsIdle (head c)
  at_call : (c : Processor) → IsIdle (calling true c)
  at_choice : (c : Processor) → c.proc ≡ none → IsIdle (chosen true c)
  at_end : (c : Processor) → c.proc ≡ none → IsIdle (ending c)

idle_head : (x : Place) (c : Processor) → IsIdle x → x ≡ head c → c.proc ≡ none
idle_head x c (at_head b h) e = let same : b ≡ c = cc in ap Processor.proc (sym same) ∙ h
idle_head x c (at_end b h) e = absurd (cc)
idle_head x c (at_call b) e = absurd (cc)
idle_head x c (at_choice b h) e = absurd (cc)

idle_choice :
    (x : Place) (fresh : Bool) (c : Processor)
    → IsIdle x
    → x ≡ chosen fresh c
    → (fresh ≡ true) × (c.proc ≡ none)
idle_choice x fresh c (at_head b h) e = absurd (cc)
idle_choice x fresh c (at_end b h) e = absurd (cc)
idle_choice x fresh c (at_call b) e = absurd (cc)
idle_choice x fresh c (at_choice b h) e =
    let same : b ≡ c = cc in (cc, ap Processor.proc (sym same) ∙ h)

idle_call :
    (x : Place) (fresh : Bool) (c : Processor) → IsIdle x → x ≡ calling fresh c → fresh ≡ true
idle_call x fresh c (at_head b h) e = absurd (cc)
idle_call x fresh c (at_end b h) e = absurd (cc)
idle_call x fresh c (at_call b) e = cc
idle_call x fresh c (at_choice b h) e = absurd (cc)

idle_end : (x : Place) (c : Processor) → IsIdle x → x ≡ ending c → c.proc ≡ none
idle_end x c (at_head b h) e = absurd (cc)
idle_end x c (at_call b) e = absurd (cc)
idle_end x c (at_choice b h) e = absurd (cc)
idle_end x c (at_end b h) e = let same : b ≡ c = cc in ap Processor.proc (sym same) ∙ h

idle_off : (x : Place) → IsIdle x → x ≢ off
idle_off x (at_head b h) e = absurd (cc)
idle_off x (at_end b h) e = absurd (cc)
idle_off x (at_call b) e = absurd (cc)
idle_off x (at_choice b h) e = absurd (cc)

nobody : (o : Option Ptr) → of_proc one o ≡ 0 → o ≡ none
nobody none e = refl
nobody (some p) e = absurd (cc)

module _ {FilePath File Line : Type 0} (io : Stdio FilePath File Line) (time_slot : ℕ)
    (ld_processes : List (Entry FilePath)) (j : ℕ) where
  -- Every process has been added, none waits or is on a processor, and the processor `j` is idle.
  record IsStuck (m : Machine) : Type 0 where
    all : Exhausted ld_processes m
    empty : backlog one m.kernel.sched + on_cpus one m.cpus ≡ 0
    place : Place
    at : get_elem? m.cpus j ≡ some place
    idle : IsIdle place

  -- A step of a processor that takes no process from elsewhere, and leaves the processor `j` idle.
  cpu-IsStuck :
      (m n : Machine) (i : ℕ) (x y : Place)
      → get_elem? m.cpus i ≡ some x
      → n.cpus ≡ set m.cpus i y
      → n.loader ≡ m.loader
      → backlog one n.kernel.sched + of_proc one (place_proc y)
        ≤ backlog one m.kernel.sched + of_proc one (place_proc x)
      → (IsIdle x → IsIdle y)
      → IsStuck m
      → IsStuck n
  cpu-IsStuck m n i x y at cpus loader none_comes stays inv =
      let nothing : backlog one n.kernel.sched + on_cpus one n.cpus ≡ 0 =
        omega
          (arith, none_comes, inv.empty, ap (on_cpus one) cpus, on_cpus-set one m.cpus i x y at) in
      elim (Bool-cases (i == j)) [
        | inl mine ↦
            let same : i ≡ j = ground arith in
            let is : inv.place ≡ x =
              some_inj.0 (sym inv.at ∙ ap (get_elem? m.cpus) (sym same) ∙ at) in
            record {
              all = rw loader inv.all;
              empty = nothing;
              place = y;
              at =
                  ap (λ l. get_elem? l j) cpus
                  ∙ ap (get_elem? (set m.cpus i y)) (sym same)
                  ∙ get_elem?-set_self m.cpus i y (lt-get_elem? m.cpus i at);
              idle = stays (subst IsIdle is inv.idle);
            }
        | inr other ↦ record {
          all = rw loader inv.all;
          empty = nothing;
          place = inv.place;
          at = ap (λ l. get_elem? l j) cpus ∙ get_elem?-set_ne m.cpus i j y (ground arith) ∙ inv.at;
          idle = inv.idle;
        }
      ]

  same-IsStuck :
      (m n : Machine)
      → n.kernel ≡ m.kernel
      → n.cpus ≡ m.cpus
      → n.loader.i ≡ m.loader.i
      → n.loader.proc ≡ m.loader.proc
      → IsStuck m
      → IsStuck n
  same-IsStuck m n k c i p inv = record {
    all = rw (i, p) inv.all;
    empty = rw (k, c) inv.empty;
    place = inv.place;
    at = rw c inv.at;
    idle = inv.idle;
  }

  gives-IsStuck :
      (m n : Machine) (i : ℕ) (c c' : Processor)
      → get_elem? m.cpus i ≡ some (head c)
      → Exchanges m.kernel c.proc none n.kernel
      → n.cpus ≡ set m.cpus i (calling (is_null c.proc) c')
      → n.loader ≡ m.loader
      → IsStuck m
      → IsStuck n
  gives-IsStuck m n i c c' at x cpus loader inv =
      cpu-IsStuck m n i (head c) (calling (is_null c.proc) c') at cpus loader
        (omega (arith, x.moved one))
        (λ is. let no_proc = idle_head (head c) c is refl in rw no_proc (at_call c')) inv

  takes-IsStuck :
      (m n : Machine) (i : ℕ) (fresh : Bool) (c c' : Processor)
      → get_elem? m.cpus i ≡ some (calling fresh c)
      → Exchanges m.kernel none c'.proc n.kernel
      → n.cpus ≡ set m.cpus i (chosen fresh c')
      → n.loader ≡ m.loader
      → IsStuck m
      → IsStuck n
  takes-IsStuck m n i fresh c c' at x cpus loader inv =
      cpu-IsStuck m n i (calling fresh c) (chosen fresh c') at cpus loader
        (omega (arith, x.moved one))
        (λ is.
          let new = idle_call (calling fresh c) fresh c is refl in
          rw new (at_choice c' (nobody c'.proc (omega (arith, x.moved one, inv.empty)))))
        inv

  -- While no processor has a process, there is room for one.
  gives_up :
      (m : Machine) (i : ℕ) (c : Processor) (r : Bool × Processor × Kernel)
      → get_elem? m.cpus i ≡ some (head c)
      → give_up m.kernel c ≡ some r
      → IsStuck m
      → Exchanges m.kernel c.proc (still r.0 r.1) r.2
  gives_up m i c r at e inv = give_up-Exchanges m.kernel c r (λ _ _. omega (arith, inv.empty)) e

  Step-IsStuck : (m n : Machine) → Step io time_slot ld_processes m n → IsStuck m → IsStuck n
  Step-IsStuck m n (loads _ entry _ _ _ _ _ _ _ e _ _) inv = absurd (ground (arith, inv.all.0, e))
  Step-IsStuck m n (waits _ _ _ _ _ _ _ _) inv = same-IsStuck m n refl refl refl refl inv
  Step-IsStuck m n (adds _ _ p _ _ _ _ has _ _ _ _) inv = absurd (ground (arith, inv.all.1, has))
  Step-IsStuck m n (finishes _ _ _ _ _) inv = same-IsStuck m n refl refl refl refl inv
  Step-IsStuck m n (ends _ _ _) inv = same-IsStuck m n refl refl refl refl inv
  Step-IsStuck m n (keeps i d c c' k _ at e) inv =
      let (p, has) = give_up-keeps m.kernel k c c' e in
      let x = gives_up m i c (false, c', k) at e inv in
      absurd (
        omega (
          arith,
          x.moved one,
          ap (of_proc one) has,
          inv.empty,
          on_cpus-le one m.cpus i (head c) at,
        ))
  Step-IsStuck m n (gives i d c c' k _ at e) inv =
      gives-IsStuck m n i c c' at (gives_up m i c (true, c', k) at e inv) refl refl inv
  Step-IsStuck m n (takes i d fresh c _ at) inv =
      takes-IsStuck m n i fresh c (take_proc m.kernel c).0 at (take_proc-Exchanges m.kernel c) refl
        refl inv
  Step-IsStuck m n (runs i d fresh c c' k _ at e) inv =
      let (same, queues, _) = dispatch-next fresh m.done time_slot c c' m.kernel k e in
      cpu-IsStuck m n i (chosen fresh c) (ending c') at refl refl
        (omega (arith, ap (backlog one) queues, ap (of_proc one) same))
        (λ is. at_end c' (same ∙ (idle_choice (chosen fresh c) fresh c is refl).1)) inv
  Step-IsStuck m n (arrives i d c _ at) inv =
      cpu-IsStuck m n i (ending c) (head c) at refl refl (omega arith)
        (λ is. at_head c (idle_end (ending c) c is refl)) inv
  Step-IsStuck m n (detaches i d _ at) inv =
      cpu-IsStuck m n i off off at refl refl (omega arith) (λ is. is) inv
  Step-IsStuck m n (rests _ _ _) inv = same-IsStuck m n refl refl refl refl inv
  Step-IsStuck m n (stops i d fresh c k _ at e) inv =
      let (no_proc, unmoved, _) = dispatch-stopped fresh m.done time_slot c m.kernel k e in
      cpu-IsStuck m n i (chosen fresh c) off at refl refl
        (omega (arith, ap (λ (x : Kernel). backlog one x.sched) unmoved))
        (λ is.
          let new = (idle_choice (chosen fresh c) fresh c is refl).0 in
          absurd (dispatch_fresh m.done time_slot c m.kernel k no_proc (rw new at e)))
        inv
  Step-IsStuck m n (leaves _ _ _ _ _ _) inv = same-IsStuck m n refl refl refl refl inv
  Step-IsStuck m n (ticks _ _) inv = same-IsStuck m n refl refl refl refl inv
  Step-IsStuck m n (joins _) inv = same-IsStuck m n refl refl refl refl inv

  Reach-IsStuck : (m n : Machine) → Reach io time_slot ld_processes m n → IsStuck m → IsStuck n
  Reach-IsStuck m n here inv = inv
  Reach-IsStuck s end (next {m} r st) inv = Step-IsStuck m end st (Reach-IsStuck s m r inv)

  -- Let every process have been added, none wait in a ready queue and none be on a processor, and
  -- let the processor `j` be at the head of its loop without a process. Then it never stops, however the threads go on, even
  -- after the loader has set `done`; so `main`, which joins every processor, never returns.
  pub Reach-never_stops :
      (m n : Machine) (c : Processor)
      → get_elem? ld_processes m.loader.i ≡ none
      → m.loader.proc ≡ none
      → backlog one m.kernel.sched ≡ 0
      → on_cpus one m.cpus ≡ 0
      → get_elem? m.cpus j ≡ some (head c)
      → c.proc ≡ none
      → Reach io time_slot ld_processes m n
      → get_elem? n.cpus j ≢ some off
  Reach-never_stops m n c all held empty nobody_runs at idle r e =
      let inv = Reach-IsStuck m n r (record {
        all = (all, held);
        empty = omega (arith, empty, nobody_runs);
        place = head c;
        at = at;
        idle = at_head c idle;
      }) in
      idle_off inv.place inv.idle (some_inj.0 (sym inv.at ∙ e))
