-- ===== src/Machine/Order/Timing.antt =====
-- src/os.c and src/timer.c: the ends of the time slots keep the order.
use mathlib.Core.Option.{some_inj}
use hdh.Base.{
  ℕ, ◌-◌, ◌≤◌, ◌≡◌, ◌≢◌, inl, inr, refl, sym, ap, ◌∙◌, ◌==◌, Bool, true, false, Bool-cases, some,
  List, length, get_elem?, get_elem?-set_ne, arith,
}
use hdh.Timer.{Timer, Device, Phase, stop_timer}
use hdh.Timer.Steps.{put}
use hdh.Timer.Invariant.{IsTimed, set-cases}
use hdh.Timer.Phases.{
  SamePhases, same_phases, Ticked, within, ended, ended-none_works, released-behind,
}
use hdh.Machine.{Machine, Place, head, calling, chosen, ending, off}
use hdh.Machine.Weight.{one, backlog}
use hdh.Machine.Order.{seen_empty, not_resting, pending, Exhausted, IsOrdered, IsWorking-put}

module _ {A : Type 0} (ld_processes : List A) (num_cpus : ℕ) where
  -- A thread comes back from next_slot.
  pub leaves-IsOrdered :
      (m : Machine) (i : ℕ) (d new : Device)
      → IsTimed m.timer
      → get_elem? m.timer.dev_list i ≡ some d
      → d.phase ≡ Phase.waiting
      → d.done ≡ false
      → new.phase ≡ Phase.working
      → IsOrdered ld_processes num_cpus m
      → IsOrdered ld_processes num_cpus (record m { timer = put m.timer i new })
  leaves-IsOrdered m i d new timed at w free now inv = record {
    size = inv.size;
    works = λ j fresh c e.
        let (b, v) = inv.works j fresh c e in
        let other : i ≢ length m.cpus - j = λ q.
          let same : d ≡ b = some_inj.0 (sym at ∙ ap (get_elem? m.timer.dev_list) q ∙ v.is) in
          let phase = ap Device.phase same in absurd (ground (arith, phase, w, v.working)) in
        (b, IsWorking-put m.timer i (length m.cpus - j) b new other v);
    stopped_done = inv.stopped_done;
    done_over = inv.done_over;
    over = inv.over;
    away = λ left b e. elim (set-cases m.timer.dev_list i 0 new b e) [
      | inl (_, is) ↦ λ q. let phase = ap Device.phase is in absurd (ground (arith, phase, q, now))
      | inr (_, old) ↦ inv.away left b old
    ];
    quiet = λ all busy ahead. inv.quiet all busy (λ b g v. elim (Bool-cases (i == 0)) [
      | inl first ↦
          let is : i ≡ 0 = ground arith in
          let same : d ≡ b = some_inj.0 (sym at ∙ ap (get_elem? m.timer.dev_list) is ∙ g) in
          λ q. absurd (released-behind m.timer i d timed at w free (ap Device.slots same ∙ q))
      | inr other ↦ ahead b (get_elem?-set_ne m.timer.dev_list i 0 new (ground arith) ∙ g) v
    ]);
  }

  within-IsOrdered :
      (m : Machine) (t : Timer)
      → t.time ≡ m.timer.time
      → SamePhases m.timer.dev_list t.dev_list
      → IsOrdered ld_processes num_cpus m
      → IsOrdered ld_processes num_cpus (record m { timer = t })
  within-IsOrdered m t now same inv = record {
    size = inv.size;
    works = λ j fresh c e.
        let (b, v) = inv.works j fresh c e in
        let (b', g, phase, _) = same.forth (length m.cpus - j) b v.is in
        (b', record { is = g; working = phase ∙ v.working });
    stopped_done = inv.stopped_done;
    done_over = inv.done_over;
    over = inv.over;
    away = λ left b e q.
        let (old, g, phase, _) = same.back 0 b e in inv.away left old g (sym phase ∙ q);
    quiet = λ all busy ahead. inv.quiet all busy (λ b g v q.
        let (b', g', phase, slots) = same.forth 0 b g in
        ahead b' g' (phase ∙ v) (slots ∙ q ∙ sym now));
  }

  -- When a slot ends no processor has chosen a process and not run it.
  ended-IsOrdered :
      (m : Machine) (t : Timer)
      → t.dev_list ≡ m.timer.dev_list
      → ((i : ℕ) (d : Device) → get_elem? t.dev_list i ≡ some d → d.phase ≢ Phase.working)
      → IsOrdered ld_processes num_cpus m
      → IsOrdered ld_processes num_cpus (record m { timer = t })
  ended-IsOrdered m t same none_works inv =
      let busy : (j : ℕ) (fresh : Bool) (c : _) → get_elem? m.cpus j ≢ some (chosen fresh c) =
        λ j fresh c g.
          let (b, v) = inv.works j fresh c g in
          none_works (length m.cpus - j) b (ap (λ l. get_elem? l (length m.cpus - j)) same ∙ v.is)
            v.working in
      record {
        size = inv.size;
        works = λ j fresh c g. absurd (busy j fresh c g);
        stopped_done = inv.stopped_done;
        done_over = inv.done_over;
        over = inv.over;
        away = λ left b g. inv.away left b (sym (ap (λ l. get_elem? l 0) same) ∙ g);
        quiet = λ all _ _ j x g seen. stopped_only m inv all busy j x g seen;
      }
    where
      stopped_only :
          (m : Machine)
          → IsOrdered ld_processes num_cpus m
          → Exhausted ld_processes m
          → ((j : ℕ) (fresh : Bool) (c : _) → get_elem? m.cpus j ≢ some (chosen fresh c))
          → (j : ℕ) (x : Place) → get_elem? m.cpus j ≡ some x
          → seen_empty x ≡ true
          → backlog one m.kernel.sched ≤ pending m.cpus
      stopped_only m inv all busy j (head c) g seen = absurd (cc)
      stopped_only m inv all busy j (ending c) g seen = absurd (cc)
      stopped_only m inv all busy j (calling fresh c) g seen = absurd (cc)
      stopped_only m inv all busy j (chosen fresh c) g seen = absurd (busy j fresh c g)
      stopped_only m inv all busy j off g seen =
          let left = inv.done_over (inv.stopped_done j g) in
          inv.quiet all (not_resting _ left) (λ b e v. absurd (inv.away left b e v)) j off g seen

  pub ticks-IsOrdered :
      (m : Machine) (t : Timer)
      → IsTimed t
      → Ticked m.timer t
      → IsOrdered ld_processes num_cpus m
      → IsOrdered ld_processes num_cpus (record m { timer = t })
  ticks-IsOrdered m t timed (within now same) inv = within-IsOrdered m t now same inv
  ticks-IsOrdered m t timed (ended f e same stage) inv =
      ended-IsOrdered m t same (λ i d at. ended-none_works t f e i d stage timed at) inv

  pub joins-IsOrdered :
      (m : Machine)
      → IsOrdered ld_processes num_cpus m
      → IsOrdered ld_processes num_cpus (record m { timer = stop_timer m.timer })
  unfolding stop_timer
  joins-IsOrdered m inv =
      within-IsOrdered m (stop_timer m.timer) refl (same_phases m.timer.dev_list) inv
