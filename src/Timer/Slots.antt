-- ===== src/Timer/Slots.antt =====
-- src/timer.c: once every device is done or has finished, timer_routine by itself ends the round.
use hdh.Base.{
  ℕ, zero, suc, ◌+◌, ◌≡◌, refl, sym, ap, ◌∙◌, ◌==◌, if◌then◌else◌, true, false, inl, inr, ◌||◌,
  Option, none, some, Option-cases, ◌>>=◌, List, [], ◌∷◌, map, length, get_elem?, get_elem?-lt, set,
  length-set, arith,
}
use mathlib.Core.Option.{some_inj}
use hdh.Base.Word.{u64}
use hdh.Timer.{Device, Timer, scan, release, stopped, loop_head, timer_routine}
use hdh.Timer.Routine.{at_stage}
use hdh.Timer.Rounds.{tick_pass, tick_time, tick_release, tick_head}

-- A number of steps of timer_routine with no other thread between them.
unfoldable pub ticks : ℕ → Timer → Option Timer
ticks zero t = some t
ticks (suc n) t = timer_routine t >>= ticks n

pub ticks-next : (n : ℕ) (t u : Timer) → timer_routine t ≡ some u → ticks (suc n) t ≡ ticks n u
unfolding ticks
ticks-next n t u e = rw e refl

ticks-add : (m n : ℕ) (t u : Timer) → ticks m t ≡ some u → ticks (m + n) t ≡ ticks n u
unfolding ticks
ticks-add zero n t u e =
    ap (λ m. ticks m t) (omega arith) ∙ ap (λ (o : Option Timer). o >>= ticks n) e
ticks-add (suc m) n t u e = elim (Option-cases (timer_routine t)) [
  | inl stuck ↦ let no_u : none ≡ some u = rw stuck at e in absurd (cc)
  | inr (v, goes) ↦
      let grouped : suc m + n ≡ suc (m + n) = omega arith in
      ap (λ k. ticks k t) grouped ∙ ticks-next (m + n) t v goes ∙ ticks-add m n v u (rw goes at e)
]

-- The devices that have finished, and the devices released, from a place of the list on.
abbrev pub finished_from : ℕ → List Device → ℕ
finished_from zero [] = 0
finished_from zero (d ∷ l) = (if d.fsh then 1 else 0) + finished_from zero l
finished_from (suc i) [] = 0
finished_from (suc i) (d ∷ l) = finished_from i l

abbrev pub freed : Device → Device
freed d = record d { done = false }

abbrev freed_from : ℕ → List Device → List Device
freed_from zero l = map freed l
freed_from (suc i) [] = []
freed_from (suc i) (d ∷ l) = d ∷ freed_from i l

finished-here :
    (l : List Device) (i : ℕ) (d : Device)
    → get_elem? l i ≡ some d
    → finished_from i l ≡ (if d.fsh then 1 else 0) + finished_from (suc i) l
finished-here [] i d e = absurd (cc)
finished-here (x ∷ l) zero d e =
    ap (λ (y : Device). (if y.fsh then 1 else 0) + finished_from 0 l) (some_inj.0 e)
finished-here (x ∷ l) (suc i) d e = finished-here l i d e

finished-end : (l : List Device) (i : ℕ) → length l ≡ i → finished_from i l ≡ 0
finished-end [] zero e = refl
finished-end [] (suc i) e = refl
finished-end (x ∷ l) zero e = absurd (omega arith)
finished-end (x ∷ l) (suc i) e = finished-end l i (omega arith)

freed-here :
    (l : List Device) (i : ℕ) (d : Device)
    → get_elem? l i ≡ some d
    → freed_from (suc i) (set l i (freed d)) ≡ freed_from i l
freed-here [] i d e = absurd (cc)
freed-here (x ∷ l) zero d e = ap (λ y. freed y ∷ map freed l) (sym (some_inj.0 e))
freed-here (x ∷ l) (suc i) d e = ap (◌∷◌ x) (freed-here l i d e)

freed-end : (l : List Device) (i : ℕ) → length l ≡ i → freed_from i l ≡ l
freed-end [] zero e = refl
freed-end [] (suc i) e = refl
freed-end (x ∷ l) zero e = absurd (omega arith)
freed-end (x ∷ l) (suc i) e = ap (◌∷◌ x) (freed-end l i (omega arith))

get_elem?-end : (l : List Device) (i : ℕ) → length l ≡ i → get_elem? l i ≡ none
get_elem?-end [] i e = refl
get_elem?-end (x ∷ l) zero e = absurd (omega arith)
get_elem?-end (x ∷ l) (suc i) e = get_elem?-end l i (omega arith)

-- The first loop, from the place `at` on, with `k` devices left.
scan_all :
    (t : Timer) (k at f : ℕ)
    → length t.dev_list ≡ at + k
    → ((i : ℕ) (d : Device) → get_elem? t.dev_list i ≡ some d → (d.done || d.fsh) ≡ true)
    → ticks (suc k) (at_stage t (scan at f at))
      ≡ some (record t {
        time = u64 (t.time + 1);
        stage = release 0 (f + finished_from at t.dev_list) (length t.dev_list);
      })
unfolding ticks
scan_all t zero at f len ready =
    let none_left : f + finished_from at t.dev_list ≡ f =
      omega (arith, finished-end t.dev_list at (omega arith)) in
    let all : length t.dev_list ≡ at = omega arith in
    ticks-next 0 _ _ (tick_time t at f at (get_elem?-end t.dev_list at all))
    ∙ rw (none_left, all, ticks) refl
scan_all t (suc k) at f len ready =
    let (d, it) = get_elem?-lt t.dev_list at (omega arith) in
    let one : at + 1 ≡ suc at = omega arith in
    let counted : (if d.fsh then f + 1 else f) + finished_from (at + 1) t.dev_list
        ≡ f + finished_from at t.dev_list =
      rw one (ground (arith, finished-here t.dev_list at d it)) in
    ticks-next (suc k) _ _ (tick_pass t at f at d it (ready at d it))
    ∙ scan_all t k (at + 1) (if d.fsh then f + 1 else f) (omega arith) ready
    ∙ ap (λ n. some (record t { time = u64 (t.time + 1); stage = release 0 n (length t.dev_list) }))
        counted

-- The second loop.
release_all :
    (t : Timer) (l : List Device) (k at f e : ℕ)
    → length l ≡ at + k
    → ticks (suc k) (record t { dev_list = l; stage = release at f e })
      ≡ some (record t {
        dev_list = freed_from at l;
        stage = if f == e then stopped else loop_head t.timer_stop;
      })
unfolding ticks
release_all t l zero at f e len =
    let all : length l ≡ at = omega arith in
    ticks-next 0 _ _ (tick_head (record t { dev_list = l }) at f e (get_elem?-end l at all))
    ∙ rw (freed-end l at all, ticks) refl
release_all t l (suc k) at f e len =
    let (d, it) = get_elem?-lt l at (omega arith) in
    let one : at + 1 ≡ suc at = omega arith in
    ticks-next (suc k) _ _ (tick_release (record t { dev_list = l }) at f e d it)
    ∙ release_all t (set l at (freed d)) k (at + 1) f e (omega (arith, length-set l at (freed d)))
    ∙ rw (one, freed-here l at d it) refl

-- When every device is done or has finished at the head of the loop of timer_routine, then `2 n + 2`
-- steps of it, for `n` devices, end the round: the time is one more (modulo 2 ^ 64), no device is
-- done, and the thread ends if every device has finished, or timer_stop is set, and is at the head
-- of its loop otherwise.
pub ticks-round :
    (t : Timer)
    → t.stage ≡ scan 0 0 0
    → ((i : ℕ) (d : Device) → get_elem? t.dev_list i ≡ some d → (d.done || d.fsh) ≡ true)
    → ticks (suc (length t.dev_list) + suc (length t.dev_list)) t
      ≡ some (record t {
        dev_list = map freed t.dev_list;
        time = u64 (t.time + 1);
        stage =
            if finished_from 0 t.dev_list == length t.dev_list
            then stopped
            else loop_head t.timer_stop;
      })
ticks-round t head ready =
    let at_head : t ≡ at_stage t (scan 0 0 0) = ap (at_stage t) head in
    let timed : Timer = record t { time = u64 (t.time + 1) } in
    ap (ticks (suc (length t.dev_list) + suc (length t.dev_list))) at_head
    ∙ ticks-add (suc (length t.dev_list)) (suc (length t.dev_list)) _ _
        (scan_all t (length t.dev_list) 0 0 (omega arith) ready)
    ∙ ap
        (λ n.
          ticks (suc (length t.dev_list))
            (record timed { stage = release 0 n (length t.dev_list) }))
        (omega arith)
    ∙ release_all timed t.dev_list (length t.dev_list) 0 (finished_from 0 t.dev_list)
        (length t.dev_list) (omega arith)
