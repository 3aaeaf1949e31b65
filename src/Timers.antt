-- ===== src/Timers.antt =====
-- util/timer/heap.go and timer.go: timers with their fire times in a heap, the tick that sends a
-- timer that is due to its channel, and what Do makes of it there. A timer is known by its address;
-- times are numbers of nanoseconds that do not overflow; `now` is Now(), read where the code reads
-- it. A channel has room for what is sent, and no callback panics.
pub mod Lawful
pub mod Pop
pub mod Tick
pub mod Rounds
pub mod Setup
pub mod Do
mod Tests
use origin.Prelude.{
  ℕ, zero, suc, ◌+◌, ◌-◌, nat_eq, ◌==◌, ltb, if◌then◌else◌, Bool, true, false, not, List, [], ◌∷◌,
  ◌++◌, Option, none, some, length, get_elem?, set, take, Outcome, ok, out_of_fuel, ◌>>=◌, or_panic,
}
use origin.Heap
use origin.Heap.{HeapInterface}

-- Timer, and the Timer in a Ticker. Of the functions only their presence counts here.
pub record Timer : Type 0 where
  pub cancelled : Bool
  pub c : ℕ
  pub interval : ℕ
  pub fire_time : ℕ
  pub cb : Bool
  pub cb_ex : Bool
  pub cb_on_close_timer : Bool
  pub r_open : Bool

-- What a timer's Do calls: a callback, OnCloseTimer, or the pool's Put.
pub data Called : Type 0 where
  ran ran_ex closed released : ℕ → Called

-- `at` is the memory, `heap` the slice of timerHeap, `sent` the channels' sends with the channel.
pub record World : Type 0 where
  pub at : ℕ → Timer
  pub heap : List ℕ
  pub sent : List (ℕ × ℕ)
  pub called : List Called

-- A write to the timer `t`.
abbrev pub put : ℕ → Timer → World → World
put t timer w = record w { at = λ u. if t == u then timer else w.at u }

abbrev pub set_open : ℕ → Bool → World → World
set_open t b_open w = put t (record (w.at t) { r_open = b_open }) w

abbrev pub is_active : Timer → Bool
is_active t = not t.cancelled

unfoldable pub cancel : ℕ → World → World
cancel t w = put t (record (w.at t) { cancelled = true }) w

-- *_TimerHeap as heap.Interface, where `fire` is GetFireTime
unfoldable pub less : (ℕ → ℕ) → List ℕ → ℕ → ℕ → Outcome Bool
less fire h i j =
    or_panic (get_elem? h i) >>= λ a. or_panic (get_elem? h j) >>= λ b. ok (ltb (fire a) (fire b))

unfoldable pub swap : List ℕ → ℕ → ℕ → Outcome (List ℕ)
swap h i j =
    or_panic (get_elem? h i) >>= λ a. or_panic (get_elem? h j) >>= λ b. ok (set (set h i b) j a)

unfoldable pub append : List ℕ → ℕ → List ℕ
append h x = h ++ x ∷ []

unfoldable pub remove_last : List ℕ → Outcome (ℕ × List ℕ)
remove_last h = or_panic (get_elem? h (length h - 1)) >>= λ t. ok (t, take (length h - 1) h)

abbrev pub timers : (ℕ → ℕ) → HeapInterface (List ℕ) ℕ ℕ
timers fire = record {
  len = length;
  less = less fire;
  swap = swap;
  append = append;
  remove_last = remove_last;
}

abbrev pub fire_times : World → ℕ → ℕ
fire_times w t = (w.at t).fire_time

-- SetupTimer; `false` stands for nil.
unfoldable pub setup_timer : ℕ → World → Outcome (Bool × World)
setup_timer t w =
    if (w.at t).r_open
    then ok (false, w)
    else (let w' = set_open t true w in
        Heap.push (timers (fire_times w')) w'.heap t >>= λ h. ok (true, record w' { heap = h }))

-- What tick does once the timer is out of the heap: Open and AppendChannel.
unfoldable pub fire : ℕ → List ℕ → World → World
fire t h w =
    let w' = set_open t false (record w { heap = h }) in
    record w' { sent = w'.sent ++ ((w'.at t).c, t) ∷ [] }

unfoldable pub tick : ℕ → World → Outcome (Bool × World)
tick now w =
    if length w.heap == 0
    then ok (false, w)
    else (or_panic (get_elem? w.heap 0) >>= λ first.
        if ltb now (fire_times w first)
        then ok (false, w)
        else (Heap.pop (timers (fire_times w)) w.heap >>= λ (t, h). ok (true, fire t h w)))

-- The rounds of tickRoutine up to the one that sleeps, at a clock that stands still.
unfoldable pub tick_routine : ℕ → ℕ → World → Outcome World
tick_routine zero now w = out_of_fuel
tick_routine (suc fuel) now w =
    tick now w >>= λ (continue, w'). if continue then tick_routine fuel now w' else ok w'

-- The method Timer.SetupTimer; `false` is its error.
unfoldable pub setup_timer_at : ℕ → ℕ → World → Outcome (Bool × World)
setup_timer_at now t w =
    let timer = w.at t in
    setup_timer t (put t (record timer { fire_time = now + timer.interval }) w)

-- newTimer with NewTimer's SetupTimer, in the timer `t` from the pool, which is reset.
unfoldable pub new_timer : ℕ → ℕ → ℕ → ℕ → World → Outcome (Bool × World)
new_timer now d c t w = setup_timer t (
    put t
      (record {
        cancelled = false;
        c = c;
        interval = d;
        fire_time = now + d;
        cb = false;
        cb_ex = false;
        cb_on_close_timer = false;
        r_open = false;
      })
      w)

unfoldable pub call : Called → World → World
call f w = record w { called = w.called ++ f ∷ [] }

unfoldable pub close : ℕ → World → World
close t w = call (released t) (if (w.at t).cb_on_close_timer then call (closed t) w else w)

-- `run` is what the callback does, to this timer or others.
unfoldable pub run_callback : (ℕ → World → World) → ℕ → World → World
run_callback run t w =
    if (w.at t).cb
    then run t (call (ran t) w)
    else if (w.at t).cb_ex
    then run t (call (ran_ex t) w)
    else w

-- Timer.Do
unfoldable pub do_timer : (ℕ → World → World) → ℕ → World → World
do_timer run t w =
    if is_active (w.at t)
    then (let w' = run_callback run t w in if (w'.at t).r_open then w' else close t w')
    else close t w

-- Ticker.Do, the second Now() is `now`.
unfoldable pub do_ticker : (ℕ → World → World) → ℕ → ℕ → World → Outcome World
do_ticker run now t w =
    if is_active (w.at t)
    then (let w' = run_callback run t w in
        if is_active (w'.at t)
        then (setup_timer_at now t w' >>= λ (_, w''). ok w'')
        else ok (close t w'))
    else ok (close t w)
