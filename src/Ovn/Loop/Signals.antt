-- ===== src/Ovn/Loop/Signals.antt =====
-- No signal is lost: a refresh follows it, and a reconcile follows the refresh.
use ovn_network_agent.Prelude.{
  ◌≡◌, refl, Bool, true, false, ◌&&◌, ◌||◌, not, List, [], ◌∷◌, arith, nat_eq, string_eq, bool_eq,
  pair_eq, any, int_eq,
}
use ovn_network_agent.Ovn.Loop.{
  LoopState, LoopInput, debounce_signal, debounce_fire, reconcile_fire, immediate_signal,
  LoopAction, refresh, on_change, loop_step, refresh_loop,
}

abbrev pub is_on_change : LoopAction → Bool
is_on_change on_change = true
is_on_change refresh = false

-- a refresh, and a reconcile after it
abbrev pub reconciled : List LoopAction → Bool
reconciled [] = false
reconciled (refresh ∷ actions) = any is_on_change actions
reconciled (on_change ∷ actions) = reconciled actions

-- the timer fires only while it runs
abbrev pub may_happen : LoopState → LoopInput → Bool
may_happen s debounce_fire = s.debounce
may_happen s reconcile_fire = s.reconcile
may_happen s _ = true

abbrev pub Happens : LoopState → List LoopInput → Type 0
Happens s [] = Unit
Happens s (i ∷ is) = (may_happen s i ≡ true) × Happens (loop_step true s i).0 is

-- no timer runs
abbrev pub is_quiet : LoopState → Bool
is_quiet s = not s.debounce && not s.reconcile

reconciles :
    (s : LoopState) (is : List LoopInput)
    → Happens s is
    → s.reconcile ≡ true
    → is_quiet (refresh_loop true s is).0 ≡ true
    → any is_on_change (refresh_loop true s is).1 ≡ true
unfolding refresh_loop loop_step
reconciles s [] h r q = ground arith
reconciles s (debounce_signal ∷ is) h r q = reconciles (record s { debounce = true }) is h.1 r q
reconciles s (debounce_fire ∷ is) h r q =
    reconciles (record { debounce = false; reconcile = s.reconcile || true }) is h.1 (ground arith)
      q
reconciles s (reconcile_fire ∷ is) h r q = refl
reconciles s (immediate_signal ∷ is) h r q = refl

refreshes :
    (s : LoopState) (is : List LoopInput)
    → Happens s is
    → s.debounce ≡ true
    → is_quiet (refresh_loop true s is).0 ≡ true
    → reconciled (refresh_loop true s is).1 ≡ true
unfolding refresh_loop loop_step
refreshes s [] h d q = ground arith
refreshes s (debounce_signal ∷ is) h d q = refreshes (record s { debounce = true }) is h.1 refl q
refreshes s (debounce_fire ∷ is) h d q =
    reconciles (record { debounce = false; reconcile = s.reconcile || true }) is h.1 (ground arith)
      q
refreshes s (reconcile_fire ∷ is) h d q = refreshes (record s { reconcile = false }) is h.1 d q
refreshes s (immediate_signal ∷ is) h d q = refl

-- With a callback, whatever the loop of the refreshes receives after a debounce signal, timers
-- firing only while they run: once no timer runs any more, a refresh has followed the signal, and
-- a reconcile the refresh.
pub signal_reconciled :
    (s : LoopState) (is : List LoopInput)
    → Happens s (debounce_signal ∷ is)
    → is_quiet (refresh_loop true s (debounce_signal ∷ is)).0 ≡ true
    → reconciled (refresh_loop true s (debounce_signal ∷ is)).1 ≡ true
unfolding refresh_loop loop_step
signal_reconciled s is h q = refreshes (record s { debounce = true }) is h.1 refl q
