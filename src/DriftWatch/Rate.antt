-- ===== src/DriftWatch/Rate.antt =====
-- How often `consume` triggers a reconcile.
use ovn_network_agent.Prelude.{
  ℕ, ◌+◌, ◌≤◌, ◌≡◌, sym, Bool, true, false, ◌&&◌, ◌||◌, not, Option, none, some, List, [], ◌∷◌,
  arith, leb, if◌then◌else◌, is_some, nat_eq, string_eq, bool_eq, pair_eq, is_empty, any, all,
  int_eq,
}
use ovn_network_agent.DriftWatch.{
  Settings, Pending, Input, cancelled, closed, drift, other, fire, arm, wait, ends, noted,
  consume_step, consume,
}

-- the timer that runs keeps the distance to the last trigger
abbrev pub IsSpaced : Settings → Pending → Type 0
IsSpaced w p = elim p.fires_at [
  | none ↦ Unit
  | some at ↦ elim p.last_trigger [ none ↦ Unit | some last ↦ last + w.min_interval ≤ at ]
]

-- the channel of the timer has an element at `now`
abbrev pub may_fire : Pending → ℕ → Bool
may_fire p now = elim p.fires_at [ none ↦ false | some at ↦ leb at now ]

abbrev pub is_fire : Input → Bool
is_fire (fire ctx_done) = true
is_fire _ = false

-- Times do not go back, and the timer fires only while it runs and not before its time.
abbrev pub Timed : Settings → Pending → ℕ → List (Input × ℕ) → Type 0
Timed w p before [] = Unit
Timed w p before ((input, now) ∷ rest) =
    (before ≤ now)
    × ((not (is_fire input) || may_fire p now) ≡ true)
    × Timed w (consume_step w p input now).0 now rest

-- each trigger is at least `gap` after the one before it, which is `last` for the first
abbrev pub Apart : ℕ → Option ℕ → List ℕ → Type 0
Apart gap last [] = Unit
Apart gap none (t ∷ ts) = Apart gap (some t) ts
Apart gap (some last) (t ∷ ts) = (last + gap ≤ t) × Apart gap (some t) ts

abbrev pub is_closed : Input → Bool
is_closed (closed ctx_done) = true
is_closed _ = false

abbrev pub stays_open : Input → Bool
stays_open input = not (is_closed input)

-- the last trigger is not in the future
abbrev pub IsPast : Option ℕ → ℕ → Type 0
IsPast none now = Unit
IsPast (some last) now = last ≤ now

IsSpaced-arm :
    (w : Settings) (p : Pending) (now : ℕ)
    → IsPast p.last_trigger now
    → IsSpaced w p
    → IsSpaced w (arm w p now)
unfolding arm wait
IsSpaced-arm w p now past h = ground arith

last-arm : (w : Settings) (p : Pending) (now : ℕ) → (arm w p now).last_trigger ≡ p.last_trigger
unfolding arm
last-arm w p now = ground arith

IsPast-later :
    (last : Option ℕ) (before now : ℕ) → IsPast last before → before ≤ now → IsPast last now
IsPast-later none before now h le = tt
IsPast-later (some t) before now h le = omega arith

-- a trigger of the timer keeps the distance
Apart-fire :
    (w : Settings) (p : Pending) (now : ℕ) (ts : List ℕ)
    → may_fire p now ≡ true
    → IsSpaced w p
    → Apart w.min_interval (some now) ts
    → Apart w.min_interval p.last_trigger (now ∷ ts)
Apart-fire w p now ts due h rest = ground arith

Apart-cong : (gap : ℕ) (a b : Option ℕ) (ts : List ℕ) → a ≡ b → Apart gap a ts → Apart gap b ts
Apart-cong gap a b ts e h = rw (← e) h

IsPast-cong : (a b : Option ℕ) (now : ℕ) → a ≡ b → IsPast a now → IsPast b now
IsPast-cong a b now e h = rw (← e) h

-- While the channel stays open, two triggers are at least `min_interval` apart, the last trigger
-- of an earlier subscription counted; times do not go back, the timer fires only while it runs and
-- not before its time, and one that runs at the start keeps the distance.
pub consume-Apart :
    (w : Settings) (p : Pending) (before : ℕ) (inputs : List (Input × ℕ))
    → Timed w p before inputs
    → all (λ e. stays_open e.0) inputs ≡ true
    → IsPast p.last_trigger before
    → IsSpaced w p
    → Apart w.min_interval p.last_trigger (consume w p inputs).1
unfolding consume consume_step ends noted
consume-Apart w p before [] timed opens past h = tt
consume-Apart w p before ((cancelled, now) ∷ rest) timed opens past h = tt
consume-Apart w p before ((closed c, now) ∷ rest) timed opens past h = cc
consume-Apart w p before ((other, now) ∷ rest) timed opens past h =
    consume-Apart w p now rest timed.2 opens (IsPast-later p.last_trigger before now past timed.0) h
consume-Apart w p before ((fire true, now) ∷ rest) timed opens past h =
    consume-Apart w (record p { fires_at = none }) now rest timed.2 opens
      (IsPast-later p.last_trigger before now past timed.0) tt
consume-Apart w p before ((fire false, now) ∷ rest) timed opens past h =
    let p' : Pending = record { last_trigger = some now; fires_at = none } in
    Apart-fire w p now (consume w p' rest).1 timed.1 h
      (consume-Apart w p' now rest timed.2 opens (omega arith) tt)
consume-Apart w p before ((drift, now) ∷ rest) timed opens past h =
    let past' = IsPast-later p.last_trigger before now past timed.0 in
    let same = last-arm w p now in
    Apart-cong w.min_interval (arm w p now).last_trigger p.last_trigger
      (consume w (arm w p now) rest).1 same
      (consume-Apart w (arm w p now) now rest timed.2 opens
        (IsPast-cong p.last_trigger (arm w p now).last_trigger now (sym same) past')
        (IsSpaced-arm w p now past' h))

-- a trigger at `now` or later
abbrev pub triggers_since : ℕ → List ℕ → Bool
triggers_since now ts = any (λ t. leb now t) ts

abbrev pub is_done : Input → Bool
is_done (fire ctx_done) = ctx_done
is_done (closed ctx_done) = ctx_done
is_done _ = false

-- The last input closes the channel, no earlier one ends the subscription, and the context is not
-- done.
abbrev pub closes_at_end : List (Input × ℕ) → Bool
closes_at_end [] = false
closes_at_end ((input, now) ∷ rest) =
    not (is_done input)
    && (if is_closed input then is_empty rest else not (ends input) && closes_at_end rest)

triggers_since_mono :
    (before now : ℕ) (ts : List ℕ)
    → before ≤ now
    → triggers_since now ts ≡ true
    → triggers_since before ts ≡ true
triggers_since_mono before now [] le h = cc
triggers_since_mono before now (t ∷ ts) le h = ground (arith, triggers_since_mono before now ts le)

still_pending : (w : Settings) (p : Pending) (now : ℕ) → is_some (arm w p now).fires_at ≡ true
unfolding arm
still_pending w p now = ground arith

pending_triggers :
    (w : Settings) (p : Pending) (before : ℕ) (inputs : List (Input × ℕ))
    → Timed w p before inputs
    → closes_at_end inputs ≡ true
    → is_some p.fires_at ≡ true
    → triggers_since before (consume w p inputs).1 ≡ true
unfolding consume consume_step ends noted
pending_triggers w p before [] timed closes h = cc
pending_triggers w p before ((cancelled, now) ∷ rest) timed closes h = cc
pending_triggers w p before ((closed true, now) ∷ rest) timed closes h = cc
pending_triggers w p before ((closed false, now) ∷ rest) timed closes h = ground arith
pending_triggers w p before ((fire true, now) ∷ rest) timed closes h = cc
pending_triggers w p before ((fire false, now) ∷ rest) timed closes h = ground arith
pending_triggers w p before ((other, now) ∷ rest) timed closes h =
    triggers_since_mono before now (consume w p rest).1 timed.0
      (pending_triggers w p now rest timed.2 closes h)
pending_triggers w p before ((drift, now) ∷ rest) timed closes h =
    triggers_since_mono before now (consume w (arm w p now) rest).1 timed.0
      (pending_triggers w (arm w p now) now rest timed.2 closes (still_pending w p now))

-- No drift event is lost: in a subscription that ends because its channel is closed, a reconcile
-- is triggered at or after each drift event; the context is not done, times do not go back, and
-- the timer fires only while it runs and not before its time.
pub drift_triggers :
    (w : Settings) (p : Pending) (before now : ℕ) (rest : List (Input × ℕ))
    → Timed w p before ((drift, now) ∷ rest)
    → closes_at_end rest ≡ true
    → triggers_since now (consume w p ((drift, now) ∷ rest)).1 ≡ true
unfolding consume consume_step ends noted
drift_triggers w p before now rest timed closes =
    pending_triggers w (arm w p now) now rest timed.2 closes (still_pending w p now)
