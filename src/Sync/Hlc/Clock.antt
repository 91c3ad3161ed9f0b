-- ===== src/Sync/Hlc/Clock.antt =====
-- `HybridClock` of sync.rs, one call at a time and over runs.
use Prim.Native.Nat.Ordering.{lt}
use mnemo.Base.{ℕ, ◌+◌, ◌≤◌, ◌<◌, ◌≡◌, List, [], ◌∷◌, All, length, arith, u32_mod}
use mnemo.Sync.Hlc.{HlcTimestamp, HybridClock, cmp_hlc, stamp, now, receive}

-- Each call to `now` returns a timestamp after the last one that the clock gave out, whatever the
-- wall clock reads, as long as the 32-bit counter has room; the clock remembers that timestamp.
pub now_increases :
    (wall_ms : ℕ) (c : HybridClock)
    → c.counter + 1 < u32_mod
    → (cmp_hlc (stamp c) (now wall_ms c).1 ≡ lt) × (stamp (now wall_ms c).0 ≡ (now wall_ms c).1)
unfolding now cmp_hlc
now_increases wall_ms c h = ground arith

-- `receive` returns a timestamp after both the remote one and the clock's last one, as long as
-- both 32-bit counters have room; the clock remembers that timestamp.
pub receive_increases :
    (wall_ms : ℕ) (remote : HlcTimestamp) (c : HybridClock)
    → c.counter + 1 < u32_mod
    → remote.counter + 1 < u32_mod
    → (cmp_hlc remote (receive wall_ms remote c).1 ≡ lt)
      × (cmp_hlc (stamp c) (receive wall_ms remote c).1 ≡ lt)
      × (stamp (receive wall_ms remote c).0 ≡ (receive wall_ms remote c).1)
unfolding receive cmp_hlc
receive_increases wall_ms remote c h k = ground arith

-- Once the counter is full and the wall clock has not moved on, `now` wraps it and returns a
-- timestamp before the last one.
pub now_wraps :
    (wall_ms : ℕ) (c : HybridClock)
    → c.counter + 1 ≡ u32_mod
    → wall_ms ≤ c.last_wall_ms
    → cmp_hlc (now wall_ms c).1 (stamp c) ≡ lt
unfolding now cmp_hlc
now_wraps wall_ms c h k = ground arith

-- What a node's clock goes through: local events and timestamps that arrive, each with the wall
-- clock's reading.
pub data Event : Type 0 where
  local : ℕ → Event
  remote : ℕ → HlcTimestamp → Event

abbrev pub step : Event → HybridClock → HybridClock × HlcTimestamp
step (local wall_ms) c = now wall_ms c
step (remote wall_ms r) c = receive wall_ms r c

pub run : HybridClock → List Event → List HlcTimestamp
run c [] = []
run c (e ∷ es) = (step e c).1 ∷ run (step e c).0 es

-- The counters that arrive leave room up to `bound`.
abbrev pub Within : ℕ → Event → Type 0
Within bound (local wall_ms) = Unit
Within bound (remote wall_ms r) = r.counter ≤ bound

-- Each timestamp comes after the one before it.
abbrev pub Rises : HlcTimestamp → List HlcTimestamp → Type 0
Rises t [] = Unit
Rises t (u ∷ us) = (cmp_hlc t u ≡ lt) × Rises u us

step-counter :
    (e : Event) (c : HybridClock) (bound : ℕ)
    → Within bound e
    → c.counter ≤ bound
    → bound + 1 < u32_mod
    → (step e c).0.counter ≤ bound + 1
unfolding now receive
step-counter (local wall_ms) c bound w h k = ground arith
step-counter (remote wall_ms r) c bound w h k = ground arith

step_increases :
    (e : Event) (c : HybridClock) (bound : ℕ)
    → Within bound e
    → c.counter ≤ bound
    → bound + 1 < u32_mod
    → (cmp_hlc (stamp c) (step e c).1 ≡ lt) × (stamp (step e c).0 ≡ (step e c).1)
step_increases (local wall_ms) c bound w h k = now_increases wall_ms c (omega arith)
step_increases (remote wall_ms r) c bound w h k =
    let (_, after, kept) = receive_increases wall_ms r c (omega arith) (omega arith) in
    (after, kept)

Within-mono : (bound : ℕ) (es : List Event) → All (Within bound) es → All (Within (bound + 1)) es
Within-mono bound [] w = tt
Within-mono bound (local wall_ms ∷ es) w = (tt, Within-mono bound es w.1)
Within-mono bound (remote wall_ms r ∷ es) w = (omega arith, Within-mono bound es w.1)

-- Over any sequence of local events and received timestamps, the timestamps that a node gives out
-- rise strictly from the clock's last one, as long as the counters that arrive and the clock's own
-- are at most `bound` and the number of events leaves room above it in 32 bits.
pub run-Rises :
    (c : HybridClock) (es : List Event) (bound : ℕ)
    → All (Within bound) es
    → c.counter ≤ bound
    → bound + length es < u32_mod
    → Rises (stamp c) (run c es)
unfolding run
run-Rises c [] bound w h k = tt
run-Rises c (e ∷ es) bound w h k =
    let (after, kept) = step_increases e c bound w.0 h (omega arith) in
    (
      after,
      rw (← kept) (
          run-Rises (step e c).0 es (bound + 1) (Within-mono bound es w.1)
            (step-counter e c bound w.0 h (omega arith)) (omega arith)),
    )
