-- ===== src/Rootless/Tunnel.antt =====
-- `waitTunnel` of contrib/rootless/rootless.go. A round is one pass through its loop; times are
-- milliseconds, and the clock is what the rounds took.
use tool_public_ubo.Rootless.Session.{Event, opened, closed, probe}
use tool_public_ubo.Base.{
  ℕ, zero, suc, ◌+◌, ◌*◌, ◌≤◌, ◌<◌, ◌≡◌, refl, Bool, true, false, ltb, if◌then◌else◌, Option, none,
  List, [], ◌∷◌, some, Bool-cases, inl, inr, arith,
}

-- Whether the dialling goes well, whether the context is done when it does not, and the time from
-- the test of the deadline to the wait of a second.
pub record Round : Type 0 where
  pub connected : Bool
  pub cancelled : Bool
  pub took : ℕ

-- With the number of rounds before.
pub data Waited : Type 0 where
  reached stopped timed_out : ℕ → Waited

abbrev pub wait_duration : ℕ
wait_duration = 15000

abbrev pub wait_sleep : ℕ
wait_sleep = 1000

-- How the wait ended, `none` for fuel that ran out, and what happened on connections to Dropbear.
pub record Wait : Type 0 where
  pub events : List Event
  pub result : Option Waited

abbrev pub quiet : Option Waited → Wait
quiet r = record { events = []; result = r }

-- `i` is the number of the round, `now` the time since the start. A connection that is made is closed.
unfoldable pub wait_from : (ℕ → Round) → ℕ → ℕ → ℕ → Wait
wait_from rounds zero i now = quiet none
wait_from rounds (suc fuel) i now =
    let again = wait_from rounds fuel (suc i) (now + (rounds i).took + wait_sleep) in
    if ltb now wait_duration
    then (if (rounds i).connected
        then record { events = opened probe ∷ closed probe ∷ []; result = some (reached i) }
        else if (rounds i).cancelled
        then quiet (some (stopped i))
        else again)
    else quiet (some (timed_out i))

-- A round takes a second at least, so that the sixteenth finds the deadline passed.
unfoldable pub wait_tunnel : (ℕ → Round) → Wait
unfolding wait_from
wait_tunnel rounds = wait_from rounds 16 0 0

-- The rounds before `i` that the loop went through all failed.
abbrev Failed : (ℕ → Round) → ℕ → ℕ → Type 0
Failed rounds zero i = Unit
Failed rounds (suc n) i =
    ((rounds i).connected ≡ false) × ((rounds i).cancelled ≡ false) × Failed rounds n (suc i)

-- When round `i` begins, if the loop comes to it: every round before took its time and a second.
pub starts_at : (ℕ → Round) → ℕ → ℕ
starts_at rounds zero = 0
starts_at rounds (suc i) = starts_at rounds i + (rounds i).took + wait_sleep

-- The end of a wait that begins with round `i`: the rounds in front of the last one failed, the last one
-- began before the deadline or found it passed, and the one connection that was made is closed.
unfoldable pub Ended : (ℕ → Round) → ℕ → List Event → Option Waited → Type 0
Ended rounds i es none = ⊥
Ended rounds i es (some (reached j)) =
    (n : ℕ) × (i + n ≡ j)
    × (j < 15)
    × Failed rounds n i
    × (starts_at rounds j < wait_duration)
    × ((rounds j).connected ≡ true)
    × (es ≡ opened probe ∷ closed probe ∷ [])
Ended rounds i es (some (stopped j)) =
    (n : ℕ) × (i + n ≡ j)
    × (j < 15)
    × Failed rounds n i
    × (starts_at rounds j < wait_duration)
    × ((rounds j).connected ≡ false)
    × ((rounds j).cancelled ≡ true)
    × (es ≡ [])
Ended rounds i es (some (timed_out j)) =
    (n : ℕ) × (i + n ≡ j)
    × (j ≤ 15)
    × Failed rounds n i
    × (wait_duration ≤ starts_at rounds j)
    × (es ≡ [])

abbrev pub Ends : (ℕ → Round) → ℕ → Wait → Type 0
Ends rounds i w = Ended rounds i w.events w.result

one_more :
    (rounds : ℕ → Round) (i : ℕ) (es : List Event) (o : Option Waited)
    → (rounds i).connected ≡ false
    → (rounds i).cancelled ≡ false
    → Ended rounds (suc i) es o
    → Ended rounds i es o
unfolding Ended
one_more rounds i es none hc hs e = e
one_more rounds i es (some (reached j)) hc hs (n, at, lt, failed, early, up, shut) =
    (suc n, omega arith, lt, (hc, hs, failed), early, up, shut)
one_more rounds i es (some (stopped j)) hc hs (n, at, lt, failed, early, no', done, shut) =
    (suc n, omega arith, lt, (hc, hs, failed), early, no', done, shut)
one_more rounds i es (some (timed_out j)) hc hs (n, at, le, failed, late, shut) =
    (suc n, omega arith, le, (hc, hs, failed), late, shut)

-- The time is a second a round at least.
wait_from-Ends :
    (rounds : ℕ → Round) (fuel i now : ℕ)
    → fuel + i ≡ 16
    → i * wait_sleep ≤ now
    → now ≡ starts_at rounds i
    → i ≤ 15
    → Ends rounds i (wait_from rounds fuel i now)
unfolding wait_from starts_at
wait_from-Ends rounds zero i now size late clock small = absurd (omega arith)
wait_from-Ends rounds (suc fuel) i now size late clock small =
    elim (Bool-cases (ltb now wait_duration)) [
      | inr over ↦ rw over (unfold Ended in (0, omega arith, small, tt, ground arith, refl))
      | inl early ↦ elim (Bool-cases ((rounds i).connected)) [
        | inl up ↦
            rw (early, up)
              (unfold Ended in (0, omega arith, ground arith, tt, ground arith, up, refl))
        | inr down ↦ elim (Bool-cases ((rounds i).cancelled)) [
          | inl done ↦
              rw (early, down, done)
                (unfold Ended in (0, omega arith, ground arith, tt, ground arith, down, done, refl))
          | inr going ↦
              rw (early, down, going)
                (one_more rounds i _ _ down going (
                  wait_from-Ends rounds fuel (suc i) (now + (rounds i).took + wait_sleep)
                    (omega arith) (omega arith) (omega (arith, clock)) (ground arith)))
        ]
      ]
    ]

-- `waitTunnel` always ends, after fifteen attempts at most and whatever the network and the clock do:
-- at the first attempt that connects, whose connection it closes; at the first failed one behind which
-- the context is done; or by the deadline, when every attempt has failed. A round is begun just if the
-- fifteen seconds have not passed, by the time that the rounds in front of it took.
pub wait_tunnel-Ends : (rounds : ℕ → Round) → Ends rounds 0 (wait_tunnel rounds)
unfolding wait_tunnel
wait_tunnel-Ends rounds =
    wait_from-Ends rounds 16 0 0 refl (omega arith) (unfold starts_at in refl) (omega arith)
