-- ===== src/Examples/Overlaps.antt =====
-- The theorems on overlapping requests at concrete inputs.
use ms_ex.Prelude.{ℕ, ◌≡◌, refl, some, [], ◌∷◌, map, arith, lookup}
use ms_ex.Errors.{Result, ok}
use ms_ex.Order.Data.{Order}
use ms_ex.Order.Repository.Contract.{memory_view, memory-IsStorage}
use ms_ex.Order.Repository.Memory as Memory
use ms_ex.Order.Repository.Memory.{Orders}
use ms_ex.Order.Service as Service
use ms_ex.Order.Service.{paid_with, cancelled, pay_order_call, pay_request}
use ms_ex.Order.Concurrent.{getting, paying, cancelling, finished, System, advance, take_turn, run}
use ms_ex.Order.Concurrent.Ending.{run-finishes}
use ms_ex.Order.Concurrent.Ready.{IsReady, KeepsTerms}
use ms_ex.Order.Concurrent.Sound.{IsConsistent, here, next, Turns-IsConsistent}
use ms_ex.Order.Concurrent.Exclusive.{
  IsExclusive, ExclusiveTurns, here as start, next as alone, ExclusiveTurns-final,
}
use ms_ex.Order.Concurrent.Atomic.{Changes, ExclusiveTurns-Changes}
use ms_ex.Order.Concurrent.Races.{
  turn_of, two_requests, in_memory, cancelled_after_charge, charged_twice,
}
use ms_ex.Examples.Data.{libs, answering, pending_order, one_pending, paid_order, one_paid}
use ms_ex.Examples.Life.{pending_IsSound, paid_IsSound, not_pending}

abbrev both : System Orders
both = two_requests (paying 7 "CARD") (cancelling 7) one_pending

run-finishes_example :
    (r : Result Order) × ((run libs answering (map turn_of (0 ∷ 1 ∷ 0 ∷ 0 ∷ [])) both).requests 0
      ≡ finished r)
run-finishes_example =
    run-finishes libs answering (map turn_of (0 ∷ 1 ∷ 0 ∷ 0 ∷ [])) both 0 (omega arith)

both-IsReady : (i : ℕ) → IsReady (memory_view both.world.stored) (both.requests i)
both-IsReady i = ground arith

both-IsConsistent : IsConsistent memory_view both
both-IsConsistent = record { sound = pending_IsSound; ready = both-IsReady }

Turns-IsConsistent_example :
    IsConsistent memory_view (take_turn libs answering (turn_of 0) both)
    × KeepsTerms
        (memory_view both.world.stored)
        (memory_view (take_turn libs answering (turn_of 0) both).world.stored)
Turns-IsConsistent_example =
    Turns-IsConsistent libs answering memory_view memory-IsStorage both-IsConsistent
      (next (turn_of 0) here tt refl)

pending_stored : lookup 7 one_pending.stored ≡ some pending_order
unfolding lookup
pending_stored = refl

cancelled_after_charge_example :
    let s =
      run libs
        (in_memory libs answering.inventory_client answering.payment_client)
        (map turn_of (0 ∷ 1 ∷ 0 ∷ 0 ∷ 1 ∷ []))
        (two_requests (paying 7 "CARD") (cancelling 7) one_pending) in
    (s.requests 0 ≡ finished (ok (paid_with 3 "CARD" pending_order)))
    × (s.requests 1 ≡ finished (ok (cancelled pending_order)))
    × (s.world.calls ≡ pay_order_call (pay_request libs pending_order "CARD") ∷ [])
    × (lookup 7 s.world.stored ≡ some (cancelled pending_order))
cancelled_after_charge_example =
    cancelled_after_charge libs answering.inventory_client answering.payment_client pending_order
      one_pending pending_stored refl "CARD" "x..." 3 refl refl

charged_twice_example :
    let s =
      run libs
        (in_memory libs answering.inventory_client answering.payment_client)
        (map turn_of (0 ∷ 1 ∷ 0 ∷ 0 ∷ 1 ∷ 1 ∷ []))
        (two_requests (paying 7 "CARD") (paying 7 "SBP") one_pending) in
    (s.requests 0 ≡ finished (ok (paid_with 3 "CARD" pending_order)))
    × (s.requests 1 ≡ finished (ok (paid_with 3 "SBP" pending_order)))
    × (s.world.calls
        ≡ pay_order_call (pay_request libs pending_order "SBP")
          ∷ pay_order_call (pay_request libs pending_order "CARD")
          ∷ [])
    × (lookup 7 s.world.stored ≡ some (paid_with 3 "SBP" pending_order))
charged_twice_example =
    charged_twice libs answering.inventory_client answering.payment_client pending_order one_pending
      pending_stored refl "CARD" "SBP" "x..." "x..." 3 3 refl refl refl refl

abbrev too_late : System Orders
too_late = two_requests (cancelling 7) (getting 7) one_paid

too_late_turns :
    ExclusiveTurns libs answering memory_view too_late
      (take_turn libs answering (turn_of 0) too_late)
too_late_turns = alone (turn_of 0) start tt (λ i j id held held'. ground arith) refl

paid_stored : memory_view one_paid.stored 7 ≡ some paid_order
unfolding lookup
paid_stored = refl

ExclusiveTurns-final_example :
    memory_view (take_turn libs answering (turn_of 0) too_late).world.stored 7 ≡ some paid_order
ExclusiveTurns-final_example =
    ExclusiveTurns-final libs answering memory_view memory-IsStorage 7 paid_order
      (record { sound = paid_IsSound; ready = λ i. ground arith }) (λ i id held. ground arith)
      too_late_turns paid_stored not_pending

-- One request cancels an order in two turns; the other has read an order that it does not keep.
abbrev in_time : System Orders
in_time = two_requests (cancelling 7) (getting 7) one_pending

cancelled_alone : IsExclusive (take_turn libs answering (turn_of 0) in_time)
unfolding take_turn advance Service.get_order Service.require_pending Memory.get lookup
cancelled_alone i j id held held' = ground (arith, held, held')

in_time_turns :
    ExclusiveTurns libs answering memory_view in_time
      (run libs answering (turn_of 0 ∷ turn_of 0 ∷ []) in_time)
unfolding run
in_time_turns =
    alone (turn_of 0) (alone (turn_of 0) start tt (λ i j id held held'. ground arith) refl)
      (unfold take_turn advance Service.get_order Service.require_pending Memory.get lookup in tt)
      cancelled_alone refl

ExclusiveTurns-Changes_example :
    Changes
      (memory_view in_time.world.stored)
      (memory_view (run libs answering (turn_of 0 ∷ turn_of 0 ∷ []) in_time).world.stored)
ExclusiveTurns-Changes_example =
    ExclusiveTurns-Changes libs answering memory_view memory-IsStorage
      (record { sound = pending_IsSound; ready = λ i. ground arith }) (λ i id held. ground arith)
      in_time_turns
