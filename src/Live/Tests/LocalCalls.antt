-- ===== src/Live/Tests/LocalCalls.antt =====
-- The local calls on the order under test, and its life from creation on.
use tx_trader.Common.{
  ◌+◌, ◌^◌, ◌≡◌, ◌↔◌, ◌≤◌, refl, none, some, ok, raise, arith, if◌then◌else◌, ◌==◌,
}
use tx_trader.Decimals.{quantum, half_even, round_at, round_to, add, sub, in_bounds, default_prec}
use tx_trader.Live.Contracts.{
  side_eq, type_eq, tif_eq, LiveOrderState, Fault, LiveOrderIntent, intent_eq, check_amount,
  check_positive, check_optional, check_price, check_intent, LiveCommandKind, check_command,
}
use tx_trader.Live.Order.{
  check_amounts, check_quantities, check_times, check_target, check_pending, check_binding_state,
  check_progress, post_init,
}
use tx_trader.Live.Local.{
  fresh, only, changed, snapshot, create_live_order, require_binding, advance, advance_local,
  request_cancel, bind_operation,
}
use tx_trader.Live.Valid.{IsValid}
use tx_trader.Live.Tests.{
  grid, grid_fits, intent, intent_good, three_lots, accepted, accepted-IsValid, validated,
  cancel_binding, decrease_binding,
}
use tx_trader.Live.Local.Advance.{create_live_order-IsValid, Advance, advance_local-eq_ok}
use tx_trader.Live.Local.Cancel.{request_cancel_succeeds}
use tx_trader.Live.Local.Requests.{
  IsFree, Cancels, Operates, request_cancel-Cancels, bind_operation_iff,
}
use tx_trader.Live.Creation.{create_live_order-by_digits}

create_live_order-IsValid_example :
    (create_live_order grid intent ≡ ok (fresh intent)) × IsValid grid 2 (fresh intent)
create_live_order-IsValid_example =
    create_live_order-IsValid grid 2 intent grid_fits intent_good three_lots

-- A quantity of 29 digits: 10^28 + 1 hundredths.
abbrev oversized : LiveOrderIntent
oversized = record intent { quantity = 10 ^ 28 + 1 }

oversized_good : check_intent grid oversized ≡ ok tt
unfolding check_intent check_positive check_optional check_price check_amount in_bounds round_to
    round_at quantum half_even
oversized_good = refl

create_live_order-by_digits_example : create_live_order grid oversized ≡ (
    if round_to default_prec (10 ^ 28 + 1) 1 == 10 ^ 28 + 1
    then ok (fresh oversized)
    else raise Fault.parts_differ)
create_live_order-by_digits_example = create_live_order-by_digits grid oversized oversized_good

fresh-IsValid : IsValid grid 2 (fresh intent)
fresh-IsValid = (create_live_order-IsValid grid 2 intent grid_fits intent_good three_lots).1

validated_advance :
    advance_local grid (fresh intent) LiveOrderState.validated 15 none ≡ ok validated
unfolding advance_local advance check_positive check_optional check_price check_amount in_bounds
    round_to round_at quantum half_even check_times check_pending check_target check_binding_state
    check_progress add sub snapshot changed post_init check_amounts check_quantities intent_eq
    side_eq type_eq tif_eq require_binding check_command
validated_advance = refl

advance_local-eq_ok_example :
    (10 ≤ 15) × Advance grid (fresh intent) 15 none LiveOrderState.validated validated
advance_local-eq_ok_example =
    advance_local-eq_ok grid (fresh intent) LiveOrderState.validated 15 none validated_advance

cancel_bound : require_binding accepted (some cancel_binding) LiveCommandKind.cancel 40 ≡ ok tt
unfolding require_binding
cancel_bound = refl

cancel_good : check_command grid cancel_binding.command ≡ ok tt
unfolding check_command
cancel_good = refl

request_cancel_succeeds_example :
    request_cancel grid accepted cancel_binding 40
    ≡ ok (changed accepted (only LiveOrderState.cancel_pending 40 (some cancel_binding)))
request_cancel_succeeds_example =
    request_cancel_succeeds grid 2 accepted cancel_binding 40 grid_fits accepted-IsValid cancel_good
      (omega arith) cancel_bound refl refl

cancelling :
    request_cancel grid accepted cancel_binding 40
    ≡ ok (changed accepted (only LiveOrderState.cancel_pending 40 (some cancel_binding)))
unfolding request_cancel check_positive check_optional check_price check_amount in_bounds round_to
    round_at quantum half_even check_times check_pending check_target check_binding_state
    check_progress add sub snapshot changed post_init check_amounts check_quantities intent_eq
    side_eq type_eq tif_eq require_binding check_command
cancelling = refl

request_cancel-Cancels_example :
    IsFree accepted 40
    × Cancels accepted 40 cancel_binding.command
    × (changed accepted (only LiveOrderState.cancel_pending 40 (some cancel_binding))
        ≡ changed accepted (only LiveOrderState.cancel_pending 40 (some cancel_binding)))
request_cancel-Cancels_example =
    request_cancel-Cancels grid 2 accepted cancel_binding 40 grid_fits accepted-IsValid cancel_good
      cancelling

decrease_good : check_command grid decrease_binding.command ≡ ok tt
unfolding check_command check_positive check_amount in_bounds round_to round_at quantum half_even
decrease_good = refl

bind_operation_iff_example :
    (bind_operation grid accepted decrease_binding 40
      ≡ ok (changed accepted (only LiveOrderState.accepted 40 (some decrease_binding))))
    ↔ (IsFree accepted 40
        × Operates accepted 40 decrease_binding.command
        × (changed accepted (only LiveOrderState.accepted 40 (some decrease_binding))
            ≡ changed accepted (only LiveOrderState.accepted 40 (some decrease_binding))))
bind_operation_iff_example =
    bind_operation_iff grid 2 accepted decrease_binding 40
      (changed accepted (only LiveOrderState.accepted 40 (some decrease_binding))) grid_fits
      accepted-IsValid decrease_good

decreased :
    bind_operation grid accepted decrease_binding 40
    ≡ ok (changed accepted (only LiveOrderState.accepted 40 (some decrease_binding)))
unfolding bind_operation check_positive check_optional check_price check_amount in_bounds round_to
    round_at quantum half_even check_times check_pending check_target check_binding_state
    check_progress add sub snapshot changed post_init check_amounts check_quantities intent_eq
    side_eq type_eq tif_eq require_binding check_command
decreased = refl
