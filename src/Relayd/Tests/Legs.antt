-- ===== src/Relayd/Tests/Legs.antt =====
-- The store of legs, and recordDeposit, on concrete legs.
use convert_usdt_from_trc.Base.{◌≡◌, refl, false, true, none, some, [], ◌∷◌, ◌&&◌, is_some, ◌≤◌}
use convert_usdt_from_trc.Base.Int.{pos, ◌+ℤ◌, ◌-ℤ◌, ◌*ℤ◌}
use convert_usdt_from_trc.Base.Int64.{wrap64}
use convert_usdt_from_trc.Base.Result.{Result}
use convert_usdt_from_trc.Base.Action.{ok}
use convert_usdt_from_trc.Base.Table.{find}
use convert_usdt_from_trc.Relayd.Pricing.{rate_part, profit, split}
use convert_usdt_from_trc.Relayd.Legs.{
  Leg, Legs, has_id, get_by_external_id, mark, check_already_at, settled, forwarding,
}
use convert_usdt_from_trc.Relayd.Legs.Amounts.{store_parts, store_deposit}
use convert_usdt_from_trc.Relayd.Legs.Creation.{NewLeg, new_row, create, allowed_row}
use convert_usdt_from_trc.Relayd.Legs.Marks.{
  mark_forwarding, mark_forwarded, mark_settled, mark_refund_pending,
}
use convert_usdt_from_trc.Relayd.Legs.Lifecycle.{
  run, create_leg, to_forwarding, to_forwarded, to_settled, to_refund_pending,
}
use convert_usdt_from_trc.Relayd.Legs.Safety.{
  History, run_all, AllClean, run-AllClean, never_both, FoundAdvanced, run-find, changes,
  changes-bounded,
}
use convert_usdt_from_trc.Relayd.Legs.Retry.{as_forwarding, call, call-call}
use convert_usdt_from_trc.Relayd.Deposit.{
  LedgerOrder, Outside, record_deposit, record_new, pricing_for,
}
use convert_usdt_from_trc.Relayd.Deposit.Recorded.{Stored, record_deposit_again}
use convert_usdt_from_trc.Relayd.Tests.{quarter, usdt}

-- A leg quoted under a flat profit of 1 USDT.
abbrev asked : NewLeg
asked = record {
  external_id = "leg-1";
  order_id = 7;
  direction = "BEP20_TO_TRC20";
  customer_id = "c1";
  destination_address = "T1";
  deposit_address = "0xd";
  deposit_derivation_index = some 4;
  amount_in = usdt 20000000;
  amount_out_expected = usdt 19000000;
  customer_label = none;
  profit_bps = some (pos 0);
  min_profit = some (pos 1000000);
}

abbrev leg0 : Leg
leg0 = new_row 100 1 asked

abbrev table0 : Legs
table0 = record { rows = leg0 ∷ []; next_id = 2 }

-- Created, sent to the vendor, forwarded; a refund comes too late, and then the leg settles.
abbrev served : History
served =
    (150, to_settled "leg-1" (usdt 19000000))
    ∷ (140, to_refund_pending "leg-1")
    ∷ (130, to_forwarded "leg-1" "0xf")
    ∷ (120, to_forwarding "leg-1" "mock" "v1" "0xv")
    ∷ []

abbrev whole : History
whole =
    (150, to_settled "leg-1" (usdt 19000000))
    ∷ (140, to_refund_pending "leg-1")
    ∷ (130, to_forwarded "leg-1" "0xf")
    ∷ (120, to_forwarding "leg-1" "mock" "v1" "0xv")
    ∷ (100, create_leg asked)
    ∷ []

abbrev served_leg : Leg
served_leg = record leg0 {
  status = settled;
  upstream_provider_name = some "mock";
  upstream_order_id = some "v1";
  upstream_deposit_address = some "0xv";
  forward_tx_id = some "0xf";
  amount_out_actual = some (usdt 19000000);
  updated_at = 150;
}

run-AllClean_example : AllClean (run 120 (to_forwarding "leg-1" "mock" "v1" "0xv") table0)
run-AllClean_example = run-AllClean 120 (to_forwarding "leg-1" "mock" "v1" "0xv") table0 (
  record {
    forward_known = refl;
    refund_known = refl;
    forward_sent = refl;
    refund_sent = refl;
    parts_known = refl;
  },
  tt,
)

never_both_example : is_some served_leg.forward_tx_id && is_some served_leg.refund_tx_id ≡ false
unfolding run_all run create allowed_row mark mark_forwarding mark_forwarded mark_settled
    mark_refund_pending check_already_at get_by_external_id
never_both_example = never_both whole (has_id "leg-1") served_leg refl

run-find_example :
    FoundAdvanced "leg-1" leg0 (run 120 (to_forwarding "leg-1" "mock" "v1" "0xv") table0)
run-find_example = run-find 120 (to_forwarding "leg-1" "mock" "v1" "0xv") table0 "leg-1" leg0 refl

changes-bounded_example : changes "leg-1" served table0 ≤ 3
changes-bounded_example = changes-bounded served table0 "leg-1" leg0 refl

abbrev sent : Legs
sent = record {
  rows =
      record leg0 {
        status = forwarding;
        upstream_provider_name = some "mock";
        upstream_order_id = some "v1";
        upstream_deposit_address = some "0xv";
        updated_at = 120;
      }
      ∷ [];
  next_id = 2;
}

-- A retry with another vendor order succeeds, and the first order stays.
call-call_example : call 130 "leg-1" (as_forwarding "mock" "v2" "0xw") sent ≡ ok tt sent
unfolding call mark mark_forwarding
call-call_example =
    call-call 120 130 "leg-1" (as_forwarding "mock" "v1" "0xv") (as_forwarding "mock" "v2" "0xw")
      table0 sent (refl, tt) refl refl

abbrev order0 : LedgerOrder
order0 = record { amount_in = usdt 20000000; fee_units = usdt 1000000; sender_address = some "0x1" }

-- 0.9 USDT arrived.
abbrev outside0 : Outside
outside0 = record { booked = Result.ok (usdt 900000); pricing = some (Result.ok quarter) }

abbrev handed_back : Leg
handed_back = record leg0 {
  received_amount = some (usdt 900000);
  sender_address = some "0x1";
  profit_amount = some (usdt 0);
  forward_amount = some (usdt 900000);
}

abbrev recorded : Legs
recorded = record { rows = handed_back ∷ []; next_id = 2 }

record_deposit_again_example :
    Stored handed_back
    × (find (has_id "leg-1") recorded.rows ≡ some handed_back)
    × (record_deposit outside0 handed_back order0 recorded ≡ ok (handed_back, false) recorded)
unfolding record_deposit record_new pricing_for store_deposit store_parts get_by_external_id split
    profit rate_part wrap64 ◌+ℤ◌ ◌-ℤ◌ ◌*ℤ◌
record_deposit_again_example =
    record_deposit_again outside0 outside0 leg0 order0 order0 table0 recorded recorded handed_back
      true
      (
        record {
          forward_known = refl;
          refund_known = refl;
          forward_sent = refl;
          refund_sent = refl;
          parts_known = refl;
        },
        tt,
      )
      refl refl
