-- ===== src/Watcher/Tests/Votes.antt =====
-- Providers that vote on one deposit, and on the finalized block.
use convert_usdt_from_trc.Base.{◌↔◌, List, some, none, ◌≡◌, refl, true, false, [], ◌∷◌, ◌++◌}
use convert_usdt_from_trc.Base.Int.{pos}
use convert_usdt_from_trc.Watcher.Agreement.{
  FinalizedKey, NamedResult, agreed, groups, resolve_agreement, latest_finalized,
}
use convert_usdt_from_trc.Watcher.Agreement.Count.{HasMost, latest_finalized-HasMost}
use convert_usdt_from_trc.Watcher.Confirmations.{
  ProviderObservation, disagreement_alert, new_candidate_confirmations, status_locked,
  record_confirmed, record_disagreement, contradicts,
}
use convert_usdt_from_trc.Base.Int.{◌-ℤ◌}
use convert_usdt_from_trc.Watcher.Confirmations.Quorum.{
  Votes, confirmations, IsQuorum, status_locked-IsQuorum, disagreement_stays,
}

abbrev seen : ProviderObservation
seen = record {
  height = 90;
  block_hash = "0xb1";
  present = true;
  order_id = 7;
  amount = pos 20000000;
}

abbrev missed : ProviderObservation
missed = record { height = 90; block_hash = "0xb1"; present = false; order_id = 7; amount = pos 0 }

abbrev elsewhere : ProviderObservation
elsewhere = record {
  height = 90;
  block_hash = "0xb2";
  present = true;
  order_id = 7;
  amount = pos 20000000;
}

-- One provider changes its view, and then two agree.
abbrev two_agree : Votes
two_agree = ("nodereal", seen) ∷ ("ankr", seen) ∷ ("ankr", missed) ∷ []

status_locked-IsQuorum_example :
    IsQuorum 2 two_agree (confirmations 2 two_agree).present_by_provider
unfolding confirmations new_candidate_confirmations record_confirmed contradicts status_locked ◌-ℤ◌
status_locked-IsQuorum_example = status_locked-IsQuorum 2 two_agree refl

-- Two providers report different blocks at one height.
abbrev at_odds : Votes
at_odds = ("nodereal", elsewhere) ∷ ("ankr", seen) ∷ []

disagreement_stays_example :
    status_locked (confirmations 2 (two_agree ++ at_odds)) ≡ disagreement_alert
unfolding confirmations new_candidate_confirmations record_confirmed record_disagreement contradicts
    ◌-ℤ◌
disagreement_stays_example = disagreement_stays 2 two_agree at_odds refl

abbrev block_a : FinalizedKey
block_a = record { height = 100; hash = "0xa" }

abbrev block_b : FinalizedKey
block_b = record { height = 101; hash = "0xb" }

abbrev three : List (NamedResult FinalizedKey)
three =
    record { name = "ankr"; key = some block_a }
    ∷ record { name = "nodereal"; key = some block_b }
    ∷ record { name = "quicknode"; key = some block_a }
    ∷ record { name = "down"; key = none }
    ∷ []

-- Two of three answers are alike.
latest_finalized_three : latest_finalized 2 three ≡ agreed block_a
unfolding latest_finalized resolve_agreement groups
latest_finalized_three = refl

latest_finalized-HasMost_example :
    (latest_finalized 2 three ≡ agreed block_a) ↔ HasMost 2 block_a three
latest_finalized-HasMost_example = latest_finalized-HasMost 2 three block_a
