-- ===== src/Daemon/Hub/Tests.antt =====
-- A concrete client of internal/daemon/hub.go.
use smart_buster.Prelude.{◌+◌, ◌≤◌, true, ◌≡◌, refl, List, [], ◌∷◌, arith, length}
use smart_buster.Engine.Events.{hit, stats, error}
use smart_buster.Daemon.Hub.{
  single, coalesced, Client, new_client, client_buf_cap, next, next_important, next_latest,
  next_lossy, next_hit, enqueue, put, put_hit, put_latest,
}
use smart_buster.Daemon.Hub.Lossy.{
  Op, offer, pull, run, hits_held, hits_offered, hits_sent, IsSorted, run_conserves,
}

abbrev ops : List Op
ops =
    offer (record { kind = hit; id = 1 })
    ∷ offer (record { kind = stats; id = 2 })
    ∷ offer (record { kind = hit; id = 3 })
    ∷ pull true
    ∷ offer (record { kind = error; id = 4 })
    ∷ pull true
    ∷ pull true
    ∷ []

-- A client that has lost two hits already
abbrev slow : Client
slow = record new_client { hit_dropped = 2 }

slow_lem :
    (run ops slow).1
    ≡ single (record { kind = stats; id = 2 })
      ∷ single (record { kind = error; id = 4 })
      ∷ coalesced 2
      ∷ []
unfolding run next next_important next_latest next_lossy next_hit enqueue put put_hit put_latest
slow_lem = refl

slow-IsSorted : IsSorted slow
slow-IsSorted = record {
  important_lane = refl;
  stats_lane = refl;
  snapshot_lane = refl;
  hits_lane = refl;
  hits_bound = omega arith;
}

run_conserves_example :
    (hits_held slow + hits_offered ops ≡ hits_sent (run ops slow).1 + hits_held (run ops slow).0)
    × (length (run ops slow).0.hits ≤ client_buf_cap)
run_conserves_example = run_conserves ops slow slow-IsSorted refl
