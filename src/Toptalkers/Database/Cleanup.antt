-- ===== src/Toptalkers/Database/Cleanup.antt =====
-- What a round of `Cleanup` may delete.
use flowpipeline.Base.{ℕ, ◌≡◌, ◌≢◌, ◌⊎◌, ◌<◌, get_or, Bool, true, not, [], ◌∷◌, some, String, arith}
use flowpipeline.Toptalkers.Record.{Record, is_empty}
use flowpipeline.Toptalkers.Record.Empty.{packets_of_is_empty}
use flowpipeline.Toptalkers.Database.{Entries, Database, find, keep, cleanup}

find-keep :
    (test : Record → Bool) (k : String) (m : Entries) {r : Record}
    → find k m ≡ some r
    → test r ≡ true
    → find k (keep test m) ≡ some r
unfolding find keep
find-keep test k [] e t = cc
find-keep test k ((j, s) ∷ m) {r} e t = ground (arith, find-keep test k m {r = r})

-- A record survives a round of the cleanup, whether the round deletes or only counts down, if one
-- of its buckets counts forwarded or dropped packets.
pub find-cleanup :
    (db : Database) (k : String) (r : Record) (j : ℕ)
    → find k db.database ≡ some r
    → j < r.capacity
    → (get_or r.fwd_packets j 0 ≢ 0) ⊎ (get_or r.drop_packets j 0 ≢ 0)
    → find k (cleanup db).database ≡ some r
unfolding cleanup
find-cleanup db k r j e h n =
    ground (arith, packets_of_is_empty r j, find-keep (λ s. not (is_empty s)) k db.database {r = r})
