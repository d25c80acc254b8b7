-- ===== src/Registry/Calls.antt =====
-- Histories of the registry: the mutating methods of `Registry` in crates/wroom-core/src/room.rs as
-- one type of calls, and a run of any number of them.
use wroom.Common.{List, [], ◌∷◌, ℕ, Bool}
use wroom.Registry.Types.{Str, TrackMeta, Subscription, TrackRef, Registry}
use wroom.Registry.{join, leave, publish, unpublish, set_muted, update_subscriptions}

pub data Call : Type 0 where
  joins : Str → Str → Call
  leaves : Str → Str → Call
  publishes : Str → Str → Str → TrackMeta → Call
  unpublishes : Str → Str → Str → Call
  mutes : Str → Str → Str → Bool → Call
  updates : Str → Str → List Subscription → List TrackRef → ℕ → Call

unfoldable pub step : Registry → Call → Registry
step reg (joins room_id name) = (join reg room_id name).1
step reg (leaves room_id pid) = (leave reg room_id pid).1
step reg (publishes room_id pid track_id meta) = (publish reg room_id pid track_id meta).1
step reg (unpublishes room_id pid track_id) = (unpublish reg room_id pid track_id).1
step reg (mutes room_id pid track_id muted) = (set_muted reg room_id pid track_id muted).1
step reg (updates room_id pid upsert removed revision) =
    (update_subscriptions reg room_id pid upsert removed revision).1

unfoldable pub run : Registry → List Call → Registry
run reg [] = reg
run reg (c ∷ cs) = run (step reg c) cs
