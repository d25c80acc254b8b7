-- ===== src/Registry/Examples.antt =====
-- The theorems on the registry, each at one history of crates/wroom-core/src/room.rs's operations.
use wroom.Common.{
  ℕ, List, [], ◌∷◌, Option, none, some, Bool, true, false, ◌≡◌, ◌≢◌, refl, ◌⊎◌, inl, inr, ◌↔◌, ◌&&◌,
  ◌==◌, if◌then◌else◌, arith, length, nat_eq, list_eq, ◌≤◌, ◌<◌, get_or, replicate, ◌++◌,
}
use wroom.Common.Maps.{lookup, contains_key, insert, remove}
use wroom.Common.Sets.{contains, to_set, HasNoRepeats}
use wroom.Common.Decimal.{decimal}
use wroom.Registry
use wroom.Registry.Types.{
  Str, Layer, TrackRef, Subscription, TrackMeta, video, camera, Participant, Room, Registry, Result,
  ok, err, panicked, no_such_room, no_such_participant, stale_revision, too_many_subscriptions,
  max_mid_len, max_subscriptions_per_participant, track_ref_eq, max_tracks_per_participant,
  too_many_tracks,
}
use wroom.Registry.Tracks.{publish_track, mute_track, is_continuation_byte}
use wroom.Registry.Subscriptions.{apply_subscriptions, projected_size, upsert_all, remove_all}
use wroom.Registry.{new, new_participant, room, join, leave, publish, with_participant}
use wroom.Registry.Calls.{Call, joins, publishes, updates, step, run}
use wroom.Registry.Projection.{projected_size-eq-length}
use wroom.Registry.Bounds.{IsBounded}
use wroom.Registry.Bounds.Operations.{step-IsBounded, run-new-IsBounded}
use wroom.Registry.Identity.{issued, issued-HasNoRepeats}
use wroom.Registry.Freshness.{find, join-fresh}
use wroom.Registry.Freshness.History.{run-new-AllIssued}
use wroom.Registry.Updates.{
  apply_subscriptions_ok_iff, lookup-apply_subscriptions, updated, size_after, IsNewer,
}
use wroom.Registry.Effects.{leave_effect, publish_panics_iff}

abbrev lobby : Str
lobby = b'l' ∷ b'o' ∷ []

abbrev ann : Str
ann = b'a' ∷ []

abbrev bob : Str
bob = b'b' ∷ []

abbrev p0 : Str
p0 = b'p' ∷ b'0' ∷ []

abbrev p1 : Str
p1 = b'p' ∷ b'1' ∷ []

abbrev cam : Str
cam = b'c' ∷ []

abbrev cam_meta : TrackMeta
cam_meta = record { kind = video; source = camera; muted = false; layers = []; mid = b'0' ∷ [] }

abbrev cam_of_p0 : TrackRef
cam_of_p0 = record { participant_id = p0; track_id = cam }

abbrev low : Layer
low = record { spatial = 0; temporal = 1 }

abbrev wish : Subscription
wish = record { track = cam_of_p0; max_layer = low; priority = 1 }

-- Two people join, one publishes and the other subscribes.
abbrev history : List Call
history =
    joins lobby ann
    ∷ joins lobby bob
    ∷ publishes lobby p0 cam cam_meta
    ∷ updates lobby p1 (wish ∷ []) [] 7
    ∷ []

abbrev served : Registry
served = run new history

step-IsBounded_example : IsBounded (step served (joins lobby cam))
step-IsBounded_example = step-IsBounded served (joins lobby cam) (run-new-IsBounded history)

issued-HasNoRepeats_example : HasNoRepeats (issued new history)
unfolding new
issued-HasNoRepeats_example = issued-HasNoRepeats new history (omega arith)

join-fresh_example :
    ((rid : Str) → find served rid (b'p' ∷ b'2' ∷ []) ≡ none)
    × ((rid j : Str)
        → find (join served lobby cam).1 rid j ≡ (
            if (lobby == rid) && ((b'p' ∷ b'2' ∷ []) == j)
            then some (new_participant (b'p' ∷ b'2' ∷ []) cam)
            else find served rid j))
unfolding run step new join publish Registry.update_subscriptions decimal contains_key
    Registry.participant_mut lookup wroom.Registry.Tracks.truncate_string insert
    wroom.Common.list_beq Registry.participant_id_of Registry.put_participant
join-fresh_example =
    join-fresh served lobby cam {pid = b'p' ∷ b'2' ∷ []} (run-new-AllIssued history (omega arith))
      refl

projected_size-eq-length_example :
    projected_size ((cam_of_p0, wish) ∷ []) (wish ∷ wish ∷ []) (cam_of_p0 ∷ [])
    ≡ length (upsert_all (remove_all ((cam_of_p0, wish) ∷ []) (cam_of_p0 ∷ [])) (wish ∷ wish ∷ []))
unfolding contains_key
projected_size-eq-length_example =
    projected_size-eq-length ((cam_of_p0, wish) ∷ []) (wish ∷ wish ∷ []) (cam_of_p0 ∷ []) (refl, tt)

abbrev viewer : Participant
viewer = record {
  id = p1;
  name = bob;
  tracks = [];
  subscriptions = (cam_of_p0, wish) ∷ [];
  applied_subscription_revision = some 7;
}

apply_subscriptions_ok_iff_example :
    ((apply_subscriptions (wish ∷ []) (cam_of_p0 ∷ []) 8 viewer).0 ≡ ok 8) ↔ (
      IsNewer 8 (some 7)
      × (size_after (wish ∷ []) (cam_of_p0 ∷ []) 8 viewer ≤ max_subscriptions_per_participant))
unfolding contains_key
apply_subscriptions_ok_iff_example =
    apply_subscriptions_ok_iff (wish ∷ []) (cam_of_p0 ∷ []) 8 viewer (refl, tt)

lookup-apply_subscriptions_example :
    (lookup cam_of_p0 (apply_subscriptions [] (cam_of_p0 ∷ []) 8 viewer).1.subscriptions
      ≡ updated viewer.subscriptions [] (cam_of_p0 ∷ []) cam_of_p0)
    × ((apply_subscriptions [] (cam_of_p0 ∷ []) 8 viewer).1.applied_subscription_revision ≡ some 8)
    × ((apply_subscriptions [] (cam_of_p0 ∷ []) 8 viewer).1.tracks ≡ [])
unfolding contains_key apply_subscriptions to_set contains wroom.Registry.Types.track_ref_beq
    wroom.Common.list_beq
lookup-apply_subscriptions_example =
    lookup-apply_subscriptions [] (cam_of_p0 ∷ []) 8 viewer cam_of_p0 (refl, tt) refl

abbrev arrived : Registry
arrived = run new (joins lobby ann ∷ [])

abbrev arrival : Participant
arrival = new_participant p0 ann

abbrev hall : Room
hall = record { id = lobby; participants = (p0, arrival) ∷ [] }

leave_effect_example :
    ((leave arrived lobby p0).0 ≡ contains_key p0 hall.participants)
    × ((rid j : Str)
        → find (leave arrived lobby p0).1 rid j
          ≡ (if (lobby == rid) && (p0 == j) then none else find arrived rid j))
    × ((room (leave arrived lobby p0).1 lobby ≡ none) ↔ (remove p0 hall.participants ≡ []))
unfolding run step new join decimal room lookup contains_key insert wroom.Common.list_beq
    Registry.participant_id_of
leave_effect_example =
    leave_effect arrived lobby p0 hall (run-new-IsBounded (joins lobby ann ∷ [])) refl

-- A mid of 63 letters and a character of two bytes, the second of which is byte 64.
abbrev long_mid : Str
long_mid = replicate 63 97 ++ 0xc3 ∷ 0xa9 ∷ []

publish_panics_iff_example :
    ((publish arrived lobby p0 cam (record cam_meta { mid = long_mid })).0 ≡ panicked) ↔ (
      (max_mid_len < length long_mid)
      × (is_continuation_byte (get_or long_mid max_mid_len 0) ≡ true))
publish_panics_iff_example =
    publish_panics_iff arrived lobby p0 cam (record cam_meta { mid = long_mid }) refl
