-- ===== src/Media/Examples.antt =====
-- The theorems on the media plane at concrete inputs.
use wroom.Common.{
  ℕ, ◌≡◌, refl, ◌<◌, arith, List, [], ◌∷◌, none, some, Bool, true, false, All, not, get_or, nat_eq,
  list_eq,
}
use wroom.Common.Bytes.{Bytes}
use wroom.Common.Maps.{values}
use wroom.Common.Sets.{contains, HasNoRepeats}
use wroom.Common.Results.{ok}
use wroom.Registry.Types.{TrackKind, TrackSource}
use wroom.Session.Messages.{Track}
use wroom.Media.Messages.{tracks_published, MediaControl, joined, subscriptions_changed, left}
use wroom.Media.Router.{router_new}
use wroom.Media.Shards.{shard_new}
use wroom.Media.Fanout.{RoomShard, rebuild_fanout}
use wroom.Media.Fanout.Rebuilt.{Rebuilt, rebuild_fanout-Rebuilt}
use wroom.Media.Plane.Running.{Runs, are_admissible, plane_run-Agrees}
use wroom.Media.Plane.Routing.{Routes, demand-fanout}
use wroom.Common.{
  ◌+◌, ◌*◌, ◌^◌, ◌%◌, ◌&&◌, ◌||◌, ltb, leb, if◌then◌else◌, length, take, replicate, ◌==◌,
}
use wroom.Common.Integers.{pos, ◌-ℤ◌}
use wroom.Rtcp.Block.{Block}
use wroom.Rtcp.Reports.{build_receiver_report, receiver_reports, report_ssrc}
use wroom.Rtcp.Compound.{parse_packet, receiver_report}
use wroom.Rtcp.Twcc.{TwccStatus, not_received, received}
use wroom.Media.Feedback.{RrSlot, slot_new, record_slot, report, ext_max}
use wroom.Media.Feedback.Tracking.{record_slot-ext_max}
use wroom.Media.Feedback.Stream.{Heard, Tells, hear, report-hear}
use wroom.Media.Receiving.{
  RecvFeedback, feedback_new, open_window, record_twcc, twcc_to_deltas, epoch_ticks,
}
use wroom.Media.Receiving.Deltas.{undeltas, undeltas-twcc_to_deltas}
use wroom.Media.Receiving.Window.{status, record_twcc-status}
use wroom.Media.Reporting.{report_each}
use wroom.Media.Reporting.Contained.{
  Input, media, control, tick, take_inputs, IsContained, take_inputs-feedback_new,
}
use wroom.Media.Reporting.Fitting.{report_each-parse_packet}

abbrev ann : Bytes
ann = b'a' ∷ []

abbrev bob : Bytes
bob = b'b' ∷ []

abbrev cat : Bytes
cat = b'c' ∷ []

abbrev lobby : Bytes
lobby = b'l' ∷ []

-- Two members, of which `bob` is local and wants nothing but the video of `ann`.
abbrev hall : RoomShard
hall = record {
  name = lobby;
  pids = (ann, 0) ∷ (bob, 1) ∷ [];
  locals = (bob, record { pid = 1; reply = 7 }) ∷ [];
  wants = (0, none) ∷ (1, some ((0, 2) ∷ [])) ∷ [];
  demand = [];
  fanout_v = [];
  fanout_a = [];
  fanout_any = [];
  max_pid = 2;
}

hall_fresh : HasNoRepeats (values hall.pids)
unfolding values contains
hall_fresh = (refl, (refl, tt))

hall_below : All (λ p. p < hall.max_pid) (values hall.pids)
unfolding values
hall_below = omega arith

rebuild_fanout-Rebuilt_example :
    (after : RoomShard) × (rebuild_fanout 2 hall ≡ ok after) × Rebuilt 2 hall after
rebuild_fanout-Rebuilt_example = rebuild_fanout-Rebuilt 2 hall hall_fresh hall_below

abbrev camera : Track
camera = record {
  id = b'v' ∷ [];
  kind = TrackKind.video;
  source = TrackSource.camera;
  muted = false;
  layers = [];
  mid = [];
}

-- Two join, one publishes a track, the other subscribes to it, and a third comes and goes.
abbrev history : List MediaControl
history =
    joined lobby ann 5
    ∷ joined lobby bob 6
    ∷ tracks_published lobby ann (camera ∷ [])
    ∷ subscriptions_changed lobby bob ((ann, b'v' ∷ []) ∷ [])
    ∷ joined lobby cat 8
    ∷ left lobby cat
    ∷ []

history_fair : are_admissible history (router_new 2) ≡ true
unfolding are_admissible router_new wroom.Common.list_beq
history_fair = refl

plane_run-Agrees_example : Runs 1 2 history (router_new 2) (shard_new 2)
plane_run-Agrees_example = plane_run-Agrees 1 2 history history_fair

demand-fanout_example : Routes 0 1 2 history (router_new 2)
demand-fanout_example = demand-fanout 0 1 2 history history_fair

-- A source at the end of the 16 bits.
abbrev talker : RrSlot
talker = record (slot_new 7 65_535 10) { init = true; received = 1 }

record_slot-ext_max_example :
    (ext_max (record_slot 1 960 (pos 48_000) 20 talker) ≡ 65_537)
    × (((record_slot 1 960 (pos 48_000) 20 talker).base_seq ≡ 65_535)
        × ((record_slot 1 960 (pos 48_000) 20 talker).received ≡ 2))
unfolding ext_max slot_new
record_slot-ext_max_example =
    record_slot-ext_max 1 960 (pos 48_000) 20 talker (unfold slot_new in refl) (omega arith)
      (unfold slot_new in omega arith)

abbrev no_delay : ℕ → ℕ
no_delay t = 0

-- Three more packets, the second of which is four numbers further on and over the wrap.
abbrev stream : List Heard
stream =
    record { gap = 1; rtp_ts = 960; arrival = pos 1_000; now = 20 }
    ∷ record { gap = 4; rtp_ts = 4_800; arrival = pos 4_900; now = 100 }
    ∷ record { gap = 1; rtp_ts = 5_760; arrival = pos 5_800; now = 120 }
    ∷ []

report-hear_example :
    Tells
      (report no_delay 200
        (hear 65_533 stream (record_slot 65_533 0 (pos 0) 5 (slot_new 7 65_533 5)))).0
      65_533
      6
      3
report-hear_example =
    report-hear no_delay 200 7 65_533 0 5 (pos 0) stream (omega arith)
      ((omega arith, omega arith), ((omega arith, omega arith), ((omega arith, omega arith), tt)))
      (omega arith) (omega arith)

-- The second of the packets comes late, after the fourth.
abbrev window : List TwccStatus
window = received (pos 1_000) ∷ received (pos 1_300) ∷ not_received ∷ received (pos 1_200) ∷ []

undeltas-twcc_to_deltas_example :
    undeltas (pos ((twcc_to_deltas window).1 * 256)) (twcc_to_deltas window).0 ≡ window
undeltas-twcc_to_deltas_example =
    undeltas-twcc_to_deltas window
      (omega arith, (unfold ◌-ℤ◌ in omega arith, (unfold ◌-ℤ◌ in omega arith, tt)))

-- A window that the packet 65 000 opened.
abbrev opened : RecvFeedback
opened = open_window 65_000 5_000_000 (feedback_new 0)

record_twcc-status_example :
    (status (record_twcc 65_400 9_000_000 opened).1 400 ≡ received (epoch_ticks opened 9_000_000))
    × ((record_twcc 65_400 9_000_000 opened).0 ≡ true)
unfolding open_window feedback_new
record_twcc-status_example =
    record_twcc-status 65_400 9_000_000 opened (unfold open_window in refl) 400

abbrev heard : List RrSlot
heard = talker ∷ slot_new 8 3 10 ∷ []

report_each-parse_packet_example :
    (b : Block) × (out : Bytes) × (build_receiver_report
        (replicate 512 0)
        1
        (report_each no_delay 30 2 heard).0
      ≡ (ok (8 + 24 * 2), out))
    × (parse_packet (take (8 + 24 * 2) out) ≡ ok (record { block = b; kind = receiver_report b }))
    × (report_ssrc b ≡ 1)
    × (receiver_reports b ≡ (report_each no_delay 30 2 heard).0)
unfolding slot_new report_each
report_each-parse_packet_example =
    report_each-parse_packet no_delay (λ t. omega arith) 30 2 heard (omega arith)
      ((omega arith, omega arith), ((omega arith, omega arith), tt))

-- A packet with a transport-wide number, bytes that are none, and a tick a second later.
abbrev inputs : List Input
inputs =
    media
      (0x90 ∷ 111 ∷ 0 ∷ 1 ∷ 0 ∷ 0 ∷ 0 ∷ 5 ∷ 0 ∷ 0 ∷ 0 ∷ 7 ∷ 0xbe ∷ 0xde ∷ 0 ∷ 1 ∷ 0x31 ∷ 0 ∷ 9 ∷ 0
        ∷ 1 ∷ [])
      1_000_000 1_000_100
    ∷ control (1 ∷ 2 ∷ []) 2_000_000
    ∷ tick 2_000_000_000 2_000_000_100
    ∷ []

take_inputs-feedback_new_example : IsContained (take_inputs no_delay inputs (feedback_new 0))
take_inputs-feedback_new_example = take_inputs-feedback_new no_delay 0 inputs
