-- ===== src/Session/Machine.antt =====
-- `Session` of crates/wroom-signaling/src/session.rs. A handler gives the session, the outputs and the
-- registry that it leaves; a failed `expect` and a panic of the registry are the outcome `aborted`.
pub mod Handlers
use wroom.Common.{
  ℕ, ◌+◌, ◌-◌, ◌%◌, ◌^◌, List, [], ◌∷◌, ◌++◌, Option, none, some, Bool, true, false, ◌||◌, ltb, leb,
  nat_beq, if◌then◌else◌, length, take, map,
}
use wroom.Common.Decimal.{decimal}
use wroom.Registry.Types.{
  Str, Participant, Registry, RegistryError, Result, ok, err, panicked, stale_revision, TrackRef,
  PublishOutcome,
}
use wroom.Registry
use wroom.Registry.{room, participant}
use wroom.Registry.Freshness.{find}
use wroom.Session.Messages
use wroom.Session.Messages.{
  SessionDescription, IceCandidates, JoinRequest, Track, UpdateSubscriptions, UpdateLocalTracks,
  ClientMessage, RoomDelta, no_delta, Detail, first_must_be_join, empty_message, invalid_token,
  already_joined, bye, join_rejected, ServerMessage, join_response, room_delta, subscription_update,
  chat, disconnect, Output, to_self, to_peers, client_left, publisher, subscriber, SignalTarget,
  room_delta_is_empty, core_track_meta, core_subscriptions, proto_participant, proto_room,
}

abbrev pub max_parked_candidates : ℕ
max_parked_candidates = 256

abbrev pub max_chat_bytes : ℕ
max_chat_bytes = 2000

pub record TransportDirty : Type 0 where
  pub publisher_sdp : Bool
  pub subscriber_sdp : Bool

pub record TransportPark : Type 0 where
  pub publisher_sdp : Option SessionDescription
  pub subscriber_sdp : Option SessionDescription
  pub publisher_candidates : List Str
  pub subscriber_candidates : List Str
  pub publisher_candidates_done : Bool
  pub subscriber_candidates_done : Bool

pub data State : Type 0 where
  awaiting_join joined closed : State

pub record Claims : Type 0 where
  pub room_id : Str
  pub display_name : Str

-- What a session takes from outside: the token verifier, and the floating-point token bucket of the chat.
-- `refill` adds what the elapsed nanoseconds are worth, up to the burst.
pub record Env : Type 1 where
  pub verify : Str → Option Claims
  pub Tokens : Type 0
  pub burst : Tokens
  pub refill : Tokens → ℕ → Tokens
  pub affords_one : Tokens → Bool
  pub spend_one : Tokens → Tokens

pub record Session (Tokens : Type 0) : Type 0 where
  pub state : State
  pub participant_id : Option Str
  pub room_id : Option Str
  pub display_name : Option Str
  pub transport : TransportPark
  pub transport_dirty : TransportDirty
  pub chat_seq : ℕ
  pub chat_tokens : Tokens
  pub chat_refill : ℕ

abbrev pub empty_park : TransportPark
empty_park = record {
  publisher_sdp = none;
  subscriber_sdp = none;
  publisher_candidates = [];
  subscriber_candidates = [];
  publisher_candidates_done = false;
  subscriber_candidates_done = false;
}

abbrev pub clean : TransportDirty
clean = record { publisher_sdp = false; subscriber_sdp = false }

pub data Outcome (Tokens : Type 0) : Type 0 where
  returned : Session Tokens → List Output → Registry → Outcome Tokens
  aborted : Outcome Tokens

-- The clocks at a message: the monotonic one in nanoseconds, and the wall clock in milliseconds.
pub record Clocks : Type 0 where
  pub now : ℕ
  pub wall : ℕ

unfoldable pub park_sdp : {T : Type 0} → SessionDescription → Session T → Session T
park_sdp sd s = elim sd.target [
  | SignalTarget.publisher ↦ record s {
    transport = record s.transport { publisher_sdp = some sd };
    transport_dirty = record s.transport_dirty { publisher_sdp = true };
  }
  | SignalTarget.subscriber ↦ record s {
    transport = record s.transport { subscriber_sdp = some sd };
    transport_dirty = record s.transport_dirty { subscriber_sdp = true };
  }
  | SignalTarget.unspecified ↦ s
]

-- `buf.extend(candidates.take(..))`, as far as the park has room.
unfoldable pub extended : List Str → List Str → List Str
extended buf candidates = buf ++ take (max_parked_candidates - length buf) candidates

unfoldable pub park_candidates : {T : Type 0} → IceCandidates → Session T → Session T
unfolding extended
park_candidates ic s =
    let t = s.transport in
    let ends = Messages.nil ic.candidates in
    elim ic.target [
      | SignalTarget.publisher ↦ record s {
        transport =
            if ends
            then record t { publisher_candidates_done = true }
            else record t { publisher_candidates = extended t.publisher_candidates ic.candidates };
      }
      | SignalTarget.subscriber ↦ record s {
        transport = if ends then record t { subscriber_candidates_done = true } else record t {
          subscriber_candidates = extended t.subscriber_candidates ic.candidates;
        };
      }
      | SignalTarget.unspecified ↦ s
    ]

unfoldable pub take_transport_dirty : {T : Type 0} → Session T → TransportDirty × Session T
take_transport_dirty s = (s.transport_dirty, record s { transport_dirty = clean })

unfoldable pub is_joined : {T : Type 0} → Session T → Bool
is_joined s = elim s.state [ joined ↦ true | _ ↦ false ]

unfoldable pub is_closed : {T : Type 0} → Session T → Bool
is_closed s = elim s.state [ closed ↦ true | _ ↦ false ]

unfoldable pub reject : {T : Type 0} → Detail → Session T → Registry → Outcome T
reject detail s reg =
    returned (record s { state = closed })
      (to_self (disconnect Messages.Reason.unspecified detail) ∷ Output.close ∷ []) reg

abbrev pub left_delta : Str → ServerMessage
left_delta pid = room_delta (record no_delta { left = pid ∷ [] })

-- The broadcast, the session and the registry that it leaves.
