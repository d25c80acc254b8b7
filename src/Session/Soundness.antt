-- ===== src/Session/Soundness.antt =====
-- A joined session's participant is in its room, and a message never aborts the session.
use wroom.Common.{
  ℕ, List, [], ◌∷◌, ◌++◌, Option, none, some, true, false, ◌≡◌, ◌≢◌, ◌⊎◌, refl, sym, arith, inl,
  inr, Option-cases, Bool-cases, All, list_eq, nat_eq, ◌∙◌, if◌then◌else◌, leb, ltb, length, ◌||◌,
  ◌-◌,
}
use wroom.Registry.Types.{Str, Registry, Result, ok, err, panicked, TrackRef, RegistryError}
use wroom.Registry.{publish, unpublish, update_subscriptions, join}
use wroom.Registry.Membership.{
  Kept, HasCleanMid, publish-Kept, unpublish-Kept, update_subscriptions-Kept, join-total, join-Kept,
  Kept-room,
}
use wroom.Session.Messages.{
  ClientMessage, Track, RoomDelta, core_track_meta, Detail, UpdateSubscriptions, UpdateLocalTracks,
  core_subscriptions, no_delta, join_rejected, SessionDescription, IceCandidates, already_joined,
  empty_message, invalid_token, first_must_be_join,
}
use wroom.Session.Machine.{
  Session, State, awaiting_join, joined, closed, park_sdp, park_candidates, Outcome, returned,
  aborted, Env, Clocks, reject, Claims, max_chat_bytes,
}
use wroom.Session.Machine.Handlers.{
  parked_offer, on_first_message, on_join, on_room_message, publish_all, published_delta,
  unpublish_all, on_leave, remove_from_room, on_update_subscriptions, on_update_local_tracks,
  on_send_chat, enter_room, handle, session_new,
}

-- The session's participant is in its room.
abbrev pub Sits : {T : Type 0} → Session T → Registry → Type 0
Sits s reg =
    (rid : Str) × (pid : Str) × (s.room_id ≡ some rid)
    × (s.participant_id ≡ some pid)
    × Kept reg rid pid

abbrev pub IsSound : {T : Type 0} → Session T → Registry → Type 0
IsSound s reg = s.state ≡ joined → Sits s reg

-- The outcome is no panic, and the session that is left is sound.
abbrev pub EndsSound : {T : Type 0} → Outcome T → Type 0
EndsSound (returned s out reg) = IsSound s reg
EndsSound aborted = true ≡ false

pub Result-cases :
    {A : Type 0} (r : Result A)
    → ((a : A) × (r ≡ ok a)) ⊎ (((e : RegistryError) × (r ≡ err e)) ⊎ (r ≡ panicked))
Result-cases (ok a) = inl (a, refl)
Result-cases (err e) = inr (inl (e, refl))
Result-cases panicked = inr (inr refl)

module _ (rid pid : Str) where
  -- Publishing tracks with clean mids goes through, and the participant stays.
  publish_all-Kept :
      (ts : List Track) (delta : RoomDelta) (reg : Registry)
      → All (λ (t : Track). HasCleanMid t.mid) ts
      → Kept reg rid pid
      → (out : RoomDelta × Registry) × (publish_all rid pid ts delta reg ≡ some out)
        × Kept out.1 rid pid
  unfolding publish_all core_track_meta
  publish_all-Kept [] delta reg clean kept = ((delta, reg), refl, kept)
  publish_all-Kept (t ∷ ts) delta reg (clean, more) kept =
      let meta = core_track_meta t in
      let (total, later) = publish-Kept reg rid pid kept t.id meta clean in
      let reg' = (publish reg rid pid t.id meta).1 in
      elim (Result-cases (publish reg rid pid t.id meta).0) [
        | inl (outcome, e) ↦
            let rest = publish_all-Kept ts (published_delta pid t outcome delta) reg' more later in
            (rest.0, ground (arith, e, rest.1), rest.2)
        | inr (inl (x, e)) ↦
            let rest = publish_all-Kept ts delta reg' more later in
            (rest.0, ground (arith, e, rest.1), rest.2)
        | inr (inr e) ↦ absurd (total e)
      ]

  unpublish_all-Kept :
      (ids : List Str) (delta : RoomDelta) (reg : Registry)
      → Kept reg rid pid
      → (out : RoomDelta × Registry) × (unpublish_all rid pid ids delta reg ≡ some out)
        × Kept out.1 rid pid
  unfolding unpublish_all
  unpublish_all-Kept [] delta reg kept = ((delta, reg), refl, kept)
  unpublish_all-Kept (id ∷ ids) delta reg kept =
      let (total, later) = unpublish-Kept reg rid pid kept id in
      let reg' = (unpublish reg rid pid id).1 in
      let gone : TrackRef = record { participant_id = pid; track_id = id } in
      let delta' = record delta { unpublished = delta.unpublished ++ gone ∷ [] } in
      elim (Result-cases (unpublish reg rid pid id).0) [
        | inl (removed, e) ↦
            let rest = unpublish_all-Kept ids (if removed then delta' else delta) reg' later in
            (rest.0, ground (arith, e, rest.1), rest.2)
        | inr (inl (x, e)) ↦
            let rest = unpublish_all-Kept ids delta reg' later in
            (rest.0, ground (arith, e, rest.1), rest.2)
        | inr (inr e) ↦ absurd (total e)
      ]

closed-joined : closed ≢ joined
closed-joined h = ground (arith, h)

awaiting_join-joined : awaiting_join ≢ joined
awaiting_join-joined h = ground (arith, h)

remove_from_room-closed :
    {T : Type 0} (s : Session T) (reg : Registry) → (remove_from_room s reg).1.0.state ≡ closed
unfolding remove_from_room
remove_from_room-closed s reg = ground arith

-- A session that has not joined is sound.
pub session_new-IsSound : (env : Env) (now : ℕ) (reg : Registry) → IsSound (session_new env now) reg
unfolding session_new
session_new-IsSound env now reg h = absurd (awaiting_join-joined h)

reject-EndsSound :
    {T : Type 0} (d : Detail) (s : Session T) (reg : Registry) → EndsSound (reject d s reg)
unfolding reject
reject-EndsSound d s reg = λ h. absurd (closed-joined h)

on_leave-EndsSound : {T : Type 0} (s : Session T) (reg : Registry) → EndsSound (on_leave s reg)
unfolding on_leave
on_leave-EndsSound s reg = λ h. absurd (closed-joined (sym (remove_from_room-closed s reg) ∙ h))

module _ {T : Type 0} (s : Session T) (reg : Registry) (sits : Sits s reg) where
  on_update_subscriptions-EndsSound :
      (us : UpdateSubscriptions) → EndsSound (on_update_subscriptions us s reg)
  unfolding on_update_subscriptions
  on_update_subscriptions-EndsSound us =
      let (rid, pid, room_id, id, kept) = sits in
      let after =
        update_subscriptions-Kept reg rid pid kept (core_subscriptions us.upsert) us.removed
          us.revision in
      let result =
        update_subscriptions reg rid pid (core_subscriptions us.upsert) us.removed us.revision in
      elim (Result-cases result.0) [
        | inl (revision, e) ↦ rw (room_id, id, e) (λ _. (rid, pid, refl, id, after.1))
        | inr (inl (x, e)) ↦ rw (room_id, id, e) (λ _. (rid, pid, refl, id, after.1))
        | inr (inr e) ↦ absurd (after.0 e)
      ]

  on_update_local_tracks-EndsSound :
      (ult : UpdateLocalTracks)
      → All (λ (t : Track). HasCleanMid t.mid) ult.publish
      → EndsSound (on_update_local_tracks ult s reg)
  unfolding on_update_local_tracks
  on_update_local_tracks-EndsSound ult clean =
      let (rid, pid, room_id, id, kept) = sits in
      let published = publish_all-Kept rid pid ult.publish no_delta reg clean kept in
      let done = unpublish_all-Kept rid pid ult.unpublish published.0.0 published.0.1 published.2 in
      rw (room_id, id, published.1, done.1) (λ _. (rid, pid, refl, id, done.2))

module _ (env : Env) (s : Session env.Tokens) (reg : Registry) where
  on_send_chat-EndsSound :
      (clocks : Clocks) (text : Str) → Sits s reg → EndsSound (on_send_chat env clocks text s reg)
  unfolding on_send_chat
  on_send_chat-EndsSound clocks text (rid, pid, room_id, id, kept) =
      let tokens = env.refill s.chat_tokens (clocks.now - s.chat_refill) in
      elim (Bool-cases (leb (length text) 0 || ltb max_chat_bytes (length text))) [
        | inl bad ↦ rw bad (λ _. (rid, pid, room_id, id, kept))
        | inr good ↦ elim (Bool-cases (env.affords_one tokens)) [
          | inl rich ↦ rw (good, rich, id) (λ _. (rid, pid, room_id, id, kept))
          | inr poor ↦ rw (good, poor) (λ _. (rid, pid, room_id, id, kept))
        ]
      ]

  enter_room-EndsSound : (claims : Claims) → EndsSound (enter_room env claims s reg)
  unfolding enter_room
  enter_room-EndsSound claims =
      let result = join reg claims.room_id claims.display_name in
      elim (Result-cases result.0) [
        | inl (pid, e) ↦
            let kept = join-Kept reg claims.room_id claims.display_name pid e in
            let (r, p, there, me) = Kept-room result.1 claims.room_id pid kept in
            rw (e, there, me, enter_room) (λ _. (claims.room_id, pid, refl, refl, kept))
        | inr (inl (x, e)) ↦ rw (e, enter_room) (reject-EndsSound (join_rejected x) s result.1)
        | inr (inr e) ↦ absurd (join-total reg claims.room_id claims.display_name e)
      ]

pub State-cases : (st : State) → (st ≡ awaiting_join) ⊎ ((st ≡ joined) ⊎ (st ≡ closed))
State-cases awaiting_join = inl refl
State-cases joined = inr (inl refl)
State-cases closed = inr (inr refl)

-- The tracks that a message publishes have mids whose cut does not fall inside a character.
abbrev pub HasCleanMids : Option ClientMessage → Type 0
HasCleanMids (some (ClientMessage.update_local_tracks ult)) =
    All (λ (t : Track). HasCleanMid t.mid) ult.publish
HasCleanMids msg = Unit

abbrev SameIds : {T : Type 0} → Session T → Session T → Type 0
SameIds s s' = (s'.room_id ≡ s.room_id) × (s'.participant_id ≡ s.participant_id)

park_sdp-SameIds :
    {T : Type 0} (sd : SessionDescription) (s : Session T) → SameIds s (park_sdp sd s)
unfolding park_sdp
park_sdp-SameIds sd s = ground arith

park_candidates-SameIds :
    {T : Type 0} (ic : IceCandidates) (s : Session T) → SameIds s (park_candidates ic s)
unfolding park_candidates
park_candidates-SameIds ic s = ground arith

SameIds-Sits :
    {T : Type 0} (s s' : Session T) (reg : Registry) → SameIds s s' → Sits s reg → Sits s' reg
SameIds-Sits s s' reg (a, b) (rid, pid, room_id, id, kept) = (rid, pid, a ∙ room_id, b ∙ id, kept)

module _ (env : Env) (s : Session env.Tokens) (reg : Registry) where
  on_room_message-EndsSound :
      (clocks : Clocks) (msg : Option ClientMessage)
      → HasCleanMids msg
      → Sits s reg
      → EndsSound (on_room_message env clocks msg s reg)
  unfolding on_room_message
  on_room_message-EndsSound clocks none clean sits = λ _. sits
  on_room_message-EndsSound clocks (some (ClientMessage.join req)) clean sits =
      reject-EndsSound already_joined s reg
  on_room_message-EndsSound clocks (some (ClientMessage.session_description sd)) clean sits =
      λ _. SameIds-Sits s (park_sdp sd s) reg (park_sdp-SameIds sd s) sits
  on_room_message-EndsSound clocks (some (ClientMessage.ice_candidates ic)) clean sits =
      λ _. SameIds-Sits s (park_candidates ic s) reg (park_candidates-SameIds ic s) sits
  on_room_message-EndsSound clocks (some (ClientMessage.update_subscriptions us)) clean sits =
      on_update_subscriptions-EndsSound s reg sits us
  on_room_message-EndsSound clocks (some (ClientMessage.update_local_tracks ult)) clean sits =
      on_update_local_tracks-EndsSound s reg sits ult clean
  on_room_message-EndsSound clocks (some (ClientMessage.send_chat text)) clean sits =
      on_send_chat-EndsSound env s reg clocks text sits
  on_room_message-EndsSound clocks (some ClientMessage.pong) clean sits = λ _. sits
  on_room_message-EndsSound clocks (some ClientMessage.leave) clean sits = on_leave-EndsSound s reg

  on_first_message-EndsSound :
      (msg : Option ClientMessage) → EndsSound (on_first_message env msg s reg)
  unfolding on_first_message on_join
  on_first_message-EndsSound none = reject-EndsSound empty_message s reg
  on_first_message-EndsSound (some (ClientMessage.join req)) =
      elim (Option-cases (env.verify req.token)) [
        | inl e ↦ rw (e, on_join) (reject-EndsSound invalid_token s reg)
        | inr (claims, e) ↦
            rw (e, on_join)
              (enter_room-EndsSound env (parked_offer env req.publisher_offer s) reg claims)
      ]
  on_first_message-EndsSound (some m) = reject-EndsSound first_must_be_join s reg

  -- On a message whose published mids are not cut inside a character, a session of which a joined one has
  -- its participant in its room does not panic, and where it is joined afterwards its participant is in its
  -- room of the registry that it leaves.
  pub handle-EndsSound :
      (clocks : Clocks) (msg : Option ClientMessage)
      → HasCleanMids msg
      → IsSound s reg
      → EndsSound (handle env clocks msg s reg)
  unfolding handle
  handle-EndsSound clocks msg clean sound = elim (State-cases s.state) [
    | inl e ↦
        let first : handle env clocks msg s reg ≡ on_first_message env msg s reg =
          ground (arith, e) in
        rw first (on_first_message-EndsSound msg)
    | inr (inl e) ↦
        let later : handle env clocks msg s reg ≡ on_room_message env clocks msg s reg =
          ground (arith, e) in
        rw later (on_room_message-EndsSound clocks msg clean (sound e))
    | inr (inr e) ↦
        let over : handle env clocks msg s reg ≡ returned s [] reg = ground (arith, e) in
        rw over (λ h. absurd (closed-joined (sym e ∙ h)))
  ]
