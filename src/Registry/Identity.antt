-- ===== src/Registry/Identity.antt =====
-- Participant ids: a registry never gives out the same id twice, as long as its 64-bit counter does
-- not wrap.
use wroom.Common.{
  take, ℕ, ◌+◌, ◌%◌, ◌^◌, ◌<◌, List, [], ◌∷◌, false, ◌≡◌, refl, ◌⊎◌, inl, inr, arith, length,
  Option-cases, nat_eq, list_eq, ◌++◌,
}
use wroom.Common.Equality.{list_beq_iff}
use wroom.Common.Maps.{insert}
use wroom.Common.Sets.{contains, HasNoRepeats}
use wroom.Common.Decimal.{decimal-injective}
use wroom.Registry.Tracks.{truncate_string, publish_track}
use wroom.Registry.Types.{
  max_mid_len, TrackMeta, Str, Participant, Registry, Result, ok, err, panicked,
}
use wroom.Registry.Calls.{Call, joins, leaves, publishes, unpublishes, mutes, updates, step}
use wroom.Registry.{
  enter, join, leave, participant_id_of, with_participant, put_participant, publish, unpublish,
  set_muted, update_subscriptions,
}

pub participant_id-injective : (m n : ℕ) → participant_id_of m ≡ participant_id_of n → m ≡ n
unfolding participant_id_of
participant_id-injective m n e = decimal-injective m n (cc)

-- What a call does to the counter, and the id that it gives out.
abbrev pub answer : Result Str → List Str
answer (ok id) = id ∷ []
answer (err e) = []
answer panicked = []

unfoldable pub issued_by : Registry → Call → List Str
issued_by reg (joins room_id name) = answer (join reg room_id name).0
issued_by reg _ = []

-- The ids that a history gives out, in order.
unfoldable pub issued : Registry → List Call → List Str
issued reg [] = []
issued reg (c ∷ cs) = issued_by reg c ++ issued (step reg c) cs

abbrev pub Issues : Registry → Registry → List Str → Type 0
Issues before after ids =
    ((ids ≡ []) × (after.next_participant_seq ≡ before.next_participant_seq))
    ⊎ ((ids ≡ participant_id_of before.next_participant_seq ∷ [])
        × (after.next_participant_seq ≡ (before.next_participant_seq + 1) % 2 ^ 64))

enter-Issues :
    (reg : Registry) (room_id name : Str)
    → Issues reg (enter reg room_id name).1 (answer (enter reg room_id name).0)
unfolding enter
enter-Issues reg room_id name = ground arith

join-Issues :
    (reg : Registry) (room_id name : Str)
    → Issues reg (join reg room_id name).1 (answer (join reg room_id name).0)
unfolding join
join-Issues reg room_id name = ground (
  arith,
  enter-Issues reg room_id name,
  enter-Issues (record reg { rooms = insert room_id _ reg.rooms }) room_id name,
)

pub with_participant-seq {ℓ} :
    {A : Type ℓ} (reg : Registry) (room_id pid : Str) (f : Participant → Result A × Participant)
    → (with_participant reg room_id pid f).1.next_participant_seq ≡ reg.next_participant_seq
unfolding with_participant put_participant
with_participant-seq reg room_id pid f = ground arith

pub publish-seq :
    (reg : Registry) (room_id pid track_id : Str) (meta : TrackMeta)
    → (publish reg room_id pid track_id meta).1.next_participant_seq ≡ reg.next_participant_seq
unfolding publish
publish-seq reg room_id pid track_id meta =
    elim (Option-cases (truncate_string max_mid_len meta.mid)) [
      | inl e ↦ rw (e, publish) (ground arith)
      | inr (mid, e) ↦
          let cut : TrackMeta = record meta { layers = take 8 meta.layers; mid = mid } in
          rw (e, publish)
            (ground (arith, with_participant-seq reg room_id pid (publish_track track_id cut)))
    ]

pub step-Issues : (reg : Registry) (c : Call) → Issues reg (step reg c) (issued_by reg c)
unfolding step issued_by leave publish unpublish set_muted update_subscriptions
step-Issues reg (joins room_id name) = join-Issues reg room_id name
step-Issues reg (leaves room_id pid) = ground arith
step-Issues reg (publishes room_id pid track_id meta) =
    inl (refl, publish-seq reg room_id pid track_id meta)
step-Issues reg (unpublishes room_id pid track_id) =
    inl (refl, with_participant-seq reg room_id pid _)
step-Issues reg (mutes room_id pid track_id muted) =
    inl (refl, with_participant-seq reg room_id pid _)
step-Issues reg (updates room_id pid upsert removed revision) =
    inl (refl, with_participant-seq reg room_id pid _)

-- An id from before the history is not given out in it.
issued_later :
    (n : ℕ) (reg : Registry) (cs : List Call)
    → n < reg.next_participant_seq
    → reg.next_participant_seq + length cs < 2 ^ 64
    → contains (participant_id_of n) (issued reg cs) ≡ false
unfolding issued contains
issued_later n reg [] h w = refl
issued_later n reg (c ∷ cs) h w = ground (
  arith,
  step-Issues reg c,
  issued_later n (step reg c) cs,
  list_beq_iff (participant_id_of reg.next_participant_seq) (participant_id_of n),
  participant_id-injective reg.next_participant_seq n,
)

-- No history gives out an id twice, as long as the counter does not reach 2 ^ 64.
pub issued-HasNoRepeats :
    (reg : Registry) (cs : List Call)
    → reg.next_participant_seq + length cs < 2 ^ 64
    → HasNoRepeats (issued reg cs)
unfolding issued contains
issued-HasNoRepeats reg [] w = tt
issued-HasNoRepeats reg (c ∷ cs) w = ground (
  arith,
  step-Issues reg c,
  issued-HasNoRepeats (step reg c) cs,
  issued_later reg.next_participant_seq (step reg c) cs,
)
