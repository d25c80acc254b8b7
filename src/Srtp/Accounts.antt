-- ===== src/Srtp/Accounts.antt =====
-- A table of streams against the log of the indices committed in it, for one of a stream's two windows.
use wroom.Common.{
  ℕ, List, [], ◌∷◌, true, false, ◌≡◌, refl, inl, inr, arith, nat_beq, nat_eq, if◌then◌else◌,
  Bool-cases, subst,
}
use wroom.Common.Sets.{contains, HasNoRepeats}
use wroom.Common.Results.{ok}
use wroom.Srtp.Window.{IndexWindow, empty, check, record_index}
use wroom.Srtp.Window.Replay.{Tracks, record_index-Tracks, check_iff}
use wroom.Srtp.Streams
use wroom.Srtp.Streams.{Stream, Streams, fresh, get, modify}
use wroom.Srtp.Streams.Table.{HasDistinctSsrcs, stream_of, or_fresh}
use wroom.Srtp.Streams.Modify.{modify_ok}

-- The committed (SSRC, index) pairs, newest first, and those of one SSRC.
abbrev pub Log : Type 0
Log = List (ℕ × ℕ)

unfoldable pub indices_of : ℕ → Log → List ℕ
indices_of ssrc [] = []
indices_of ssrc (entry ∷ log) =
    if nat_beq entry.0 ssrc then entry.1 ∷ indices_of ssrc log else indices_of ssrc log

-- Each SSRC's window knows the indices that the log has for it, and the log has none twice.
pub record Accounts (window : Stream → IndexWindow) (s : Streams) (log : Log) : Type 0 where
  pub distinct : HasDistinctSsrcs s.slots
  pub tracks :
      (ssrc : ℕ) → Tracks (window (or_fresh ssrc (stream_of ssrc s.slots))) (indices_of ssrc log)
  pub no_repeats : (ssrc : ℕ) → HasNoRepeats (indices_of ssrc log)

module _ (window : Stream → IndexWindow) (mark : ℕ → Stream → Stream)
    (marks : (i : ℕ) (st : Stream) → window (mark i st) ≡ record_index (window st) i)
    (keeps : (i : ℕ) (st : Stream) → (mark i st).ssrc ≡ st.ssrc) where
  -- An index that passed the check keeps the accounts when it is committed.
  pub modify-Accounts :
      (s s' : Streams) (log : Log) (ssrc index : ℕ)
      → Accounts window s log
      → check (window (or_fresh ssrc (stream_of ssrc s.slots))) index ≡ true
      → modify s ssrc (mark index) ≡ ok s'
      → Accounts window s' ((ssrc, index) ∷ log)
  unfolding indices_of
  modify-Accounts s s' log ssrc index a c m =
      let w = modify_ok s ssrc (mark index) (keeps index) a.distinct s' m in
      let before = or_fresh ssrc (stream_of ssrc s.slots) in
      let after : Tracks (window (mark index before)) (index ∷ indices_of ssrc log) =
        rw (marks index before)
          (record_index-Tracks (window before) index (indices_of ssrc log) (a.tracks ssrc)) in
      let unseen : contains index (indices_of ssrc log) ≡ false =
        ((check_iff (window before) index (indices_of ssrc log) (a.tracks ssrc)).0 c).0 in
      record {
        distinct = w.0;
        tracks = λ j. elim (Bool-cases (nat_beq ssrc j)) [
          | inl e ↦
              let same : ssrc ≡ j = ground (arith, e) in
              rw (w.1 j) (
                rw e (
                  subst (λ k. Tracks (window (mark index before)) (index ∷ indices_of k log)) same
                    after))
          | inr e ↦ rw (w.1 j) (rw e (a.tracks j))
        ];
        no_repeats = λ j. elim (Bool-cases (nat_beq ssrc j)) [
          | inl e ↦
              let same : ssrc ≡ j = ground (arith, e) in
              rw e (
                subst (λ k. HasNoRepeats (index ∷ indices_of k log)) same
                  (unseen, a.no_repeats ssrc))
          | inr e ↦ rw e (a.no_repeats j)
        ];
      }

pub new-Accounts :
    (window : Stream → IndexWindow)
    → ((ssrc : ℕ) → window (fresh ssrc) ≡ empty)
    → Accounts window Streams.new []
unfolding Streams.new stream_of indices_of
new-Accounts window h = record {
  distinct = tt;
  tracks = λ ssrc. rw (h ssrc) refl;
  no_repeats = λ ssrc. tt;
}
