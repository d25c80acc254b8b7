-- ===== src/Srtp/Window/Estimate.antt =====
-- The estimate of `guess`, and where the sender's index differs from it.
use wroom.Common.{ℕ, ◌+◌, ◌-◌, ◌/◌, ◌%◌, ◌^◌, ◌≤◌, ◌<◌, some, ◌≡◌, ◌↔◌, arith}
use wroom.Srtp.Window.{IndexWindow, seq_of, guess, send_index}

-- The window's highest index is `h`.
abbrev at : ℕ → ℕ → IndexWindow
at h bits = record { highest = some h; bits = bits }

-- Away from both ends of the index space, the estimate has the packet's sequence number and is the
-- index nearest to the highest one: no other index with that sequence number is nearer.
guess_nearest :
    (h bits seq other : ℕ)
    → seq < 2 ^ 16
    → 2 ^ 16 ≤ h
    → h < 2 ^ 48 - 2 ^ 16
    → other % 2 ^ 16 ≡ seq
    → (guess (at h bits) seq % 2 ^ 16 ≡ seq)
      × ((guess (at h bits) seq - h) + (h - guess (at h bits) seq) ≤ (other - h) + (h - other))
unfolding guess
guess_nearest h bits seq other s low high o = ground arith

-- Away from both ends of the index space, the estimate recovers every index that lies less than 2 ^ 15
-- from the highest one.
pub guess_recovers :
    (h bits index : ℕ)
    → 2 ^ 16 ≤ h
    → h < 2 ^ 48 - 2 ^ 16
    → index < h + 2 ^ 15
    → h < index + 2 ^ 15
    → guess (at h bits) (index % 2 ^ 16) ≡ index
unfolding guess
guess_recovers h bits index low high a b = ground arith

-- Below the end of the index space, the sender's index is the receiver's estimate exactly when the
-- sequence number is at most 2 ^ 15 above the highest index's, which leaves out the late packets from
-- before the last wrap of the sequence number.
send_index-eq-guess_iff :
    (h bits seq : ℕ)
    → seq < 2 ^ 16
    → h < 2 ^ 48 - 2 ^ 16
    → (send_index (at h bits) seq ≡ some (guess (at h bits) seq)) ↔ (seq ≤ seq_of h + 2 ^ 15)
unfolding guess send_index
send_index-eq-guess_iff h bits seq s high = ground arith

-- Away from both ends of the index space, a late packet from before the last wrap is sent 2 ^ 16 above
-- the index that it belongs to.
pub send_index_late :
    (h bits index : ℕ)
    → 2 ^ 16 ≤ h
    → h < 2 ^ 48 - 2 ^ 16
    → index / 2 ^ 16 < h / 2 ^ 16
    → h < index + 2 ^ 15
    → send_index (at h bits) (index % 2 ^ 16) ≡ some (index + 2 ^ 16)
unfolding send_index
send_index_late h bits index low high before near = ground arith
