-- ===== src/Rtp/Rewriting/Written.antt =====
-- What the second pass writes of the elements that a rewritten packet is to carry.
use wroom.Common.{ℕ, ◌≡◌, List, [], ◌∷◌, Option, none, some, Bool, length, ◌⊎◌}
use wroom.Common.Bytes.{Bytes}
use wroom.Rtp.Rewriting.{write_element}

-- Elements one after the other from a position on, and the position after them.
abbrev pub write_all : Bool → Bytes × ℕ → List (ℕ × Bytes) → Bytes × ℕ
write_all two_byte s [] = s
write_all two_byte s ((id, v) ∷ els) = write_all two_byte (write_element two_byte s id v) els

-- A synthesized sequence number has two bytes.
IsSeq : Option (ℕ × Bytes) → Type 0
IsSeq el = (el ≡ none) ⊎ ((id : ℕ) × (v : Bytes) × (el ≡ some (id, v)) × (length v ≡ 2))
