-- ===== src/Pipe/Pace.antt =====
-- The paces of the senders: a pointer and a version in one word.
use public_cpp.Base.{ℕ, ◌^◌, ◌<◌, ◌≡◌, arith}
use public_cpp.Pipe.{encode_sender_pace, decode_sender_pace_ptr, decode_sender_pace_version}

-- For a pointer below 2^48 and a version below 2^16 the pace is a word of 64 bits, and both come back
-- from it.
pub encode_sender_pace-decode :
    (ptr version : ℕ)
    → ptr < 2 ^ 48
    → version < 2 ^ 16
    → (encode_sender_pace ptr version < 2 ^ 64)
      × (decode_sender_pace_ptr (encode_sender_pace ptr version) ≡ ptr)
      × (decode_sender_pace_version (encode_sender_pace ptr version) ≡ version)
unfolding encode_sender_pace decode_sender_pace_ptr decode_sender_pace_version
encode_sender_pace-decode ptr version small few = (omega arith, omega arith, omega arith)

-- The pointer of a pace, whatever the version
pub encode_sender_pace-ptr :
    (ptr version : ℕ) → ptr < 2 ^ 48 → decode_sender_pace_ptr (encode_sender_pace ptr version) ≡ ptr
unfolding encode_sender_pace decode_sender_pace_ptr
encode_sender_pace-ptr ptr version small = omega arith
