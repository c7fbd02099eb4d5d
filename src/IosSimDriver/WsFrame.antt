-- ===== src/IosSimDriver/WsFrame.antt =====
-- core/internal/iossimdriver/ws_frame.go: the framing of WebSocket messages. A byte is a number below
-- 256; Go's int is an integer of 64 bits that wraps.
pub mod Unmask
pub mod RoundTrip
pub mod Panics
use Prim.Native.Nat.{bit_xor}
use atomyx.Prelude.{
  int_of, wrap_int, ℕ, zero, suc, ◌+◌, ◌-◌, ◌*◌, ◌/◌, ◌%◌, ◌^◌, List, [], ◌∷◌, ◌++◌, Option, none,
  some, Bool, true, false, ◌&&◌, ltb, leb, ◌==◌, Text, ◌⊎◌, inl, inr, if◌then◌else◌, ℤ, pos, negsuc,
  ◌+ℤ◌, ltb_ℤ, length, get_elem?, take, drop,
}

abbrev pub ws_opcode_text : ℕ
ws_opcode_text = 1

abbrev pub max_ws_frame_payload : ℕ
max_ws_frame_payload = 65535

pub data FrameError : Type 0 where
  payload_too_large : FrameError
  generate_frame_mask : Text → FrameError

-- `mask[i%4]`, for a mask of four bytes.
unfoldable pub mask_at : List ℕ → ℕ → ℕ
mask_at mask i = elim (get_elem? mask (i % 4)) [ none ↦ 0 | some m ↦ m ]

unfoldable pub apply_mask : List ℕ → ℕ → List ℕ → List ℕ
unfolding mask_at
apply_mask mask i [] = []
apply_mask mask i (b ∷ bs) = bit_xor b (mask_at mask i) ∷ apply_mask mask (suc i) bs

-- Big-endian.
unfoldable pub uint_of : ℕ → List ℕ → ℕ
uint_of acc [] = acc
uint_of acc (b ∷ bs) = uint_of (acc * 256 + b) bs

-- The two bytes before the mask, or four. `0x80 | n` is a sum, since n is below 128.
unfoldable pub frame_header : ℕ → List ℕ
frame_header n =
    if leb n 125
    then (128 + ws_opcode_text) ∷ (128 + n) ∷ []
    else (128 + ws_opcode_text) ∷ (128 + 126) ∷ (n % 2 ^ 16 / 256) ∷ (n % 2 ^ 16 % 256) ∷ []

-- `rand` is what crypto/rand reads, the four bytes of the mask or an error.
unfoldable pub encode_ws_text_frame : (rand : Text ⊎ List ℕ) → List ℕ → FrameError ⊎ List ℕ
unfolding frame_header apply_mask
encode_ws_text_frame rand payload =
    if ltb max_ws_frame_payload (length payload) then inl payload_too_large else elim rand [
      | inl e ↦ inl (generate_frame_mask e)
      | inr mask ↦ inr (frame_header (length payload) ++ (mask ++ apply_mask mask 0 payload))
    ]

-- What is left of the buffer follows the payload; `panicked` is a slice out of range.
pub data Extracted : Type 0 where
  incomplete : Extracted
  panicked : Extracted
  extracted : ℕ → List ℕ → List ℕ → Extracted

-- `b[lo:hi]`. Go lets `hi` go up to the capacity; where it is beyond the length here, the slice of
-- the payload that follows is out of range as well.
unfoldable pub slice : List ℕ → ℕ → ℤ → Option (List ℕ)
slice b lo (negsuc n) = none
slice b lo (pos hi) =
    if leb lo hi && leb hi (length b) then some (take (hi - lo) (drop lo b)) else none

-- The length that a header announces, and where the header ends.
unfoldable pub announced : ℕ → List ℕ → Option (ℤ × ℕ)
unfolding uint_of int_of
announced code body =
    if code == 126
    then (if ltb (length body) 2 then none else some (pos (uint_of 0 (take 2 body)), 4))
    else if code == 127
    then (if ltb (length body) 8 then none else some (int_of (uint_of 0 (take 8 body)), 10))
    else some (pos code, 2)

unfoldable pub frame_mask : Bool → ℕ → List ℕ → Option (List ℕ)
unfolding slice
frame_mask false offset b = some []
frame_mask true offset b = slice b offset (pos (offset + 4))

unfoldable pub unmask : Bool → List ℕ → List ℕ → List ℕ
unfolding apply_mask
unmask false mask payload = payload
unmask true mask payload = apply_mask mask 0 payload

unfoldable pub mask_length : Bool → ℕ
mask_length masked = if masked then 4 else 0

-- The frame from the slices for its mask and its payload, and what follows it.
unfoldable pub cut : ℕ → Bool → Option (List ℕ) → Option (List ℕ) → ℤ → List ℕ → Extracted
unfolding unmask
cut opcode masked none payload total b = panicked
cut opcode masked (some mask) none total b = panicked
cut opcode masked (some mask) (some payload) (negsuc n) b = panicked
cut opcode masked (some mask) (some payload) (pos n) b =
    extracted opcode (unmask masked mask payload) (drop n b)

-- The frame in the buffer `b`, whose header ends at `offset`.
unfoldable pub frame_at :
    (opcode : ℕ) → (masked : Bool) → (len : ℤ) → (offset : ℕ) → List ℕ → Extracted
unfolding wrap_int frame_mask slice cut mask_length
frame_at opcode masked len offset b =
    let start = offset + mask_length masked in
    let total = wrap_int (pos start +ℤ len) in
    if ltb_ℤ (pos (length b)) total
    then incomplete
    else cut opcode masked (frame_mask masked offset b) (slice b start total) total b

-- The frame behind a header of two bytes and more, whose length and end are announced.
unfoldable pub located : ℕ → ℕ → List ℕ → Option (ℤ × ℕ) → Extracted
unfolding frame_at
located b0 b1 body none = incomplete
located b0 b1 body (some (len, offset)) =
    frame_at (b0 % 16) (leb 128 b1) len offset (b0 ∷ b1 ∷ body)

unfoldable pub extract_ws_frame : List ℕ → Extracted
unfolding announced located
extract_ws_frame [] = incomplete
extract_ws_frame (b0 ∷ []) = incomplete
extract_ws_frame (b0 ∷ b1 ∷ body) = located b0 b1 body (announced (b1 % 128) body)
