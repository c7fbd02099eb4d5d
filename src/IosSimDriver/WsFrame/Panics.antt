-- ===== src/IosSimDriver/WsFrame/Panics.antt =====
-- core/internal/iossimdriver/ws_frame.go: the lengths that no buffer can hold.
use atomyx.Prelude.{
  int_of, wrap_int, ℕ, suc, ◌+◌, ◌-◌, ◌%◌, ◌^◌, ◌≤◌, ◌<◌, ◌≡◌, ◌≢◌, refl, sym, ◌∙◌, ap, subst, List,
  [], ◌∷◌, Option, none, some, Bool, true, false, ◌&&◌, leb, ltb, ◌==◌, ℤ, pos, negsuc, ◌+ℤ◌, ltb_ℤ,
  if◌then◌else◌, on_bool, on_bool_at, length, take, drop, arith,
}
use atomyx.IosSimDriver.WsFrame.RoundTrip.{wrap_small}
use atomyx.IosSimDriver.WsFrame.{
  uint_of, slice, frame_mask, mask_length, frame_at, cut, incomplete, panicked, announced, located,
  extract_ws_frame, Extracted, extracted,
}

-- An end before the start of the payload.
IsBefore : ℤ → Type 0
IsBefore t = ltb_ℤ t (pos 10) ≡ true

wrap_below : (n : ℕ) → n < 10 → IsBefore (wrap_int (pos n))
unfolding IsBefore wrap_int int_of
wrap_below n h = ground (arith, h)

wrap_negsuc : (n : ℕ) → n < 2 ^ 63 → IsBefore (wrap_int (negsuc n))
unfolding IsBefore wrap_int int_of
wrap_negsuc n h =
    let high : ltb (2 ^ 64 - 1 - n % 2 ^ 64) (2 ^ 63) ≡ false = ground (arith, h) in
    rw high (ground arith)

wrap_negative : (m : ℕ) → m < 2 ^ 63 → IsBefore (wrap_int (pos 10 +ℤ negsuc m))
unfolding ◌+ℤ◌
wrap_negative m h =
    on_bool_at (λ t. IsBefore (wrap_int t)) (leb (0 + suc m) (10 + 0))
      (λ e. wrap_below (10 + 0 - (0 + suc m)) (omega arith))
      (λ e. wrap_negsuc (0 + suc m - (10 + 0) - 1) (omega (arith, h)))

cut-before :
    (op : ℕ) (b : List ℕ) (t : ℤ)
    → 10 ≤ length b
    → IsBefore t
    → (if ltb_ℤ (pos (length b)) t then incomplete else cut op false (some []) (slice b 10 t) t b)
      ≡ panicked
unfolding IsBefore slice cut
cut-before op b (pos n) h k =
    let past : ltb_ℤ (pos (length b)) (pos n) ≡ false = ground (arith, h, k) in
    let empty : leb 10 n ≡ false = ground (arith, k) in rw (past, empty) refl
cut-before op b (negsuc n) h k =
    let past : ltb_ℤ (pos (length b)) (negsuc n) ≡ false = ground (arith, h, k) in rw past refl

-- A frame without a mask that announces a length of 2 ^ 63 or more panics.
pub extract_ws_frame-panics :
    (op : ℕ) (body : List ℕ)
    → 8 ≤ length body
    → 2 ^ 63 ≤ uint_of 0 (take 8 body)
    → uint_of 0 (take 8 body) < 2 ^ 64
    → extract_ws_frame (op ∷ 127 ∷ body) ≡ panicked
unfolding extract_ws_frame announced located frame_at int_of frame_mask mask_length
extract_ws_frame-panics op body h k l =
    let u = uint_of 0 (take 8 body) in
    let enough : ltb (length body) 8 ≡ false = ground (arith, h) in
    let high : ltb u (2 ^ 63) ≡ false = ground (arith, k) in
    let code : announced 127 body ≡ some (negsuc (2 ^ 64 - 1 - u), 10) = rw (enough, high) refl in
    ap (located op 127 body) code
    ∙ cut-before (op % 16) (op ∷ 127 ∷ body) _ (omega (arith, h))
        (wrap_negative (2 ^ 64 - 1 - u) (omega (arith, k, l)))

abbrev Calm : Extracted → Type 0
Calm incomplete = Unit
Calm panicked = ⊥
Calm (extracted op payload rest) = Unit

slice_within :
    (b : List ℕ) (lo hi : ℕ)
    → lo ≤ hi
    → hi ≤ length b
    → slice b lo (pos hi) ≡ some (take (hi - lo) (drop lo b))
unfolding slice
slice_within b lo hi h k =
    let within : leb lo hi && leb hi (length b) ≡ true = ground (arith, h, k) in rw within refl

frame_mask_within :
    (masked : Bool) (offset hi : ℕ) (b : List ℕ)
    → offset + mask_length masked ≤ hi
    → hi ≤ length b
    → (mask : List ℕ) × (frame_mask masked offset b ≡ some mask)
unfolding frame_mask mask_length
frame_mask_within false offset hi b h k = ([], refl)
frame_mask_within true offset hi b h k =
    (_, slice_within b offset (offset + 4) (omega arith) (omega (arith, h, k)))

cut-Calm :
    (op : ℕ) (masked : Bool) (mask payload : Option (List ℕ)) (n : ℕ) (b m p : List ℕ)
    → mask ≡ some m
    → payload ≡ some p
    → Calm (cut op masked mask payload (pos n) b)
unfolding cut
cut-Calm op masked none payload n b m p e e' = grind arith
cut-Calm op masked (some mask) none n b m p e e' = grind arith
cut-Calm op masked (some mask) (some payload) n b m p e e' = tt

mask_length_small : (masked : Bool) → mask_length masked ≤ 4
unfolding mask_length
mask_length_small true = omega arith
mask_length_small false = omega arith

frame_at-Calm :
    (op : ℕ) (masked : Bool) (n offset : ℕ) (b : List ℕ)
    → offset ≤ 10
    → n + 14 < 2 ^ 63
    → Calm (frame_at op masked (pos n) offset b)
unfolding frame_at
frame_at-Calm op masked n offset b h k =
    let start = offset + mask_length masked in
    let small : mask_length masked ≤ 4 = mask_length_small masked in
    subst
      (λ t. Calm (
        if ltb_ℤ (pos (length b)) t
        then incomplete
        else cut op masked (frame_mask masked offset b) (slice b start t) t b))
      (sym (wrap_small start n (omega (arith, h, k, small))))
      (on_bool_at Calm (ltb_ℤ (pos (length b)) (pos (start + n))) (λ e. tt)
        (λ e.
          let held : start + n ≤ length b = ground (arith, e) in
          let mask = frame_mask_within masked offset (start + n) b (omega arith) held in
          cut-Calm op masked _ _ (start + n) b mask.0 _ mask.1
            (slice_within b start (start + n) (omega arith) held)))

IsShortHeader : Option (ℤ × ℕ) → Type 0
IsShortHeader o = elim o [ none ↦ Unit | some x ↦ x.1 ≤ 10 ]

announced-IsShortHeader : (code : ℕ) (body : List ℕ) → IsShortHeader (announced code body)
unfolding announced IsShortHeader
announced-IsShortHeader code body =
    on_bool IsShortHeader (code == 126)
      (on_bool IsShortHeader (ltb (length body) 2) tt (omega arith))
      (on_bool IsShortHeader (code == 127)
        (on_bool IsShortHeader (ltb (length body) 8) tt (omega arith)) (omega arith))

-- Where a header announces a length below 2 ^ 63 - 14, extracting does not panic, whatever the
-- buffer holds.
pub extract_ws_frame-Calm :
    (b0 b1 : ℕ) (body : List ℕ) (n offset : ℕ)
    → announced (b1 % 128) body ≡ some (pos n, offset)
    → n + 14 < 2 ^ 63
    → extract_ws_frame (b0 ∷ b1 ∷ body) ≢ panicked
unfolding extract_ws_frame located IsShortHeader
extract_ws_frame-Calm b0 b1 body n offset e h panics =
    let short : offset ≤ 10 = subst IsShortHeader e (announced-IsShortHeader (b1 % 128) body) in
    subst Calm (sym (ap (located b0 b1 body) e) ∙ panics)
      (frame_at-Calm (b0 % 16) (leb 128 b1) n offset (b0 ∷ b1 ∷ body) short h)
