-- ===== src/IosSimDriver/WsFrame/RoundTrip.antt =====
-- core/internal/iossimdriver/ws_frame.go: a frame that is written can be read back.
use atomyx.Prelude.{
  int_of, wrap_int, ℕ, zero, suc, ◌+◌, ◌-◌, ◌*◌, ◌/◌, ◌%◌, ◌^◌, ◌≤◌, ◌<◌, ◌≡◌, refl, sym, ◌∙◌, ap,
  subst, List, [], ◌∷◌, ◌++◌, append_assoc, some, true, false, ◌&&◌, leb, ltb, ◌==◌, inr, pos, ◌+ℤ◌,
  ltb_ℤ, if◌then◌else◌, on_bool_at, All, length, length-append, take, drop, arith,
}
use atomyx.IosSimDriver.WsFrame.{
  frame_header, encode_ws_text_frame, apply_mask, slice, frame_mask, unmask, mask_length, frame_at,
  cut, incomplete, announced, uint_of, located, ws_opcode_text, extract_ws_frame, extracted,
}
use atomyx.IosSimDriver.WsFrame.Unmask.{IsByte, apply_mask_twice, length-apply_mask}

drop_left : (pre rest : List ℕ) (n : ℕ) → n ≡ length pre → drop n (pre ++ rest) ≡ rest
drop_left [] rest zero e = refl
drop_left [] rest (suc n) e = grind arith
drop_left (x ∷ pre) rest zero e = grind arith
drop_left (x ∷ pre) rest (suc n) e = drop_left pre rest n (omega (arith, e))

take_left : (pre rest : List ℕ) (n : ℕ) → n ≡ length pre → take n (pre ++ rest) ≡ pre
take_left [] rest zero e = refl
take_left [] rest (suc n) e = grind arith
take_left (x ∷ pre) rest zero e = grind arith
take_left (x ∷ pre) rest (suc n) e = ap (λ l. x ∷ l) (take_left pre rest n (omega (arith, e)))

slice_part :
    (pre part rest : List ℕ) (lo hi : ℕ)
    → lo ≡ length pre
    → hi ≡ length pre + length part
    → slice (pre ++ (part ++ rest)) lo (pos hi) ≡ some part
unfolding slice
slice_part pre part rest lo hi e e' =
    let within : leb lo hi && leb hi (length (pre ++ (part ++ rest))) ≡ true =
      ground (arith, e, e', length-append pre (part ++ rest), length-append part rest) in
    rw
      (
        within,
        drop_left pre (part ++ rest) lo e,
        take_left part rest (hi - lo) (omega (arith, e, e')),
      )
      refl

pub wrap_small : (k n : ℕ) → k + n < 2 ^ 63 → wrap_int (pos k +ℤ pos n) ≡ pos (k + n)
unfolding wrap_int int_of ◌+ℤ◌
wrap_small k n h = ground arith

reaches : (b : List ℕ) (n : ℕ) → n ≤ length b → ltb_ℤ (pos (length b)) (pos n) ≡ false
reaches b n h = ground (arith, h)

cut-frame :
    (op : ℕ) (b mask q rest : List ℕ) (n offset : ℕ)
    → n ≤ length b
    → frame_mask true offset b ≡ some mask
    → slice b (offset + 4) (pos n) ≡ some q
    → drop n b ≡ rest
    → (if ltb_ℤ (pos (length b)) (pos n)
        then incomplete
        else cut op true (frame_mask true offset b) (slice b (offset + 4) (pos n)) (pos n) b)
      ≡ extracted op (apply_mask mask 0 q) rest
unfolding cut unmask
cut-frame op b mask q rest n offset h e e' e'' = rw (reaches b n h, e, e', e'') refl

frame_at-frame :
    (op : ℕ) (pre mask q rest : List ℕ)
    → length mask ≡ 4
    → length pre ≤ 4
    → length q ≤ 65535
    → frame_at op true (pos (length q)) (length pre) (pre ++ (mask ++ (q ++ rest)))
      ≡ extracted op (apply_mask mask 0 q) rest
unfolding frame_at mask_length frame_mask
frame_at-frame op pre mask q rest e h k =
    let b = pre ++ (mask ++ (q ++ rest)) in
    let n = length pre + 4 + length q in
    let e' : b ≡ pre ++ mask ++ (q ++ rest) = sym (append_assoc pre mask (q ++ rest)) in
    let e'' : b ≡ pre ++ mask ++ q ++ rest = e' ∙ sym (append_assoc (pre ++ mask) q rest) in
    subst
      (λ t.
        (if ltb_ℤ (pos (length b)) t
          then incomplete
          else cut op true (frame_mask true (length pre) b) (slice b (length pre + 4) t) t b)
        ≡ extracted op (apply_mask mask 0 q) rest)
      (sym (wrap_small (length pre + 4) (length q) (omega (arith, h, k))))
      (cut-frame op b mask q rest n (length pre)
        (omega (
          arith,
          e,
          length-append pre (mask ++ (q ++ rest)),
          length-append mask (q ++ rest),
          length-append q rest,
        ))
        (slice_part pre mask (q ++ rest) (length pre) (length pre + 4) refl (omega (arith, e)))
        (ap (λ l. slice l (length pre + 4) (pos n)) e'
          ∙ slice_part (pre ++ mask) q rest (length pre + 4) n
              (omega (arith, e, length-append pre mask)) (omega (arith, e, length-append pre mask)))
        (ap (drop n) e''
          ∙ drop_left (pre ++ mask ++ q) rest n
              (omega (arith, e, length-append (pre ++ mask) q, length-append pre mask))))

announced_plain : (n : ℕ) (body : List ℕ) → n ≤ 125 → announced n body ≡ some (pos n, 2)
unfolding announced
announced_plain n body h =
    let plain : (n == 126) ≡ false = ground (arith, h) in
    let plain' : (n == 127) ≡ false = ground (arith, h) in rw (plain, plain') refl

announced_short :
    (n : ℕ) (body : List ℕ)
    → n < 65536
    → announced 126 ((n % 2 ^ 16 / 256) ∷ (n % 2 ^ 16 % 256) ∷ body) ≡ some (pos n, 4)
unfolding announced uint_of
announced_short n body h =
    let enough : ltb (suc (suc (length body))) 2 ≡ false = ground arith in
    let value : (0 + n % 2 ^ 16 / 256) * 256 + n % 2 ^ 16 % 256 ≡ n = omega (arith, h) in
    rw enough (ap (λ v. some (pos v, 4)) value)

module _ (mask payload rest : List ℕ) (four : length mask ≡ 4) (mask_bytes : All IsByte mask)
    (bytes : All IsByte payload) (small : length payload ≤ 65535) where
  masked : List ℕ
  masked = apply_mask mask 0 payload

  -- The frame after a header that announces the length of the payload.
  after_header :
      (pre : List ℕ) (n : ℕ)
      → n ≡ length payload
      → length pre ≤ 4
      → frame_at 1 true (pos n) (length pre) (pre ++ (mask ++ masked ++ rest))
        ≡ extracted 1 payload rest
  unfolding masked
  after_header pre n e h =
      let same_length : n ≡ length masked = e ∙ sym (length-apply_mask mask 0 payload) in
      ap (λ k. frame_at 1 true (pos k) (length pre) (pre ++ (mask ++ masked ++ rest))) same_length
      ∙ ap (λ l. frame_at 1 true (pos (length masked)) (length pre) (pre ++ l))
          (append_assoc mask masked rest)
      ∙ frame_at-frame 1 pre mask masked rest four h (omega (arith, same_length, e, small))
      ∙ ap (λ p. extracted 1 p rest) (apply_mask_twice mask 0 payload mask_bytes bytes)

  short_header :
      (n : ℕ)
      → n ≡ length payload
      → n ≤ 125
      → extract_ws_frame (129 ∷ (128 + n) ∷ (mask ++ masked ++ rest)) ≡ extracted 1 payload rest
  unfolding extract_ws_frame located
  short_header n e h =
      let body = mask ++ masked ++ rest in
      let low : (128 + n) % 128 ≡ n = omega (arith, h) in
      let flag : leb 128 (128 + n) ≡ true = ground arith in
      ap (λ c. located 129 (128 + n) body (announced c body)) low
      ∙ ap (located 129 (128 + n) body) (announced_plain n body h)
      ∙ ap (λ m. frame_at 1 m (pos n) 2 (129 ∷ (128 + n) ∷ body)) flag
      ∙ after_header (129 ∷ (128 + n) ∷ []) n e (omega arith)

  long_header :
      (n : ℕ)
      → n ≡ length payload
      → extract_ws_frame
          (129 ∷ 254 ∷ (n % 2 ^ 16 / 256) ∷ (n % 2 ^ 16 % 256) ∷ (mask ++ masked ++ rest))
        ≡ extracted 1 payload rest
  unfolding extract_ws_frame located
  long_header n e =
      let body = (n % 2 ^ 16 / 256) ∷ (n % 2 ^ 16 % 256) ∷ (mask ++ masked ++ rest) in
      ap (located 129 254 body)
        (announced_short n (mask ++ masked ++ rest) (omega (arith, e, small)))
      ∙ after_header (129 ∷ 254 ∷ (n % 2 ^ 16 / 256) ∷ (n % 2 ^ 16 % 256) ∷ []) n e (omega arith)

  framed :
      extract_ws_frame (frame_header (length payload) ++ (mask ++ masked ++ rest))
      ≡ extracted 1 payload rest
  unfolding frame_header masked
  framed =
      on_bool_at (λ h. extract_ws_frame (h ++ (mask ++ masked ++ rest)) ≡ extracted 1 payload rest)
        (leb (length payload) 125) (λ h. short_header (length payload) refl (ground (arith, h)))
        (λ h. long_header (length payload) refl)

  encodes :
      encode_ws_text_frame (inr mask) payload
      ≡ inr (frame_header (length payload) ++ (mask ++ masked))
  unfolding encode_ws_text_frame masked
  encodes = let fits : ltb 65535 (length payload) ≡ false = ground (arith, small) in rw fits refl

-- A payload of at most 65535 bytes, with a mask of four bytes, is encoded, and whatever follows the
-- frame in a buffer, extracting gives the opcode of a text frame, the payload, and what follows.
pub extract-encode :
    (mask payload rest : List ℕ)
    → length mask ≡ 4
    → All IsByte mask
    → All IsByte payload
    → length payload ≤ 65535
    → (frame : List ℕ) × (encode_ws_text_frame (inr mask) payload ≡ inr frame)
      × (extract_ws_frame (frame ++ rest) ≡ extracted ws_opcode_text payload rest)
unfolding masked
extract-encode mask payload rest four mask_bytes bytes small =
    let header = frame_header (length payload) in
    (
      header ++ (mask ++ masked mask payload rest four mask_bytes bytes small),
      encodes mask payload rest four mask_bytes bytes small,
      ap extract_ws_frame (append_assoc header (mask ++ apply_mask mask 0 payload) rest)
          ∙ framed mask payload rest four mask_bytes bytes small,
    )
