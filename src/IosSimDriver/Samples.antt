-- ===== src/IosSimDriver/Samples.antt =====
-- Frames of a few bytes, and the theorems on them.
use atomyx.Prelude.{
  ℕ, ◌%◌, ◌+ℤ◌, ◌≡◌, ◌≢◌, refl, List, [], ◌∷◌, ◌++◌, some, inl, inr, pos, codes, arith,
}
use atomyx.IosSimDriver.WsFrame.{
  generate_frame_mask, encode_ws_text_frame, extract_ws_frame, incomplete, panicked, extracted,
  announced, uint_of,
}
use atomyx.IosSimDriver.WsFrame.RoundTrip.{extract-encode}
use atomyx.IosSimDriver.WsFrame.Panics.{extract_ws_frame-panics, extract_ws_frame-Calm}

abbrev mask : List ℕ
mask = 1 ∷ 2 ∷ 3 ∷ 4 ∷ []

abbrev greeting : List ℕ
greeting = 104 ∷ 101 ∷ 108 ∷ 108 ∷ 111 ∷ []

greeting_frame :
    encode_ws_text_frame (inr mask) greeting
    ≡ inr (0x81 ∷ 0x85 ∷ 1 ∷ 2 ∷ 3 ∷ 4 ∷ 105 ∷ 103 ∷ 111 ∷ 104 ∷ 110 ∷ [])
unfolding encode_ws_text_frame
greeting_frame = refl

no_mask :
    encode_ws_text_frame (inl (codes "no entropy")) greeting
    ≡ inl (generate_frame_mask (codes "no entropy"))
unfolding encode_ws_text_frame
no_mask = refl

half_frame : extract_ws_frame (0x81 ∷ 0x05 ∷ 104 ∷ 101 ∷ []) ≡ incomplete
unfolding extract_ws_frame ◌+ℤ◌
half_frame = refl

bare_frame : extract_ws_frame (0x81 ∷ 0x01 ∷ 104 ∷ 7 ∷ []) ≡ extracted 1 (104 ∷ []) (7 ∷ [])
unfolding extract_ws_frame ◌+ℤ◌
bare_frame = refl

extract-encode_example :
    (frame : List ℕ) × (encode_ws_text_frame (inr mask) greeting ≡ inr frame)
    × (extract_ws_frame (frame ++ (7 ∷ [])) ≡ extracted 1 greeting (7 ∷ []))
extract-encode_example =
    extract-encode mask greeting (7 ∷ []) refl
      (omega arith, (omega arith, (omega arith, (omega arith, tt))))
      (omega arith, (omega arith, (omega arith, (omega arith, (omega arith, tt))))) (omega arith)

abbrev ones : List ℕ
ones = 255 ∷ 255 ∷ 255 ∷ 255 ∷ 255 ∷ 255 ∷ 255 ∷ 255 ∷ []

extract_ws_frame-panics_example : extract_ws_frame (0x81 ∷ 127 ∷ ones) ≡ panicked
unfolding uint_of
extract_ws_frame-panics_example =
    extract_ws_frame-panics 0x81 ones (omega arith) (omega arith) (omega arith)

announces_one : announced (0x81 % 128) (104 ∷ []) ≡ some (pos 1, 2)
unfolding announced
announces_one = refl

extract_ws_frame-Calm_example : extract_ws_frame (0x81 ∷ 0x81 ∷ 104 ∷ []) ≢ panicked
extract_ws_frame-Calm_example =
    extract_ws_frame-Calm 0x81 0x81 (104 ∷ []) 1 2 announces_one (omega arith)
