-- ===== src/IosSimDriver/WsFrame/Unmask.antt =====
-- core/internal/iossimdriver/ws_frame.go: masking twice with the same mask.
use Prim.Native.Nat.{bit_xor}
use atomyx.Prelude.{
  ℕ, zero, suc, ◌<◌, ◌≡◌, ◌%◌, refl, ap, ap₂, none, some, get_elem?, ==_iff, List, [], ◌∷◌, Bool,
  true, ◌&&◌, ◌==◌, All, length, arith,
}
use atomyx.IosSimDriver.WsFrame.{mask_at, apply_mask}

-- A test of the numbers under a bound, by running it.
passes_under : (ℕ → Bool) → ℕ → Bool
passes_under test zero = true
passes_under test (suc bound) = passes_under test bound && test bound

passes_under-each :
    (test : ℕ → Bool) (bound k : ℕ) → k < bound → passes_under test bound ≡ true → test k ≡ true
unfolding passes_under
passes_under-each test zero k under passed = let no : ⊥ = omega (arith, under) in elim no [ ]
passes_under-each test (suc bound) k under passed =
    ground (arith, under, passed, passes_under-each test bound k)

-- What masking twice does to a byte, for every mask.
restores : ℕ → ℕ → Bool
restores x m = bit_xor (bit_xor x m) m == x

every_byte_restored : passes_under (λ x. passes_under (restores x) 256) 256 ≡ true
unfolding passes_under restores
every_byte_restored = refl

abbrev pub IsByte : ℕ → Type 0
IsByte b = b < 256

xor_twice : (x m : ℕ) → IsByte x → IsByte m → bit_xor (bit_xor x m) m ≡ x
unfolding restores
xor_twice x m h k =
    let row : passes_under (restores x) 256 ≡ true =
      passes_under-each (λ y. passes_under (restores y) 256) 256 x h every_byte_restored in
    (==_iff (bit_xor (bit_xor x m) m) x).0 (passes_under-each (restores x) 256 m k row)

get-IsByte :
    (mask : List ℕ) (i : ℕ)
    → All IsByte mask
    → IsByte (elim (get_elem? mask i) [ none ↦ 0 | some m ↦ m ])
get-IsByte [] i h = omega arith
get-IsByte (m ∷ mask) zero (h, hs) = h
get-IsByte (m ∷ mask) (suc i) (h, hs) = get-IsByte mask i hs

pub apply_mask_twice :
    (mask : List ℕ) (i : ℕ) (payload : List ℕ)
    → All IsByte mask
    → All IsByte payload
    → apply_mask mask i (apply_mask mask i payload) ≡ payload
unfolding apply_mask mask_at
apply_mask_twice mask i [] h k = refl
apply_mask_twice mask i (b ∷ bs) h (k, ks) =
    ap₂ (λ c cs. c ∷ cs) (xor_twice b (mask_at mask i) k (get-IsByte mask (i % 4) h))
      (apply_mask_twice mask (suc i) bs h ks)

pub length-apply_mask :
    (mask : List ℕ) (i : ℕ) (payload : List ℕ) → length (apply_mask mask i payload) ≡ length payload
unfolding apply_mask
length-apply_mask mask i [] = refl
length-apply_mask mask i (b ∷ bs) = ap suc (length-apply_mask mask (suc i) bs)
