-- ===== src/Orchestra/Bounds/Split.antt =====
-- How a bounds text is taken apart.
use atomyx.Prelude.{
  ◌≡◌, refl, ap, ◌∙◌, sym, [], ◌∷◌, ◌++◌, append_assoc, append-nil, Text, ◌==◌, All, false,
}
use atomyx.Orchestra.Bounds.{
  Coordinates, split_onto, split, parse_js_number, bounds_of, parse_parts, parse_bounds,
}

abbrev pub HasNoComma : Text → Type 0
HasNoComma s = All (λ c. (c == b',') ≡ false) s

split_onto-part :
    (part s rest : Text) → HasNoComma s → split_onto part (s ++ rest) ≡ split_onto (part ++ s) rest
unfolding split_onto
split_onto-part part [] rest h = ap (λ p. split_onto p rest) (sym (append-nil part))
split_onto-part part (c ∷ s) rest (h, hs) = rw h (
    split_onto-part (part ++ c ∷ []) s rest hs
    ∙ ap (λ p. split_onto p rest) (append_assoc part (c ∷ []) s))

split_onto-comma : (part s : Text) → split_onto part (b',' ∷ s) ≡ part ∷ split_onto [] s
unfolding split_onto
split_onto-comma part s = refl

split_onto-next :
    (s rest : Text) → HasNoComma s → split_onto [] (s ++ b',' ∷ rest) ≡ s ∷ split_onto [] rest
split_onto-next s rest h = split_onto-part [] s (b',' ∷ rest) h ∙ split_onto-comma s rest

split_onto-last : (s : Text) → HasNoComma s → split_onto [] s ≡ s ∷ []
unfolding split_onto
split_onto-last s h = ap (split_onto []) (sym (append-nil s)) ∙ split_onto-part [] s [] h

parse_bounds-comma :
    {A : Type 0} (ops : Coordinates A) (c s : Text)
    → parse_bounds ops (c ++ b',' ∷ s) ≡ parse_parts ops (split_onto [] (c ++ b',' ∷ s))
unfolding parse_bounds split
parse_bounds-comma ops [] s = refl
parse_bounds-comma ops (x ∷ c) s = refl

-- Four numbers between commas, however each is written, are read as the four edges.
pub parse_bounds-parts :
    {A : Type 0} (ops : Coordinates A) (c d e f : Text)
    → HasNoComma c
    → HasNoComma d
    → HasNoComma e
    → HasNoComma f
    → parse_bounds ops (c ++ b',' ∷ (d ++ b',' ∷ (e ++ b',' ∷ f)))
      ≡ bounds_of ops
          (parse_js_number ops c)
          (parse_js_number ops d)
          (parse_js_number ops e)
          (parse_js_number ops f)
unfolding parse_parts
parse_bounds-parts ops c d e f hc hd he hf =
    parse_bounds-comma ops c (d ++ b',' ∷ (e ++ b',' ∷ f))
    ∙ ap (parse_parts ops) (
        split_onto-next c (d ++ b',' ∷ (e ++ b',' ∷ f)) hc
        ∙ ap (λ l. c ∷ l)
            (split_onto-next d (e ++ b',' ∷ f) hd
              ∙ ap (λ l. d ∷ l) (split_onto-next e f he ∙ ap (λ l. e ∷ l) (split_onto-last f hf))))
