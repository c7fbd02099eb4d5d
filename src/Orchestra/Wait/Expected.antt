-- ===== src/Orchestra/Wait/Expected.antt =====
-- core/internal/orchestra/wait.go: which inputs show a text that was committed, and which are at an
-- anchor, told without the tests that decide it.
use atomyx.Prelude.{
  ◌≡◌, refl, sym, subst, ◌≢◌, ◌⊎◌, inl, inr, ◌↔◌, [], ◌∷◌, Option, none, some, Bool, true, false,
  ◌&&◌, ◌||◌, Text, codes, text_eq, text_eq_iff, ◌==◌, ==_iff, length, if◌then◌else◌, arith,
  Bool-cases,
}
use atomyx.Orchestra.Cursor.Walk.{Cursor}
use atomyx.Orchestra.Bounds.{Bounds, Coordinates, bounds_intersect}
use atomyx.Orchestra.Obscurement.{attribute}
use atomyx.Orchestra.Wait.Input.{
  has_typed_change, matches_input_expectation, is_input_role, bounds_attr, meets, is_anchored_input,
}

abbrev pub text_of : Cursor → Text
unfolding attribute
text_of c = attribute (codes "text") c

abbrev pub role_of : Cursor → Text
unfolding attribute
role_of c = attribute (codes "role") c

abbrev pub label_of : Cursor → Text
unfolding attribute
label_of c = attribute (codes "label") c

-- What an input may show where a text was expected: that text, or as many characters in a field that
-- hides them, or any text that is not its label, which a field reports while nothing is typed.
pub data ShowsExpected (expected : Text) (c : Cursor) : Type 0 where
  shown : role_of c ≢ codes "secure-text-field" → text_of c ≡ expected → ShowsExpected expected c
  hidden :
      role_of c ≡ codes "secure-text-field"
      → length (text_of c) ≡ length expected
      → ShowsExpected expected c
  changed : text_of c ≢ [] → text_of c ≢ label_of c → ShowsExpected expected c

text_ne : (s t : Text) → text_eq s t ≡ false → s ≢ t
text_ne s t h e = let yes_ : text_eq s t ≡ true = (text_eq_iff s t).1 e in ground (arith, h, yes_)

ne-text : (s t : Text) → s ≢ t → text_eq s t ≡ false
ne-text s t h = elim (Bool-cases (text_eq s t)) [
  | inl e ↦ absurd (h ((text_eq_iff s t).0 e))
  | inr e ↦ e
]

typed_change-ne : (s t : Text) → has_typed_change s t ≡ true → (s ≢ []) × (s ≢ t)
unfolding has_typed_change
typed_change-ne [] t h = ground (arith, h)
typed_change-ne (c ∷ s) t h = (λ e. ground (arith, e), text_ne (c ∷ s) t (ground (arith, h)))

ne-typed_change : (s t : Text) → s ≢ [] → s ≢ t → has_typed_change s t ≡ true
unfolding has_typed_change
ne-typed_change [] t h k = absurd (h refl)
ne-typed_change (c ∷ s) t h k = ground (arith, ne-text (c ∷ s) t k)

-- Either branch of a test, or what both have as well.
branch :
    (b x y z : Bool)
    → (if b then x || z else y || z) ≡ true
    → (z ≡ true) ⊎ (((b ≡ true) × (x ≡ true)) ⊎ ((b ≡ false) × (y ≡ true)))
branch true true y z h = inr (inl (refl, refl))
branch true false y z h = inl h
branch false x true z h = inr (inr (refl, refl))
branch false x false z h = inl h

both : (b x y z : Bool) → z ≡ true → (if b then x || z else y || z) ≡ true
both b x y z h = ground (arith, h)

then_branch : (b x y z : Bool) → b ≡ true → x ≡ true → (if b then x || z else y || z) ≡ true
then_branch b x y z h k = ground (arith, h, k)

else_branch : (b x y z : Bool) → b ≡ false → y ≡ true → (if b then x || z else y || z) ≡ true
else_branch b x y z h k = ground (arith, h, k)

pub matches_input_expectation_iff :
    (expected : Text) (c : Cursor)
    → (matches_input_expectation expected c ≡ true) ↔ ShowsExpected expected c
unfolding matches_input_expectation
matches_input_expectation_iff expected c = (
  λ h.
      elim (branch (text_eq (role_of c) (codes "secure-text-field"))
        (length (text_of c) == length expected) (text_eq (text_of c) expected)
        (has_typed_change (text_of c) (label_of c)) h) [
          | inl z ↦ let (n, l) = typed_change-ne (text_of c) (label_of c) z in changed n l
          | inr (inl (b, x)) ↦ hidden ((text_eq_iff _ _).0 b) ((==_iff _ _).0 x)
          | inr (inr (b, y)) ↦ shown (text_ne _ _ b) ((text_eq_iff _ _).0 y)
        ],
  λ s. elim s [
    | shown r t ↦
        else_branch _ (length (text_of c) == length expected) _
          (has_typed_change (text_of c) (label_of c)) (ne-text _ _ r) ((text_eq_iff _ _).1 t)
    | hidden r t ↦
        then_branch _ _ (text_eq (text_of c) expected) (has_typed_change (text_of c) (label_of c))
          ((text_eq_iff _ _).1 r) ((==_iff _ _).1 t)
    | changed n t ↦
        both (text_eq (role_of c) (codes "secure-text-field"))
          (length (text_of c) == length expected) (text_eq (text_of c) expected) _
          (ne-typed_change _ _ n t)
  ],
)

module _ {A : Type 0} (ops : Coordinates A) (anchor : Bounds A) where
  -- An input of one of three roles, whose bounds meet the anchor.
  pub record IsInputAt (c : Cursor) : Type 0 where
    pub role :
        (role_of c ≡ codes "text-field")
        ⊎ ((role_of c ≡ codes "secure-text-field") ⊎ (role_of c ≡ codes "search-field"))
    pub bounds : Bounds A
    pub has_bounds : bounds_attr ops c ≡ some bounds
    pub overlap : bounds_intersect ops bounds anchor ≡ true

  role-of :
      (role : Text)
      → is_input_role role ≡ true
      → (role ≡ codes "text-field")
        ⊎ ((role ≡ codes "secure-text-field") ⊎ (role ≡ codes "search-field"))
  unfolding is_input_role
  role-of role h = elim (Bool-cases (text_eq role (codes "text-field"))) [
    | inl y ↦ inl ((text_eq_iff _ _).0 y)
    | inr n ↦ elim (Bool-cases (text_eq role (codes "secure-text-field"))) [
      | inl y ↦ inr (inl ((text_eq_iff _ _).0 y))
      | inr m ↦ inr (inr ((text_eq_iff _ _).0 (ground (arith, h, n, m))))
    ]
  ]

  of-role :
      (role : Text)
      → (role ≡ codes "text-field")
        ⊎ ((role ≡ codes "secure-text-field") ⊎ (role ≡ codes "search-field"))
      → is_input_role role ≡ true
  unfolding is_input_role
  of-role role (inl e) = ground (arith, (text_eq_iff role (codes "text-field")).1 e)
  of-role role (inr (inl e)) = ground (arith, (text_eq_iff role (codes "secure-text-field")).1 e)
  of-role role (inr (inr e)) = ground (arith, (text_eq_iff role (codes "search-field")).1 e)

  within :
      (o : Option (Bounds A))
      → elim o [ none ↦ false | some b ↦ bounds_intersect ops b anchor ] ≡ true
      → (b : Bounds A) × (o ≡ some b) × (bounds_intersect ops b anchor ≡ true)
  within none h = ground (arith, h)
  within (some b) h = (b, refl, h)

  meets_at :
      (c : Cursor) (b : Bounds A)
      → bounds_attr ops c ≡ some b
      → bounds_intersect ops b anchor ≡ true
      → meets ops anchor c ≡ true
  unfolding meets
  meets_at c b e o =
      subst (λ x. elim x [ none ↦ false | some b ↦ bounds_intersect ops b anchor ] ≡ true) (sym e) o

  both_hold : (a b : Bool) → a ≡ true → b ≡ true → (a && b) ≡ true
  both_hold a b h k = ground (arith, h, k)

  pub is_anchored_input_iff : (c : Cursor) → (is_anchored_input ops anchor c ≡ true) ↔ IsInputAt c
  unfolding is_anchored_input meets
  is_anchored_input_iff c = (
    λ h.
        let (b, e, o) = within (bounds_attr ops c) (ground (arith, h)) in
        record {
          role = role-of (role_of c) (ground (arith, h));
          bounds = b;
          has_bounds = e;
          overlap = o;
        },
    λ i. both_hold _ _ (of-role (role_of c) i.role) (meets_at c i.bounds i.has_bounds i.overlap),
  )
