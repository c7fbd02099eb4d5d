-- ===== src/Orchestra/Obscurement/Topmost.antt =====
-- core/internal/orchestra/obscurement.go: the element that is reported is the last in pre-order that
-- covers the middle of the target, and does not hold the target.
use atomyx.Prelude.{
  ◌≡◌, refl, sym, ap, List, [], ◌∷◌, ◌++◌, Option, none, some, Bool, true, false, codes, All, arith,
  if◌then◌else◌, on_bool_at,
}
use mathlib.Core.Option.{some-injective}
use atomyx.Wire.{TreeNode}
use atomyx.Orchestra.Cursor.Walk.{Cursor, walk, path}
use atomyx.Orchestra.Bounds.{Bounds, Coordinates, parse_bounds, bounds_center}
use atomyx.Orchestra.Obscurement.{
  ObscurerInfo, attribute, is_ancestor_or_self_path, topmost, is_layout_wrapper, info_of,
  obscurer_of, covers, detect_obscurement,
}

-- The last of a list that passes a test.
pub record LastOf (test : Cursor → Bool) (cs : List Cursor) (c : Cursor) : Type 0 where
  pub before : List Cursor
  pub after : List Cursor
  pub split : cs ≡ before ++ c ∷ after
  pub passes : test c ≡ true
  pub none_after : All (λ d. test d ≡ false) after

NoneOrLast : (Cursor → Bool) → List Cursor → Option Cursor → Type 0
NoneOrLast test cs none = All (λ d. test d ≡ false) cs
NoneOrLast test cs (some c) = LastOf test cs c

topmost-NoneOrLast :
    (test : Cursor → Bool) (cs : List Cursor) → NoneOrLast test cs (topmost test cs)
unfolding topmost NoneOrLast
topmost-NoneOrLast test [] = tt
topmost-NoneOrLast test (c ∷ cs) = earlier (topmost test cs) (topmost-NoneOrLast test cs)
  where
    earlier :
        (o : Option Cursor)
        → NoneOrLast test cs o
        → NoneOrLast test
            (c ∷ cs)
            (elim o [ some d ↦ some d | none ↦ if test c then some c else none ])
    earlier (some d) last = record {
      before = c ∷ last.before;
      after = last.after;
      split = ap (λ l. c ∷ l) last.split;
      passes = last.passes;
      none_after = last.none_after;
    }
    earlier none clear =
        on_bool_at (NoneOrLast test (c ∷ cs)) (test c)
          (λ e. record { before = []; after = cs; split = refl; passes = e; none_after = clear })
          (λ e. (e, clear))

-- An element that obscures a target: no other covers the middle after it, and it holds no target.
pub record Obscures {A : Type 0} (ops : Coordinates A) (root : TreeNode) (target : Cursor)
    (info : ObscurerInfo) : Type 0 where
  pub bounds : Bounds A
  pub has_bounds : parse_bounds ops (attribute (codes "bounds") target) ≡ some bounds
  pub obscurer : Cursor
  pub last : LastOf (covers ops (bounds_center ops bounds)) (walk root) obscurer
  pub apart : is_ancestor_or_self_path (path obscurer) (path target) ≡ false
  pub rendered : is_layout_wrapper obscurer ≡ false
  pub described : info ≡ info_of obscurer

chosen :
    (apart wrapper : Bool) (i info : ObscurerInfo)
    → (if apart then none else if wrapper then none else some i) ≡ some info
    → (apart ≡ false) × (wrapper ≡ false) × (info ≡ i)
chosen true wrapper i info e = grind arith
chosen false true i info e = grind arith
chosen false false i info e = (refl, refl, sym (some-injective i info e))

module _ {A : Type 0} (ops : Coordinates A) (root : TreeNode) (target : Cursor)
    (info : ObscurerInfo) where
  topmost-Obscures :
      (b : Bounds A) (o : Option Cursor)
      → parse_bounds ops (attribute (codes "bounds") target) ≡ some b
      → NoneOrLast (covers ops (bounds_center ops b)) (walk root) o
      → obscurer_of target o ≡ some info
      → Obscures ops root target info
  unfolding obscurer_of NoneOrLast
  topmost-Obscures b none has last e = grind arith
  topmost-Obscures b (some c) has last e =
      let why =
        chosen (is_ancestor_or_self_path (path c) (path target)) (is_layout_wrapper c) (info_of c)
          info e in
      record {
        bounds = b;
        has_bounds = has;
        obscurer = c;
        last = last;
        apart = why.0;
        rendered = why.1;
        described = why.2;
      }

  located_target :
      (o : Option (Bounds A))
      → parse_bounds ops (attribute (codes "bounds") target) ≡ o
      → elim o [
        | none ↦ none
        | some b ↦ obscurer_of target (topmost (covers ops (bounds_center ops b)) (walk root))
      ]
        ≡ some info
      → Obscures ops root target info
  located_target none has e = grind arith
  located_target (some b) has e =
      topmost-Obscures b (topmost (covers ops (bounds_center ops b)) (walk root)) has
        (topmost-NoneOrLast (covers ops (bounds_center ops b)) (walk root)) e

  -- An obscurer that is reported has bounds that hold the middle of the target, is the last in
  -- pre-order that does, neither is the target nor holds it, is no layout wrapper, and is described
  -- by its role, its id and its label.
  pub detect_obscurement-Obscures :
      detect_obscurement ops root target ≡ some info → Obscures ops root target info
  unfolding detect_obscurement
  detect_obscurement-Obscures e =
      located_target (parse_bounds ops (attribute (codes "bounds") target)) refl e
