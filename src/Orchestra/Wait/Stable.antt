-- ===== src/Orchestra/Wait/Stable.antt =====
-- core/internal/orchestra/wait.go: the signature of a tree, and `WaitForTreeStable`.
use atomyx.Prelude.{
  ℕ, List, [], ◌∷◌, ◌++◌, map, Option, none, some, Bool, true, false, not, Text, codes, text_eq,
  ltb, ◌==◌, if◌then◌else◌, ℤ, pos, negsuc, ◌-ℤ◌, leb_ℤ,
}
use atomyx.Wire.{TreeNode, node, Forest, nil, cons, Attributes, lookup, States}
use atomyx.RunStore.{decimal}
use atomyx.Orchestra.Filter.{is_true}
use atomyx.Orchestra.WaitFor.{Screen}
use atomyx.Orchestra.Wait.{Awaited, Polled, wait_until, or_default}

-- Go's order of strings, by code points.
unfoldable pub text_lt : Text → Text → Bool
text_lt s [] = false
text_lt [] (d ∷ t) = true
text_lt (c ∷ s) (d ∷ t) =
    let rest = text_lt s t in if ltb c d then true else if c == d then rest else false

unfoldable pub insert_text : Text → List Text → List Text
unfolding text_lt
insert_text s [] = s ∷ []
insert_text s (t ∷ ts) = let rest = insert_text s ts in if text_lt t s then t ∷ rest else s ∷ t ∷ ts

-- `sort.Strings`
unfoldable pub sort_texts : List Text → List Text
unfolding insert_text
sort_texts [] = []
sort_texts (s ∷ ts) = insert_text s (sort_texts ts)

-- `strings.Join`
unfoldable pub join_onto : (separator : Text) → Text → List Text → Text
join_onto separator s [] = s
join_onto separator s (t ∷ ts) = s ++ separator ++ join_onto separator t ts

unfoldable pub join : (separator : Text) → List Text → Text
unfolding join_onto
join separator [] = []
join separator (s ∷ ts) = join_onto separator s ts

unfoldable pub attribute_parts : Attributes → List Text → List Text
unfolding lookup
attribute_parts m [] = []
attribute_parts m (k ∷ ks) =
    k ∷ codes "=" ∷ elim (lookup k m) [ none ↦ [] | some v ↦ v ] ∷ codes ";" ∷ attribute_parts m ks

-- `b != nil && !*b`
unfoldable pub is_false : Option Bool → Bool
is_false none = false
is_false (some b) = not b

unfoldable pub state_parts : States → List Text
unfolding is_true is_false
state_parts s =
    (if is_true s.focused then codes "F;" ∷ [] else [])
    ++ (if is_true s.clickable then codes "C;" ∷ [] else [])
    ++ (if is_false s.enabled then codes "D;" ∷ [] else [])

unfoldable mutual
  unfolding attribute_parts sort_texts state_parts

  pub tree_signature : TreeNode → List Text
  tree_signature (node a s ts) =
      codes "[" ∷ attribute_parts a (sort_texts (map (λ kv. kv.0) a))
      ++ state_parts s
      ++ signature_of_children ts
      ++ codes "]" ∷ []

  pub signature_of_children : Forest → List Text
  signature_of_children nil = []
  signature_of_children (cons t ts) = tree_signature t ++ signature_of_children ts

unfoldable pub hash_tree_signature : TreeNode → Text
unfolding join tree_signature
hash_tree_signature t = join (codes "|") (tree_signature t)

-- The state outside, with the two variables that the predicate keeps.
pub record Watch (W : Type 0) : Type 0 where
  pub world : W
  pub last_hash : Text
  pub stable_since : ℤ

module _ {W : Type 0} (screen : Screen W) (quiet_ms : ℤ) where
  abbrev pub moved : {X : Type 0} → Watch W → X × W → X × Watch W
  moved s r = (r.0, record s { world = r.1 })

  unfoldable pub has_settled : TreeNode → Watch W → Bool × Watch W
  unfolding hash_tree_signature text_eq
  has_settled tree s =
      let hash = hash_tree_signature tree in
      let read = screen.now s.world in
      if not (text_eq hash s.last_hash)
      then (false, record { world = read.1; last_hash = hash; stable_since = read.0 })
      else (leb_ℤ quiet_ms (read.0 -ℤ s.stable_since), record s { world = read.1 })

  abbrev pub watched : Polled (Watch W) TreeNode
  watched = record {
    now = λ s. moved s (screen.now s.world);
    sleep = λ ms s. moved s (screen.sleep ms s.world);
    ctx_err = λ s. screen.ctx_err s.world;
    fetch = λ s. moved s (screen.hierarchy s.world);
    predicate = λ tree s. has_settled tree s;
  }

  abbrev pub unwatched : W → Watch W
  unwatched w = record { world = w; last_hash = []; stable_since = negsuc 0 }

  unfoldable pub wait_for_tree_stable :
      (fuel : ℕ) → (timeout_ms interval_ms : ℤ) → W → Option (Awaited TreeNode × Watch W)
  unfolding wait_until has_settled or_default decimal
  wait_for_tree_stable fuel timeout_ms interval_ms w =
      wait_until watched (or_default (pos 3000) timeout_ms) (or_default (pos 100) interval_ms)
        (codes "waitForTreeStable(quietMs=" ++ decimal quiet_ms ++ codes ")") fuel (unwatched w)
