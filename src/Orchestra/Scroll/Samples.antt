-- ===== src/Orchestra/Scroll/Samples.antt =====
-- A field below the screen of a list that shows more with each swipe, and the theorem on it.
use atomyx.Prelude.{
  ℕ, suc, ◌-◌, ◌*◌, ◌/◌, ltb, ◌≡◌, refl, [], ◌∷◌, none, Text, codes, inr, pos, if◌then◌else◌, arith,
}
use atomyx.Wire.{TreeNode, node, nil, cons}
use atomyx.Orchestra.Fixtures.{pixels, inert}
use atomyx.Orchestra.Cursor.Walk.{root, below, walk}
use atomyx.Orchestra.Filter.{role_is}
use atomyx.Orchestra.Signature.{
  Buckets, djb2, bucket_bounds, hash_visible_leaves, max_leaf_bounds_bottom, count_leaves,
}
use atomyx.Orchestra.Scroll.Types.{
  Distances, ScrollDriver, ScrollControllerOptions, visible, not_found,
}
use atomyx.Orchestra.Scroll.{ensure_visible}
use atomyx.Orchestra.Scroll.Reaches.{CountsSwipes}
use atomyx.Orchestra.Scroll.Ensure.{Settles, ensure_visible-Settles}

abbrev distances : Distances ℕ
distances = record {
  sub = λ a b. a - b;
  mul = λ a b. a * b;
  abs = λ a. a;
  min = λ a b. if ltb b a then b else a;
  edge = 40;
  thin = 1;
}

abbrev buckets : Buckets ℕ
buckets = record { bucket = λ a. pos (a / 50); bytes = λ s. s }

abbrev field : Text → TreeNode
field bounds = node ((codes "role", codes "text-field") ∷ (codes "bounds", bounds) ∷ []) inert nil

abbrev list_of : TreeNode → TreeNode
list_of item = node [] inert (cons item nil)

abbrev row : TreeNode
row = node ((codes "bounds", codes "0,100,200,180") ∷ []) inert nil

-- The state is the number of swipes.
abbrev shown_after : ℕ → TreeNode
shown_after w =
    if ltb w 1
    then list_of row
    else if ltb w 2
    then list_of (field (codes "0,380,200,420"))
    else list_of (field (codes "0,180,200,220"))

abbrev phone : ScrollDriver ℕ ℕ
phone = record {
  hierarchy = λ w. (inr (shown_after w), w);
  swipe = λ p q ms w. (none, suc w);
  screen_size = λ w. (inr (record { width = 200; height = 400 }), w);
  sleep = λ ms w. (none, w);
}

abbrev options : ScrollControllerOptions ℕ
options = record {
  max_iterations = 8;
  max_scroll_fraction = 1;
  swipe_duration_ms = pos 200;
  settle_wait_ms = pos 500;
  scroll_search_budget = 6;
  viewport_insets = record { top = 60; bottom = 50; left = 0; right = 0 };
}

phone-CountsSwipes : CountsSwipes phone
phone-CountsSwipes = record {
  swipes = λ w. w;
  swipe_adds = λ p q ms w. omega arith;
  hierarchy_keeps = λ w. omega arith;
  size_keeps = λ w. omega arith;
  sleep_keeps = λ ms w. omega arith;
}

finds_field :
    ensure_visible pixels distances phone options buckets (role_is (codes "text-field")) 0 ≡ (
      visible (
          below
            (field (codes "0,180,200,220"))
            (root (list_of (field (codes "0,180,200,220"))))
            1
            0),
      2,
    )
unfolding ensure_visible pixels role_is walk hash_visible_leaves max_leaf_bounds_bottom count_leaves
finds_field = refl

-- A thin tree: two swipes up, and one down that changes nothing.
gives_up :
    ensure_visible pixels distances phone options buckets (role_is (codes "button")) 0
    ≡ (not_found, 3)
unfolding ensure_visible pixels role_is walk hash_visible_leaves max_leaf_bounds_bottom count_leaves
gives_up = refl

hashes_text : djb2 (codes "ab") ≡ codes "596e26"
unfolding djb2
hashes_text = refl

buckets_bounds : bucket_bounds pixels buckets (codes "0, 120,x,49") ≡ codes "0,2,x,0"
unfolding bucket_bounds pixels
buckets_bounds = refl

ensure_visible-Settles_example :
    Settles pixels distances phone phone-CountsSwipes options buckets
      (role_is (codes "text-field"))
      20
      (ensure_visible pixels distances phone options buckets (role_is (codes "text-field")) 0)
unfolding phone-CountsSwipes
ensure_visible-Settles_example =
    ensure_visible-Settles pixels distances phone phone-CountsSwipes options buckets
      (role_is (codes "text-field")) 6 (omega arith) (omega arith) 0
