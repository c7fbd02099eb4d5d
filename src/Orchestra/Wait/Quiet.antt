-- ===== src/Orchestra/Wait/Quiet.antt =====
-- core/internal/orchestra/wait.go: the tree that `WaitForTreeStable` returns was stable.
use atomyx.Prelude.{
  ℕ, ◌≡◌, refl, sym, subst, ◌∙◌, List, [], ◌∷◌, some, true, false, not, Text, text_eq, text_eq_iff,
  ◌⊎◌, inl, inr, ℤ, ◌-ℤ◌, leb_ℤ, on_bool_at, arith,
}
use atomyx.Wire.{TreeNode, node}
use atomyx.Orchestra.WaitFor.{Screen}
use atomyx.Orchestra.Wait.{accepted}
use atomyx.Orchestra.Wait.Stable.{
  Watch, watched, unwatched, has_settled, hash_tree_signature, tree_signature, join, join_onto,
  wait_for_tree_stable,
}
use atomyx.Orchestra.Wait.Claims.{Judged, Judged-by, Claims, wait_until-Claims}

join_onto-first :
    (separator : Text) (c : ℕ) (s : Text) (ts : List Text)
    → text_eq (join_onto separator (c ∷ s) ts) [] ≡ false
unfolding join_onto text_eq
join_onto-first separator c s [] = refl
join_onto-first separator c s (t ∷ ts) = refl

-- No tree has the empty text as its signature, with which the wait begins.
hash_tree_signature-first : (tree : TreeNode) → text_eq (hash_tree_signature tree) [] ≡ false
unfolding hash_tree_signature join tree_signature
hash_tree_signature-first (node a s ts) = join_onto-first _ _ [] _

-- From a reading of the clock on, every tree that was fetched had one signature.
pub data Steady {W : Type 0} (screen : Screen W) (hash : Text) : ℤ → W → Type 0 where
  changed :
      (tree : TreeNode) (w : W)
      → (screen.hierarchy w).0 ≡ inr tree
      → hash_tree_signature tree ≡ hash
      → Steady screen hash
          (screen.now (screen.hierarchy w).1).0
          (screen.now (screen.hierarchy w).1).1
  again :
      {since : ℤ} {w : W} (tree : TreeNode)
      → Steady screen hash since w
      → (screen.hierarchy w).0 ≡ inr tree
      → hash_tree_signature tree ≡ hash
      → Steady screen hash since (screen.now (screen.hierarchy w).1).1
  later :
      {since : ℤ} {w : W} → Steady screen hash since w → Steady screen hash since (screen.now w).1
  slept :
      {since : ℤ} {w : W} (ms : ℤ)
      → Steady screen hash since w
      → Steady screen hash since (screen.sleep ms w).1

-- A tree has the signature that every tree had for the quiet time.
pub record IsStable {W : Type 0} (screen : Screen W) (quiet_ms : ℤ) (tree : TreeNode) : Type 0 where
  pub since : ℤ
  pub before : W
  pub steady : Steady screen (hash_tree_signature tree) since before
  pub shown : (screen.hierarchy before).0 ≡ inr tree
  pub quiet : leb_ℤ quiet_ms ((screen.now (screen.hierarchy before).1).0 -ℤ since) ≡ true

module _ {W : Type 0} (screen : Screen W) (quiet_ms : ℤ) where
  Watches : Watch W → Type 0
  Watches s = (s.last_hash ≡ []) ⊎ Steady screen s.last_hash s.stable_since s.world

  now_keeps : (s : Watch W) → Watches s → Watches ((watched screen quiet_ms).now s).1
  unfolding Watches
  now_keeps s (inl e) = inl e
  now_keeps s (inr h) = inr (later h)

  sleep_keeps :
      (ms : ℤ) (s : Watch W) → Watches s → Watches ((watched screen quiet_ms).sleep ms s).1
  unfolding Watches
  sleep_keeps ms s (inl e) = inl e
  sleep_keeps ms s (inr h) = inr (slept ms h)

  Stable : TreeNode → Watch W → Type 0
  Stable tree s = IsStable screen quiet_ms tree

  unchanged-Judged :
      (s : Watch W) (tree : TreeNode)
      → Watches s
      → (screen.hierarchy s.world).0 ≡ inr tree
      → text_eq (hash_tree_signature tree) s.last_hash ≡ true
      → let read = screen.now (screen.hierarchy s.world).1 in
        Judged
          (watched screen quiet_ms)
          Watches
          Stable
          now_keeps
          sleep_keeps
          tree
          (leb_ℤ quiet_ms (read.0 -ℤ s.stable_since), record s { world = read.1 })
  unfolding Watches Stable
  unchanged-Judged s tree (inl e) shown same =
      let no : true ≡ false =
        sym same
        ∙ subst (λ h. text_eq (hash_tree_signature tree) h ≡ false) (sym e)
            (hash_tree_signature-first tree) in
      grind (arith, no)
  unchanged-Judged s tree (inr h) shown same =
      let e = (text_eq_iff (hash_tree_signature tree) s.last_hash).0 same in
      Judged-by (watched screen quiet_ms) Watches Stable now_keeps sleep_keeps tree _ _
        (λ long. record {
          since = s.stable_since;
          before = s.world;
          steady = subst (λ x. Steady screen x s.stable_since s.world) (sym e) h;
          shown = shown;
          quiet = long;
        })
        (λ short. inr (again tree h shown e))

  has_settled-Judged :
      (s : Watch W) (tree : TreeNode)
      → Watches s
      → (screen.hierarchy s.world).0 ≡ inr tree
      → Judged
          (watched screen quiet_ms)
          Watches
          Stable
          now_keeps
          sleep_keeps
          tree
          (has_settled screen quiet_ms tree (record s { world = (screen.hierarchy s.world).1 }))
  unfolding has_settled Judged Watches
  has_settled-Judged s tree w shown =
      on_bool_at (Judged (watched screen quiet_ms) Watches Stable now_keeps sleep_keeps tree)
        (not (text_eq (hash_tree_signature tree) s.last_hash))
        (λ e. inr (changed tree s.world shown refl))
        (λ e. unchanged-Judged s tree w shown (ground (arith, e)))

  -- If `WaitForTreeStable` returns a tree, that was fetched, and from some reading of the clock on,
  -- at least the quiet time before the reading that ended the wait, every tree that was fetched had
  -- its signature.
  pub wait_for_tree_stable-IsStable :
      (fuel : ℕ) (timeout_ms interval_ms : ℤ) (w : W) (tree : TreeNode) (s : Watch W)
      → wait_for_tree_stable screen quiet_ms fuel timeout_ms interval_ms w ≡ some (accepted tree, s)
      → IsStable screen quiet_ms tree
  unfolding wait_for_tree_stable Claims Stable Watches
  wait_for_tree_stable-IsStable fuel timeout_ms interval_ms w tree s e =
      subst (Claims (watched screen quiet_ms) Watches Stable now_keeps sleep_keeps) e (
        wait_until-Claims (watched screen quiet_ms) Watches Stable now_keeps sleep_keeps
          has_settled-Judged _ _ _ fuel (unwatched screen quiet_ms w) (inl refl))
