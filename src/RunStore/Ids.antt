-- ===== src/RunStore/Ids.antt =====
-- The ids of findings.
use atomyx.Prelude.{
  ℕ, zero, suc, ◌+◌, ◌<◌, ◌≡◌, ◌≢◌, refl, ap, ◌∙◌, sym, [], ◌∷◌, ◌++◌, map, some, Text, length, All,
  All-append, arith, ℤ,
}
use atomyx.Expression.Decimal.{itoa, digits_value, digits_value-itoa}
use atomyx.RunStore.{RunRecord, RecordBugOptions, bug_id, new_bug, record_bug}
use atomyx.RunStore.History.{bug_ids, IsInFlight}

append-cancel : (p s t : Text) → p ++ s ≡ p ++ t → s ≡ t
append-cancel [] s t h = h
append-cancel (c ∷ p) s t h = append-cancel p s t (grind arith)

itoa-injective : (m n : ℕ) → itoa m ≡ itoa n → m ≡ n
itoa-injective m n h =
    let e : some m ≡ some n =
      sym (digits_value-itoa m) ∙ ap (digits_value 0) h ∙ digits_value-itoa n in
    grind arith

bug_id-injective : (run : Text) (m n : ℕ) → bug_id run m ≡ bug_id run n → m ≡ n
unfolding bug_id
bug_id-injective run m n h = itoa-injective m n (append-cancel _ (itoa m) (itoa n) h)

bug_ids-other : (run : Text) (k n : ℕ) → k < n → All (λ t. t ≢ bug_id run n) (bug_ids run k)
unfolding bug_ids
bug_ids-other run zero n h = tt
bug_ids-other run (suc k) n h =
    All-append (λ t. t ≢ bug_id run n) (bug_ids run k) (bug_id run (k + 1) ∷ [])
      (bug_ids-other run k n (omega (arith, h)))
      ((λ e. omega (arith, h, bug_id-injective run (k + 1) n e)), tt)

-- `RecordBug` gives the finding an id that no earlier finding of the run has.
pub record_bug-fresh :
    (opts : RecordBugOptions) (t : ℤ) (run : RunRecord) (n : ℕ)
    → IsInFlight run
    → (record_bug opts t (record { active = some run; next_id = n })).0 ≡ some (new_bug opts t run)
      × All (λ i. i ≢ (new_bug opts t run).id) (map (λ b. b.id) run.findings)
unfolding record_bug new_bug
record_bug-fresh opts t run n h = (
  refl,
  rw h.numbered
      (bug_ids-other run.id (length run.findings) (length run.findings + 1) (omega arith)),
)
