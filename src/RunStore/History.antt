-- ===== src/RunStore/History.antt =====
-- Sequences of operations on a run store: what stays true of the active run, and where runs go.
use atomyx.Prelude.{
  ℕ, zero, suc, ◌+◌, ◌≡◌, refl, ap, ap₂, ◌∙◌, sym, List, [], ◌∷◌, ◌++◌, map, Option, none, some,
  Text, length, length-append, map-append, append_assoc, append-nil, ℤ, All, arith,
}
use atomyx.RunStore.{
  RunRecord, RunStore, StartOptions, RecordBugOptions, bug_id, run_id, start, finish,
  increment_actions, new_bug, record_bug, errored_predecessor, run_status_running, run_status_error,
}

-- One call of an exported method, with what the clock reads during it.
pub data Call : Type 0 where
  starts : StartOptions → ℤ → ℤ → Call
  finishes : Text → ℤ → Call
  increments : Call
  records_bug : RecordBugOptions → ℤ → Call

unfoldable pub over : Option RunRecord → List RunRecord
over none = []
over (some r) = r ∷ []

-- The store after the call, and the runs that the call hands back as over.
unfoldable pub apply : Call → RunStore → List RunRecord × RunStore
unfolding start finish increment_actions record_bug over
apply (starts opts t u) r =
    let out = start opts t u r in (over ((out.0).errored_predecessor), out.1)
apply (finishes status t) r = let out = finish status t r in (over out.0, out.1)
apply increments r = ([], increment_actions r)
apply (records_bug opts t) r = ([], (record_bug opts t r).1)

unfoldable pub apply_all : List Call → RunStore → List RunRecord × RunStore
unfolding apply
apply_all [] r = ([], r)
apply_all (c ∷ cs) r =
    let first = apply c r in let rest = apply_all cs first.1 in (first.0 ++ rest.0, rest.1)

unfoldable pub bug_ids : Text → ℕ → List Text
unfolding bug_id
bug_ids run zero = []
bug_ids run (suc n) = bug_ids run n ++ bug_id run (n + 1) ∷ []

-- A run in flight: not finished, its findings numbered from one in the order of their recording.
pub record IsInFlight (r : RunRecord) : Type 0 where
  pub running : r.status ≡ run_status_running
  pub unfinished : r.finished_at ≡ none
  pub numbered : map (λ b. b.id) r.findings ≡ bug_ids r.id (length r.findings)

abbrev pub IsValid : RunStore → Type 0
IsValid r = All IsInFlight (over r.active)

pub new_bug-IsInFlight :
    (opts : RecordBugOptions) (t : ℤ) (run : RunRecord)
    → IsInFlight run
    → IsInFlight (record run { findings = run.findings ++ new_bug opts t run ∷ [] })
unfolding new_bug bug_ids
new_bug-IsInFlight opts t run h =
    let n = length run.findings in
    let longer : suc n ≡ length (run.findings ++ new_bug opts t run ∷ []) =
      omega (arith, length-append run.findings (new_bug opts t run ∷ [])) in
    record {
      running = h.running;
      unfinished = h.unfinished;
      numbered =
          map-append (λ b. b.id) run.findings (new_bug opts t run ∷ [])
          ∙ ap (λ l. l ++ bug_id run.id (n + 1) ∷ []) h.numbered
          ∙ ap (bug_ids run.id) longer;
    }

apply-IsInFlight :
    (c : Call) (o : Option RunRecord) (n : ℕ)
    → All IsInFlight (over o)
    → IsValid (apply c (record { active = o; next_id = n })).1
unfolding apply over start finish increment_actions record_bug bug_ids
apply-IsInFlight (starts opts t u) o n h =
    (record { running = refl; unfinished = refl; numbered = refl }, tt)
apply-IsInFlight (finishes status t) none n h = tt
apply-IsInFlight (finishes status t) (some run) n h = tt
apply-IsInFlight increments none n h = tt
apply-IsInFlight increments (some run) n (h, hs) =
    (record { running = h.running; unfinished = h.unfinished; numbered = h.numbered }, tt)
apply-IsInFlight (records_bug opts t) none n h = tt
apply-IsInFlight (records_bug opts t) (some run) n (h, hs) = (new_bug-IsInFlight opts t run h, tt)

-- After any calls, the active run, if there is one, has the status "running", is not finished, and
-- its findings are numbered from one in the order of their recording.
pub apply_all-IsValid : (cs : List Call) (r : RunStore) → IsValid r → IsValid (apply_all cs r).1
unfolding apply_all
apply_all-IsValid [] r h = h
apply_all-IsValid (c ∷ cs) r h =
    apply_all-IsValid cs (apply c r).1 (apply-IsInFlight c r.active r.next_id h)

-- The ids that calls give out, the first run's number being `n`.
unfoldable pub ids_of : ℕ → Call → List Text
unfolding run_id
ids_of n (starts opts t u) = run_id u n ∷ []
ids_of n (finishes status t) = []
ids_of n increments = []
ids_of n (records_bug opts t) = []

unfoldable pub ids_from : ℕ → List Call → List Text
unfolding ids_of
ids_from n [] = []
ids_from n (c ∷ cs) = ids_of n c ++ ids_from (n + length (ids_of n c)) cs

abbrev pub ids : List RunRecord → List Text
ids rs = map (λ r. r.id) rs

pub errored_predecessor-running :
    (t : ℤ) (run : RunRecord)
    → IsInFlight run
    → errored_predecessor t (some run)
      ≡ some (record run { status = run_status_error; finished_at = some t })
unfolding errored_predecessor
errored_predecessor-running t run h = rw h.running refl

apply-ids :
    (c : Call) (o : Option RunRecord) (n : ℕ)
    → All IsInFlight (over o)
    → let out : List RunRecord × RunStore = apply c (record { active = o; next_id = n }) in
      (ids (out.0) ++ ids (over ((out.1).active)) ≡ ids (over o) ++ ids_of n c)
      × ((out.1).next_id ≡ n + length (ids_of n c))
unfolding apply over start finish increment_actions record_bug ids_of
apply-ids (starts opts t u) none n h = (refl, refl)
apply-ids (starts opts t u) (some run) n (h, hs) = rw h.running (refl, refl)
apply-ids (finishes status t) none n h = (refl, omega arith)
apply-ids (finishes status t) (some run) n h = (refl, omega arith)
apply-ids increments none n h = (refl, omega arith)
apply-ids increments (some run) n h = (refl, omega arith)
apply-ids (records_bug opts t) none n h = (refl, omega arith)
apply-ids (records_bug opts t) (some run) n h = (refl, omega arith)

-- No run is lost: after any calls, the runs handed back as over, followed by the one still active,
-- are the one that was active before and those started since, each once and in the order started.
pub apply_all-ids :
    (cs : List Call) (r : RunStore)
    → IsValid r
    → let out : List RunRecord × RunStore = apply_all cs r in
      ids (out.0) ++ ids (over ((out.1).active)) ≡ ids (over r.active) ++ ids_from r.next_id cs
unfolding apply_all ids_from
apply_all-ids [] r h = sym (append-nil (ids (over r.active)))
apply_all-ids (c ∷ cs) r h =
    let first = apply c r in
    let rest = apply_all cs first.1 in
    let here = apply-ids c r.active r.next_id h in
    let later = apply_all-ids cs first.1 (apply-IsInFlight c r.active r.next_id h) in
    ap (λ l. l ++ ids (over ((rest.1).active))) (map-append (λ x. x.id) first.0 rest.0)
    ∙ append_assoc (ids first.0) (ids rest.0) (ids (over ((rest.1).active)))
    ∙ ap (λ l. ids first.0 ++ l) later
    ∙ sym (
        append_assoc (ids first.0) (ids (over ((first.1).active)))
          (ids_from ((first.1).next_id) cs))
    ∙ ap₂ (λ l n. l ++ ids_from n cs) here.0 here.1
    ∙ append_assoc (ids (over r.active)) (ids_of r.next_id c)
        (ids_from (r.next_id + length (ids_of r.next_id c)) cs)
