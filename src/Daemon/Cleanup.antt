-- ===== src/Daemon/Cleanup.antt =====
-- `cleanupStack`: what is to be undone, the last first.
use persona.Base.{
  ℕ, ◌≡◌, refl, ap, ◌∙◌, List, [], ◌∷◌, ◌++◌, Option, none, some, Option-cases, inl, inr,
}
use persona.Text.Compare.{Bytes}

-- `Push`: a function that is nil is left out. A function is given by a number.
unfoldable pub push : Option ℕ → List ℕ → List ℕ
push none fns = fns
push (some fn) fns = fns ++ fn ∷ []

-- What `Run` does to the stack: the functions that remain, the calls in their order, the errors.
pub record Ran : Type 0 where
  pub remaining : List ℕ
  pub called : List ℕ
  pub errors : List Bytes

-- one function, behind the ones above it
unfoldable pub undone : ℕ → Option Bytes → Ran → Ran
undone fn none r = record r { called = r.called ++ fn ∷ [] }
undone fn (some why) r = record {
  remaining = fn ∷ r.remaining;
  called = r.called ++ fn ∷ [];
  errors = r.errors ++ why ∷ [];
}

-- `Run`, where `call` is what each function returns
unfoldable pub run_cleanup : (ℕ → Option Bytes) → List ℕ → Ran
run_cleanup call [] = record { remaining = []; called = []; errors = [] }
run_cleanup call (fn ∷ fns) = undone fn (call fn) (run_cleanup call fns)

abbrev pub backwards : List ℕ → List ℕ
backwards [] = []
backwards (fn ∷ fns) = backwards fns ++ fn ∷ []

abbrev pub kept_if : ℕ → Option Bytes → List ℕ → List ℕ
kept_if fn none rest = rest
kept_if fn (some why) rest = fn ∷ rest

abbrev pub failing_fns : (ℕ → Option Bytes) → List ℕ → List ℕ
failing_fns call [] = []
failing_fns call (fn ∷ fns) = kept_if fn (call fn) (failing_fns call fns)

called_lem :
    (call : ℕ → Option Bytes) (fns : List ℕ) → (run_cleanup call fns).called ≡ backwards fns
unfolding run_cleanup undone
called_lem call [] = refl
called_lem call (fn ∷ fns) = elim (Option-cases (call fn)) [
  | inl e ↦ rw (e, called_lem call fns) refl
  | inr (why, e) ↦ rw (e, called_lem call fns) refl
]

undone-remaining :
    (fn : ℕ) (o : Option Bytes) (r : Ran) → (undone fn o r).remaining ≡ kept_if fn o r.remaining
unfolding undone
undone-remaining fn none r = refl
undone-remaining fn (some why) r = refl

remaining_lem :
    (call : ℕ → Option Bytes) (fns : List ℕ)
    → (run_cleanup call fns).remaining ≡ failing_fns call fns
unfolding run_cleanup
remaining_lem call [] = refl
remaining_lem call (fn ∷ fns) =
    undone-remaining fn (call fn) (run_cleanup call fns)
    ∙ ap (kept_if fn (call fn)) (remaining_lem call fns)

-- A run calls every function of the stack once, the last that was pushed first, even behind one
-- that fails, and keeps just the ones that fail, in order, for another run.
pub run_cleanup_lem :
    (call : ℕ → Option Bytes) (fns : List ℕ)
    → ((run_cleanup call fns).called ≡ backwards fns)
      × ((run_cleanup call fns).remaining ≡ failing_fns call fns)
run_cleanup_lem call fns = (called_lem call fns, remaining_lem call fns)
