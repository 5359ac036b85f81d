-- ===== src/Linkage/Clean.antt =====
-- Evaluations of the sources without issues, stage by stage
-- (app/lib/phase6/approvalLinkage/sourceEvaluation.ts).
use atra_workunit_os.Prelude.{
  ◌≡◌, refl, String, Bool, true, false, Option, none, some, List, [], ◌∷◌, arith, inl, inr, All,
  Bool-cases, >>=-eq-some, ◌>>=◌, if◌then◌else◌,
}
use atra_workunit_os.Js.{Fields}
use atra_workunit_os.Authorization.Snapshot.{Attempt}
use atra_workunit_os.Linkage.{IssueCode, Issue, Check}
use atra_workunit_os.Linkage.Evaluation.{or_exception}
use atra_workunit_os.Linkage.Sources.{
  Calls, SourceEvaluation, push, push_all, checks, stop, or_stop,
}

-- An evaluation that derives a chain and has no issue.
abbrev pub clean : Fields → SourceEvaluation
clean d = record { derived = some d; issues = [] }

-- An evaluation without issues.
pub IsClean : Attempt SourceEvaluation → SourceEvaluation → Type 0
IsClean attempt e = (attempt ≡ some e) × (e.issues ≡ [])

abbrev pub Passed : List Check → Type 0
Passed cs = All (λ c. c.test ≡ true) cs

pub stop-IsClean :
    (code : IssueCode) (place : String) (e : SourceEvaluation) → IsClean (stop code place) e → ⊥
unfolding IsClean
stop-IsClean code place e (h, none_left) = ground (arith, h, none_left)

push-IsClean :
    (issue : Issue) (rest : Attempt SourceEvaluation) (e : SourceEvaluation)
    → IsClean (push issue rest) e
    → ⊥
unfolding IsClean
push-IsClean issue none e (h, none_left) = absurd (ground (arith, h))
push-IsClean issue (some r) e (h, none_left) = ground (arith, h, none_left)

pub push_all-IsClean :
    (issues : List Issue) (rest : Attempt SourceEvaluation) (e : SourceEvaluation)
    → IsClean (push_all issues rest) e
    → (issues ≡ []) × IsClean rest e
push_all-IsClean [] rest e h = (refl, h)
push_all-IsClean (issue ∷ issues) rest e h = absurd (push-IsClean issue (push_all issues rest) e h)

pub checks-IsClean :
    (cs : List Check) (rest : Attempt SourceEvaluation) (e : SourceEvaluation)
    → IsClean (checks cs rest) e
    → Passed cs × IsClean rest e
unfolding checks
checks-IsClean [] rest e h = (tt, h)
checks-IsClean (c ∷ cs) rest e h = elim (Bool-cases c.test) [
  | inl pass ↦
      let h2 : IsClean (checks cs rest) e = rw (pass) at h in
      let (all, last) = checks-IsClean cs rest e h2 in ((pass, all), last)
  | inr fail ↦
      let h2 : IsClean (push c.issue (checks cs rest)) e = rw (fail) at h in
      absurd (push-IsClean c.issue (checks cs rest) e h2)
]

pub bind-IsClean :
    {A : Type 0} (first : Option A) (next : A → Attempt SourceEvaluation) (e : SourceEvaluation)
    → IsClean (first >>= next) e
    → (a : A) × (first ≡ some a) × IsClean (next a) e
unfolding IsClean
bind-IsClean first next e (h, none_left) =
    let (a, found, rest) = >>=-eq-some first next h in (a, found, (rest, none_left))

pub or_stop-IsClean :
    {A : Type 0} (o : Option A) (code : IssueCode) (place : String)
    (next : A → Attempt SourceEvaluation) (e : SourceEvaluation)
    → IsClean (or_stop o code place next) e
    → (a : A) × (o ≡ some a) × IsClean (next a) e
or_stop-IsClean none code place next e h = absurd (stop-IsClean code place e h)
or_stop-IsClean (some a) code place next e h = (a, refl, h)

-- The last stage emits a chain, or stops.
pub emit-IsClean :
    (test : Bool) (d : Fields) (code : IssueCode) (place : String) (e : SourceEvaluation)
    → IsClean (if test then some (clean d) else stop code place) e
    → (test ≡ true) × (e ≡ clean d)
unfolding IsClean
emit-IsClean true d code place e (h, none_left) = (refl, ground (arith, h))
emit-IsClean false d code place e h = absurd (stop-IsClean code place e h)

pub or_exception-IsClean :
    (calls : Calls) (attempt : Attempt SourceEvaluation)
    → (or_exception calls attempt).issues ≡ []
    → IsClean attempt (or_exception calls attempt)
unfolding IsClean
or_exception-IsClean calls none h = absurd (ground (arith, h))
or_exception-IsClean calls (some e) h = (refl, h)
