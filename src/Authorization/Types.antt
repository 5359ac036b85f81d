-- ===== src/Authorization/Types.antt =====
-- The states, the evidence and the results of runtime authorization
-- (app/lib/phase6/runtimeAuthorization/types.ts). Issue codes are texts, as there.
use atra_workunit_os.Prelude.{◌≡◌, refl, ◌⊎◌, inl, inr, String, List, arith}
use atra_workunit_os.Js.{Value}

-- `RuntimeAuthorizationEligibilityState`, and the status of a receipt.
pub data State : Type 0 where
  eligible invalid not_ready forbidden stale expired revoked used replayed blocked : State
  authorized_not_executed : State

-- `RuntimeAuthorizationEligibleEvidence`. The linkage's id and the executor's are passed through
-- without a test of their own.
pub record Evidence : Type 0 where
  pub tenant_id : String
  pub workunit_id : String
  pub action_preview_id : String
  pub approval_id : String
  pub approval_linkage_id : Value
  pub action_type : String
  pub target_hash : String
  pub payload_hash : String
  pub executor_id : Value
  pub idempotency_key : String
  pub authorization_id : String
  pub issued_at : String
  pub expires_at : String

-- An evaluation that may stop with a failure's state and issue codes. An exception anywhere is
-- caught by the outermost `try` and has no effect but its own failure, so it is one too.
pub data Outcome {ℓ} (A : Type ℓ) : Type ℓ where
  failed : State → List String → Outcome A
  done : A → Outcome A

infixl 5 ◌>>=◌
abbrev pub ◌>>=◌ {ℓ κ} : {A : Type ℓ} {B : Type κ} → Outcome A → (A → Outcome B) → Outcome B
failed s codes >>= k = failed s codes
done a >>= k = k a

pub >>=-eq-done {ℓ κ} :
    {S : Type ℓ} {T : Type κ} (first : Outcome S) (next : S → Outcome T) {last : T}
    → (first >>= next) ≡ done last
    → (mid : S) × (first ≡ done mid) × (next mid ≡ done last)
>>=-eq-done (failed s codes) next h = absurd (ground (arith, h))
>>=-eq-done (done mid) next h = (mid, refl, h)

pub Outcome-cases {ℓ} :
    {A : Type ℓ} (o : Outcome A)
    → ((s : State) × (codes : List String) × (o ≡ failed s codes)) ⊎ ((a : A) × (o ≡ done a))
Outcome-cases (failed s codes) = inl (s, codes, refl)
Outcome-cases (done a) = inr (a, refl)
