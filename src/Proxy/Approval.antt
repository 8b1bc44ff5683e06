-- ===== src/Proxy/Approval.antt =====
-- One request for the approval of a tool call: src/proxy/tool-approval.ts.
use my_discord_agent.Base.{
  if◌then◌else◌, get_elem?, ℕ, zero, suc, String, Bool, true, false, ◌||◌, not, Option, none, some,
  List, [], ◌∷◌, ◌++◌,
}

pub data Decision : Type 0 where
  approve deny : Decision

-- How the promise of `waitForDecision` is settled.
pub data Verdict : Type 0 where
  approved denied update_failed canceled : Verdict

-- An object that `claim` hands out.
pub record Claim : Type 0 where
  pub decision : Decision
  pub is_open : Bool

-- `ApprovalRequest`. `verdicts` are the calls of resolve and reject, `listens` tells whether the abort
-- listener is attached, and `revoked` is `revokeSignal.aborted`. `issued` are the claims handed out.
pub record ApprovalRequest : Type 0 where
  pub claimed : Bool
  pub has_settled : Bool
  pub issued : List Claim
  pub listens : Bool
  pub revoked : Bool
  pub verdicts : List Verdict

unfoldable pub settle : Verdict → ApprovalRequest → ApprovalRequest
settle v s = record s { has_settled = true; listens = false; verdicts = s.verdicts ++ v ∷ [] }

-- `#cancel`
unfoldable pub cancel : ApprovalRequest → ApprovalRequest
cancel s = if s.has_settled then s else settle canceled s

-- The constructor, after the arguments are serialized.
unfoldable pub new_request : Bool → ApprovalRequest
new_request aborted =
    let s : ApprovalRequest = record {
      claimed = false;
      has_settled = false;
      issued = [];
      listens = true;
      revoked = aborted;
      verdicts = [];
    } in
    if aborted then cancel s else s

-- `canonicalizeArgs` and the constructor: JSON.stringify and JSON.parse are parameters, `none` where
-- they throw or answer undefined.
pub record CanonicalToolArgs (Value : Type 0) : Type 0 where
  pub value : Value
  pub json : String

unfoldable pub canonicalize_args :
    {Value : Type 0}
    → (Value → Option String)
    → (String → Option Value)
    → Value
    → Option (CanonicalToolArgs Value)
canonicalize_args stringify parse args = elim (stringify args) [
  | none ↦ none
  | some json ↦ elim (parse json) [
    | none ↦ none
    | some value ↦ some (record { value = value; json = json })
  ]
]

unfoldable pub create_request :
    {Value : Type 0}
    → (Value → Option String)
    → (String → Option Value)
    → Value
    → Bool
    → Option (CanonicalToolArgs Value × ApprovalRequest)
create_request stringify parse args aborted = elim (canonicalize_args stringify parse args) [
  | none ↦ none
  | some canonical ↦ some (canonical, new_request aborted)
]

-- `claim`: whether it hands a claim out, and the state after it.
unfoldable pub take_claim : Decision → ApprovalRequest → Bool × ApprovalRequest
take_claim decision s = if s.claimed || s.has_settled then (false, s) else (
  true,
  record s {
    claimed = true;
    issued = s.issued ++ record { decision = decision; is_open = true } ∷ [];
  },
)

abbrev pub verdict_of : Decision → Verdict
verdict_of approve = approved
verdict_of deny = denied

-- The claim of an index is over.
unfoldable pub close_at : ℕ → List Claim → List Claim
close_at i [] = []
close_at zero (c ∷ cs) = record c { is_open = false } ∷ cs
close_at (suc i) (c ∷ cs) = c ∷ close_at i cs

-- The common part of `completeUiUpdate` and `failUiUpdate`, of the claim that was handed out as
-- number `i`.
unfoldable pub end_claim : (Claim → Verdict) → ℕ → ApprovalRequest → Bool × ApprovalRequest
end_claim verdict i s = elim (get_elem? s.issued i) [
  | none ↦ (false, s)
  | some c ↦
      if not c.is_open || s.has_settled
      then (false, s)
      else (true, settle (verdict c) (record s { issued = close_at i s.issued }))
]

unfoldable pub complete_ui_update : ℕ → ApprovalRequest → Bool × ApprovalRequest
complete_ui_update i s = end_claim (λ (c : Claim). verdict_of c.decision) i s

unfoldable pub fail_ui_update : ℕ → ApprovalRequest → Bool × ApprovalRequest
fail_ui_update i s = end_claim (λ (c : Claim). update_failed) i s

-- The run's authority is revoked: the signal aborts, and its listener runs if it is attached.
unfoldable pub revoke : ApprovalRequest → ApprovalRequest
revoke s = if s.listens then cancel (record s { revoked = true }) else record s { revoked = true }
