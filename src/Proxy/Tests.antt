-- ===== src/Proxy/Tests.antt =====
-- Concrete runs of a request of src/proxy/tool-approval.ts.
use my_discord_agent.Base.{
  if◌then◌else◌, length, ℕ, ◌≡◌, refl, subst, true, false, none, some, [], ◌∷◌,
}
use my_discord_agent.Proxy.Approval.{
  Verdict, approve, deny, approved, ApprovalRequest, settle, cancel, new_request, canonicalize_args,
  take_claim, close_at, end_claim, complete_ui_update, revoke,
}
use my_discord_agent.Proxy.ApprovalInv.{completed, ApprovalReached, requested, claimed_by}
use my_discord_agent.Proxy.ApprovalReached.{
  settles_once, here, then_claimed, then_revoked, verdict_is_final,
}

abbrev approved_request : ApprovalRequest
approved_request = record {
  claimed = true;
  has_settled = true;
  issued = record { decision = approve; is_open = false } ∷ [];
  listens = false;
  revoked = false;
  verdicts = approved ∷ [];
}

approves : (complete_ui_update 0 (take_claim approve (new_request false)).1).1 ≡ approved_request
unfolding complete_ui_update end_claim close_at take_claim new_request settle
approves = refl

-- A revocation before the end of the update wins.
revoked_first :
    complete_ui_update 0 (revoke (take_claim approve (new_request false)).1)
    ≡ (false, revoke (take_claim approve (new_request false)).1)
unfolding complete_ui_update end_claim close_at take_claim new_request settle revoke cancel
revoked_first = refl

unserializable : canonicalize_args {Value = ℕ} (λ n. none) (λ s. some 0) 3 ≡ none
unfolding canonicalize_args
unserializable = refl

approved-ApprovalReached : ApprovalReached approved_request
approved-ApprovalReached =
    subst ApprovalReached approves (completed 0 (claimed_by approve (requested false)))

settles_once_example :
    (length approved_request.verdicts ≡ (if approved_request.has_settled then 1 else 0))
    × (approved_request.revoked ≡ true → approved_request.has_settled ≡ true)
settles_once_example = settles_once approved-ApprovalReached

verdict_is_final_example :
    (v : Verdict) × (approved_request.verdicts ≡ v ∷ [])
    × ((revoke (take_claim deny approved_request).1).verdicts ≡ v ∷ [])
verdict_is_final_example =
    verdict_is_final approved-ApprovalReached refl (then_revoked (then_claimed deny here))
