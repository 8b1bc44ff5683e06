-- ===== src/Proxy/ApprovalReached.antt =====
-- The states that a request of src/proxy/tool-approval.ts can reach.
use mathlib.Core.List.Memᴰ
use my_discord_agent.Base.{
  if◌then◌else◌, Bool-cases, length, ℕ, ◌≡◌, refl, sym, ap, subst, ◌∙◌, inl, inr, true, List, [],
  ◌∷◌, Memᴰ, arith,
}
use my_discord_agent.Proxy.Approval.{
  Verdict, Decision, update_failed, Claim, ApprovalRequest, take_claim, verdict_of,
  complete_ui_update, fail_ui_update, revoke,
}
use my_discord_agent.Proxy.ApprovalCalls.{
  cancel_settled, end_claim_settled, revoke_deaf, revoke_hears, take_claim_settled,
}
use my_discord_agent.Proxy.ApprovalInv.{ApprovalReached, reached-ApprovalInv}

-- In every state that claims, their ends and a revocation can reach, the promise is settled once when
-- the request has settled and never before, and a revoked request has settled.
pub settles_once :
    {s : ApprovalRequest}
    → ApprovalReached s
    → (length s.verdicts ≡ (if s.has_settled then 1 else 0))
      × (s.revoked ≡ true → s.has_settled ≡ true)
settles_once {s} r =
    let inv = reached-ApprovalInv r in
    elim (Bool-cases s.has_settled) [
      | inl over ↦ (inv.spoken over ∙ ap (λ b. if b then 1 else 0) (sym over), inv.ended)
      | inr open_yet ↦
          (ap length (inv.silent open_yet) ∙ ap (λ b. if b then 1 else 0) (sym open_yet), inv.ended)
    ]

-- The calls that may follow a state.
pub data Later (s : ApprovalRequest) : ApprovalRequest → Type 0 where
  here : Later s s
  then_claimed : {t : ApprovalRequest} (d : Decision) → Later s t → Later s (take_claim d t).1
  then_completed : {t : ApprovalRequest} (i : ℕ) → Later s t → Later s (complete_ui_update i t).1
  then_failed : {t : ApprovalRequest} (i : ℕ) → Later s t → Later s (fail_ui_update i t).1
  then_revoked : {t : ApprovalRequest} → Later s t → Later s (revoke t)

-- A settled request, and what it has said.
abbrev HasSaid : List Verdict → ApprovalRequest → Type 0
HasSaid vs t = (t.has_settled ≡ true) × (t.verdicts ≡ vs)

revoke-HasSaid : (vs : List Verdict) (t : ApprovalRequest) → HasSaid vs t → HasSaid vs (revoke t)
revoke-HasSaid vs t (over, said) = elim (Bool-cases t.listens) [
  | inl hears ↦
      subst (HasSaid vs)
        (sym (revoke_hears t hears ∙ cancel_settled (record t { revoked = true }) over))
        (over, said)
  | inr deaf ↦ subst (HasSaid vs) (sym (revoke_deaf t deaf)) (over, said)
]

Later-HasSaid : {s t : ApprovalRequest} → s.has_settled ≡ true → Later s t → HasSaid s.verdicts t
unfolding complete_ui_update fail_ui_update
Later-HasSaid over here = (over, refl)
Later-HasSaid {s} over (then_claimed {t} d r) =
    let said = Later-HasSaid over r in
    subst (λ z. HasSaid s.verdicts z.1) (sym (take_claim_settled d t said.0)) said
Later-HasSaid {s} over (then_completed {t} i r) =
    let said = Later-HasSaid over r in
    subst (λ z. HasSaid s.verdicts z.1)
      (sym (end_claim_settled (λ (c : Claim). verdict_of c.decision) i t said.0)) said
Later-HasSaid {s} over (then_failed {t} i r) =
    let said = Later-HasSaid over r in
    subst (λ z. HasSaid s.verdicts z.1)
      (sym (end_claim_settled (λ (c : Claim). update_failed) i t said.0)) said
Later-HasSaid {s} over (then_revoked {t} r) = revoke-HasSaid s.verdicts t (Later-HasSaid over r)

-- Once a reachable request has settled, no sequence of claims, ends of claims and revocations changes
-- what its promise was settled with: there is one verdict, and it is the same after them.
pub verdict_is_final :
    {s t : ApprovalRequest}
    → ApprovalReached s
    → s.has_settled ≡ true
    → Later s t
    → (v : Verdict) × (s.verdicts ≡ v ∷ []) × (t.verdicts ≡ v ∷ [])
verdict_is_final {s} r over later =
    let (v, one) = lone_verdict s.verdicts ((reached-ApprovalInv r).spoken over) in
    (v, one, (Later-HasSaid over later).1 ∙ one)
  where
    lone_verdict : (vs : List Verdict) → length vs ≡ 1 → (v : Verdict) × (vs ≡ v ∷ [])
    lone_verdict [] e = absurd (omega (arith, e))
    lone_verdict (v ∷ []) e = (v, refl)
    lone_verdict (v ∷ w ∷ vs) e = absurd (omega (arith, e))
