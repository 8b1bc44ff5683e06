-- ===== src/Proxy/ApprovalInv.antt =====
-- The invariant of a request of src/proxy/tool-approval.ts.
use my_discord_agent.Base.{
  Bool-cases, Option-cases, length, get_elem?, ℕ, ◌≤◌, ◌≡◌, refl, sym, ap, subst, ◌∙◌, inl, inr,
  Bool, true, false, ◌||◌, not, List, [], ◌∷◌, ◌++◌, arith,
}
use my_discord_agent.Proxy.Approval.{
  Verdict, Decision, approve, deny, approved, denied, update_failed, canceled, Claim,
  ApprovalRequest, settle, cancel, new_request, take_claim, verdict_of, close_at, end_claim,
  complete_ui_update, fail_ui_update, revoke,
}
use my_discord_agent.Proxy.ApprovalCalls.{
  cancel_open, only_claim, close_at-nil, end_claim-none, end_claim_over, end_claim_live,
  revoke_deaf, revoke_hears,
}

pub data ApprovalReached : ApprovalRequest → Type 0 where
  requested : (aborted : Bool) → ApprovalReached (new_request aborted)
  claimed_by :
      {s : ApprovalRequest} (d : Decision) → ApprovalReached s → ApprovalReached (take_claim d s).1
  completed :
      {s : ApprovalRequest} (i : ℕ) → ApprovalReached s → ApprovalReached (complete_ui_update i s).1
  failed :
      {s : ApprovalRequest} (i : ℕ) → ApprovalReached s → ApprovalReached (fail_ui_update i s).1
  was_revoked : {s : ApprovalRequest} → ApprovalReached s → ApprovalReached (revoke s)

-- The verdicts that fit the claim which was handed out.
abbrev pub Fits : List Verdict → List Claim → Type 0
Fits [] issued = Unit
Fits (approved ∷ vs) issued =
    (issued ≡ record { decision = approve; is_open = false } ∷ []) × (vs ≡ [])
Fits (denied ∷ vs) issued = (issued ≡ record { decision = deny; is_open = false } ∷ []) × (vs ≡ [])
Fits (update_failed ∷ vs) issued =
    (d : Decision) × (issued ≡ record { decision = d; is_open = false } ∷ []) × (vs ≡ [])
Fits (canceled ∷ vs) issued = vs ≡ []

pub record ApprovalInv (s : ApprovalRequest) : Type 0 where
  heard : s.listens ≡ not s.has_settled
  pub ended : s.revoked ≡ true → s.has_settled ≡ true
  pub silent : s.has_settled ≡ false → s.verdicts ≡ []
  pub spoken : s.has_settled ≡ true → length s.verdicts ≡ 1
  pub fitting : Fits s.verdicts s.issued
  unclaimed : s.claimed ≡ false → s.issued ≡ []
  single : length s.issued ≤ 1

-- An open request with one verdict.
settle-ApprovalInv :
    (v : Verdict) (s : ApprovalRequest)
    → s.verdicts ≡ []
    → Fits (v ∷ []) s.issued
    → (s.claimed ≡ false → s.issued ≡ [])
    → length s.issued ≤ 1
    → ApprovalInv (settle v s)
unfolding settle
settle-ApprovalInv v s none_yet fit unclaimed single = record {
  heard = refl;
  ended = λ h. refl;
  silent = λ h. cc;
  spoken = λ h. ap (λ vs. length (vs ++ v ∷ [])) none_yet;
  fitting = subst (λ vs. Fits (vs ++ v ∷ []) s.issued) (sym none_yet) fit;
  unclaimed = unclaimed;
  single = single;
}

new_request-ApprovalInv : (aborted : Bool) → ApprovalInv (new_request aborted)
unfolding new_request cancel settle
new_request-ApprovalInv true = record {
  heard = refl;
  ended = λ h. refl;
  silent = λ h. cc;
  spoken = λ h. refl;
  fitting = refl;
  unclaimed = λ h. refl;
  single = omega arith;
}
new_request-ApprovalInv false = record {
  heard = refl;
  ended = λ h. cc;
  silent = λ h. refl;
  spoken = λ h. cc;
  fitting = tt;
  unclaimed = λ h. refl;
  single = omega arith;
}

take_claim-ApprovalInv :
    (d : Decision) (s : ApprovalRequest) → ApprovalInv s → ApprovalInv (take_claim d s).1
unfolding take_claim
take_claim-ApprovalInv d s inv = elim (Bool-cases (s.claimed || s.has_settled)) [
  | inl refused ↦ rw refused inv
  | inr free ↦
      let open_yet : s.has_settled ≡ false = ground arith in
      let unclaimed_yet : s.claimed ≡ false = ground arith in
      let c : Claim = record { decision = d; is_open = true } in
      let is_first : s.issued ++ c ∷ [] ≡ c ∷ [] =
        ap (λ cs. cs ++ c ∷ []) (inv.unclaimed unclaimed_yet) in
      rw free (record {
        heard = inv.heard;
        ended = inv.ended;
        silent = inv.silent;
        spoken = inv.spoken;
        fitting = subst (λ vs. Fits vs (s.issued ++ c ∷ [])) (sym (inv.silent open_yet)) tt;
        unclaimed = λ h. absurd (ground (arith, h));
        single = subst (λ cs. length cs ≤ 1) (sym is_first) (omega arith);
      })
]

end_claim-ApprovalInv :
    (verdict : Claim → Verdict) (i : ℕ) (s : ApprovalRequest)
    → ((c : Claim) → Fits (verdict c ∷ []) (record c { is_open = false } ∷ []))
    → ApprovalInv s
    → ApprovalInv (end_claim verdict i s).1
end_claim-ApprovalInv verdict i s fits inv = elim (Option-cases (get_elem? s.issued i)) [
  | inl nothing ↦ subst (λ z. ApprovalInv z.1) (sym (end_claim-none verdict i s nothing)) inv
  | inr (c, given) ↦ elim (Bool-cases (not c.is_open || s.has_settled)) [
    | inl over ↦ subst (λ z. ApprovalInv z.1) (sym (end_claim_over verdict i s c given over)) inv
    | inr live ↦
        let open_yet : s.has_settled ≡ false = ground arith in
        let closed = only_claim s.issued i c inv.single given in
        subst (λ z. ApprovalInv z.1) (sym (end_claim_live verdict i s c given live))
          (settle-ApprovalInv (verdict c) (record s { issued = close_at i s.issued })
            (inv.silent open_yet) (subst (Fits (verdict c ∷ [])) (sym closed) (fits c))
            (λ h. ap (close_at i) (inv.unclaimed h) ∙ close_at-nil i)
            (subst (λ cs. length cs ≤ 1) (sym closed) (omega arith)))
  ]
]

revoke-ApprovalInv : (s : ApprovalRequest) → ApprovalInv s → ApprovalInv (revoke s)
unfolding revoke
revoke-ApprovalInv s inv = elim (Bool-cases s.has_settled) [
  | inl over ↦
      let deaf : s.listens ≡ false = inv.heard ∙ ap not over in
      subst ApprovalInv (sym (revoke_deaf s deaf)) (record {
        heard = inv.heard;
        ended = λ h. over;
        silent = inv.silent;
        spoken = inv.spoken;
        fitting = inv.fitting;
        unclaimed = inv.unclaimed;
        single = inv.single;
      })
  | inr open_yet ↦
      let hears : s.listens ≡ true = inv.heard ∙ ap not open_yet in
      subst ApprovalInv
        (sym (revoke_hears s hears ∙ cancel_open (record s { revoked = true }) open_yet))
        (settle-ApprovalInv canceled (record s { revoked = true }) (inv.silent open_yet) refl
          inv.unclaimed inv.single)
]

complete-Fits : (c : Claim) → Fits (verdict_of c.decision ∷ []) (record c { is_open = false } ∷ [])
complete-Fits c = fits c.decision refl
  where
    fits :
        (d : Decision)
        → c.decision ≡ d
        → Fits (verdict_of c.decision ∷ []) (record c { is_open = false } ∷ [])
    fits approve e = rw e (refl, refl)
    fits deny e = rw e (refl, refl)

pub reached-ApprovalInv : {s : ApprovalRequest} → ApprovalReached s → ApprovalInv s
unfolding complete_ui_update fail_ui_update
reached-ApprovalInv (requested aborted) = new_request-ApprovalInv aborted
reached-ApprovalInv (claimed_by d r) = take_claim-ApprovalInv d _ (reached-ApprovalInv r)
reached-ApprovalInv (completed {s} i r) =
    end_claim-ApprovalInv (λ (c : Claim). verdict_of c.decision) i s complete-Fits
      (reached-ApprovalInv r)
reached-ApprovalInv (failed {s} i r) =
    end_claim-ApprovalInv (λ (c : Claim). update_failed) i s (λ c. (c.decision, refl, refl))
      (reached-ApprovalInv r)
reached-ApprovalInv (was_revoked r) = revoke-ApprovalInv _ (reached-ApprovalInv r)
