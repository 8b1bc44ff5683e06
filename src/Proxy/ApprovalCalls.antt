-- ===== src/Proxy/ApprovalCalls.antt =====
-- What the calls of a request of src/proxy/tool-approval.ts leave.
use mathlib.Core.Option
use my_discord_agent.Base.{
  Option-cases, length, get_elem?, ℕ, zero, suc, ◌≤◌, ◌≡◌, refl, ap, inl, inr, true, false, ◌||◌,
  not, none, some, List, [], ◌∷◌, arith,
}
use my_discord_agent.Proxy.Approval.{
  Verdict, Decision, canceled, Claim, ApprovalRequest, settle, cancel, take_claim, close_at,
  end_claim, revoke,
}

pub cancel_settled : (s : ApprovalRequest) → s.has_settled ≡ true → cancel s ≡ s
unfolding cancel
cancel_settled s h = rw h refl

pub cancel_open : (s : ApprovalRequest) → s.has_settled ≡ false → cancel s ≡ settle canceled s
unfolding cancel
cancel_open s h = rw h refl

-- A claim that is over.
abbrev closed_claim : Claim → Claim
closed_claim c = record c { is_open = false }

-- The claim of an index, where one claim is handed out at most, is that claim.
pub only_claim :
    (cs : List Claim) (i : ℕ) (c : Claim)
    → length cs ≤ 1
    → get_elem? cs i ≡ some c
    → close_at i cs ≡ closed_claim c ∷ []
unfolding close_at
only_claim [] zero c few e = cc
only_claim [] (suc i) c few e = cc
only_claim (d ∷ []) zero c few e =
    ap (λ (z : Claim). closed_claim z ∷ []) (Option.some-injective _ _ e)
only_claim (d ∷ []) (suc i) c few e = absurd (no_more i e)
  where
    no_more : (i : ℕ) → get_elem? {A = Claim} [] i ≡ some c → ⊥
    no_more zero e = cc
    no_more (suc i) e = cc
only_claim (d ∷ d2 ∷ ds) i c few e = absurd (omega (arith, few))

pub close_at-nil : (i : ℕ) → close_at i [] ≡ []
unfolding close_at
close_at-nil zero = refl
close_at-nil (suc i) = refl

module _ (verdict : Claim → Verdict) (i : ℕ) (s : ApprovalRequest) where
  pub end_claim-none : get_elem? s.issued i ≡ none → end_claim verdict i s ≡ (false, s)
  unfolding end_claim
  end_claim-none h = simp (end_claim, h)

  pub end_claim_over :
      (c : Claim)
      → get_elem? s.issued i ≡ some c
      → (not c.is_open || s.has_settled) ≡ true
      → end_claim verdict i s ≡ (false, s)
  unfolding end_claim
  end_claim_over c given over = simp (end_claim, given, over)

  pub end_claim_live :
      (c : Claim)
      → get_elem? s.issued i ≡ some c
      → (not c.is_open || s.has_settled) ≡ false
      → end_claim verdict i s
        ≡ (true, settle (verdict c) (record s { issued = close_at i s.issued }))
  unfolding end_claim
  end_claim_live c given live = simp (end_claim, given, live)

  pub end_claim_settled : s.has_settled ≡ true → end_claim verdict i s ≡ (false, s)
  end_claim_settled over = elim (Option-cases (get_elem? s.issued i)) [
    | inl nothing ↦ end_claim-none nothing
    | inr (c, given) ↦ end_claim_over c given (ground arith)
  ]

pub revoke_deaf : (s : ApprovalRequest) → s.listens ≡ false → revoke s ≡ record s { revoked = true }
unfolding revoke
revoke_deaf s h = rw h refl

pub revoke_hears :
    (s : ApprovalRequest) → s.listens ≡ true → revoke s ≡ cancel (record s { revoked = true })
unfolding revoke
revoke_hears s h = rw h refl

pub take_claim_settled :
    (d : Decision) (t : ApprovalRequest) → t.has_settled ≡ true → take_claim d t ≡ (false, t)
unfolding take_claim
take_claim_settled d t over =
    let refused : (t.claimed || t.has_settled) ≡ true = ground arith in simp (take_claim, refused)
