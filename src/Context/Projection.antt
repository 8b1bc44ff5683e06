-- ===== src/Context/Projection.antt =====
-- Which answers `projectSessionContext` of src/features/session-context/final-only.ts selects.
use mathlib.Core.List.Memᴰ
use mathlib.Core.Option
use mathlib.Core.Path.{ap₂}
use my_discord_agent.Base.{
  ◌==◌, Bool-cases, Option-cases, ℕ, String, ◌≡◌, refl, sym, ap, subst, ◌∙◌, ◌↔◌, ◌⊎◌, inl, inr,
  Bool, true, Option, none, some, List, [], ◌∷◌, map, Memᴰ, arith,
}
use my_discord_agent.Context.Finals.{
  ConversationEntries, text_only, is_final, final_message, is_user_entry, final_of, set_final,
  collect_finals, project_session_context,
}
use my_discord_agent.Context.Messages.{
  AssistantMessage, AgentMessage, user_message, assistant_message, tool_result, custom_message,
  compaction_message,
}

set_final-Memᴰ :
    (k : ℕ) (a : AssistantMessage) (ps : List (ℕ × AssistantMessage)) {p : ℕ × AssistantMessage}
    → Memᴰ p (set_final k a ps)
    → (p ≡ (k, a)) ⊎ Memᴰ p ps
unfolding set_final
set_final-Memᴰ k a [] m = inl (Memᴰ.eq_of_singleton m)
set_final-Memᴰ k a (q ∷ ps) m = elim (Bool-cases (q.0 == k)) [
  | inl hit ↦ elim (Memᴰ.cases_cons (rw hit at m)) [
    | inl e ↦ inl e
    | inr later ↦ inr (Memᴰ.tail later)
  ]
  | inr miss ↦ elim (Memᴰ.cases_cons (rw miss at m)) [
    | inl e ↦ inr (Memᴰ.head e)
    | inr later ↦ elim (set_final-Memᴰ k a ps later) [
      | inl e ↦ inl e
      | inr old ↦ inr (Memᴰ.tail old)
    ]
  ]
]

set_final_has :
    (k : ℕ) (a : AssistantMessage) (ps : List (ℕ × AssistantMessage))
    → Memᴰ (k, a) (set_final k a ps)
unfolding set_final
set_final_has k a [] = Memᴰ.head refl
set_final_has k a (q ∷ ps) = elim (Bool-cases (q.0 == k)) [
  | inl hit ↦ rw hit (Memᴰ.head refl)
  | inr miss ↦ rw miss (Memᴰ.tail (set_final_has k a ps))
]

-- A pair stays unless its key gets another value.
set_final_keeps :
    (k : ℕ) (a : AssistantMessage) (ps : List (ℕ × AssistantMessage)) {p : ℕ × AssistantMessage}
    → (p.0 ≡ k → p.1 ≡ a)
    → Memᴰ p ps
    → Memᴰ p (set_final k a ps)
unfolding set_final
set_final_keeps k a [] same m = absurd (Memᴰ.not-nil m)
set_final_keeps k a (q ∷ ps) {p} same m = elim (Bool-cases (q.0 == k)) [
  | inl hit ↦ elim (Memᴰ.cases_cons m) [
    | inl e ↦
        let key : p.0 ≡ k = ap (λ z. z.0) e ∙ ground arith in
        rw hit (Memᴰ.head (ap₂ (λ i b. (i, b)) key (same key)))
    | inr later ↦ rw hit (Memᴰ.tail later)
  ]
  | inr miss ↦ elim (Memᴰ.cases_cons m) [
    | inl e ↦ rw miss (Memᴰ.head e)
    | inr later ↦ rw miss (Memᴰ.tail (set_final_keeps k a ps same later))
  ]
]

module _ (blank : String → Bool) (entries : ℕ → Option AgentMessage) where
  -- The value of a final depends on its key alone.
  final_of-eq :
      (r : ConversationEntries) {a : AssistantMessage}
      → final_of blank entries r ≡ some a
      → (final_message blank (entries r.assistant_entry_id) ≡ some a)
        × (is_user_entry (entries r.user_entry_id) ≡ true)
  unfolding final_of
  final_of-eq r {a} e = elim (Bool-cases (is_user_entry (entries r.user_entry_id))) [
    | inl hit ↦ (rw hit at e, hit)
    | inr miss ↦ absurd (let nothing : none ≡ some a = rw miss at e in ground (arith, nothing))
  ]

  collect_keeps :
      (refs : List ConversationEntries) (finals : List (ℕ × AssistantMessage))
      {p : ℕ × AssistantMessage}
      → final_message blank (entries p.0) ≡ some p.1
      → Memᴰ p finals
      → Memᴰ p (collect_finals blank entries finals refs)
  unfolding collect_finals
  collect_keeps [] finals is m = m
  collect_keeps (r ∷ refs) finals {p} is m = elim (Option-cases (final_of blank entries r)) [
    | inl nothing ↦ rw (collect_finals, nothing) (collect_keeps refs finals is m)
    | inr (a, found) ↦
        rw (collect_finals, found)
          (collect_keeps refs (set_final r.assistant_entry_id a finals) is (
            set_final_keeps r.assistant_entry_id a finals
              (λ key.
                Option.some-injective _ _ (
                  sym is ∙ ap (λ k. final_message blank (entries k)) key ∙ (final_of-eq r found).0))
              m))
  ]

  collect_has :
      (refs : List ConversationEntries) (finals : List (ℕ × AssistantMessage))
      (r : ConversationEntries) {a : AssistantMessage}
      → Memᴰ r refs
      → final_of blank entries r ≡ some a
      → Memᴰ (r.assistant_entry_id, a) (collect_finals blank entries finals refs)
  unfolding collect_finals
  collect_has [] finals r m e = absurd (Memᴰ.not-nil m)
  collect_has (q ∷ refs) finals r {a} m e = elim (Memᴰ.cases_cons m) [
    | inl is ↦
        let found : final_of blank entries q ≡ some a = ap (final_of blank entries) (sym is) ∙ e in
        rw (collect_finals, found)
          (collect_keeps refs (set_final q.assistant_entry_id a finals) (final_of-eq r e).0 (
            subst (λ z. Memᴰ (z.assistant_entry_id, a) (set_final q.assistant_entry_id a finals))
              (sym is) (set_final_has q.assistant_entry_id a finals)))
    | inr later ↦ elim (Option-cases (final_of blank entries q)) [
      | inl nothing ↦ rw (collect_finals, nothing) (collect_has refs finals r later e)
      | inr (b, found) ↦
          rw (collect_finals, found)
            (collect_has refs (set_final q.assistant_entry_id b finals) r later e)
    ]
  ]

  collect_sound :
      (refs : List ConversationEntries) (finals : List (ℕ × AssistantMessage))
      {p : ℕ × AssistantMessage}
      → Memᴰ p (collect_finals blank entries finals refs)
      → Memᴰ p finals
        ⊎ ((r : ConversationEntries) × Memᴰ r refs
            × (p.0 ≡ r.assistant_entry_id)
            × (final_of blank entries r ≡ some p.1))
  unfolding collect_finals
  collect_sound [] finals m = inl m
  collect_sound (q ∷ refs) finals {p} m = elim (Option-cases (final_of blank entries q)) [
    | inl nothing ↦ elim (collect_sound refs finals (rw (collect_finals, nothing) at m)) [
      | inl old ↦ inl old
      | inr (r, at, k, e) ↦ inr (r, Memᴰ.tail at, k, e)
    ]
    | inr (b, found) ↦
        elim (collect_sound refs (set_final q.assistant_entry_id b finals)
          (rw (collect_finals, found) at m)) [
            | inr (r, at, k, e) ↦ inr (r, Memᴰ.tail at, k, e)
            | inl set ↦ elim (set_final-Memᴰ q.assistant_entry_id b finals set) [
              | inr old ↦ inl old
              | inl is ↦
                  inr (q, Memᴰ.head refl, ap (λ z. z.0) is, found ∙ ap (λ z. some z.1) (sym is))
            ]
          ]
  ]

final_message-some :
    (blank : String → Bool) (o : Option AgentMessage) {a : AssistantMessage}
    → final_message blank o ≡ some a
    → (raw : AssistantMessage) × (o ≡ some (assistant_message raw))
      × (is_final blank raw ≡ true)
      × (a ≡ text_only raw)
unfolding final_message
final_message-some blank none e = cc
final_message-some blank (some (assistant_message raw)) {a} e =
    elim (Bool-cases (is_final blank raw)) [
      | inl hit ↦ (raw, refl, hit, sym (Option.some-injective _ _ (rw hit at e)))
      | inr miss ↦ absurd (let nothing : none ≡ some a = rw miss at e in ground (arith, nothing))
    ]
final_message-some blank (some (user_message t n)) e = cc
final_message-some blank (some (tool_result t)) e = cc
final_message-some blank (some (custom_message t o)) e = cc
final_message-some blank (some (compaction_message c ms)) e = cc

final_of_adopted :
    (blank : String → Bool) (entries : ℕ → Option AgentMessage) (r : ConversationEntries)
    (raw : AssistantMessage)
    → is_user_entry (entries r.user_entry_id) ≡ true
    → entries r.assistant_entry_id ≡ some (assistant_message raw)
    → is_final blank raw ≡ true
    → final_of blank entries r ≡ some (text_only raw)
unfolding final_of final_message
final_of_adopted blank entries r raw user is final = rw (user, is, final) refl

-- A reference whose user entry is a user's and whose assistant entry is a final answer with this text.
abbrev pub Adopted :
    (String → Bool)
    → (ℕ → Option AgentMessage)
    → List ConversationEntries
    → AssistantMessage
    → Type 0
Adopted blank entries references a =
    (r : ConversationEntries) × (raw : AssistantMessage) × Memᴰ r references
    × (is_user_entry (entries r.user_entry_id) ≡ true)
    × (entries r.assistant_entry_id ≡ some (assistant_message raw))
    × (is_final blank raw ≡ true)
    × (a ≡ text_only raw)

-- `projectSessionContext` selects a message exactly when a reference names a user entry and an
-- assistant entry whose text is that message: the assistant ended by itself or at the length limit,
-- without an error, without a tool call and with a text that is not blank.
pub projection_selects_finals :
    (blank : String → Bool) (entries : ℕ → Option AgentMessage)
    (references : List ConversationEntries) (a : AssistantMessage)
    → Memᴰ a (project_session_context blank entries references) ↔ Adopted blank entries references a
unfolding project_session_context
projection_selects_finals blank entries references a = (forward, backward)
  where
    forward :
        Memᴰ a
          (map (λ (p : ℕ × AssistantMessage). p.1) (collect_finals blank entries [] references))
        → Adopted blank entries references a
    forward m =
        let (p, at, e) =
          Memᴰ.of_map (λ (p : ℕ × AssistantMessage). p.1)
            (collect_finals blank entries [] references) m in
        elim (collect_sound blank entries references [] at) [
          | inl old ↦ absurd (Memᴰ.not-nil old)
          | inr (r, there, k, found) ↦
              let (is, user) = final_of-eq blank entries r found in
              let (raw, entry, final, text) =
                final_message-some blank (entries r.assistant_entry_id) is in
              (r, raw, there, user, entry, final, sym e ∙ text)
        ]

    backward :
        Adopted blank entries references a
        → Memᴰ a
            (map (λ (p : ℕ × AssistantMessage). p.1) (collect_finals blank entries [] references))
    backward (r, raw, there, user, entry, final, text) =
        subst
          (λ z.
            Memᴰ z (
              map (λ (p : ℕ × AssistantMessage). p.1) (collect_finals blank entries [] references)))
          (sym text)
          (Memᴰ.map (λ (p : ℕ × AssistantMessage). p.1)
            (collect_has blank entries references [] r there
              (final_of_adopted blank entries r raw user entry final)))
