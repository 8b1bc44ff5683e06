-- ===== src/Context/Archives.antt =====
-- Where the archives of a session end, and what a repeated clear does (src/features/session-context).
use mathlib.Core.List.{append_assoc}
use mathlib.Core.List.Memᴰ
use mathlib.Core.Option
use my_discord_agent.Base.{
  Bool-cases, Option-cases, any_row, ℕ, zero, suc, ◌<◌, String, ◌≡◌, refl, sym, ap, ◌∙◌, inl, inr,
  Bool, true, false, none, some, List, [], ◌∷◌, ◌++◌, Memᴰ, arith, eq_iff,
}
use my_discord_agent.Context.Messages.{ContextMode, Checkpoint, AgentMessage, custom_message}
use my_discord_agent.Context.Segments.{
  Segment, find_checkpoint, same_mode, stops_at, load_context_segments, oldest, clear, Prepared,
  Preparation, reset_refused, prepared, last_messages, clear_context, was_applied,
  prepare_session_context,
}

-- The archives of checkpoints are older than their sessions: when a rank falls from a session to the
-- archive that its checkpoint of the other mode names, fuel above the rank of a session is enough for
-- `loadContextSegments`. It returns the segments up to that of the session, each with the messages of
-- its session, and the oldest one has no checkpoint or one of the mode asked for.
pub segments_end :
    (n : ℕ) (load : String → List AgentMessage) (mode : ContextMode) (rank : String → ℕ)
    → ((s : String) (c : Checkpoint)
        → find_checkpoint (load s) ≡ some c
        → same_mode c.context_mode mode ≡ false
        → rank c.archive_session_id < rank s)
    → (session : String) (later : List Segment) → rank session < n
    → (front : List Segment) × (first : Segment) × (load_context_segments n load mode session later
        ≡ some (front ++ record { session_id = session; messages = load session } ∷ later))
      × (oldest (front ++ record { session_id = session; messages = load session } ∷ later)
          ≡ some first)
      × (stops_at mode first.messages ≡ true)
      × ((s : Segment) → Memᴰ s front → s.messages ≡ load s.session_id)
unfolding load_context_segments stops_at
segments_end zero load mode rank falls session later enough = absurd (omega arith)
segments_end (suc n) load mode rank falls session later enough =
    let here : Segment = record { session_id = session; messages = load session } in
    elim (Option-cases (find_checkpoint (load session))) [
      | inl nothing ↦ (
        [],
        here,
        rw (load_context_segments, nothing) refl,
        refl,
        rw (stops_at, nothing) refl,
        (λ s m. absurd (Memᴰ.not-nil m)),
      )
      | inr (c, found) ↦ elim (Bool-cases (same_mode c.context_mode mode)) [
        | inl same ↦ (
          [],
          here,
          rw (load_context_segments, found, same) refl,
          refl,
          rw (stops_at, found, same) refl,
          (λ s m. absurd (Memᴰ.not-nil m)),
        )
        | inr other ↦
            let down = falls session c found other in
            let (front, first, e, old, stops, loads) =
              segments_end n load mode rank falls c.archive_session_id (here ∷ later)
                (omega (arith, down, enough)) in
            let archive : Segment = record {
              session_id = c.archive_session_id;
              messages = load c.archive_session_id;
            } in
            let joins : (front ++ archive ∷ []) ++ here ∷ later
                ≡ front ++ (archive ∷ here ∷ later) =
              append_assoc front (archive ∷ []) (here ∷ later) in
            (
              front ++ archive ∷ [],
              first,
              rw (load_context_segments, found, other) (e ∙ ap some (sym joins)),
              ap oldest joins ∙ old,
              stops,
              (λ s m. elim (Memᴰ.append_cases front m) [
                | inl before ↦ loads s before
                | inr last ↦
                    let is : s ≡ archive = Memᴰ.eq_of_singleton last in
                    ap (λ z. z.messages) is ∙ ap (λ z. load z.session_id) (sym is)
              ]),
            )
      ]
    ]

prepared_of : Preparation → Prepared → Prepared
prepared_of reset_refused other = other
prepared_of (prepared p) other = p

clear_runs :
    (id : String) (segments : List Segment)
    → prepare_session_context
        (some (record { action = some clear; operation_id = id; allow_context_reset = true }))
        segments
      ≡ clear_context id (was_applied id segments)
unfolding prepare_session_context
clear_runs id segments = refl

applied_by_reset :
    (id session : String)
    → was_applied id (
        record {
          session_id = session;
          messages = custom_message "session-context-reset" (some id) ∷ [];
        }
        ∷ [])
      ≡ true
unfolding last_messages any_row
applied_by_reset id session = rw ((eq_iff id id).1 refl) refl

-- What a clear that replaces the context has answered.
clear_replaces :
    (id : String) (applied : Bool) {ms : List AgentMessage} {p : Prepared}
    → clear_context id applied ≡ prepared p
    → p.replaced ≡ some ms
    → (clear_context id true ≡ prepared (record p { already_applied = true; replaced = none }))
      × (ms ≡ custom_message "session-context-reset" (some id) ∷ [])
unfolding clear_context prepared_of
clear_replaces id applied {ms} {p} e r =
    let is = ap (λ z. prepared_of z p) e in
    elim (Bool-cases applied) [
      | inl before ↦ absurd (
          let nothing : none ≡ p.replaced = rw before at (ap (λ z. z.replaced) is) in
          ground (arith, nothing, r))
      | inr first ↦
          let wrote : some (custom_message "session-context-reset" (some id) ∷ []) ≡ p.replaced =
            rw first at (ap (λ z. z.replaced) is) in
          (
            ap (λ (z : Prepared). prepared (record z { already_applied = true; replaced = none }))
                is,
            sym (Option.some-injective _ _ (wrote ∙ r)),
          )
    ]

-- A clear is applied once: when a clear has replaced the context of a session, and that context is what
-- the session loads next, the same operation is answered in the same words and replaces nothing.
pub clear_is_applied_once :
    (id session : String) (segments : List Segment) {ms : List AgentMessage} {p : Prepared}
    → prepare_session_context
        (some (record { action = some clear; operation_id = id; allow_context_reset = true }))
        segments
      ≡ prepared p
    → p.replaced ≡ some ms
    → prepare_session_context
        (some (record { action = some clear; operation_id = id; allow_context_reset = true }))
        (record { session_id = session; messages = ms } ∷ [])
      ≡ prepared (record p { already_applied = true; replaced = none })
clear_is_applied_once id session segments {ms} {p} e r =
    let (again, wrote) =
      clear_replaces id (was_applied id segments) (sym (clear_runs id segments) ∙ e) r in
    clear_runs id (record { session_id = session; messages = ms } ∷ [])
    ∙ ap (clear_context id) (
        ap (λ l. was_applied id (record { session_id = session; messages = l } ∷ [])) wrote
        ∙ applied_by_reset id session)
    ∙ again
