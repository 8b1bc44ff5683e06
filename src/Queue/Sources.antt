-- ===== src/Queue/Sources.antt =====
-- The registry of source kinds (src/queue/source-handlers.ts): registration, the check of an
-- envelope, and the policies that the queue reads. The callbacks of a source are other code.
use my_discord_agent.Base.{
  if◌then◌else◌, get_or, find_row, any_row, String, Bool, false, ◌||◌, Option, none, some, List, [],
  ◌∷◌, ◌++◌, str_eq,
}
use my_discord_agent.Queue.Payload.{Json, SourceEnvelope}

-- `accepts` is the Zod schema's `safeParse(input).success`.
pub record Source : Type 0 where
  pub kind : String
  pub accepts : Json → Bool
  pub active_only_idempotency : Bool
  pub continue_after_failed_chunk : Bool
  pub terminal_on_agent_failure : Bool

pub data SourceError : Type 0 where
  duplicate_or_empty unregistered invalid_input : String → SourceError

pub data Checked (A : Type 0) : Type 0 where
  valid : A → Checked A
  invalid : SourceError → Checked A

abbrev pub Sources : Type 0
Sources = List Source

-- The options of a registration: a policy that is left out is off.
pub record SourceCallbacks : Type 0 where
  pub active_only_idempotency : Option Bool
  pub continue_after_failed_chunk : Option Bool
  pub terminal_on_agent_failure : Option Bool

unfoldable pub register : String → (Json → Bool) → SourceCallbacks → Sources → Checked Sources
register kind accepts callbacks sources =
    if str_eq kind "" || any_row (λ s. str_eq s.kind kind) sources
    then invalid (duplicate_or_empty kind)
    else valid (sources ++ source ∷ [])
  where
    source : Source
    source = record {
      kind = kind;
      accepts = accepts;
      active_only_idempotency = get_or callbacks.active_only_idempotency false;
      continue_after_failed_chunk = get_or callbacks.continue_after_failed_chunk false;
      terminal_on_agent_failure = get_or callbacks.terminal_on_agent_failure false;
    }

-- `resolve`, and `policy`, which copies the flags of what it finds.
unfoldable pub policy : Sources → SourceEnvelope → Checked Source
policy sources envelope = elim (find_row (λ s. str_eq s.kind envelope.kind) sources) [
  | none ↦ invalid (unregistered envelope.kind)
  | some s ↦ if s.accepts envelope.input then valid s else invalid (invalid_input envelope.kind)
]
