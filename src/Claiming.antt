-- ===== src/Claiming.antt =====
-- The values of a JSON body, and the work that a claim hands over (`ClaimedWork` and the functions
-- that read it, src/maivn/_internal/claiming.py). `F` is the type of Python's floats.
pub mod Handover
pub mod Usage
pub mod Reports
pub mod Loop
mod Tests
use maivn.Prelude.{
  ℕ, String, Bool, true, false, Option, none, some, List, [], ◌∷◌, ◌==◌, if◌then◌else◌, Result, ok,
  err, ◌>>=◌,
}

-- The library's integers over the native numbers: `negsuc n` is -(n + 1).
pub data ℤ : Type 0 where
  pos : ℕ → ℤ
  negsuc : ℕ → ℤ

mutual
  pub data Json {ℓ} (F : Type ℓ) : Type ℓ where
    null : Json F
    boolean : Bool → Json F
    whole : ℤ → Json F
    real : F → Json F
    text : String → Json F
    array : Items F → Json F
    object : Fields F → Json F

  pub data Items {ℓ} (F : Type ℓ) : Type ℓ where
    no_items : Items F
    item : Json F → Items F → Items F

  pub data Fields {ℓ} (F : Type ℓ) : Type ℓ where
    no_fields : Fields F
    field_of : String → Json F → Fields F → Fields F

pub record ClaimedWork {ℓ} (F : Type ℓ) : Type ℓ where
  pub fire_id : String
  pub claim_token : ℤ
  pub invocation_id : String
  pub trigger_id : String
  pub agent_id : String
  pub agent_version : ℤ
  pub session_id : String
  pub root_event_id : String
  pub payload : Fields F
  pub binding : Option (Fields F)
  pub claim_until : Option String

-- The `MaivnSDKError` that a claim raises, by its message.
pub data ClaimError : Type 0 where
  not_an_object no_hand_over : ClaimError
  omitted : String → ClaimError

module _ {ℓ} {F : Type ℓ} where
  -- `body.get(name)`: a missing field and a null one are both `None`.
  pub get : String → Fields F → Json F
  get name no_fields = null
  get name (field_of key value fields) = if key == name then value else get name fields

  abbrev as_object : Json F → Option (Fields F)
  as_object (object fields) = some fields
  as_object _ = none

  abbrev as_text : Json F → Option String
  as_text (text t) = some t
  as_text _ = none

  unfoldable pub object_field : Fields F → String → Option (Fields F)
  unfolding get
  object_field body field_name = as_object (get field_name body)

  nonempty : String → Json F → Result ClaimError String
  nonempty field_name (text t) = if t == "" then err (omitted field_name) else ok t
  nonempty field_name _ = err (omitted field_name)

  unfoldable pub required_str : Fields F → String → Result ClaimError String
  unfolding get nonempty
  required_str body field_name = nonempty field_name (get field_name body)

  integer : String → Json F → Result ClaimError ℤ
  integer field_name (whole n) = ok n
  integer field_name _ = err (omitted field_name)

  unfoldable pub required_int : Fields F → String → Result ClaimError ℤ
  unfolding get integer
  required_int body field_name = integer field_name (get field_name body)

  abbrev or_empty : Option (Fields F) → Fields F
  or_empty none = no_fields
  or_empty (some fields) = fields

  claimed_fields : Fields F → Fields F → Result ClaimError (ClaimedWork F)
  unfolding required_str required_int object_field
  claimed_fields claim work = do
    fire_id ← required_str claim "fire_id"
    claim_token ← required_int claim "claim_token"
    invocation_id ← required_str work "invocation_id"
    trigger_id ← required_str work "trigger_id"
    agent_id ← required_str work "agent_id"
    agent_version ← required_int work "agent_version"
    session_id ← required_str work "session_id"
    root_event_id ← required_str work "root_event_id"
    ok (record {
      fire_id = fire_id;
      claim_token = claim_token;
      invocation_id = invocation_id;
      trigger_id = trigger_id;
      agent_id = agent_id;
      agent_version = agent_version;
      session_id = session_id;
      root_event_id = root_event_id;
      payload = or_empty (object_field work "payload");
      binding = object_field work "message_binding";
      claim_until = as_text (get "claim_until" claim);
    })

  claimed_object : Fields F → Json F → Result ClaimError (ClaimedWork F)
  unfolding claimed_fields
  claimed_object claim (object work) = claimed_fields claim work
  claimed_object claim _ = err no_hand_over

  -- `_claimed_work`
  unfoldable pub claimed_work : Json F → Result ClaimError (ClaimedWork F)
  unfolding claimed_object get
  claimed_work (object claim) = claimed_object claim (get "work" claim)
  claimed_work _ = err not_an_object

  -- The list that `WorkClaimer.claim` makes of the entries: the first error ends it.
  pub claimed_all : Items F → Result ClaimError (List (ClaimedWork F))
  unfolding claimed_work
  claimed_all no_items = ok []
  claimed_all (item entry entries) = do
    work ← claimed_work entry
    rest ← claimed_all entries
    ok (work ∷ rest)

  abbrev entries_of : Json F → Items F
  entries_of (array entries) = entries
  entries_of _ = no_items

  -- `float(poll_after)`, where the value is a number, a truth value included; an integer that no
  -- float can hold raises.
  wait_of : (ℤ → Option F) → F → Json F → Option F
  wait_of float idle (whole n) = float n
  wait_of float idle (real x) = some x
  wait_of float idle (boolean true) = float (pos 1)
  wait_of float idle (boolean false) = float (pos 0)
  wait_of float idle _ = some idle

  -- What the binding's templates are: only a template binding with a list of messages has some.
  abbrev array_of : Json F → Items F
  array_of (array templates) = templates
  array_of _ = no_items

  abbrev is_text : String → Json F → Bool
  is_text name (text t) = t == name
  is_text name _ = false

  templates_of : Option (Fields F) → Items F
  unfolding get
  templates_of none = no_items
  templates_of (some binding) =
      if is_text "template" (get "kind" binding)
      then array_of (get "messages" binding)
      else no_items

  module _ (dumps : Fields F → String) (str : Json F → String)
      (render_event_template : String → Fields F → String) where
    rendered : Fields F → Items F → List String
    rendered payload no_items = []
    rendered payload (item template templates) =
        render_event_template (str template) payload ∷ rendered payload templates

    -- `ClaimedWork.messages`: without a template, the event itself.
    pub messages : ClaimedWork F → List String
    unfolding templates_of rendered
    messages work = elim (templates_of work.binding) [
      | no_items ↦ dumps work.payload ∷ []
      | item template templates ↦ rendered work.payload (item template templates)
    ]
