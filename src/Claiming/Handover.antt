-- ===== src/Claiming/Handover.antt =====
-- The reading of a claim: what a hand-over says is what the work holds.
use maivn.Prelude.{◌≡◌, refl, String, false, Option, none, some, List, [], ◌∷◌, ◌==◌, ok, All}
use maivn.Claiming.{
  Json, null, whole, text, object, Items, no_items, item, Fields, no_fields, field_of, ClaimedWork,
  required_str, required_int, object_field, integer, claimed_fields, claimed_object, claimed_work,
  claimed_all, nonempty, get, as_text, as_object,
}

abbrev text_or_null {ℓ} : {F : Type ℓ} → Option String → Json F
text_or_null none = null
text_or_null (some t) = text t

as_text-text_or_null {ℓ} :
    (F : Type ℓ) (o : Option String) → as_text {F = F} (text_or_null {F = F} o) ≡ o
as_text-text_or_null F none = refl
as_text-text_or_null F (some t) = refl

module _ {ℓ} {F : Type ℓ} where
  abbrev object_or_null : Option (Fields F) → Json F
  object_or_null none = null
  object_or_null (some fields) = object fields

  -- A claim the way the platform writes it.
  abbrev pub entry_of : ClaimedWork F → Json F
  entry_of w = object (
      field_of "fire_id" (text w.fire_id) (
        field_of "claim_token" (whole w.claim_token) (
          field_of "claim_until" (text_or_null w.claim_until) (
            field_of "work"
              (object (
                field_of "invocation_id" (text w.invocation_id) (
                  field_of "trigger_id" (text w.trigger_id) (
                    field_of "agent_id" (text w.agent_id) (
                      field_of "agent_version" (whole w.agent_version) (
                        field_of "session_id" (text w.session_id) (
                          field_of "root_event_id" (text w.root_event_id) (
                            field_of "payload" (object w.payload) (
                              field_of "message_binding" (object_or_null w.binding)
                                no_fields)))))))))
              no_fields))))

  abbrev pub entries_from : List (ClaimedWork F) → Items F
  entries_from [] = no_items
  entries_from (w ∷ works) = item (entry_of w) (entries_from works)

  -- Each of the texts that name something names something.
  abbrev pub Named : ClaimedWork F → Type 0
  Named w =
      ((w.fire_id == "") ≡ false)
      × ((w.invocation_id == "") ≡ false)
      × ((w.trigger_id == "") ≡ false)
      × ((w.agent_id == "") ≡ false)
      × ((w.session_id == "") ≡ false)
      × ((w.root_event_id == "") ≡ false)

  as_object-object_or_null : (o : Option (Fields F)) → as_object (object_or_null o) ≡ o
  as_object-object_or_null none = refl
  as_object-object_or_null (some o) = refl

  claimed_work-entry_of : (w : ClaimedWork F) → Named w → claimed_work (entry_of w) ≡ ok w
  unfolding claimed_work claimed_object claimed_fields required_str required_int object_field
      nonempty integer get
  claimed_work-entry_of w n =
      rw
        (
          claimed_fields,
          required_str,
          n.0,
          n.1,
          n.2,
          n.3,
          n.4,
          n.5,
          as_text-text_or_null F w.claim_until,
          as_object-object_or_null w.binding,
        )
        refl

  -- Claims that name everything are read back as they were written, in order.
  pub claimed_all-entries_from :
      (works : List (ClaimedWork F)) → All Named works → claimed_all (entries_from works) ≡ ok works
  unfolding claimed_all
  claimed_all-entries_from [] h = refl
  claimed_all-entries_from (w ∷ works) h =
      rw (claimed_all, claimed_work-entry_of w h.0, claimed_all-entries_from works h.1) refl
