-- ===== src/Contracts.antt =====
-- src/shared/events/schema-validator.ts: the schemas of the events in docs/contracts/schemas. `exists`
-- is `fs.existsSync` on a file of the folder, `compile` reads it and is `ajv.compile`; a compiled schema
-- gives the errors of a payload.
pub mod Outbox
mod Tests
use node_b2b_orders.Base.{
  String, Bool, true, false, Option, none, some, List, [], ◌∷◌, any, str_eq, if◌then◌else◌,
}
use node_b2b_orders.Services.{template}
use node_b2b_orders.Maps.{get, set}

-- `EVENT_TO_SCHEMA_FILE`
abbrev pub event_to_schema_file : List (String × String)
event_to_schema_file =
    ("order.created", "order.created.json")
    ∷ ("order.confirmed", "order.confirmed.json")
    ∷ ("order.shipped", "order.shipped.json")
    ∷ ("order.delivered", "order.delivered.json")
    ∷ ("order.cancelled", "order.cancelled.json")
    ∷ ("payment.charge_requested", "charge_requested.json")
    ∷ ("charge_requested", "charge_requested.json")
    ∷ ("stock.reserved", "inventory.reserved.json")
    ∷ ("inventory.reserved", "inventory.reserved.json")
    ∷ ("inventory.released", "inventory.released.json")
    ∷ []

-- `hasSchema`
unfoldable pub has_schema : String → Bool
has_schema event_type = any (λ e. str_eq e.0 event_type) event_to_schema_file

pub record ValidationResult : Type 0 where
  pub valid : Bool
  pub errors : Option (List String)

module _ {Payload : Type 0} (exists : String → Bool)
    (compile : String → Payload → Option (List String)) where
  -- `loadValidators`, without the reuse of a schema that two events share
  unfoldable pub load_validators :
      List (String × String)
      → List (String × (Payload → Option (List String)))
      → List (String × (Payload → Option (List String)))
  unfolding set
  load_validators [] loaded = loaded
  load_validators ((event_type, file) ∷ rest) loaded =
      load_validators rest (if exists file then set event_type (compile file) loaded else loaded)

  abbrev result_of : Option (List String) → ValidationResult
  result_of none = record { valid = true; errors = none }
  result_of (some errors) = record { valid = false; errors = some errors }

  unfoldable pub validate_event_payload : String → Payload → ValidationResult
  unfolding load_validators get
  validate_event_payload event_type payload =
      elim (get event_type (load_validators event_to_schema_file [])) [
        | none ↦ record {
          valid = false;
          errors = some (template ("Unknown event type: " ∷ event_type ∷ []) ∷ []);
        }
        | some validate ↦ result_of (validate payload)
      ]
