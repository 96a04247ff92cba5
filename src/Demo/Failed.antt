-- ===== src/Demo/Failed.antt =====
-- What becomes of a creation that is refused: demo/inventory/src/filters/inventory-created-failed.filter.ts and
-- exceptions/duplicate-inventory-name.exception.ts, over the event bus and the in-memory store.
use Prim.Native.String.{◌++◌}
use moirae.Base.{ℕ, String, Option, List, [], ◌∷◌}
use moirae.Base.Dict.{Dict}
use moirae.Failure.{Result}
use moirae.Message.{Message}
use moirae.Publisher.{Wire}
use moirae.Store.{MemoryStore, append_to_stream}
use moirae.Demo.Integers.{ℤ}
use moirae.Demo.Account.{new_event}
use moirae.Demo.Inventory.{InventoryPayload, inventory_data, failed_data, inventory_created_failed}

-- `message` of the exception, for the data of its event.
abbrev pub duplicate_message : InventoryPayload → String
duplicate_message (inventory_data created_at name price quantity) =
    "Cannot set name of " ++ name ++ " for Inventory as it violates a unique constraint"
duplicate_message _ =
    "Cannot set name of undefined for Inventory as it violates a unique constraint"

-- The event that the filter makes of the event of the exception, and the input and the metadata of the
-- command.
abbrev pub failed_event :
    ℕ
    → String
    → Message InventoryPayload
    → String
    → ℤ
    → ℤ
    → Option (Dict String)
    → Message InventoryPayload
failed_event now uuid event name price quantity metadata =
    record (new_event now inventory_created_failed uuid ""
      (failed_data name price quantity (duplicate_message event.payload))) {
        stream_id = event.stream_id;
        metadata = metadata;
      }

module _ {R : Type 0} (wire : Wire InventoryPayload R) where
  -- `publish` of the event bus: `await this.eventSource.appendToStream([event])`
  unfoldable pub publish_event :
      String
      → Message InventoryPayload
      → MemoryStore InventoryPayload R
      → Result (List (Message InventoryPayload)) × MemoryStore InventoryPayload R
  publish_event key event = append_to_stream wire ((key, event) ∷ [])

  -- `InventoryCreatedFailedFilter`
  unfoldable pub catch_duplicate :
      ℕ
      → String
      → String
      → Message InventoryPayload
      → String
      → ℤ
      → ℤ
      → Option (Dict String)
      → MemoryStore InventoryPayload R
      → Result (List (Message InventoryPayload)) × MemoryStore InventoryPayload R
  unfolding publish_event
  catch_duplicate now uuid key event name price quantity metadata =
      publish_event key (failed_event now uuid event name price quantity metadata)
