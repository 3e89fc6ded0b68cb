-- ===== src/Controls/Capacity.antt =====
-- src/mutiai/services/runtime_controls.py: the Provider's capacity signal.
use muti_ai.Prelude.{
  String, Option, none, some, [], ◌∷◌, ◌++◌, string_eq, option_eq, find?, set_first,
}
use muti_ai.Models.Task.{execution_status_eq}
use muti_ai.Models.Control.{
  RuntimeProviderCapacityRecord, RuntimeCapacity, CapacityStatus, capacity_status_eq,
}
use muti_ai.Database.{Session, Draws}
use muti_ai.Controls.Policies.{capacity_of}

-- `none` is an exception out of the Adapter's `capacity()`.
unfoldable pub read_capacity : Option RuntimeCapacity → RuntimeCapacity
read_capacity (some capacity) = capacity
read_capacity none = record {
  status = CapacityStatus.unknown;
  reason = some "provider_capacity_unavailable";
  resets_at = none;
}

unfoldable pub record_provider_capacity :
    Draws → (owner provider : String) → RuntimeCapacity → Session → Session
record_provider_capacity draws owner provider capacity s =
    elim (find? (capacity_of owner provider) s.capacities) [
      | none ↦
          let row : RuntimeProviderCapacityRecord = record {
            runtime_provider_capacity_id = draws.new_id 0;
            owner_user_id = owner;
            provider = provider;
            status = capacity.status;
            reason = capacity.reason;
            resets_at = capacity.resets_at;
            observed_at = draws.utc_now 0;
          } in
          record s { capacities = s.capacities ++ row ∷ [] }
      | some old ↦
          let row = record old {
            status = capacity.status;
            reason = capacity.reason;
            resets_at = capacity.resets_at;
            observed_at = draws.utc_now 0;
          } in
          record s { capacities = set_first (capacity_of owner provider) row s.capacities }
    ]
