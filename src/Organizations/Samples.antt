-- ===== src/Organizations/Samples.antt =====
-- An organization of three roles (src/mutiai/domain/organization.py), for the examples.
use muti_ai.Prelude.{String, Bool, true, false, Option, none, some, [], ◌∷◌}
use muti_ai.Feasibility.{WorkloadRequirements, CapacityClass}
use muti_ai.Organizations.{AgentRoleSpec, OrganizationSpec}

abbrev requirements : WorkloadRequirements
requirements = record {
  schema_version = "1.0";
  os_families = [];
  requires_gui = false;
  requires_gpu = false;
  min_gpu_memory_mb = none;
  min_cpu_capacity = CapacityClass.light;
  min_memory_mb = none;
  required_tools = [];
  requires_network = false;
  required_external_services = [];
  required_hardware = [];
  required_proprietary_software = [];
  input_media_types = [];
  output_media_types = [];
  estimated_duration_seconds = none;
  estimated_input_size_bytes = none;
  resource_intensive = false;
}

abbrev pub role : (key : String) (is_lead : Bool) (reports_to : Option String) → AgentRoleSpec
role key is_lead reports_to = record {
  role_key = key;
  name = key;
  responsibility = "work";
  is_lead = is_lead;
  reports_to = reports_to;
  runtime_binding_key = "codex";
  capability_requirements = requirements;
}

abbrev pub team : OrganizationSpec
team = record {
  schema_version = "1.0";
  name = "team";
  description = "";
  roles =
      role "tester" false (some "dev")
      ∷ role "dev" false (some "lead")
      ∷ role "lead" true none
      ∷ [];
}
