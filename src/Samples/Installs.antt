-- ===== src/Samples/Installs.antt =====
-- The properties of the workflows that a client installs, at one that the server lists anew in another
-- revision.
use nitejaguar.Base.{true, some, [], ◌∷◌, String, ◌≡◌}
use nitejaguar.Runner.Listed.{revision_of, sync_assignments-last_revision}
use nitejaguar.Runner.Sync.{ClientWorkflow, Managed, Installed, lookup, sync_assignments}
use nitejaguar.Samples.Engine.{node_for}
use nitejaguar.Samples.Polls.{runner}

abbrev revision : String → ClientWorkflow
revision r = record { id = "w"; revision = r; nodes = ("n1", node_for "n1" "a" (some [])) ∷ [] }

abbrev old : String → Managed
old id = record { workflow_id = id; revision = "1"; actions = []; triggers = []; meta = [] }

abbrev installed : Installed
installed = record {
  runner = runner;
  active = ("w", old "w") ∷ ("gone", old "gone") ∷ [];
  retired = [];
  stopped = [];
}

sync_assignments-last_revision_example :
    revision_of (lookup "w" (sync_assignments (λ id n. true) (revision "2" ∷ []) installed).active)
    ≡ some "2"
sync_assignments-last_revision_example =
    sync_assignments-last_revision (λ id n. true) (revision "2" ∷ []) installed "w"
