-- ===== src/Samples/Restarts.antt =====
-- The properties of a client that restarts with a saved identity.
use nitejaguar.Runner.Identity.{
  State, Config, restore_identity, restore_saved, is_drift, IsRestored, restore_identity-IsRestored,
}

abbrev saved : State
saved = record { client_id = "a"; token = "ka"; server = "http://s"; name = "n" }

abbrev given : Config
given = record { server = "http://s"; name = "n"; client_id = ""; token = "" }

restore_identity-IsRestored_example :
    IsRestored given (record given { client_id = "a"; token = "ka" }) saved
unfolding restore_identity restore_saved is_drift
restore_identity-IsRestored_example = restore_identity-IsRestored given saved
