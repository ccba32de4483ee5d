-- ===== src/Samples.antt =====
-- Concrete inputs for the properties: clients of two tenants and a transfer between two of them.
mod Relays
mod Deliveries
mod Runs
mod Engine
mod Entry
mod Paths
mod Templates
mod Clones
mod Owners
mod Downloads
mod Files
mod Secrets
mod Polls
mod Installs
mod Restarts
use nitejaguar.Base.{
  ℤ, pos, Bool, false, true, Option, none, some, List, [], ◌∷◌, String, Text, codes,
}
use nitejaguar.Registry.{Client, Registry}
use nitejaguar.Relay.{
  Bytes, Status, offered, ready, InitRequest, new_session, Session, Chunk, Store,
}
use nitejaguar.Server.{Server}

-- stand-ins for hashing, digests and base64
abbrev pub same_text : String → String
same_text t = t

abbrev pub same_bytes : Bytes → Text
same_bytes b = b

abbrev pub decoded : Text → Option Bytes
decoded t = some t

abbrev pub client_of : String → String → String → Client
client_of id tenant token = record {
  id = id;
  name = id;
  tenant_id = tenant;
  tags = [];
  token_hash = token;
  revoked = false;
}

abbrev pub sender : Client
sender = client_of "a" "t1" "ka"

abbrev pub stranger : Client
stranger = client_of "c" "t2" "kc"

abbrev pub registry : Registry
registry = record {
  tenants = [];
  clients = sender ∷ client_of "b" "t1" "kb" ∷ stranger ∷ [];
  enrollments = [];
}

abbrev pub two_bytes : Bytes
two_bytes = 97 ∷ 98 ∷ []

abbrev pub request : InitRequest
request = record {
  tenant_id = "t1";
  workflow_id = "w";
  execution_id = "e";
  node_id = "n";
  sender_client_id = "a";
  receiver_client_id = "b";
  receiver_tags = [];
  file_name = codes "f";
  destination_file = codes "/f";
  permissions = [];
  size = pos 2;
  sha256 = two_bytes;
}

abbrev pub offer : Session
offer = record {
  id = "s1";
  tenant_id = "t1";
  workflow_id = "w";
  execution_id = "e";
  node_id = "n";
  sender_client_id = "a";
  receiver_client_id = "b";
  receiver_tags = [];
  file_name = codes "f";
  destination_file = codes "/f";
  permissions = [];
  size = 2;
  sha256 = two_bytes;
  status = offered;
  via_p2p = false;
}

abbrev pub chunk : Chunk
chunk = record { transfer_id = "s1"; seq = 0; bytes = two_bytes }

-- the tables behind the request, and behind its one chunk
abbrev pub opened_store : Store
opened_store = record { sessions = offer ∷ []; chunks = []; signals = [] }

abbrev pub full_store : Store
full_store = record {
  sessions = (record offer { status = ready }) ∷ [];
  chunks = chunk ∷ [];
  signals = [];
}

abbrev pub server_with : Store → Server
server_with relay = record { registry = registry; relay = relay; audit = [] }
