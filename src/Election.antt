-- ===== src/Election.antt =====
-- internal/election/election.go: the election of a coordinator by messages around a ring.
pub mod Order
pub mod Rotation
pub mod Winner
use dsc_zookeeper.Prelude.{
  ℕ, suc, ◌+◌, ◌/◌, Str, str_eq, nat_eq, Bytes, List, [], ◌∷◌, ◌++◌, Bool, true, false, ◌&&◌, ◌||◌,
  not, ◌==◌, ltb, leb, if◌then◌else◌, Option, none, some, ◌>>=◌, ◌>>◌, length, codes, Codec,
}
use dsc_zookeeper.Election.Order.{str_ltb}

pub data MessageType : Type 0 where
  discovery announcement new_ring heartbeat ring_discover : MessageType
  unknown : ℕ → MessageType

pub record MessageWrapper : Type 0 where
  pub message_type : MessageType
  pub source : Str
  pub visited_nodes : List Str
  pub zxid_list : List ℕ
  pub payload : List Str

-- The node's name and test mode, the servers of its configuration, its latest zxid, JSON, and the
-- servers to which SendMessage succeeds.
pub record Env : Type 0 where
  pub name : Str
  pub test_mode : Str
  pub servers : List Str
  pub latest_zxid : ℕ
  pub codec : Codec MessageWrapper
  pub reachable : Str → Bool

-- The package variables, and the ELECTION messages that were sent. A goroutine that the package
-- starts only sends, and its messages are taken as sent at once.
pub record Ring : Type 0 where
  pub addresses : List Str
  pub coordinator : Str
  pub ring_discover_initiator : Bool
  pub sent : List (Str × Bytes)

-- What stands before the first `id` in a ring and what stands behind it: slices.Index with the two
-- slices that the index is used for.
unfoldable pub split_at : List Str → Str → Option (List Str × List Str)
split_at [] id = none
split_at (x ∷ xs) id =
    let found = split_at xs id in
    if x == id then some ([], xs) else (do parts ← found; some (x ∷ parts.0, parts.1))

unfoldable pub reorder_ring : List Str → Str → List Str
reorder_ring ring id = elim (split_at ring id) [
  | none ↦ ring
  | some (before, after) ↦ after ++ before
]

unfoldable pub contains : List Str → Str → Bool
contains [] id = false
contains (x ∷ xs) id = x == id || contains xs id

-- numArray[i] and charArray[i] against those at maxIndex
abbrev pub is_better : ℕ × Str → ℕ × Str → Bool
is_better a b = ltb b.0 a.0 || (a.0 == b.0 && str_ltb b.1 a.1)

-- The loop, with the entries at maxIndex in place of the index.
unfoldable pub max_entry : ℕ × Str → List ℕ → List Str → Str
max_entry top [] chars = top.1
max_entry top (n ∷ nums) [] = top.1
max_entry top (n ∷ nums) (c ∷ chars) =
    max_entry (if is_better (n, c) top then (n, c) else top) nums chars

-- `none` is the panic.
unfoldable pub get_corresponding_value : List ℕ → List Str → Option Str
get_corresponding_value [] chars = none
get_corresponding_value (n ∷ nums) [] = none
get_corresponding_value (n ∷ nums) (c ∷ chars) =
    if length nums == length chars then some (max_entry (n, c) nums chars) else none

-- slices.Max, which panics on an empty slice.
unfoldable pub max_from : Str → List Str → Str
max_from top [] = top
max_from top (x ∷ xs) = max_from (if str_ltb top x then x else top) xs

unfoldable pub slices_max : List Str → Option Str
slices_max [] = none
slices_max (x ∷ xs) = some (max_from x xs)

module _ (env : Env) where
  -- The message goes to the first node of the ring that can be reached.
  unfoldable pub dispatch_message : List Str → MessageWrapper → Ring → Ring
  dispatch_message [] msg s = s
  dispatch_message (target ∷ ring) msg s =
      let next = dispatch_message ring msg s in
      if env.reachable target
      then record s { sent = s.sent ++ (target, env.codec.marshal msg) ∷ [] }
      else next

  unfoldable pub start_ring_message : List Str → List Str → MessageType → Ring → Ring
  start_ring_message ring content message_type s =
      dispatch_message ring
        (record {
          message_type = message_type;
          source = env.name;
          visited_nodes = env.name ∷ [];
          zxid_list = env.latest_zxid ∷ [];
          payload = content;
        })
        s

  -- The message with this node added to those it has visited.
  abbrev pub visit : MessageWrapper → MessageWrapper
  visit msg = record msg {
    visited_nodes = msg.visited_nodes ++ env.name ∷ [];
    zxid_list = msg.zxid_list ++ env.latest_zxid ∷ [];
    source = env.name;
  }

  unfoldable pub pass_message_down_ring : List Str → MessageWrapper → Ring → Ring × Bool
  pass_message_down_ring ring msg s =
      if contains msg.visited_nodes env.name
      then (s, true)
      else (dispatch_message ring (visit msg) s, false)

  unfoldable pub complete_discovery : MessageWrapper → Ring → Option Ring
  complete_discovery msg s =
      if leb (length s.addresses / 2 + 1) (length msg.visited_nodes)
      then (do
        elected ← get_corresponding_value msg.zxid_list msg.visited_nodes
        some (
            start_ring_message (reorder_ring msg.visited_nodes env.name) (elected ∷ []) announcement
              s))
      else some s

  unfoldable pub handle_discovery_message : List Str → MessageWrapper → Ring → Option Ring
  handle_discovery_message ring msg s =
      let (s', is_complete) = pass_message_down_ring ring msg s in
      if is_complete then complete_discovery msg s' else some s'

  unfoldable pub handle_ring_discover : List Str → MessageWrapper → Ring → Ring
  handle_ring_discover ring msg s =
      let (s', is_complete) = pass_message_down_ring ring msg s in
      if is_complete
      then start_ring_message (reorder_ring msg.visited_nodes env.name) msg.visited_nodes new_ring
          s'
      else s'

  unfoldable pub handle_announcement_message :
      List Str → MessageWrapper → Ring → Option (Ring × Str)
  handle_announcement_message ring msg s = do
    let (s', is_complete) = pass_message_down_ring ring msg s
    let s'' = if is_complete then start_ring_message ring msg.visited_nodes new_ring s' else s'
    newest ← slices_max msg.payload
    some (s'', newest)

  unfoldable pub handle_new_ring_message : List Str → MessageWrapper → Ring → Ring
  handle_new_ring_message ring msg s = (pass_message_down_ring ring msg s).0

  unfoldable pub initiate_election_discovery : Ring → Ring
  initiate_election_discovery s =
      start_ring_message (reorder_ring s.addresses env.name) [] discovery s

  unfoldable pub initiate_ring_entry : Ring → Ring
  initiate_ring_entry s =
      let s' = record s { ring_discover_initiator = true; addresses = env.servers } in
      start_ring_message (reorder_ring s'.addresses env.name) [] ring_discover s'

  -- The handler of a NewRing, from the new addresses on.
  unfoldable pub enter_ring : MessageWrapper → Ring → Ring × Bool
  enter_ring msg s =
      let s' = handle_new_ring_message (reorder_ring s.addresses env.name) msg s in
      if s'.ring_discover_initiator
      then (initiate_election_discovery (record s' { ring_discover_initiator = false }), true)
      else (s', false)

  -- `none` is a panic; the flag says that an election goes on.
  unfoldable pub by_type : MessageType → MessageWrapper → Ring → Option (Ring × Bool)
  by_type discovery msg s = do
    s' ← handle_discovery_message (reorder_ring s.addresses env.name) msg s
    (if env.test_mode == codes "mode2" && env.name == codes "server1"
        then none
        else some (s', true))
  by_type announcement msg s = do
    done ← handle_announcement_message (reorder_ring s.addresses env.name) msg s
    some (record (done.0) { coordinator = done.1 }, true)
  by_type new_ring msg s = some (enter_ring msg (record s { addresses = msg.payload }))
  by_type ring_discover msg s =
      some (handle_ring_discover (reorder_ring s.addresses env.name) msg s, false)
  by_type heartbeat msg s = some (s, false)
  by_type (unknown k) msg s = some (s, false)

  unfoldable pub handle_message : MessageWrapper → Ring → Option (Ring × Bool)
  handle_message msg s = by_type msg.message_type msg s

  -- The package variables after `ElectionInit`.
  unfoldable pub election_init : Ring
  election_init = record {
    addresses = env.servers;
    coordinator = [];
    ring_discover_initiator = false;
    sent = [];
  }
