-- ===== src/Examples/Elections.antt =====
-- An election among three servers, one of which is down.
use dsc_zookeeper.Prelude.{
  Str, str_eq, str_beq, List, [], ◌∷◌, true, false, ◌==◌, some, ◌≡◌, refl, arith, codes, Codec,
}
use dsc_zookeeper.Election.{
  Env, Ring, MessageWrapper, discovery, contains, reorder_ring, dispatch_message, handle_message,
}
use dsc_zookeeper.Election.Winner.{Vote, IsIn, IsTop, announce, pass_on, election-winner}

abbrev a : Str
a = codes "a"

abbrev b : Str
b = codes "b"

abbrev c : Str
c = codes "c"

-- A stand-in for JSON that only the messages' bytes depend on.
abbrev codec : Codec MessageWrapper
codec = record {
  marshal = (λ m. m.source);
  unmarshal = (λ bytes. (
    record {
      message_type = discovery;
      source = bytes;
      visited_nodes = [];
      zxid_list = [];
      payload = [];
    },
    true,
  ));
}

abbrev node_a : Env
node_a = record {
  name = a;
  test_mode = [];
  servers = a ∷ b ∷ c ∷ [];
  latest_zxid = 65541;
  codec = codec;
  reachable = (λ x. x == b);
}

abbrev start : Ring
start = record {
  addresses = a ∷ b ∷ c ∷ [];
  coordinator = c;
  ring_discover_initiator = false;
  sent = [];
}

-- The discovery message of `a` that has been at `b`.
abbrev returned : MessageWrapper
returned = record {
  message_type = discovery;
  source = b;
  visited_nodes = a ∷ b ∷ [];
  zxid_list = 65541 ∷ 65542 ∷ [];
  payload = [];
}

election-winner_example :
    (w : Vote) × IsIn w ((65541, a) ∷ (65542, b) ∷ [])
    × IsTop w ((65541, a) ∷ (65542, b) ∷ [])
    × (handle_message node_a returned start
        ≡ some (
          dispatch_message node_a (reorder_ring (a ∷ b ∷ []) a) (announce node_a w.1) start,
          true,
        ))
    × ((es : List Env) (other : Env) (t : Ring)
        → (t' : Ring) × (handle_message other (pass_on es (announce node_a w.1)) t
            ≡ some (t', true))
          × (t'.coordinator ≡ w.1))
unfolding contains str_beq
election-winner_example =
    election-winner node_a returned start (65541, a) ((65542, b) ∷ []) refl refl refl refl
      (omega arith) refl
