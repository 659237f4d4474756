-- ===== src/Election/Winner.antt =====
-- The end of an election in election.go: the choice of the winner and its announcement.
use dsc_zookeeper.Prelude.{
  ℕ, suc, ◌+◌, ◌/◌, ◌≤◌, Str, str_eq, nat_eq, List, [], ◌∷◌, map, true, false, ◌==◌, leb,
  if◌then◌else◌, some, length, All, ◌≡◌, ◌⊎◌, inl, inr, ◌∙◌, refl, ap, arith, codes, Bool-cases,
}
use dsc_zookeeper.Election.Order.{str_ltb_irrefl, str_ltb_asym, str_ltb_chain}
use dsc_zookeeper.Election.{
  Env, Ring, MessageWrapper, discovery, announcement, new_ring, visit, is_better, max_entry,
  get_corresponding_value, contains, reorder_ring, dispatch_message, start_ring_message,
  complete_discovery, handle_discovery_message, pass_message_down_ring, by_type, handle_message,
  handle_announcement_message, slices_max, max_from,
}

abbrev pub IsIn : {A : Type 0} → A → List A → Type 0
IsIn x [] = ⊥
IsIn x (y ∷ ys) = (x ≡ y) ⊎ IsIn x ys

-- A node's zxid with its name.
abbrev pub Vote : Type 0
Vote = ℕ × Str

abbrev pub zxids : List Vote → List ℕ
zxids = map (λ (v : Vote). v.0)

abbrev pub names : List Vote → List Str
names = map (λ (v : Vote). v.1)

is_better_irrefl : (a : Vote) → is_better a a ≡ false
is_better_irrefl a = ground (arith, str_ltb_irrefl a.1)

is_better_asym : (a b : Vote) → is_better a b ≡ true → is_better b a ≡ false
is_better_asym a b h = ground (arith, str_ltb_asym a.1 b.1)

is_better_chain :
    (a b c : Vote) → is_better a b ≡ false → is_better b c ≡ false → is_better a c ≡ false
is_better_chain (n, x) (m, y) (k, z) h e = ground (arith, str_ltb_chain z y x, str_ltb_chain x y z)

-- No vote of a list is better than `w`: none has a later zxid, or the same one and a greater name.
abbrev pub IsTop : Vote → List Vote → Type 0
IsTop w vs = All (λ v. is_better v w ≡ false) vs

-- The loop's result, with what it says of the entry it began with.
max_entry-IsTop :
    (top : Vote) (vs : List Vote)
    → (w : Vote) × (max_entry top (zxids vs) (names vs) ≡ w.1)
      × IsIn w (top ∷ vs)
      × IsTop w (top ∷ vs)
unfolding max_entry
max_entry-IsTop top [] = (top, refl, inl refl, (is_better_irrefl top, tt))
max_entry-IsTop top (v ∷ vs) = elim (Bool-cases (is_better v top)) [
  | inl better ↦
      let (w, result, there, (v_below, rest)) = max_entry-IsTop v vs in
      (
        w,
        rw better result,
        inr there,
        (is_better_chain top v w (is_better_asym v top better) v_below, (v_below, rest)),
      )
  | inr worse ↦
      let (w, result, there, (top_below, rest)) = max_entry-IsTop top vs in
      (
        w,
        rw worse result,
        kept w there,
        (top_below, (is_better_chain v top w worse top_below, rest)),
      )
]
  where
    kept : (w : Vote) → IsIn w (top ∷ vs) → IsIn w (top ∷ v ∷ vs)
    kept w (inl e) = inl e
    kept w (inr i) = inr (inr i)

length-votes : (vs : List Vote) → length (zxids vs) ≡ length (names vs)
length-votes [] = refl
length-votes (v ∷ vs) = ap suc (length-votes vs)

-- Of one vote or more, the name that is chosen is that of one of the votes, and no vote has a
-- later zxid, or the same one and a greater name.
pub get_corresponding_value-IsTop :
    (v : Vote) (vs : List Vote)
    → (w : Vote) × (get_corresponding_value (zxids (v ∷ vs)) (names (v ∷ vs)) ≡ some w.1)
      × IsIn w (v ∷ vs)
      × IsTop w (v ∷ vs)
unfolding get_corresponding_value
get_corresponding_value-IsTop v vs =
    let (w, result, there, top) = max_entry-IsTop v vs in
    let same : (length (zxids vs) == length (names vs)) ≡ true =
      (nat_eq.beq_iff _ _).1 (length-votes vs) in
    (w, rw (same, get_corresponding_value) (rw result refl), there, top)

-- The message that announces a coordinator.
abbrev pub announce : Env → Str → MessageWrapper
announce env w = record {
  message_type = announcement;
  source = env.name;
  visited_nodes = env.name ∷ [];
  zxid_list = env.latest_zxid ∷ [];
  payload = w ∷ [];
}

complete_discovery-announces :
    (env : Env) (msg : MessageWrapper) (s : Ring) (w : Str)
    → length s.addresses / 2 + 1 ≤ length msg.visited_nodes
    → get_corresponding_value msg.zxid_list msg.visited_nodes ≡ some w
    → complete_discovery env msg s
      ≡ some (dispatch_message env (reorder_ring msg.visited_nodes env.name) (announce env w) s)
unfolding complete_discovery start_ring_message
complete_discovery-announces env msg s w majority found =
    let enough : leb (length s.addresses / 2 + 1) (length msg.visited_nodes) ≡ true =
      ground arith in
    rw (enough, complete_discovery) (rw found refl)

complete_discovery-minority :
    (env : Env) (msg : MessageWrapper) (s : Ring)
    → length msg.visited_nodes ≤ length s.addresses / 2
    → complete_discovery env msg s ≡ some s
unfolding complete_discovery
complete_discovery-minority env msg s few =
    let short : leb (length s.addresses / 2 + 1) (length msg.visited_nodes) ≡ false =
      ground arith in
    rw (short, complete_discovery) refl

-- A discovery message that has come around.
handle_message-returned :
    (env : Env) (msg : MessageWrapper) (s s' : Ring)
    → msg.message_type ≡ discovery
    → contains msg.visited_nodes env.name ≡ true
    → (env.test_mode == codes "mode2") ≡ false
    → complete_discovery env msg s ≡ some s'
    → handle_message env msg s ≡ some (s', true)
unfolding handle_message by_type handle_discovery_message pass_message_down_ring complete_discovery
handle_message-returned env msg s s' kind visited no_test done =
    rw (kind, handle_message) (rw (visited, by_type) (rw done (rw no_test refl)))

-- What the announcement leaves before the coordinator is set.
abbrev passed_on : Env → MessageWrapper → Ring → Ring
passed_on env msg t =
    let ring = reorder_ring t.addresses env.name in
    let (t', is_complete) = pass_message_down_ring env ring msg t in
    if is_complete then start_ring_message env ring msg.visited_nodes new_ring t' else t'

announcement-payload :
    (env : Env) (msg : MessageWrapper) (t : Ring) (w : Str)
    → slices_max msg.payload ≡ some w
    → by_type env announcement msg t ≡ some (record (passed_on env msg t) { coordinator = w }, true)
unfolding by_type handle_announcement_message
announcement-payload env msg t w said = rw (said, by_type) refl

slices_max-one : (w : Str) → slices_max (w ∷ []) ≡ some w
unfolding slices_max max_from
slices_max-one w = refl

-- Every node that handles an announcement of `w` has `w` as its coordinator then, wherever the
-- announcement has been.
handle_message-announced :
    (env : Env) (msg : MessageWrapper) (t : Ring) (w : Str)
    → msg.message_type ≡ announcement
    → msg.payload ≡ w ∷ []
    → handle_message env msg t ≡ some (record (passed_on env msg t) { coordinator = w }, true)
unfolding handle_message
handle_message-announced env msg t w kind said =
    ap (λ k. by_type env k msg t) kind
    ∙ announcement-payload env msg t w (ap slices_max said ∙ slices_max-one w)

-- An announcement that nodes passed on, each with itself added to the visited ones.
abbrev pub pass_on : List Env → MessageWrapper → MessageWrapper
pass_on [] msg = msg
pass_on (e ∷ es) msg = pass_on es (visit e msg)

pass_on-announcement :
    (es : List Env) (msg : MessageWrapper) (w : Str)
    → msg.message_type ≡ announcement
    → msg.payload ≡ w ∷ []
    → ((pass_on es msg).message_type ≡ announcement) × ((pass_on es msg).payload ≡ w ∷ [])
pass_on-announcement [] msg w kind said = (kind, said)
pass_on-announcement (e ∷ es) msg w kind said = pass_on-announcement es (visit e msg) w kind said

-- Outside test mode 2, when a discovery message comes back to a node with the votes of a majority
-- of its servers, there is a vote among them that no other beats, by a later zxid or the same one
-- and a greater name, whose name the node announces to the first node of the ring that it
-- reaches; and any node that handles the announcement, whoever has passed it on before, has that
-- name as its coordinator.
pub election-winner :
    (env : Env) (msg : MessageWrapper) (s : Ring) (v : Vote) (vs : List Vote)
    → msg.message_type ≡ discovery
    → msg.zxid_list ≡ zxids (v ∷ vs)
    → msg.visited_nodes ≡ names (v ∷ vs)
    → contains msg.visited_nodes env.name ≡ true
    → length s.addresses / 2 + 1 ≤ length msg.visited_nodes
    → (env.test_mode == codes "mode2") ≡ false
    → (w : Vote) × IsIn w (v ∷ vs)
      × IsTop w (v ∷ vs)
      × (handle_message env msg s
          ≡ some (
            dispatch_message env (reorder_ring msg.visited_nodes env.name) (announce env w.1) s,
            true,
          ))
      × ((es : List Env) (other : Env) (t : Ring)
          → (t' : Ring) × (handle_message other (pass_on es (announce env w.1)) t ≡ some (t', true))
            × (t'.coordinator ≡ w.1))
election-winner env msg s v vs kind zs ns visited majority no_test =
    let (w, found, there, top) = get_corresponding_value-IsTop v vs in
    let found' : get_corresponding_value msg.zxid_list msg.visited_nodes ≡ some w.1 =
      rw (zs, ns) found in
    let done = complete_discovery-announces env msg s w.1 majority found' in
    (
      w,
      there,
      top,
      handle_message-returned env msg s _ kind visited no_test done,
      (λ es other t.
          let kept = pass_on-announcement es (announce env w.1) w.1 refl refl in
          (
            _,
            handle_message-announced other (pass_on es (announce env w.1)) t w.1 kept.0 kept.1,
            refl,
          )),
    )

-- Outside test mode 2, a discovery message that comes back with the votes of at most half of the
-- servers changes nothing and announces nobody.
pub election-minority :
    (env : Env) (msg : MessageWrapper) (s : Ring)
    → msg.message_type ≡ discovery
    → contains msg.visited_nodes env.name ≡ true
    → length msg.visited_nodes ≤ length s.addresses / 2
    → (env.test_mode == codes "mode2") ≡ false
    → handle_message env msg s ≡ some (s, true)
election-minority env msg s kind visited few no_test =
    handle_message-returned env msg s s kind visited no_test
      (complete_discovery-minority env msg s few)
