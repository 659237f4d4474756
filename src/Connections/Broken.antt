-- ===== src/Connections/Broken.antt =====
-- Broadcast of internal/ConnectionManager/connection_manager.go on a map some of whose connections
-- are broken.
use mathlib.Core.List.{map-append}
use dsc_zookeeper.Prelude.{
  Str, str_eq, str_beq_iff, Bytes, List, [], ◌∷◌, ◌++◌, append_assoc, append-nil, map, length, Bool,
  Bool-cases, true, false, ◌==◌, ◌&&◌, ◌||◌, if◌then◌else◌, Option, none, some, lookup, ◌≡◌, refl,
  sym, ap, subst, ◌∙◌, inl, inr, All,
}
use dsc_zookeeper.Proposals.Types.{NetworkMessage, NetMessageType}
use dsc_zookeeper.Connections.{
  Conn, NamedConnection, Network, SafeConnectionMap, Env, load, send_message, custom_broadcast,
  broadcast,
}
use dsc_zookeeper.Connections.Removals.{
  is_among, is_among-append, remotes, removals, removals-all, is_broken,
}

or_true : (b : Bool) → (b || true) ≡ true
or_true true = refl
or_true false = refl

and_false : (b : Bool) → false ≡ (b && false)
and_false true = refl
and_false false = refl

or_false-and_true : (b : Bool) → (b || false) ≡ (b && true)
or_false-and_true true = refl
or_false-and_true false = refl

or-and : (a b c : Bool) → ((a && c) || (b && c)) ≡ ((a || b) && c)
or-and true true true = refl
or-and true true false = refl
or-and true false true = refl
or-and true false false = refl
or-and false b c = refl

abbrev keys : SafeConnectionMap → List Str
keys m = map (λ (p : Str × Conn). p.0) m

-- The nodes of a map have a connection in it, and the others have none.
keys-there :
    (m : SafeConnectionMap) (d : Str)
    → is_among d (keys m) ≡ true
    → (c : Conn) × (load d m ≡ some c)
unfolding load is_among lookup
keys-there [] d h = absurd (cc)
keys-there ((name, c) ∷ m) d h = elim (Bool-cases (name == d)) [
  | inl same ↦ rw same (c, refl)
  | inr different ↦ rw different (keys-there m d (rw different at h))
]

keys-away : (m : SafeConnectionMap) (d : Str) → is_among d (keys m) ≡ false → load d m ≡ none
unfolding load is_among lookup
keys-away [] d h = refl
keys-away ((name, c) ∷ m) d h = elim (Bool-cases (name == d)) [
  | inl same ↦ absurd (cc)
  | inr different ↦ rw different (keys-away m d (rw different at h))
]

module _ (env : Env) where
  -- What a broadcast leaves for removeConnectionManager, beside the lines it has written.
  abbrev refused : Str → Option Conn → List NamedConnection
  refused name none = []
  refused name (some c) =
      if env.accepts c then [] else record { remote = name; connection = c } ∷ []

  abbrev refusal : Str → SafeConnectionMap → List NamedConnection
  refusal name m = if name == env.name then [] else refused name (load name m)

  abbrev refusals : List Str → SafeConnectionMap → List NamedConnection
  refusals [] m = []
  refusals (name ∷ dests) m = refusal name m ++ refusals dests m

  -- A state after some sends.
  pub record IsAfter (chan : List NamedConnection) (s t : Network) : Type 0 where
    pub write_map : t.write_map ≡ s.write_map
    pub failed_sends : t.failed_sends ≡ s.failed_sends
    pub remove_write_chan : t.remove_write_chan ≡ s.remove_write_chan ++ chan

  stays-IsAfter : (s : Network) → IsAfter [] s s
  stays-IsAfter s = record {
    write_map = refl;
    failed_sends = refl;
    remove_write_chan = sym (append-nil s.remove_write_chan);
  }

  send_message-IsAfter :
      (to_send : NetworkMessage) (c : Conn) (s : Network)
      → load to_send.remote s.write_map ≡ some c
      → IsAfter (refused to_send.remote (some c)) s (send_message env to_send s).0
  unfolding send_message
  send_message-IsAfter to_send c s there = elim (Bool-cases (env.accepts c)) [
    | inl accepts ↦
        rw (there, accepts)
          (record {
            write_map = refl;
            failed_sends = refl;
            remove_write_chan = sym (append-nil s.remove_write_chan);
          })
    | inr refuses ↦
        rw (there, refuses)
          (record { write_map = refl; failed_sends = refl; remove_write_chan = refl })
  ]

  -- Every destination has a connection.
  abbrev Connected : SafeConnectionMap → List Str → Type 0
  Connected m dests = All (λ d. (c : Conn) × (load d m ≡ some c)) dests

  one-IsAfter :
      (name : Str) (line : Bytes) (kind : NetMessageType) (s : Network)
      → (c : Conn) × (load name s.write_map ≡ some c)
      → IsAfter (refusal name s.write_map) s (
          if name == env.name
          then s
          else (send_message env (record { remote = name; msg_type = kind; message = line }) s).0)
  one-IsAfter name line kind s (c, there) = elim (Bool-cases (name == env.name)) [
    | inl own ↦ rw own (stays-IsAfter s)
    | inr other ↦
        rw (other, there)
          (send_message-IsAfter (record { remote = name; msg_type = kind; message = line }) c s
            there)
  ]

  custom_broadcast-IsAfter :
      (dests : List Str) (line : Bytes) (kind : NetMessageType) (s : Network)
      → Connected s.write_map dests
      → IsAfter (refusals dests s.write_map) s (custom_broadcast env dests line kind s)
  unfolding custom_broadcast
  custom_broadcast-IsAfter [] line kind s h = stays-IsAfter s
  custom_broadcast-IsAfter (name ∷ dests) line kind s (h, hs) =
      let t =
        if name == env.name
        then s
        else (send_message env (record { remote = name; msg_type = kind; message = line }) s).0 in
      let one = one-IsAfter name line kind s h in
      let rest =
        custom_broadcast-IsAfter dests line kind t
          (subst (λ m. Connected m dests) (sym one.write_map) hs) in
      record {
        write_map = rest.write_map ∙ one.write_map;
        failed_sends = rest.failed_sends ∙ one.failed_sends;
        remove_write_chan =
            rest.remove_write_chan
            ∙ ap (λ (xs : List NamedConnection). xs ++ refusals dests t.write_map)
                one.remove_write_chan
            ∙ append_assoc s.remove_write_chan (refusal name s.write_map)
                (refusals dests t.write_map)
            ∙ ap
                (λ (m : SafeConnectionMap).
                  s.remove_write_chan ++ (refusal name s.write_map ++ refusals dests m))
                one.write_map;
      }

  refused-among :
      (name other : Str) (o : Option Conn)
      → is_among other (remotes (refused name o)) ≡ ((name == other) && is_broken env o)
  unfolding is_among
  refused-among name other none = and_false (name == other)
  refused-among name other (some c) = elim (Bool-cases (env.accepts c)) [
    | inl accepts ↦ rw accepts (and_false (name == other))
    | inr refuses ↦ rw refuses (or_false-and_true (name == other))
  ]

  refusal-among :
      (name other : Str) (m : SafeConnectionMap)
      → (other == env.name) ≡ false
      → is_among other (remotes (refusal name m))
        ≡ ((name == other) && is_broken env (load other m))
  unfolding is_among
  refusal-among name other m apart = elim (Bool-cases (name == other)) [
    | inl same ↦
        let at = (str_beq_iff name other).0 same in
        let own : (name == env.name) ≡ false = ap (λ (d : Str). d == env.name) at ∙ apart in
        let here : is_among other (remotes (refusal name m))
            ≡ ((name == other) && is_broken env (load name m)) =
          rw own (refused-among name other (load name m)) in
        here ∙ ap (λ (d : Str). (name == other) && is_broken env (load d m)) at
    | inr different ↦ elim (Bool-cases (name == env.name)) [
      | inl own ↦ rw (own, different) refl
      | inr away ↦ rw (away, different) (refused-among name other (load name m) ∙ rw different refl)
    ]
  ]

  refusals-among :
      (dests : List Str) (other : Str) (m : SafeConnectionMap)
      → (other == env.name) ≡ false
      → is_among other (remotes (refusals dests m))
        ≡ (is_among other dests && is_broken env (load other m))
  unfolding is_among
  refusals-among [] other m apart = refl
  refusals-among (name ∷ dests) other m apart =
      ap (is_among other)
        (map-append (λ (n : NamedConnection). n.remote) (refusal name m) (refusals dests m))
      ∙ is_among-append other (remotes (refusal name m)) (remotes (refusals dests m))
      ∙ ap (λ (b : Bool). b || is_among other (remotes (refusals dests m)))
          (refusal-among name other m apart)
      ∙ ap (λ (b : Bool). ((name == other) && is_broken env (load other m)) || b)
          (refusals-among dests other m apart)
      ∙ or-and (name == other) (is_among other dests) (is_broken env (load other m))

  connected :
      (m : SafeConnectionMap) (dests : List Str)
      → ((d : Str) → is_among d dests ≡ true → is_among d (keys m) ≡ true)
      → Connected m dests
  unfolding is_among
  connected m [] h = tt
  connected m (name ∷ dests) h =
      let own : (name == name) ≡ true = (str_beq_iff name name).1 refl in
      (
        keys-there m name (h name (rw own refl)),
        connected m dests (λ d there. h d (rw there (or_true (name == d)))),
      )

  keys-among :
      (m : SafeConnectionMap) (other : Str)
      → (is_among other (keys m) && is_broken env (load other m)) ≡ is_broken env (load other m)
  keys-among m other = elim (Bool-cases (is_among other (keys m))) [
    | inl there ↦ rw there refl
    | inr away ↦ rw (away, keys-away m other away) refl
  ]

  -- If Broadcast runs while no removal is waiting, and removeConnectionManager then runs until
  -- its channel is empty, any node but this one is among the nodes that are newly reported as
  -- failed exactly if it has a connection on which a write fails; then it has no connection in
  -- the map afterwards, and otherwise its entry is as it was.
  pub broadcast-broken :
      (line : Bytes) (kind : NetMessageType) (s : Network) (other : Str)
      → s.remove_write_chan ≡ []
      → (other == env.name) ≡ false
      → let sent = broadcast env line kind s in
        let t = removals env (length sent.remove_write_chan) sent in
        let broken = is_broken env (load other s.write_map) in
        (failed : List Str) × (t.failed_sends ≡ s.failed_sends ++ failed)
        × (is_among other failed ≡ broken)
        × (load other t.write_map ≡ (if broken then none else load other s.write_map))
        × (t.remove_write_chan ≡ [])
  unfolding broadcast
  broadcast-broken line kind s other empty apart =
      let sent = broadcast env line kind s in
      let m = s.write_map in
      let after = custom_broadcast-IsAfter (keys m) line kind s (connected m (keys m) (λ d h. h)) in
      let chan : sent.remove_write_chan ≡ refusals (keys m) m =
        after.remove_write_chan
        ∙ ap (λ (xs : List NamedConnection). xs ++ refusals (keys m) m) empty in
      let (left, reported, none_left) = removals-all env sent.remove_write_chan sent other refl in
      let among : is_among other (remotes sent.remove_write_chan) ≡ is_broken env (load other m) =
        ap (λ (xs : List NamedConnection). is_among other (remotes xs)) chan
        ∙ refusals-among (keys m) other m apart
        ∙ keys-among m other in
      (
        remotes sent.remove_write_chan,
        reported ∙ ap (λ (xs : List Str). xs ++ remotes sent.remove_write_chan) after.failed_sends,
        among,
        left
            ∙ ap
                (λ (x : SafeConnectionMap).
                  if is_among other (remotes sent.remove_write_chan) then none else load other x)
                after.write_map
            ∙ ap (λ (b : Bool). if b then none else load other m) among,
        none_left,
      )
