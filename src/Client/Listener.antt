-- ===== src/Client/Listener.antt =====
-- The listener of main/client.go.
use dsc_zookeeper.Prelude.{
  Str, str_eq, nat_eq, Bytes, List, [], ◌∷◌, ◌++◌, Bool, true, false, ◌==◌, if◌then◌else◌, Option,
  none, some, ◌>>=◌, lookup, insert, codes,
}
use dsc_zookeeper.Prelude.Int.{ℤ, pos}
use dsc_zookeeper.Server.State.{
  Object, Value, Decoded, object, no_object, malformed, text, number, znode, field, get_text,
  as_number, as_flag, reply,
}
use dsc_zookeeper.Server.Commands.{itoa_int}
use dsc_zookeeper.Server.Committed.{is_kind}
use dsc_zookeeper.Client.State.{Env, Client, send}

-- The first segment of a path.
unfoldable pub top_level : Str → Str
top_level [] = []
top_level (c ∷ path) = let rest = top_level path in if c == b'/' then [] else c ∷ rest

-- A missing entry of a Go map of numbers is read as 0.
abbrev or_zero : Option ℤ → ℤ
or_zero none = pos 0
or_zero (some n) = n

module _ (env : Env) where
  abbrev pub get_subscription : Str → ℤ → Client → Object
  get_subscription topic n s = reply (codes "GET_SUBSCRIPTION") (
      (codes "topic", text topic)
      ∷ (codes "nextMsg", number n)
      ∷ (codes "session_id", text s.session_id)
      ∷ [])

  abbrev asked : Option ℤ → Str → Client → Client
  asked none topic s = s
  asked (some n) topic s = send env (get_subscription topic n s) s

  unfoldable pub watch_trigger : Object → Client → Option Client
  watch_trigger obj s = do
    path ← get_text obj (codes "path")
    some (asked (lookup (top_level path) s.topic_msg_map) (top_level path) s)

  unfoldable pub subscribe_ok : Object → Client → Option Client
  subscribe_ok obj s = do
    topic ← get_text obj (codes "topic")
    n ← as_number (field obj (codes "nextMsg"))
    some (record s { topic_msg_map = insert topic n s.topic_msg_map })

  -- The watch that a client sets on the next message.
  abbrev pub watch_next : Str → ℤ → Object
  watch_next topic n = reply (codes "EXISTS") (
      (codes "path", text (topic ++ codes "/msg_" ++ itoa_int n))
      ∷ (codes "watch", text (codes "true"))
      ∷ [])

  unfoldable pub get_subscription_ok : Object → Client → Option Client
  get_subscription_ok obj s = do
    topic ← get_text obj (codes "topic")
    n ← as_number (field obj (codes "nextMsg"))
    some (
        send env (watch_next topic n) (record s { topic_msg_map = insert topic n s.topic_msg_map }))

  unfoldable pub exists_ok : Object → Client → Option Client
  exists_ok obj s = do
    exist ← as_flag (field obj (codes "exists"))
    let s' : Client = record s { exist = exist }
    (if exist
        then (do
          path ← get_text obj (codes "path")
          some (
              send env
                (get_subscription (top_level path)
                  (or_zero (lookup (top_level path) s'.topic_msg_map)) s')
                s'))
        else some s')

  -- The listener returns if there is no znode.
  abbrev with_znode : Value → Client → Option (Client × Bool)
  with_znode (znode (some z)) s = some (s, true)
  with_znode _ s = some (s, false)

  abbrev on : Option Client → Option (Client × Bool)
  on none = none
  on (some s) = some (s, true)

  -- The cases that only print, but for their type assertions.
  abbrev printed : Option Str → Client → Option (Client × Bool)
  printed none s = none
  printed (some t) s = some (s, true)

  unfoldable pub by_kind : Object → Client → Option (Client × Bool)
  by_kind obj s =
      if is_kind obj (codes "START_SESSION_OK")
      then on (do id ← get_text obj (codes "session_id"); some (record s { session_id = id }))
      else if is_kind obj (codes "REESTABLISH_SESSION_REJECT")
      then some (record s { session_id = [] }, true)
      else if is_kind obj (codes "END_SESSION_OK")
      then some (record s { session_id = [] }, true)
      else if is_kind obj (codes "SUBSCRIBE_OK")
      then on (subscribe_ok obj s)
      else if is_kind obj (codes "WATCH_TRIGGER")
      then on (watch_trigger obj s)
      else if is_kind obj (codes "SUBSCRIBED_MESSAGE")
      then printed (do t ← get_text obj (codes "topic"); get_text obj (codes "data")) s
      else if is_kind obj (codes "GET_SUBSCRIPTION_OK")
      then on (get_subscription_ok obj s)
      else if is_kind obj (codes "SETDATA_OK")
      then printed (get_text obj (codes "versions")) s
      else if is_kind obj (codes "EXISTS_OK")
      then on (exists_ok obj s)
      else if is_kind obj (codes "GETDATA_OK")
      then with_znode (field obj (codes "znode")) s
      else some (s, true)

  -- One message; the flag says whether the listener goes on.
  abbrev decoded : Decoded → Client → Option (Client × Bool)
  decoded (object obj) s = by_kind obj s
  decoded no_object s = none
  decoded malformed s = some (s, false)

  unfoldable pub receive : Bytes → Client → Option (Client × Bool)
  receive message s = decoded (env.decode message) s

  -- The listener on the objects that it gets one after the other.
  unfoldable pub listener : List Object → Client → Option (Client × Bool)
  listener [] s = some (s, true)
  listener (obj ∷ objs) s = do
    (s', listening) ← by_kind obj s
    (if listening then listener objs s' else some (s', false))
