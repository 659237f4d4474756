-- ===== src/Client/Commands.antt =====
-- The commands of ClientMain in main/client.go, on the words of a line.
use dsc_zookeeper.Prelude.{
  ℕ, zero, suc, ◌+◌, Str, str_eq, nat_eq, List, [], ◌∷◌, ◌++◌, Bool, ◌==◌, ◌||◌, ◌&&◌, leb,
  if◌then◌else◌, Option, none, some, codes,
}
use dsc_zookeeper.Prelude.Int.{ℤ, pos, negsuc}
use dsc_zookeeper.Prelude.Decimal.{itoa, atoi}
use dsc_zookeeper.Server.State.{Object, text, reply}
use dsc_zookeeper.Client.State.{Env, Client, send, find_live_server}

-- unicode.IsSpace
abbrev is_space : ℕ → Bool
is_space c =
    leb 9 c && leb c 13
    || c == 32
    || c == 133
    || c == 160
    || c == 5760
    || leb 8192 c && leb c 8202
    || c == 8232
    || c == 8233
    || c == 8239
    || c == 8287
    || c == 12288

unfoldable pub trim_left : Str → Str
trim_left [] = []
trim_left (c ∷ s) = if is_space c then trim_left s else c ∷ s

-- A trailing space is one with nothing but spaces behind it.
unfoldable pub trim_right : Str → Str
trim_right [] = []
trim_right (c ∷ s) =
    let rest = trim_right s in if rest == [] then (if is_space c then [] else c ∷ []) else c ∷ rest

-- strings.TrimSpace
unfoldable pub trim_space : Str → Str
trim_space s = trim_right (trim_left s)

-- strings.Split(s, " "), from the word so far.
unfoldable pub split_words : Str → Str → List Str
split_words word [] = word ∷ []
split_words word (c ∷ s) =
    if c == 32 then word ∷ split_words [] s else split_words (word ++ c ∷ []) s

module _ (env : Env) where
  abbrev with_session : Object → Client → Object
  with_session fields s = (codes "session_id", text s.session_id) ∷ fields

  -- A message with its fields, if there is a server.
  abbrev pub connected : (Client → Client) → Client → Client
  connected f s = if s.connected_server == [] then s else f s

  unfoldable pub publish : List Str → Client → Client
  publish (topic ∷ content ∷ []) s =
      send env
        (reply (codes "PUBLISH") (
          with_session
            ((codes "topic", text (trim_space topic))
              ∷ (codes "data", text (trim_space content))
              ∷ [])
            s))
        s
  publish _ s = s

  unfoldable pub subscribe : List Str → Client → Client
  subscribe (topic ∷ []) s =
      send env
        (reply (codes "SUBSCRIBE") (with_session ((codes "topic", text (trim_space topic)) ∷ []) s))
        s
  subscribe _ s = s

  -- A rate of 0 is a division by zero, and the pause of a negative rate is none.
  abbrev with_rate : Option ℤ → Str → Client → Option Client
  with_rate none topic s = some s
  with_rate (some (pos zero)) topic s = none
  with_rate (some (pos (suc n))) topic s = some (record s { spams = s.spams ++ (topic, 0) ∷ [] })
  with_rate (some (negsuc n)) topic s = some (record s { spams = s.spams ++ (topic, 0) ∷ [] })

  unfoldable pub spam : List Str → Client → Option Client
  spam (topic ∷ rate ∷ []) s = with_rate (atoi (trim_space rate)) (trim_space topic) s
  spam _ s = some s

  -- One round of the goroutine of a spam command that is the first of the list.
  unfoldable pub spam_next : List (Str × ℕ) → Client → Client
  spam_next [] s = s
  spam_next ((topic, x) ∷ spams) s =
      send env
        (reply (codes "PUBLISH") (
          with_session
            ((codes "topic", text topic) ∷ (codes "data", text (codes "message " ++ itoa x)) ∷ [])
            s))
        (record s { spams = spams ++ (topic, x + 1) ∷ [] })

  unfoldable pub create : List Str → Client → Client
  create (path ∷ content ∷ ephemeral ∷ sequential ∷ []) s =
      send env
        (reply (codes "CREATE") (
          with_session
            ((codes "path", text (trim_space path))
              ∷ (codes "data", text (trim_space content))
              ∷ (codes "ephemeral", text (trim_space ephemeral))
              ∷ (codes "sequential", text (trim_space sequential))
              ∷ [])
            s))
        s
  create _ s = s

  -- The version is sent as it was typed.
  abbrev pub delete_message : Str → Str → Client → Object
  delete_message path version s = reply (codes "DELETE") (
      with_session
        ((codes "path", text (trim_space path)) ∷ (codes "version", text (trim_space version)) ∷ [])
        s)

  unfoldable pub delete_path : List Str → Client → Client
  delete_path (path ∷ version ∷ []) s = send env (delete_message path version s) s
  delete_path _ s = s

  abbrev pub setdata_message : Str → Str → Str → Object
  setdata_message path content version = reply (codes "SETDATA") (
      (codes "path", text (trim_space path))
      ∷ (codes "data", text (trim_space content))
      ∷ (codes "version", text (trim_space version))
      ∷ [])

  unfoldable pub setdata : List Str → Client → Client
  setdata (path ∷ content ∷ version ∷ []) s = send env (setdata_message path content version) s
  setdata _ s = s

  -- GETCHILDREN, EXISTS and GETDATA
  unfoldable pub read : Str → List Str → Client → Client
  read kind (path ∷ watch ∷ []) s =
      send env
        (reply kind
          ((codes "path", text (trim_space path)) ∷ (codes "watch", text (trim_space watch)) ∷ []))
        s
  read kind _ s = s

  abbrev bare : Str → Client → Client
  bare kind s = send env (reply kind (with_session [] s)) s

  unfoldable pub by_word : Str → List Str → Client → Option Client
  by_word word rest s =
      if word == codes "startsession"
      then some (find_live_server env s).0
      else if word == codes "endsession"
      then some (connected (bare (codes "END_SESSION")) s)
      else if word == codes "publish"
      then some (connected (publish rest) s)
      else if word == codes "subscribe"
      then some (connected (subscribe rest) s)
      else if word == codes "spam"
      then (if s.connected_server == [] then some s else spam rest s)
      else if word == codes "sync"
      then some (connected (bare (codes "SYNC")) s)
      else if word == codes "create"
      then some (connected (create rest) s)
      else if word == codes "delete"
      then some (connected (delete_path rest) s)
      else if word == codes "setdata"
      then some (connected (setdata rest) s)
      else if word == codes "getchildren"
      then some (connected (read (codes "GETCHILDREN") rest) s)
      else if word == codes "exists"
      then some (connected (read (codes "EXISTS") rest) s)
      else if word == codes "getdata"
      then some (connected (read (codes "GETDATA") rest) s)
      else some s

  abbrev of_words : List Str → Client → Option Client
  of_words [] s = some s
  of_words (word ∷ rest) s = by_word word rest s

  -- One line of input; `none` is the end of the process.
  unfoldable pub command : Str → Client → Option Client
  command line s = of_words (split_words [] (trim_space line)) s
