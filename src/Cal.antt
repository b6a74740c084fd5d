-- ===== src/Cal.antt =====
-- cal.c, `cal`: which channels of which clients of the channel access server are listed. The queue of
-- clients with their channels is an argument; `glob_match` is epicsStrGlobMatch of EPICS base.
pub mod Room
mod Tests
use iocsh_utilities.Base.{
  ℕ, ◌+◌, ◌-◌, ◌==◌, ltb, leb, if◌then◌else◌, Bool, true, false, ◌&&◌, ◌||◌, Option, none, some,
  List, [], ◌∷◌, ◌++◌, Text, codes, length, take, has_byte,
}
use iocsh_utilities.Threads.Affinity.{decimal}

pub data Protocol : Type 0 where
  udp tcp other_protocol : Protocol

-- `tid` is what `%p` prints; `address` is what ipAddrToA makes of the address where there is no name.
pub record Client : Type 0 where
  pub tid : Text
  pub pid : ℕ
  pub minor_version : ℕ
  pub proto : Protocol
  pub user : Option Text
  pub host : Option Text
  pub port : ℕ
  pub address : Text

pub data ChannelState : Type 0 where
  invalid pend_connect_resp in_service pend_connect_resp_update_pend_ar : ChannelState
  in_service_update_pend_ar is_shutdown unknown_state : ChannelState

pub record Channel : Type 0 where
  pub record_name : Option Text
  pub field_name : Text
  pub state : ChannelState
  pub can_put : Bool
  pub can_get : Bool
  -- Whether the queue of its events is not empty, and whether a put is going on.
  pub is_monitored : Bool
  pub is_putting : Bool

abbrev pub proto_name : Protocol → Text
proto_name udp = codes "UDP"
proto_name tcp = codes "TCP"
proto_name other_protocol = codes "UKN"

-- `strcspn(s, ".")` bytes of a text.
unfoldable pub before_dot : Text → Text
before_dot [] = []
before_dot (c ∷ s) = if c == b'.' then [] else c ∷ before_dot s

module _ (major_version : ℕ) where
  -- What is printed into `clientref` in front of the host, by the level.
  unfoldable pub front_text : ℕ → Client → Text
  front_text level c =
      (if leb 4 level
        then codes "TID " ++ (c.tid ++ (codes " (PID " ++ (decimal c.pid ++ codes ") ")))
        else [])
      ++ ((if leb 2 level
            then b'V'
              ∷ (decimal major_version
                  ++ (b'.'
                      ∷ (decimal c.minor_version ++ (b' ' ∷ (proto_name c.proto ++ (b':' ∷ []))))))
            else [])
          ++ (take 36 (elim c.user [ none ↦ codes "?" | some u ↦ u ]) ++ (b'@' ∷ [])))

  abbrev pub port_text : Client → Text
  port_text c = b':' ∷ decimal c.port

  -- An address that begins with a name gets the port behind its first part.
  unfoldable pub with_port : Client → Text → Text
  unfolding before_dot
  with_port c [] = []
  with_port c (a ∷ s) = if ltb b'9' a then before_dot (a ∷ s) ++ port_text c else a ∷ s

  unfoldable pub host_text : ℕ → Client → Text
  unfolding with_port
  host_text room c = elim c.host [
    | some h ↦ before_dot h ++ port_text c
    | none ↦ with_port c (take room c.address)
  ]

  -- `clientref` in its 100 bytes. `none`: a write behind its end.
  unfoldable pub client_ref : ℕ → Client → Option Text
  unfolding front_text host_text
  client_ref level c =
      let front = front_text level c in
      let s = front ++ host_text (99 - length front) c in
      if leb 100 (length front) || leb 100 (length s) then none else some s

  abbrev pub state_text : ChannelState → Text
  state_text invalid = codes "[invalid]"
  state_text pend_connect_resp = codes "[connect]"
  state_text in_service = codes "[active]"
  state_text pend_connect_resp_update_pend_ar = codes "[connectAR]"
  state_text in_service_update_pend_ar = codes "[activeAR]"
  state_text is_shutdown = codes "[shutdown]"
  state_text unknown_state = codes "[unknown]"

  abbrev pub rights : Channel → Text
  rights p = if p.can_put then codes "w" else if p.can_get then codes "r" else codes "n"

  -- `PVNAME_STRINGSZ` is 61.
  abbrev pub full_name : Text → Channel → Text
  full_name name p = take 61 name ++ (b'.' ∷ take 10 p.field_name)

  abbrev pub channel_line : ℕ → Text → Text → Channel → Text
  channel_line level ref name p =
      (if ltb level 3 then [] else state_text p.state)
      ++ (ref
          ++ (b' '
              ∷ ((if ltb level 1
                    then []
                    else rights p
                      ++ ((if p.is_monitored then codes "m" else [])
                          ++ (if p.is_putting then codes "p" else [])))
                  ++ (codes "==> " ++ full_name name p))))

  module _ (glob_match : Text → Text → Bool) where
    abbrev pub given_matches : Option Text → Text → Bool
    given_matches none match = false
    given_matches (some s) match = glob_match s match

    -- An empty pattern is none, and one with a dot is compared with the name and the field.
    unfoldable pub is_listed : Option Text → Client → Text → Text → Channel → Bool
    is_listed none c ref name p = true
    is_listed (some []) c ref name p = true
    is_listed (some (m ∷ match)) c ref name p =
        glob_match (if has_byte b'.' (m ∷ match) then full_name name p else name) (m ∷ match)
        || (given_matches c.user (m ∷ match)
            || (given_matches c.host (m ∷ match) || glob_match ref (m ∷ match)))

    unfoldable pub list_channels : Option Text → ℕ → Client → Text → List Channel → List Text
    unfolding is_listed
    list_channels match level c ref [] = []
    list_channels match level c ref (p ∷ channels) =
        let rest = list_channels match level c ref channels in
        elim p.record_name [
          | none ↦ rest
          | some name ↦
              if is_listed match c ref name p then channel_line level ref name p ∷ rest else rest
        ]

    -- `cal`, the lines that it prints. `none`: a write behind the end of `clientref`.
    unfoldable pub cal : Option Text → ℕ → List (Client × List Channel) → Option (List Text)
    unfolding list_channels client_ref
    cal match level [] = some []
    cal match level ((c, channels) ∷ clients) =
        let rest = cal match level clients in
        elim (client_ref level c) [
          | none ↦ none
          | some ref ↦ elim rest [
            | none ↦ none
            | some lines ↦ some (list_channels match level c ref channels ++ lines)
          ]
        ]
