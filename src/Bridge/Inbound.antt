-- ===== src/Bridge/Inbound.antt =====
-- git_bridge.py, the inbound half of GitBridge: the envelopes that a drain returns, materialized in
-- the inboxes of their recipients. No other process writes the relay during a pass, and a record's
-- `from` and `id` are texts.
pub mod Dedup
pub mod Files
pub mod Sound
pub mod Replay
use Prim.Native.String.{String}
use mcp_dispatch.Base.{
  ℕ, suc, ◌==◌, Bool, true, false, not, ◌&&◌, Option, none, some, List, [], ◌∷◌, elem,
  if◌then◌else◌,
}
use mcp_dispatch.Base.Dict.{Dict, get, put}
use mcp_dispatch.Ident.{is_id}
use mcp_dispatch.Message.{Message, File, unreadable, message, envelope_to_msg}
use mcp_dispatch.Relay.{Relay, Inbox, channel_subscribers}
use mcp_dispatch.Relay.Send.{others, message_filename, write_message}
use mcp_dispatch.Transport.{object, other_json, Body, Envelope}

unfoldable pub ids_in : List (String × File) → List String
ids_in [] = []
ids_in ((name, unreadable) ∷ files) = ids_in files
ids_in ((name, message msg) ∷ files) =
    let rest = ids_in files in if msg.id == "" then rest else msg.id ∷ rest

abbrev pub ids_of : Option Inbox → List String
ids_of none = []
ids_of (some inbox) = ids_in inbox.files

-- GitBridge._inbox_ids
unfoldable pub inbox_ids : Relay → String → List String
unfolding ids_in
inbox_ids relay rcpt = ids_of (get relay.inboxes rcpt)

-- `if env.to and env.to != env.from_`
abbrev pub to_other : Option String → String → List String
to_other none from = []
to_other (some to) from = if to == "" then [] else if to == from then [] else to ∷ []

-- GitBridge._recipients
unfoldable pub recipients : Relay → Envelope → List String
recipients relay env = elim env.chan [
  | none ↦ to_other env.to env.from
  | some chan ↦
      if chan == ""
      then to_other env.to env.from
      else others env.from (channel_subscribers relay chan)
]

-- GitBridge._materialize, with the digits that the file's name draws
unfoldable pub materialize : String × String → Relay → String → Message → Relay
materialize stamp relay rcpt body =
    let msg = envelope_to_msg body in
    let sender = if is_id msg.from then msg.from else "unknown" in
    write_message relay rcpt (message_filename stamp sender) msg

-- A pass so far: the relay, the ids known to be in each inbox looked at, and how many landed.
pub record Landing : Type 0 where
  pub relay : Relay
  pub present : Dict (List String)
  pub materialized : ℕ

abbrev or_read : Option (List String) → List String → List String
or_read none ids = ids
or_read (some ids) _ = ids

-- known(rcpt), before it is stored
unfoldable pub known : Landing → String → List String
known st rcpt = or_read (get st.present rcpt) (inbox_ids st.relay rcpt)

-- One envelope's body for one recipient.
unfoldable pub land : (ℕ → String × String) → Message → String → Landing → Landing
unfolding known materialize
land stamps body rcpt st =
    let ids = known st rcpt in
    if not (is_id rcpt)
    then st
    else if not (body.id == "") && elem body.id ids
    then record st { present = put st.present rcpt ids }
    else record {
      relay = materialize (stamps st.materialized) st.relay rcpt body;
      present = if body.id == "" then st.present else put st.present rcpt (body.id ∷ ids);
      materialized = suc st.materialized;
    }

unfoldable pub land_for : (ℕ → String × String) → Message → List String → Landing → Landing
unfolding land
land_for stamps body [] st = st
land_for stamps body (rcpt ∷ rcpts) st = land_for stamps body rcpts (land stamps body rcpt st)

abbrev land_env : (ℕ → String × String) → Envelope → Body → Landing → Landing
land_env stamps env other_json st = st
land_env stamps env (object body) st = land_for stamps body (recipients st.relay env) st

unfoldable pub land_all : (ℕ → String × String) → List Envelope → Landing → Landing
unfolding land_for
land_all stamps [] st = st
land_all stamps (env ∷ envs) st = land_all stamps envs (land_env stamps env env.body st)

-- GitBridge._inbound on what its drain returned
unfoldable pub inbound : (ℕ → String × String) → Relay → List Envelope → Landing
unfolding land_all
inbound stamps relay envs =
    land_all stamps envs (record { relay = relay; present = []; materialized = 0 })
