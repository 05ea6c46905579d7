-- ===== src/Bridge/Scan.antt =====
-- git_bridge.py, GitBridge._local_messages: what the scan of the inboxes does not miss.
use mcp_dispatch.Base.{
  String, true, false, some, List, [], ◌∷◌, In, In-append, if◌then◌else◌, inl, inr, ◌≡◌, subst, ap,
}
use mcp_dispatch.Base.Dict.{get, In-of_get}
use mcp_dispatch.Base.Sort.{sort_by, In-sort_by}
use mcp_dispatch.Message.{Message, File, unreadable, message}
use mcp_dispatch.Relay.{Relay, Inbox}
use mcp_dispatch.Bridge.{is_local, local_files, local_inboxes, local_messages}

-- A local message with an id, in a file of an inbox, is scanned.
In-local_files :
    (name : String) (msg : Message) (files : List (String × File))
    → is_local msg ≡ true
    → In (name, message msg) files
    → In msg (local_files files)
unfolding local_files
In-local_files name msg [] l i = i
In-local_files name msg ((other, unreadable) ∷ files) l (inl e) =
    let same : message msg ≡ unreadable = ap (λ (f : String × File). f.1) e in absurd (cc)
In-local_files name msg ((other, unreadable) ∷ files) l (inr i) = In-local_files name msg files l i
In-local_files name msg ((other, message msg') ∷ files) l (inl e) =
    let same : message msg ≡ message msg' = ap (λ (f : String × File). f.1) e in
    let same_msg : msg ≡ msg' = cc in
    let l' : is_local msg' ≡ true = subst (λ (m : Message). is_local m ≡ true) same_msg l in
    rw l' (inl same_msg)
In-local_files name msg ((other, message msg') ∷ files) l (inr i) =
    let rest = In-local_files name msg files l i in
    elim (is_local msg')
      as (λ b. In msg (if b then msg' ∷ local_files files else local_files files)) [
        | true ↦ inr rest
        | false ↦ rest
      ]

In-local_inboxes :
    (owner name : String) (inbox : Inbox) (msg : Message) (inboxes : List (String × Inbox))
    → is_local msg ≡ true
    → In (name, message msg) inbox.files
    → In (owner, inbox) inboxes
    → In msg (local_inboxes inboxes)
unfolding local_inboxes
In-local_inboxes owner name inbox msg [] l f i = absurd i
In-local_inboxes owner name inbox msg ((other, inbox') ∷ inboxes) l f (inl e) =
    let key = λ (g : String × File). g.0 in
    let sorted = In-sort_by key (name, message msg) inbox.files f in
    let here = In-local_files name msg (sort_by key inbox.files) l sorted in
    In-append msg _ (local_inboxes inboxes)
      (inl (subst (λ (d : String × Inbox). In msg (local_files (sort_by key d.1.files))) e here))
In-local_inboxes owner name inbox msg ((other, inbox') ∷ inboxes) l f (inr i) =
    In-append msg (local_files (sort_by (λ (g : String × File). g.0) inbox'.files))
      (local_inboxes inboxes) (inr (In-local_inboxes owner name inbox msg inboxes l f i))

pub In-local_messages :
    (relay : Relay) (owner name : String) (inbox : Inbox) (msg : Message)
    → get relay.inboxes owner ≡ some inbox
    → get inbox.files name ≡ some (message msg)
    → is_local msg ≡ true
    → In msg (local_messages relay)
unfolding local_messages
In-local_messages relay owner name inbox msg o f l =
    In-local_inboxes owner name inbox msg (sort_by (λ (d : String × Inbox). d.0) relay.inboxes) l
      (In-of_get inbox.files name (message msg) f)
      (In-sort_by (λ (d : String × Inbox). d.0) (owner, inbox) relay.inboxes
        (In-of_get relay.inboxes owner inbox o))
