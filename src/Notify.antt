-- ===== src/Notify.antt =====
-- app/services/notifications.py: signed webhooks to endpoints of the tenants. The random secret, the
-- HMAC, the JSON text of an event and what an endpoint answers are arguments; an answer is missing
-- where the request raised.
use tetra_host.Prelude.{
  ℕ, String, Bool, true, false, not, ◌&&◌, ◌==◌, Option, none, some, List, [], ◌∷◌, leb,
  if◌then◌else◌, first, select, insert, update, delete, newest_first, length,
}
use tetra_host.Prelude.Text.{strip, split, join, contains, decimal}
use tetra_host.Prelude.Dict.{Dict}
use Prim.Native.Char.{Char, char}
use Prim.Native.String.{◌++◌}
use tetra_host.Models.{Db, NotificationChannel}

abbrev pub deploy_succeeded : String
deploy_succeeded = "deploy.succeeded"

abbrev pub deploy_failed : String
deploy_failed = "deploy.failed"

abbrev comma : Char
comma = char 44 tt

-- [p.strip() for p in parts if p.strip()]
unfoldable pub stripped : List String → List String
stripped [] = []
stripped (p ∷ ps) = let rest = stripped ps in if strip p == "" then rest else strip p ∷ rest

or_star : String → String
or_star value = if value == "" then "*" else value

events_or_star : Option String → String
unfolding or_star
events_or_star none = "*"
events_or_star (some events) = or_star events

unfoldable pub normalize_events : Option String → String
unfolding events_or_star or_star
normalize_events events =
    let value = strip (events_or_star events) in
    if value == ""
    then "*"
    else if value == "*"
    then "*"
    else or_star (join comma (stripped (split comma value)))

unfoldable pub create_channel :
    String → String → String → String → String → Option String → Db → NotificationChannel × Db
create_channel id secret tenant_id name url events db =
    let channel : NotificationChannel = record {
      id = id;
      tenant_id = tenant_id;
      name = strip name;
      url = strip url;
      secret = "whsec_" ++ secret;
      events = normalize_events events;
      enabled = true;
      last_delivered_at = none;
      last_status = "";
    } in
    (channel, record db { channels = insert channel db.channels })

unfoldable pub list_channels : String → Db → List NotificationChannel
list_channels tenant_id db = newest_first (select (λ c. c.tenant_id == tenant_id) db.channels)

own_channel : String → Option NotificationChannel → Option NotificationChannel
own_channel tenant_id none = none
own_channel tenant_id (some c) = if c.tenant_id == tenant_id then some c else none

unfoldable pub get_channel : String → String → Db → Option NotificationChannel
unfolding own_channel
get_channel tenant_id channel_id db =
    own_channel tenant_id (first (λ c. c.id == channel_id) db.channels)

delete_found : Option NotificationChannel → Db → Bool × Db
delete_found none db = (false, db)
delete_found (some c) db = (true, record db { channels = delete (λ x. x.id == c.id) db.channels })

unfoldable pub delete_channel : String → String → Db → Bool × Db
unfolding delete_found
delete_channel tenant_id channel_id db = delete_found (get_channel tenant_id channel_id db) db

unfoldable pub is_subscribed : NotificationChannel → String → Bool
is_subscribed channel event_type =
    if not channel.enabled
    then false
    else if strip channel.events == "*"
    then true
    else contains (stripped (split comma channel.events)) event_type

pub record Post : Type 0 where
  pub url : String
  pub content : String
  pub headers : Dict String

-- the world as the service meets it
pub record Wire : Type 0 where
  -- hmac.new(secret, body, sha256).hexdigest()
  pub hmac : String → String → String
  -- json.dumps of the event and its payload
  pub dumps : String → Dict String → String
  pub post : Post → Option ℕ
  pub now : ℕ

module _ (wire : Wire) where
  unfoldable pub sign : String → String → String
  sign secret body = "sha256=" ++ wire.hmac secret body

  unfoldable pub request_of : NotificationChannel → String → Dict String → Post
  request_of channel event_type payload =
      let body = wire.dumps event_type payload in
      record {
        url = channel.url;
        content = body;
        headers =
            ("Content-Type", "application/json")
            ∷ ("X-Tetra-Event", event_type)
            ∷ ("X-Tetra-Signature", sign channel.secret body)
            ∷ ("User-Agent", "Tetra-Host-Notifications/1")
            ∷ [];
      }

  outcome : Option ℕ → Bool × String
  outcome none = (false, "unreachable")
  outcome (some code) =
      if leb 200 code && not (leb 300 code) then (true, "ok") else (false, "http " ++ decimal code)

  unfoldable pub deliver : NotificationChannel → String → Dict String → Db → (Bool × String) × Db
  unfolding outcome
  deliver channel event_type payload db =
      let (accepted, label) = outcome (wire.post (request_of channel event_type payload)) in
      (
        (accepted, label),
        record db {
          channels =
              update (λ c. c.id == channel.id)
                (λ c. record c { last_delivered_at = some wire.now; last_status = label })
                db.channels;
        },
      )

  unfoldable pub deliver_all : List NotificationChannel → String → Dict String → Db → Db
  deliver_all [] event_type payload db = db
  deliver_all (c ∷ cs) event_type payload db =
      deliver_all cs event_type payload (deliver c event_type payload db).1

  unfoldable pub dispatch : String → String → Dict String → Db → ℕ × Db
  dispatch tenant_id event_type payload db =
      let channels = select (λ c. is_subscribed c event_type) (list_channels tenant_id db) in
      (length channels, deliver_all channels event_type payload db)
