-- ===== src/Webhooks.antt =====
-- Webhooks of src/agentops/service.py: `create_webhook`, `get_webhook`, the checks of their targets
-- (`_reject_obviously_private`, `_assert_public_webhook_url`), `_sign_payload` and `_send_webhook`.
-- The URL parser, `ipaddress`, the resolver, HMAC and the network are parameters.
pub mod Targets
use agentops_control_plane.Base.{
  ℕ, String, Bool, true, false, ◌&&◌, ◌||◌, not, Option, none, some, List, [], ◌∷◌, str_eq, one_of,
  if◌then◌else◌,
}
use agentops_control_plane.Base.Table.{Table, insert}
use agentops_control_plane.Store.Rows.{Event, Webhook}
use agentops_control_plane.Store.Exec.{
  Db, Error, Exec, Result, ok, err, pure, raise, gets, or_raise, modify, lift, raise_if, ◌>>=◌,
  ◌>>◌,
}
use agentops_control_plane.Runs.Agent.{get_project}

-- What `urllib.parse.urlparse` finds; an empty host is none.
pub record Target : Type 0 where
  pub scheme : String
  pub hostname : Option String

-- The properties of an `ipaddress` address.
pub record Address : Type 0 where
  pub is_private : Bool
  pub is_loopback : Bool
  pub is_link_local : Bool
  pub is_reserved : Bool
  pub is_multicast : Bool
  pub is_unspecified : Bool

-- `ip_address` is none where it raises a ValueError, `getaddrinfo` where it raises a gaierror;
-- otherwise it has the texts `info[4][0]`. `lower` is the method of `str`.
pub record Net : Type 0 where
  pub urlparse : String → Target
  pub lower : String → String
  pub ip_address : String → Option Address
  pub getaddrinfo : String → Option (List String)

abbrev pub is_internal : Address → Bool
is_internal a =
    a.is_private || a.is_loopback || a.is_link_local || a.is_reserved || a.is_multicast
    || a.is_unspecified

abbrev pub host_of : Option String → String
host_of none = ""
host_of (some hostname) = hostname

abbrev pub is_given : Option String → Bool
is_given none = false
is_given (some hostname) = not (str_eq hostname "")

abbrev pub is_http : String → Bool
is_http scheme = one_of scheme ("http" ∷ "https" ∷ [])

abbrev pub reject_address : Option Address → Result (Unit {0})
reject_address none = ok tt
reject_address (some a) =
    if is_internal a
    then err (Error.value_error "webhook URL must not target a private address")
    else ok tt

module _ (net : Net) where
  unfoldable pub reject_obviously_private : String → Result (Unit {0})
  reject_obviously_private url =
      let hostname = net.lower (host_of (net.urlparse url).hostname) in
      if one_of hostname ("localhost" ∷ "127.0.0.1" ∷ "::1" ∷ [])
      then err (Error.value_error "webhook URL must not target localhost")
      else reject_address (net.ip_address hostname)

  -- The loop over the answers of the resolver.
  unfoldable pub check_addresses : List String → Result (Unit {0})
  check_addresses [] = ok tt
  check_addresses (text ∷ texts) =
      let rest = check_addresses texts in
      elim (net.ip_address text) [
        | none ↦ err (Error.value_error "not an address")
        | some a ↦
            if is_internal a
            then err (Error.value_error "webhook URL must not resolve to a private address")
            else rest
      ]

  abbrev pub check_answer : Option (List String) → Result (Unit {0})
  check_answer none = err (Error.value_error "webhook host does not resolve")
  check_answer (some texts) = check_addresses texts

  unfoldable pub assert_public_webhook_url : String → Result (Unit {0})
  unfolding check_addresses
  assert_public_webhook_url url =
      let target = net.urlparse url in
      if not (is_http target.scheme && is_given target.hostname)
      then err (Error.value_error "webhook URL must use http or https")
      else check_answer (net.getaddrinfo (host_of target.hostname))

  unfoldable pub get_webhook : ℕ → Exec Webhook
  get_webhook id = do
    row ← gets (λ s. s.webhooks.row id)
    or_raise row (Error.not_found "webhook not found")

  unfoldable pub create_webhook : ℕ → String → List Event → Exec (ℕ × Webhook)
  unfolding get_project reject_obviously_private get_webhook
  create_webhook project_id url events = do
    project ← get_project project_id
    raise_if (not (is_http (net.urlparse url).scheme && is_given (net.urlparse url).hostname))
        (Error.conflict "webhook URL must use HTTP or HTTPS")
    lift (reject_obviously_private url)
    id ← gets (λ s. s.webhooks.next)
    modify λ s. record s {
      webhooks =
          insert (record { project_id = project_id; url = url; events = events; enabled = true })
            s.webhooks;
    }
    webhook ← get_webhook id
    pure (id, webhook)

-- A call over the network.
pub record Post : Type 0 where
  pub url : String
  pub body : String
  pub signature : Option String
  pub delivery : Option ℕ

-- `hmac` is the hex digest of HMAC-SHA256 over the timestamp, a dot and the body.
unfoldable pub sign_payload :
    (String → String → String → String)
    → (String → String → String)
    → String
    → String
    → String
    → String
sign_payload hmac header secret timestamp body = header timestamp (hmac secret timestamp body)

-- What a call takes from outside: the environment's secret, the clock, HMAC, the format of the
-- signature header f"t={timestamp},v1={digest}", and whether the call of a server fails.
pub record Transport : Type 0 where
  pub secret : Option String
  pub timestamp : String
  pub hmac : String → String → String → String
  pub header : String → String → String
  pub fails : Post → Option String

module _ (net : Net) (transport : Transport) where
  abbrev pub signature_of : Option String → String → Option String
  signature_of none body = none
  signature_of (some secret) body =
      if str_eq secret ""
      then none
      else some (sign_payload transport.hmac transport.header secret transport.timestamp body)

  abbrev pub outcome : Option String → Result (Unit {0})
  outcome none = ok tt
  outcome (some error) = err (Error.runtime "webhook delivery failed")

  abbrev pub after_check : Result (Unit {0}) → Post → List Post × Result (Unit {0})
  after_check (err e) post = ([], err e)
  after_check (ok _) post = (post ∷ [], outcome (transport.fails post))

  -- The calls that are made, and what the method returns or raises.
  unfoldable pub send_webhook : String → String → Option ℕ → List Post × Result (Unit {0})
  unfolding assert_public_webhook_url sign_payload
  send_webhook url body delivery = after_check (assert_public_webhook_url net url) (record {
    url = url;
    body = body;
    signature = signature_of transport.secret body;
    delivery = delivery;
  })
