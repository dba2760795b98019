-- ===== src/Webhooks/Targets.antt =====
-- Which targets a webhook can have, and which it is sent to.
use agentops_control_plane.Base.{
  ℕ, String, true, false, ◌&&◌, not, ◌≡◌, ◌⊎◌, refl, Option, some, List, [], ◌∷◌, str_eq, arith,
  Bool-cases, Option-cases, inl, inr, ==_refl,
}
use agentops_control_plane.Base.Sorting.{All}
use agentops_control_plane.Store.Rows.{Event, Webhook}
use agentops_control_plane.Store.Exec.{Db, Error, Result, ok, err, Result-cases}
use agentops_control_plane.Webhooks.{
  Net, Address, Post, Transport, is_internal, is_given, is_http, reject_obviously_private,
  check_addresses, assert_public_webhook_url, create_webhook, send_webhook, signature_of,
  after_check, outcome,
}

module _ (net : Net) where
  -- A text that is an address of the public network.
  abbrev pub IsPublic : String → Type 0
  IsPublic text = (a : Address) × (net.ip_address text ≡ some a) × (is_internal a ≡ false)

  check_addresses-IsPublic :
      (texts : List String) → check_addresses net texts ≡ ok tt → All IsPublic texts
  unfolding check_addresses
  check_addresses-IsPublic [] h = tt
  check_addresses-IsPublic (text ∷ texts) h = elim (Option-cases (net.ip_address text)) [
    | inl absent ↦ ground arith
    | inr (a, there) ↦ elim (Bool-cases (is_internal a)) [
      | inl internal ↦ ground arith
      | inr outside ↦ ((a, there, outside), check_addresses-IsPublic texts (ground arith))
    ]
  ]

  IsPublic-check_addresses :
      (texts : List String) → All IsPublic texts → check_addresses net texts ≡ ok tt
  unfolding check_addresses
  IsPublic-check_addresses [] h = refl
  IsPublic-check_addresses (text ∷ texts) ((a, there, outside), h) =
      rw (there, check_addresses, outside) (IsPublic-check_addresses texts h)

  -- What a call over the network needs.
  pub record IsOpen (url : String) : Type 0 where
    pub scheme : is_http (net.urlparse url).scheme ≡ true
    pub host : String
    pub hostname : (net.urlparse url).hostname ≡ some host
    pub named : str_eq host "" ≡ false
    pub answers : List String
    pub resolved : net.getaddrinfo host ≡ some answers
    pub all_public : All IsPublic answers

  assert-IsOpen : (url : String) → assert_public_webhook_url net url ≡ ok tt → IsOpen url
  unfolding assert_public_webhook_url
  assert-IsOpen url h = elim (Option-cases (net.urlparse url).hostname) [
    | inl absent ↦ ground arith
    | inr (host, hostname) ↦ elim (Option-cases (net.getaddrinfo host)) [
      | inl absent ↦ ground arith
      | inr (answers, resolved) ↦ record {
        scheme = ground arith;
        host = host;
        hostname = hostname;
        named = ground arith;
        answers = answers;
        resolved = resolved;
        all_public = check_addresses-IsPublic answers (ground arith);
      }
    ]
  ]

  IsOpen-assert : (url : String) → IsOpen url → assert_public_webhook_url net url ≡ ok tt
  unfolding assert_public_webhook_url
  IsOpen-assert url h =
      rw
        (h.scheme, h.hostname, h.named, h.resolved, IsPublic-check_addresses h.answers h.all_public)
        refl

module _ (net : Net) (transport : Transport) (url body : String) (delivery : Option ℕ) where
  abbrev pub post_of : Post
  post_of = record {
    url = url;
    body = body;
    signature = signature_of net transport transport.secret body;
    delivery = delivery;
  }

  send_webhook-checked :
      (r : Result (Unit {0}))
      → assert_public_webhook_url net url ≡ r
      → send_webhook net transport url body delivery ≡ after_check net transport r post_of
  unfolding send_webhook
  send_webhook-checked r e = rw e refl

  -- The sending of a webhook: it makes one call, signed where there is a key, if the URL is one of
  -- HTTP or HTTPS with a host that resolves, and all its addresses are of the public network, and
  -- fails exactly if this call does; in every other case it raises and makes no call.
  pub send_webhook-IsOpen :
      (IsOpen net url
        × (send_webhook net transport url body delivery
            ≡ (post_of ∷ [], outcome net transport (transport.fails post_of))))
      ⊎ ((IsOpen net url → ⊥)
          × (e : Error) × (send_webhook net transport url body delivery ≡ ([], err e)))
  send_webhook-IsOpen = elim (Result-cases (assert_public_webhook_url net url)) [
    | inl (u, passed) ↦ inl (assert-IsOpen net url passed, send_webhook-checked (ok tt) passed)
    | inr (e, refused) ↦ inr (
      λ open_it. ground (arith, IsOpen-assert net url open_it),
      e,
      send_webhook-checked (err e) refused,
    )
  ]

-- A webhook that is created is stored, enabled, for the URL and the events that were sent; its URL
-- is one of HTTP or HTTPS with a host that is neither the local one by name nor an internal address.
pub create_webhook-guard :
    (net : Net) (project_id : ℕ) (url : String) (events : List Event) (s s' : Db) (id : ℕ)
    (w : Webhook)
    → create_webhook net project_id url events s ≡ (ok (id, w), s')
    → (s'.webhooks.row id ≡ some w)
      × (w.url ≡ url)
      × (w.events ≡ events)
      × (w.enabled ≡ true)
      × (is_http (net.urlparse url).scheme ≡ true)
      × (is_given (net.urlparse url).hostname ≡ true)
      × (reject_obviously_private net url ≡ ok tt)
unfolding create_webhook
create_webhook-guard net project_id url events s s' id w h =
    elim (Option-cases (s.projects.row project_id)) [
      | inl absent ↦ grind arith
      | inr (project, there) ↦ elim (Result-cases (reject_obviously_private net url)) [
        | inr (e, refused) ↦ ground arith
        | inl (u, passed) ↦
            elim (Bool-cases
              (not (is_http (net.urlparse url).scheme && is_given (net.urlparse url).hostname))) [
                | inl bad ↦ ground arith
                | inr good ↦ ground (arith, ==_refl s.webhooks.next)
              ]
      ]
    ]
