-- ===== src/Tests/Api.antt =====
-- The routes and webhooks, applied.
use agentops_control_plane.Base.{true, false, ◌≡◌, ◌⊎◌, none, some, [], ◌∷◌, str_eq}
use agentops_control_plane.Store.Exec.{err, Error}
use agentops_control_plane.Service.{Service}
use agentops_control_plane.Webhooks.{Net, Transport, send_webhook, outcome}
use agentops_control_plane.Webhooks.Targets.{IsOpen, post_of, send_webhook-IsOpen}
use agentops_control_plane.Api.{Outside, post_project}
use agentops_control_plane.Api.Contract.{IsGuarded}
use agentops_control_plane.Api.Guards.{routes-IsGuarded}
use agentops_control_plane.Tests.{env, execute}
use agentops_control_plane.Tests.Datasets.{judge, naming}
use agentops_control_plane.Tests.Service.{service, alice, fernet}

-- Every host resolves to one address, which is a public one but for that of "internal".
abbrev net : Net
net = record {
  urlparse = λ url. record { scheme = "https"; hostname = some url };
  lower = λ s. s;
  ip_address = λ text. some (record {
    is_private = str_eq text "internal";
    is_loopback = false;
    is_link_local = false;
    is_reserved = false;
    is_multicast = false;
    is_unspecified = false;
  });
  getaddrinfo = λ host. some (host ∷ []);
}

abbrev transport : Transport
transport = record {
  secret = some "key";
  timestamp = "0";
  hmac = λ key timestamp body. body;
  header = λ timestamp digest. digest;
  fails = λ post. none;
}

send_webhook-IsOpen_example :
    (IsOpen net "internal"
      × (send_webhook net transport "internal" "{}" (some 1)
          ≡ (post_of net transport "internal" "{}" (some 1) ∷ [], outcome net transport none)))
    ⊎ ((IsOpen net "internal" → ⊥)
        × (e : Error) × (send_webhook net transport "internal" "{}" (some 1) ≡ ([], err e)))
send_webhook-IsOpen_example = send_webhook-IsOpen net transport "internal" "{}" (some 1)

abbrev outside : Outside
outside = record {
  env = env;
  execute = execute;
  judge = judge;
  interrupts = λ look. false;
  naming = naming;
  net = net;
  vault = some fernet;
  nonce = 7;
  templates = [];
}

routes-IsGuarded_example : IsGuarded outside (λ key. true) alice service
routes-IsGuarded_example = routes-IsGuarded outside (λ key. true) alice service

-- A project that a member makes.
abbrev made : Service
made = (post_project outside alice "third" service).1
