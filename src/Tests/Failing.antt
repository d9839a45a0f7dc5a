-- ===== src/Tests/Failing.antt =====
-- groove/proxy/transport.go: a session whose preferred dialer cannot connect.
use grooveproxy.Base.{ℕ, suc, [], none, String, ok, err, ite, string_dec}
use grooveproxy.Http.{Request, response}
use grooveproxy.Tests.Routing.{counted}
use grooveproxy.Tests.Stored.{ask}
use grooveproxy.Transport.{Network, strip_resource_type}

-- The spare dialer, which comes first, fails.
abbrev failing : Network ℕ String
failing = record counted {
  dial = λ w d n a. ite (string_dec d.identifier "spare") (w, err "refused") (w, ok "");
  exchange =
      λ w h q. (suc w, ok (response (record { status_code = 200; header = []; body = none }) q));
}

abbrev asked : Request
asked = strip_resource_type ask
