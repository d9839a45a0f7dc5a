-- ===== src/Transport/Failover.antt =====
-- groove/proxy/transport.go: `RoundTrip` goes on from dialers that fail to one that works.
use grooveproxy.Base.{◌≡◌, some}
use grooveproxy.Dialers.{DialerDefinition}
use grooveproxy.Http.{Request, Response}
use grooveproxy.Transport.{Network, CustomRoundTripper, try_dialer}

module _ {W Conn : Type 0} (net : Network W Conn) where
  -- A dialer that gets a valid response whatever was tried before.
  abbrev pub Works : Request → DialerDefinition → Type 0
  Works q d =
      (w : W) (rt : CustomRoundTripper) → (r : Response) × ((try_dialer net w rt q d).2 ≡ some r)
